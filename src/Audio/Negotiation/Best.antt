-- ===== src/Audio/Negotiation/Best.antt =====
-- What the negotiation chooses.
use baxters_stereo_mix_lin.Base.{
  ℕ, ◌≤◌, ◌≡◌, true, List, [], ◌∷◌, All, arith, ltb, Bool-cases, inl, inr,
}
use baxters_stereo_mix_lin.Core.{PcmFormat}
use baxters_stereo_mix_lin.Audio.Negotiation.{
  DeviceConfig, Choice, score, consider, in_range, negotiated_rate,
}
use mathlib.Core.List.{foldl}

consider-le :
    (format : PcmFormat) (c : Choice) (cfg : DeviceConfig)
    → ((consider format c cfg).best_score ≤ c.best_score)
      × ((consider format c cfg).best_score ≤ score format cfg)
unfolding consider
consider-le format c cfg = elim (Bool-cases (ltb (score format cfg) c.best_score)) [
  | inl better ↦ rw (consider, better) (ground (arith, better), omega arith)
  | inr worse ↦ rw (consider, worse) (omega arith, ground (arith, worse))
]

foldl-le :
    (format : PcmFormat) (configs : List DeviceConfig) (c : Choice)
    → ((foldl (consider format) c configs).best_score ≤ c.best_score)
      × All (λ cfg. (foldl (consider format) c configs).best_score ≤ score format cfg) configs
foldl-le format [] c = (omega arith, tt)
foldl-le format (cfg ∷ rest) c =
    let later = foldl-le format rest (consider format c cfg) in
    let here' = consider-le format c cfg in
    (omega (arith, later.0, here'.0), (omega (arith, later.0, here'.1), later.1))

-- No configuration of the device scores better than the pass over all of them ends with.
pub consider-best :
    (format : PcmFormat) (configs : List DeviceConfig) (c : Choice)
    → All (λ cfg. (foldl (consider format) c configs).best_score ≤ score format cfg) configs
consider-best format configs c = (foldl-le format configs c).1

-- The negotiated rate lies in the range of the configuration, and is the rate asked for where that
-- lies in it.
pub negotiated_rate-within :
    (sr : ℕ) (cfg : DeviceConfig)
    → cfg.min_sr ≤ cfg.max_sr
    → (cfg.min_sr ≤ negotiated_rate sr cfg)
      × (negotiated_rate sr cfg ≤ cfg.max_sr)
      × (in_range sr cfg.min_sr cfg.max_sr ≡ true → negotiated_rate sr cfg ≡ sr)
unfolding negotiated_rate in_range
negotiated_rate-within sr cfg ordered = (ground arith, ground arith, λ h. ground (arith, h))
