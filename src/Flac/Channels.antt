-- ===== src/Flac/Channels.antt =====
-- The loop of `encode_frame` in crates/bsm-encode/src/flac_enc.rs that splits interleaved samples
-- into one list for each channel.
pub mod Rows
pub mod RoundTrip
use baxters_stereo_mix_lin.Base.{ℕ, zero, suc, ◌+◌, ◌%◌, List, [], ◌∷◌, ◌++◌, replicate}
use baxters_stereo_mix_lin.Base.Int.{ℤ}

-- `ch_data[k].push(s)`. An index out of range would panic; `i % channels` is always in range.
unfoldable pub push_at : ℕ → ℤ → List (List ℤ) → List (List ℤ)
push_at k s [] = []
push_at zero s (c ∷ cs) = (c ++ (s ∷ [])) ∷ cs
push_at (suc k) s (c ∷ cs) = c ∷ push_at k s cs

-- The loop from the sample of index `i` on.
unfoldable pub distribute : ℕ → ℕ → List (List ℤ) → List ℤ → List (List ℤ)
distribute channels i ch_data [] = ch_data
distribute channels i ch_data (s ∷ rest) =
    distribute channels (i + 1) (push_at (i % channels) s ch_data) rest

unfoldable pub deinterleave : ℕ → List ℤ → List (List ℤ)
deinterleave channels interleaved = distribute channels 0 (replicate channels []) interleaved
