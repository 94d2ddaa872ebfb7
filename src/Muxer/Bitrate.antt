-- ===== src/Muxer/Bitrate.antt =====
-- `nearest_bitrate` of crates/bsm-encode/src/muxer.rs: the rate in kbit/s of the variant chosen.
use baxters_stereo_mix_lin.Base.{ℕ, ◌+◌, ◌-◌, ◌≤◌, List, [], ◌∷◌, All, leb, if◌then◌else◌, arith}

unfoldable pub nearest_bitrate : ℕ → ℕ
nearest_bitrate kbps =
    if leb kbps 12
    then 8
    else if leb kbps 20
    then 16
    else if leb kbps 28
    then 24
    else if leb kbps 36
    then 32
    else if leb kbps 44
    then 40
    else if leb kbps 56
    then 48
    else if leb kbps 72
    then 64
    else if leb kbps 88
    then 80
    else if leb kbps 104
    then 96
    else if leb kbps 120
    then 112
    else if leb kbps 144
    then 128
    else if leb kbps 176
    then 160
    else if leb kbps 208
    then 192
    else if leb kbps 240
    then 224
    else if leb kbps 288
    then 256
    else 320

abbrev pub distance : ℕ → ℕ → ℕ
distance a b = (a - b) + (b - a)

-- The rates that LAME knows.
abbrev pub rates : List ℕ
rates = 8 ∷ 16 ∷ 24 ∷ 32 ∷ 40 ∷ 48 ∷ 64 ∷ 80 ∷ 96 ∷ 112 ∷ 128 ∷ 160 ∷ 192 ∷ 224 ∷ 256 ∷ 320 ∷ []

-- No rate is nearer to the one asked for than the one chosen.
pub nearest_bitrate-nearest :
    (kbps : ℕ) → All (λ r. distance kbps (nearest_bitrate kbps) ≤ distance kbps r) rates
unfolding nearest_bitrate
nearest_bitrate-nearest kbps = ground arith
