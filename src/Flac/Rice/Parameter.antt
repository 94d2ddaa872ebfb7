-- ===== src/Flac/Rice/Parameter.antt =====
-- The Rice parameter: its range.
use baxters_stereo_mix_lin.Base.{◌≤◌, List, [], ◌∷◌, arith}
use baxters_stereo_mix_lin.Base.Int.{ℤ}
use baxters_stereo_mix_lin.Flac.Rice.{choose_rice_param}

pub choose_rice_param-le : (rs : List ℤ) → choose_rice_param rs ≤ 14
unfolding choose_rice_param
choose_rice_param-le [] = omega arith
choose_rice_param-le (r ∷ rs) = ground arith
