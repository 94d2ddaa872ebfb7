-- ===== src/Ipc/Text.antt =====
-- The text functions of the standard library that the control interface uses: `trim`, `trim_end` and
-- the test for an empty text.
use baxters_stereo_mix_lin.Base.{
  ◌≡◌, refl, ap, ◌∙◌, Bool, true, false, ◌&&◌, ◌||◌, leb, ◌==◌, if◌then◌else◌, Bool-cases, inl, inr,
}
use Prim.Native.Char.{Char, code}
use Prim.Native.String.{String}

-- The code points with the property White_Space.
is_whitespace : Char → Bool
is_whitespace c =
    let n = code c in
    (leb 9 n && leb n 13)
    || n == 32
    || n == 133
    || n == 160
    || n == 5760
    || (leb 8192 n && leb n 8202)
    || n == 8232
    || n == 8233
    || n == 8239
    || n == 8287
    || n == 12288

unfoldable pub is_empty : String → Bool
is_empty String.[] = true
is_empty (String.◌∷◌ c s) = false

unfoldable pub trim_start : String → String
unfolding is_whitespace
trim_start String.[] = String.[]
trim_start (String.◌∷◌ c s) =
    let rest = trim_start s in if is_whitespace c then rest else String.◌∷◌ c s

unfoldable pub trim_end : String → String
unfolding is_whitespace
trim_end String.[] = String.[]
trim_end (String.◌∷◌ c s) =
    let rest = trim_end s in
    if is_whitespace c && is_empty rest then String.[] else String.◌∷◌ c rest

unfoldable pub trim : String → String
trim s = trim_start (trim_end s)

-- `line.trim().is_empty()`
unfoldable pub is_blank : String → Bool
is_blank s = is_empty (trim s)

-- A line with its end, as `read_line` gives it.
unfoldable pub with_newline : String → String
with_newline String.[] = "\n"
with_newline (String.◌∷◌ c s) = String.◌∷◌ c (with_newline s)

pub trim_end-with_newline : (s : String) → trim_end (with_newline s) ≡ trim_end s
unfolding trim_end with_newline is_empty
trim_end-with_newline String.[] = refl
trim_end-with_newline (String.◌∷◌ c s) = rw (trim_end-with_newline s) refl

-- A text behind `trim_end` is empty or does not end in white space.
pub trim_end_idem : (s : String) → trim_end (trim_end s) ≡ trim_end s
unfolding trim_end is_empty
trim_end_idem String.[] = refl
trim_end_idem (String.◌∷◌ c s) = elim (Bool-cases (is_whitespace c && is_empty (trim_end s))) [
  | inl dropped ↦ rw dropped refl
  | inr kept ↦ rw (kept, trim_end_idem s, kept) refl
]

pub is_blank-trim_end : (s : String) → is_blank s ≡ is_empty (trim_end s)
unfolding is_blank trim trim_start trim_end is_empty
is_blank-trim_end String.[] = refl
is_blank-trim_end (String.◌∷◌ c s) = elim (Bool-cases (is_whitespace c)) [
  | inl white ↦ elim (Bool-cases (is_empty (trim_end s))) [
    | inl nothing ↦ rw (white, nothing) refl
    | inr something ↦ rw (white, something, white) (is_blank-trim_end s ∙ something)
  ]
  | inr black ↦ rw (black, black) refl
]

pub trim-trim_end : (s : String) → trim (trim_end s) ≡ trim s
unfolding trim
trim-trim_end s = ap trim_start (trim_end_idem s)
