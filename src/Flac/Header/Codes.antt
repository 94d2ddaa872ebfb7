-- ===== src/Flac/Header/Codes.antt =====
-- The codes of block size and sample rate: their meaning after the FLAC format, and that the
-- encoder's choice, with the optional bytes, means the value it was given.
use baxters_stereo_mix_lin.Base.{
  ℕ, ◌+◌, ◌-◌, ◌*◌, ◌/◌, ◌%◌, ◌^◌, ◌≤◌, ◌<◌, ◌≡◌, ◌≢◌, true, false, arith, leb, ◌==◌, if◌then◌else◌,
  inl, inr, ◌⊎◌,
}
use baxters_stereo_mix_lin.Flac.BitWriter.{BitWriter}
use baxters_stereo_mix_lin.Flac.BitWriter.Stream.{IsValid}
use baxters_stereo_mix_lin.Flac.Reader.{Reader, pure, ◌>>=◌, read}
use baxters_stereo_mix_lin.Flac.Reader.Emits.{Emits, emit_pure, emit_bind, emit-IsValid, emit_field}
use baxters_stereo_mix_lin.Flac.Header.{
  block_size_code, sample_rate_code, write_block_size, write_sample_rate,
}

-- 576 * 2 ^ (n - 2) for 2 to 5, 256 * 2 ^ (n - 8) for 8 to 15.
abbrev size_table : ℕ → ℕ
size_table code =
    if code == 1 then 192 else if leb code 5 then 576 * 2 ^ (code - 2) else 256 * 2 ^ (code - 8)

unfoldable pub read_block_size : ℕ → Reader ℕ
read_block_size code =
    if code == 6
    then (do n ← read 8; pure (n + 1))
    else if code == 7
    then (do n ← read 16; pure (n + 1))
    else pure (size_table code)

abbrev rate_table : ℕ → ℕ
rate_table code =
    if code == 1
    then 88200
    else if code == 2
    then 176400
    else if code == 3
    then 192000
    else if code == 4
    then 8000
    else if code == 5
    then 16000
    else if code == 6
    then 22050
    else if code == 7
    then 24000
    else if code == 8
    then 32000
    else if code == 9
    then 44100
    else if code == 10
    then 48000
    else 96000

unfoldable pub read_sample_rate : ℕ → Reader ℕ
read_sample_rate code =
    if code == 12
    then (do n ← read 8; pure (n * 1000))
    else if code == 13
    then read 16
    else if code == 14
    then (do n ← read 16; pure (n * 10))
    else pure (rate_table code)

size_code_cases :
    (bs : ℕ)
    → ((block_size_code bs ≡ 6) × (bs ≤ 256))
      ⊎ (block_size_code bs ≡ 7)
      ⊎ ((block_size_code bs ≢ 6)
          × (block_size_code bs ≢ 7)
          × (size_table (block_size_code bs) ≡ bs))
unfolding block_size_code
size_code_cases bs = ground arith

rate_code_cases :
    (sr : ℕ)
    → ((sample_rate_code sr ≡ 12) × (sr % 1000 ≡ 0) × (sr / 1000 ≤ 255))
      ⊎ ((sample_rate_code sr ≡ 13) × (sr ≤ 65535))
      ⊎ ((sample_rate_code sr ≡ 14) × (65535 < sr))
      ⊎ ((leb (sample_rate_code sr) 11 ≡ true) × (rate_table (sample_rate_code sr) ≡ sr))
unfolding sample_rate_code
rate_code_cases sr = ground arith

-- Every block size from 1 to 65536 is read back from its code and the optional bytes.
pub write_block_size-Emits :
    (w : BitWriter) (bs : ℕ)
    → IsValid w
    → 1 ≤ bs
    → bs ≤ 65536
    → Emits w (write_block_size w bs) (read_block_size (block_size_code bs)) bs
unfolding write_block_size read_block_size
write_block_size-Emits w bs v lo hi = elim (size_code_cases bs) [
  | inl (six, small) ↦
      let byte = emit_field w (bs - 1) 8 v (omega arith) in
      rw six (emit_bind _ byte (rw back (emit_pure _ bs (emit-IsValid byte))))
  | inr (inl seven) ↦
      let word = emit_field w (bs - 1) 16 v (omega arith) in
      rw seven (emit_bind _ word (rw back (emit_pure _ bs (emit-IsValid word))))
  | inr (inr (not_six, not_seven, table)) ↦
      let no_byte : (block_size_code bs == 6) ≡ false = ground arith in
      let no_word : (block_size_code bs == 7) ≡ false = ground arith in
      rw (no_byte, no_word, table) (emit_pure w bs v)
]
  where
    back : bs - 1 + 1 ≡ bs
    back = omega arith

-- The sample rates that the header can name: the table's, those of 16 bits, and those in tens of
-- hertz up to 655350.
abbrev pub IsCodable : ℕ → Type 0
IsCodable sr = (sr ≤ 65535) ⊎ ((sr % 10 ≡ 0) × (sr ≤ 655350))

-- A codable sample rate is read back from its code and the optional bytes.
pub write_sample_rate-Emits :
    (w : BitWriter) (sr : ℕ)
    → IsValid w
    → IsCodable sr
    → Emits w (write_sample_rate w sr) (read_sample_rate (sample_rate_code sr)) sr
unfolding write_sample_rate read_sample_rate
write_sample_rate-Emits w sr v codable = elim (rate_code_cases sr) [
  | inl (twelve, whole, small) ↦
      let byte = emit_field w (sr / 1000) 8 v (omega arith) in
      let back : sr / 1000 * 1000 ≡ sr = omega arith in
      rw twelve (emit_bind _ byte (rw back (emit_pure _ sr (emit-IsValid byte))))
  | inr (inl (thirteen, small)) ↦ rw thirteen (emit_field w sr 16 v (omega arith))
  | inr (inr (inl (fourteen, large))) ↦ elim codable [
    | inl small ↦ absurd (omega arith)
    | inr (tens, limit) ↦
        let word = emit_field w (sr / 10) 16 v (omega arith) in
        let back : sr / 10 * 10 ≡ sr = omega arith in
        rw fourteen (emit_bind _ word (rw back (emit_pure _ sr (emit-IsValid word))))
  ]
  | inr (inr (inr (small, table))) ↦
      let no_byte : (sample_rate_code sr == 12) ≡ false = ground arith in
      let no_word : (sample_rate_code sr == 13) ≡ false = ground arith in
      let no_tens : (sample_rate_code sr == 14) ≡ false = ground arith in
      rw (no_byte, no_word, no_tens, table) (emit_pure w sr v)
]
