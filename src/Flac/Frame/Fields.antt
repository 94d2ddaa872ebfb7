-- ===== src/Flac/Frame/Fields.antt =====
-- The header's fields, read back one after another.
use baxters_stereo_mix_lin.Base.{
  ℕ, ◌+◌, ◌-◌, ◌/◌, ◌%◌, ◌^◌, ◌≤◌, ◌<◌, ◌≡◌, Bool, true, false, arith, ltb, ◌==◌, if◌then◌else◌,
  lt→ltb,
}
use baxters_stereo_mix_lin.Flac.BitWriter.{BitWriter, write_bits}
use baxters_stereo_mix_lin.Flac.BitWriter.Stream.{IsValid}
use baxters_stereo_mix_lin.Flac.BitWriter.Align.{write_bits-bit_pos}
use baxters_stereo_mix_lin.Flac.Reader.Emits.{
  Emits, emit_pure, emit_bind, emit-IsValid, emit_field, emit_const,
}
use baxters_stereo_mix_lin.Flac.Header.{
  block_size_code, sample_rate_code, sample_size_code, write_utf8_coded, write_block_size,
  write_sample_rate,
}
use baxters_stereo_mix_lin.Flac.Header.Codes.{
  write_block_size-Emits, write_sample_rate-Emits, IsCodable,
}
use baxters_stereo_mix_lin.Flac.Header.Number.{write_utf8_coded-Emits}
use baxters_stereo_mix_lin.Flac.Frame.{write_fixed_header, write_header}
use baxters_stereo_mix_lin.Flac.Frame.Decode.{FrameHeader, sample_size, independent, read_header}

unfoldable pub header_of : ℕ → ℕ → ℕ → ℕ → ℕ → FrameHeader
header_of bs sr ch bps fn = record {
  block_size = bs;
  sample_rate = sr;
  channels = ch;
  bits_per_sample = bps;
  frame_number = fn;
}

size_code-lt : (bs : ℕ) → block_size_code bs < 2 ^ 4
unfolding block_size_code
size_code-lt bs = ground arith

rate_code-lt : (sr : ℕ) → sample_rate_code sr < 2 ^ 4
unfolding sample_rate_code
rate_code-lt sr = ground arith

bits_code-lt : (bps : ℕ) → sample_size_code bps < 2 ^ 3
unfolding sample_size_code
bits_code-lt bps = ground arith

-- The sample size is the one that its code means, in a stream of that size.
sample_size-code : (bps : ℕ) → sample_size bps (sample_size_code bps) ≡ bps
unfolding sample_size sample_size_code
sample_size-code bps = ground arith

-- The header that `write_header` writes is read back.
pub emit_header :
    (bs sr ch bps fn : ℕ)
    → 1 ≤ bs
    → bs ≤ 65536
    → IsCodable sr
    → 1 ≤ ch
    → ch ≤ 8
    → fn < 2 ^ 26
    → (u : BitWriter) → IsValid u
    → Emits u (write_header u bs sr ch bps fn) (read_header bps) (header_of bs sr ch bps fn)
unfolding write_header write_fixed_header read_header header_of independent
emit_header bs sr ch bps fn lo hi codable some_channel channels number u v =
    let sync = emit_const u 0b1111111111111000 16 v (omega arith) in
    let size_code = emit_field _ (block_size_code bs) 4 (emit-IsValid sync) (size_code-lt bs) in
    let rate_code =
      emit_field _ (sample_rate_code sr) 4 (emit-IsValid size_code) (rate_code-lt sr) in
    let channel = emit_field _ (ch - 1) 4 (emit-IsValid rate_code) (omega arith) in
    let bits_code =
      emit_field _ (sample_size_code bps) 3 (emit-IsValid channel) (bits_code-lt bps) in
    let reserved = emit_const _ 0 1 (emit-IsValid bits_code) (omega arith) in
    let coded = write_utf8_coded-Emits _ fn (emit-IsValid reserved) number in
    let size = write_block_size-Emits _ bs (emit-IsValid coded) lo hi in
    let rate = write_sample_rate-Emits _ sr (emit-IsValid size) codable in
    let few : ltb (ch - 1) 8 ≡ true = lt→ltb (ch - 1) 8 (omega arith) in
    let back : ch - 1 + 1 ≡ ch = omega arith in
    emit_bind _ sync (
      emit_bind _ size_code (
        emit_bind _ rate_code (
          emit_bind _ channel (
            emit_bind _ bits_code (
              emit_bind _ reserved (
                emit_bind _ coded (
                  emit_bind _ size (
                    emit_bind _ rate (
                      rw (few, back, sample_size-code bps)
                        (emit_pure _ (header_of bs sr ch bps fn) (emit-IsValid rate)))))))))))

-- The writer stands `p` bits into a byte.
unfoldable At : ℕ → BitWriter → Type 0
At p w = w.bit_pos ≡ p

step : (p n : ℕ) (w : BitWriter) (v : ℕ) → p < 8 → At p w → At ((p + n) % 8) (write_bits w v n)
unfolding At
step p n w v h e = omega (arith, write_bits-bit_pos w v n (omega arith))

byte : (w : BitWriter) (v : ℕ) → At 0 w → At 0 (write_bits w v 8)
byte w v e = step 0 8 w v (omega arith) e

two_bytes : (w : BitWriter) (v : ℕ) → At 0 w → At 0 (write_bits w v 16)
two_bytes w v e = step 0 16 w v (omega arith) e

either : (b : Bool) (x y : BitWriter) → At 0 x → At 0 y → At 0 (if b then x else y)
either true x y p q = p
either false x y p q = q

utf8-At : (w : BitWriter) (val : ℕ) → At 0 w → At 0 (write_utf8_coded w val)
unfolding write_utf8_coded
utf8-At w val e = either _ _ _ (byte w val e) (
    either _ _ _ (byte _ _ (byte w _ e)) (
      either _ _ _ (byte _ _ (byte _ _ (byte w _ e))) (
        either _ _ _ (byte _ _ (byte _ _ (byte _ _ (byte w _ e))))
          (byte _ _ (byte _ _ (byte _ _ (byte _ _ (byte w _ e))))))))

size-At : (w : BitWriter) (bs : ℕ) → At 0 w → At 0 (write_block_size w bs)
unfolding write_block_size
size-At w bs e =
    either (block_size_code bs == 6) _ _ (byte w (bs - 1) e)
      (either (block_size_code bs == 7) _ w (two_bytes w (bs - 1) e) e)

rate-At : (w : BitWriter) (sr : ℕ) → At 0 w → At 0 (write_sample_rate w sr)
unfolding write_sample_rate
rate-At w sr e = either (sample_rate_code sr == 12) _ _ (byte w (sr / 1000) e) (
    either (sample_rate_code sr == 13) _ _ (two_bytes w sr e)
      (either (sample_rate_code sr == 14) _ w (two_bytes w (sr / 10) e) e))

fixed-At : (w : BitWriter) (bs sr ch bps : ℕ) → At 0 w → At 0 (write_fixed_header w bs sr ch bps)
unfolding write_fixed_header
fixed-At w bs sr ch bps e = step 7 1 _ 0 (omega arith) (
    step 4 3 _ (sample_size_code bps) (omega arith) (
      step 0 4 _ (ch - 1) (omega arith) (
        step 4 4 _ (sample_rate_code sr) (omega arith)
          (step 0 4 _ (block_size_code bs) (omega arith) (two_bytes w _ e)))))

-- The header ends on a byte boundary, where its checksum is taken.
pub write_header-bit_pos :
    (w : BitWriter) (bs sr ch bps fn : ℕ)
    → w.bit_pos ≡ 0
    → (write_header w bs sr ch bps fn).bit_pos ≡ 0
unfolding write_header At
write_header-bit_pos w bs sr ch bps fn e =
    rate-At _ sr (size-At _ bs (utf8-At _ fn (fixed-At w bs sr ch bps e)))
