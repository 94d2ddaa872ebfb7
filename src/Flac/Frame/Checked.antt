-- ===== src/Flac/Frame/Checked.antt =====
-- Reading bytes back, with the header's checksum.
use baxters_stereo_mix_lin.Base.{
  ℕ, ◌-◌, ◌≡◌, refl, sym, ap, ◌∙◌, some, List, [], ◌∷◌, ◌++◌, append_assoc, arith, length,
  length-append, take,
}
use baxters_stereo_mix_lin.Flac.BitWriter.{BitWriter, new, write_bits, bytes}
use baxters_stereo_mix_lin.Flac.BitWriter.Stream.{bytes_bits}
use baxters_stereo_mix_lin.Flac.BitWriter.Write.{written-new, Extends-trans}
use baxters_stereo_mix_lin.Flac.BitWriter.Align.{bytes-written}
use baxters_stereo_mix_lin.Flac.Reader.{Reader, pure, ◌>>◌, expect}
use baxters_stereo_mix_lin.Flac.Reader.Emits.{Emits, emit_pure, emit_bind, emit-IsValid, emit_const}
use baxters_stereo_mix_lin.Flac.Crc.{crc8}
use baxters_stereo_mix_lin.Flac.Crc.Check.{crc8-lt}
use baxters_stereo_mix_lin.Flac.Crc.Remainder.{checksum, header_polynomial}
use baxters_stereo_mix_lin.Flac.Crc.Remainder.Bytes.{crc8-checksum}
use baxters_stereo_mix_lin.Flac.Frame.Decode.{with_crc8}

take-length : (xs ys : List ℕ) → take (length xs) (xs ++ ys) ≡ xs
take-length [] ys = refl
take-length (x ∷ xs) ys = ap (λ t. x ∷ t) (take-length xs ys)

consumed : (xs ys : List ℕ) → take (length (xs ++ ys) - length ys) (xs ++ ys) ≡ xs
consumed xs ys =
    let e : length (xs ++ ys) - length ys ≡ length xs = omega (arith, length-append xs ys) in
    ap (λ t. take t (xs ++ ys)) e ∙ take-length xs ys

with_crc8-reads :
    {A : Type 0} (r : Reader A) (output rest : List ℕ) (a : A)
    → r (output ++ rest) ≡ some (a, rest)
    → with_crc8 r (output ++ rest) ≡ (expect 8 (checksum 8 header_polynomial output) >> pure a) rest
unfolding with_crc8
with_crc8-reads r output rest a e =
    rw (with_crc8, e)
      (ap (λ t. (expect 8 (checksum 8 header_polynomial t) >> pure a) rest) (consumed output rest))

-- The checksum of the bytes so far is the one that the reader computes for itself.
pub emit_crc8 :
    {A : Type 0} {w : BitWriter} {r : Reader A} {a : A}
    → Emits new w r a
    → w.bit_pos ≡ 0
    → Emits new (write_bits w (crc8 (bytes w)) 8) (with_crc8 r) a
unfolding bytes
emit_crc8 {A} {w} {r} {a} p e = record {
  output = p.output ++ check.output;
  extends = Extends-trans p.extends check.extends;
  reads = λ rest.
      ap (with_crc8 r) (append_assoc p.output check.output rest)
      ∙ with_crc8-reads r p.output (check.output ++ rest) a (p.reads (check.output ++ rest))
      ∙ ap (λ t. (expect 8 t >> pure a) (check.output ++ rest)) header_check
      ∙ check.reads rest;
}
  where
    crc : ℕ
    crc = crc8 (bytes w)

    field : Emits w (write_bits w crc 8) (expect 8 crc) tt
    field = emit_const w crc 8 (emit-IsValid p) (crc8-lt (bytes w))

    check : Emits w (write_bits w crc 8) (expect 8 crc >> pure a) a
    check = emit_bind _ field (emit_pure _ a (emit-IsValid field))

    read_from : p.output ≡ bytes_bits (bytes w)
    read_from =
        ap (λ t. t ++ p.output) (sym written-new) ∙ sym p.extends.content ∙ sym (bytes-written w e)

    header_check : checksum 8 header_polynomial p.output ≡ crc
    header_check =
        ap (checksum 8 header_polynomial) read_from
        ∙ sym (crc8-checksum (bytes w) (emit-IsValid p).whole)
