-- ===== src/Ipc/Meter.antt =====
-- The audio quality meter of the pipeline task in crates/bsm-ipc/src/dispatcher.rs. A peak is a
-- ratio over `i16::MAX` in the source; it is kept here by its numerator, the largest magnitude.
pub mod Peaks
use baxters_stereo_mix_lin.Base.{
  ℕ, suc, ◌+◌, ◌*◌, ◌%◌, ◌^◌, Option, none, some, List, [], ◌∷◌, max, length, ltb, leb, ◌==◌, ◌&&◌,
  if◌then◌else◌,
}
use baxters_stereo_mix_lin.Base.Bits.{u64}
use baxters_stereo_mix_lin.Base.Int.{ℤ, pos, negsuc}
use baxters_stereo_mix_lin.Core.{PcmFrame}
use baxters_stereo_mix_lin.Muxer.FlacStream.{samples_of}

pub record AudioQuality : Type 0 where
  pub peak_left : ℕ
  pub peak_right : ℕ
  pub underrun_count : ℕ
  pub sample_rate : ℕ
  pub samples_captured : ℕ

unfoldable pub quiet : AudioQuality
quiet = record {
  peak_left = 0;
  peak_right = 0;
  underrun_count = 0;
  sample_rate = 0;
  samples_captured = 0;
}

unfoldable pub magnitude : ℤ → ℕ
magnitude (pos n) = n
magnitude (negsuc n) = suc n

-- The loop over the samples from index `i` on, with `ch` channels.
unfoldable pub peaks : ℕ → ℕ → List ℤ → ℕ × ℕ → ℕ × ℕ
peaks ch i [] p = p
peaks ch i (s ∷ rest) p = peaks ch (i + 1) rest (
    if i % ch == 0
    then (max p.0 (magnitude s), p.1)
    else if i % ch == 1
    then (p.0, max p.1 (magnitude s))
    else p)

-- What the task does with a frame before it sends the frame on.
unfoldable pub measure : AudioQuality → PcmFrame → AudioQuality
measure aq f =
    if (f.format.bit_depth == 16) && leb 2 (length f.payload)
    then (let p = peaks (max f.format.channels 1) 0 (samples_of f.payload) (0, 0) in
        record {
          peak_left = p.0;
          peak_right = p.1;
          underrun_count = aq.underrun_count;
          sample_rate = f.format.sample_rate;
          samples_captured = u64 (aq.samples_captured + f.frame_count);
        })
    else if length f.payload == 0
    then record aq { underrun_count = u64 (aq.underrun_count + 1) }
    else aq
