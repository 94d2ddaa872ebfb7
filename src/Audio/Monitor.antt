-- ===== src/Audio/Monitor.antt =====
-- The monitor capture of crates/bsm-audio/src/monitor.rs, over what the sound server answers: whether
-- it finds the specification valid, whether the stream opens, and each read of the thread.
use baxters_stereo_mix_lin.Base.{
  ℕ, ◌+◌, ◌*◌, ◌/◌, ◌%◌, Bool, true, false, Option, none, some, List, [], ◌∷◌, ◌++◌, length, max,
  ◌==◌, if◌then◌else◌,
}
use baxters_stereo_mix_lin.Base.Bits.{u32, u64}
use baxters_stereo_mix_lin.Core.{PcmFormat, PcmFrame}
use baxters_stereo_mix_lin.Audio.Backend.{
  AudioResult, ok, err, unsupported_format, device_open_failed,
}

unfoldable pub frames_per_chunk : ℕ → ℕ
frames_per_chunk rate = max (rate / 50) 1

-- Channels and rate at least 1, 48000 for no rate.
unfoldable pub monitor_format : PcmFormat → PcmFormat
monitor_format requested = record {
  sample_rate = if requested.sample_rate == 0 then 48000 else requested.sample_rate;
  channels = max requested.channels 1;
  bit_depth = 16;
}

-- `Spec::is_valid` on 8 bits of the channels and the rate, and whether the stream opens.
pub record SoundServer : Type 0 where
  pub is_valid : ℕ → ℕ → Bool
  pub opens : Bool

unfoldable pub spawn : SoundServer → PcmFormat → AudioResult PcmFormat
spawn server requested =
    let fmt = monitor_format requested in
    if server.is_valid (fmt.channels % 256) fmt.sample_rate
    then (if server.opens then ok fmt else err device_open_failed)
    else err unsupported_format

-- `linux` says for which system the program is built.
unfoldable pub spawn_monitor_capture : Bool → SoundServer → PcmFormat → AudioResult PcmFormat
spawn_monitor_capture true server requested = spawn server requested
spawn_monitor_capture false server requested = err unsupported_format

-- A round of the thread: the stop channel, the read with its time, the receiver.
pub record Reading : Type 0 where
  pub stopped : Bool
  pub read : Option (List ℕ)
  pub now_ms : ℕ
  pub receiver : Bool

unfoldable pub chunk_frame : PcmFormat → ℕ → ℕ → List ℕ → PcmFrame
chunk_frame fmt now_ms seq buf = record {
  payload = buf;
  format = fmt;
  timestamp_us = now_ms;
  sequence = seq;
  frame_count = u32 (length buf / (fmt.channels * 2));
}

unfoldable pub monitor_loop : PcmFormat → ℕ → List PcmFrame → List Reading → List PcmFrame
monitor_loop fmt seq sent [] = sent
monitor_loop fmt seq sent (r ∷ rest) = elim r.stopped [
  | true ↦ sent
  | false ↦ elim r.read [
    | none ↦ sent
    | some buf ↦ elim r.receiver [
      | false ↦ sent
      | true ↦
          monitor_loop fmt (u64 (seq + 1)) (sent ++ (chunk_frame fmt r.now_ms seq buf ∷ [])) rest
    ]
  ]
]
