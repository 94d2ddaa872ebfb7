-- ===== src/Audio/Loopback.antt =====
-- The loopback capture of crates/bsm-audio/src/loopback.rs. `from_f32` stands for the clamped and
-- scaled float of four bytes. A round of the loops is an element of a list: what the audio client of
-- Windows, the stop channel and the receiver of the frames answer.
pub mod Mapping
pub mod Capture
use baxters_stereo_mix_lin.Base.{
  ℕ, zero, suc, ◌+◌, ◌*◌, ◌/◌, ◌%◌, ◌^◌, Bool, true, false, ◌&&◌, ◌||◌, Option, none, some, List,
  [], ◌∷◌, ◌++◌, length, get_elem?, replicate, max, ltb, ◌==◌, if◌then◌else◌,
}
use baxters_stereo_mix_lin.Base.Bits.{u64}
use baxters_stereo_mix_lin.Base.Int.{ℤ, pos, from_twos}
use baxters_stereo_mix_lin.Core.{PcmFormat, PcmFrame}
use baxters_stereo_mix_lin.Audio.Channels.{i16_bytes}

pub record MixInfo : Type 0 where
  pub sample_rate : ℕ
  pub channels : ℕ
  pub bits : ℕ
  pub is_float : Bool

unfoldable pub to_pcm_format : MixInfo → ℕ → PcmFormat
to_pcm_format info requested_channels = record {
  sample_rate = info.sample_rate;
  channels = requested_channels;
  bit_depth = 16;
}

-- `bytes[i]`, which would panic out of range.
unfoldable pub byte_at : List ℕ → ℕ → ℕ
byte_at bytes i = elim (get_elem? bytes i) [ none ↦ 0 | some b ↦ b ]

-- What the surroundings answer in one round of the inner loop: no size, no packet, no buffer, or a
-- packet with the time, its frames, whether it is silent, its bytes, and whether the receiver is
-- there.
pub data Poll : Type 0 where
  size_failed : Poll
  empty : Poll
  buffer_failed : Poll
  packet : ℕ → ℕ → Bool → List ℕ → Bool → Poll

-- The calls that take and return a buffer of the client.
pub data Call : Type 0 where
  got_buffer : ℕ → Call
  released_buffer : ℕ → Call

pub record CaptureState : Type 0 where
  pub seq : ℕ
  pub sent : List PcmFrame
  pub calls : List Call

pub record Round : Type 0 where
  pub stopped : Bool
  pub polls : List Poll

-- The source channel of a destination channel.
unfoldable pub source_channel : ℕ → ℕ → ℕ → ℕ
source_channel src_ch dst_ch dch =
    if src_ch == dst_ch then dch else if ltb src_ch dst_ch then dch % src_ch else dch

module _ (from_f32 : ℕ → ℕ → ℕ → ℕ → ℤ) where
  -- The sample of a channel and a frame, `src_ch` channels to a frame.
  unfoldable pub sample_i16 : List ℕ → MixInfo → ℕ → ℕ → ℕ → ℕ → ℤ
  sample_i16 bytes info src_ch bytes_per_sample ch frame =
      let idx = (frame * src_ch + ch) * bytes_per_sample in
      if ltb (length bytes) (idx + bytes_per_sample)
      then pos 0
      else if info.is_float && (info.bits == 32)
      then from_f32 (byte_at bytes idx) (byte_at bytes (idx + 1)) (byte_at bytes (idx + 2))
          (byte_at bytes (idx + 3))
      else if info.bits == 16
      then from_twos 15 (byte_at bytes (idx + 1) * 256 + byte_at bytes idx)
      else if info.bits == 32
      then from_twos 15 (byte_at bytes (idx + 3) * 256 + byte_at bytes (idx + 2))
      else pos 0

  -- `for dch in 0..dst_ch`: the last argument is the number of rounds left.
  unfoldable pub mix_frame : List ℕ → MixInfo → ℕ → ℕ → ℕ → ℕ → ℕ → ℕ → List ℕ
  mix_frame bytes info src_ch width dst_ch f dch zero = []
  mix_frame bytes info src_ch width dst_ch f dch (suc left) =
      i16_bytes (sample_i16 bytes info src_ch width (source_channel src_ch dst_ch dch) f)
      ++ mix_frame bytes info src_ch width dst_ch f (dch + 1) left

  -- `for f in 0..frames`.
  unfoldable pub mix_frames : List ℕ → MixInfo → ℕ → ℕ → ℕ → ℕ → ℕ → List ℕ
  mix_frames bytes info src_ch width dst_ch f zero = []
  mix_frames bytes info src_ch width dst_ch f (suc left) =
      mix_frame bytes info src_ch width dst_ch f 0 dst_ch
      ++ mix_frames bytes info src_ch width dst_ch (f + 1) left

  unfoldable pub mix_to_i16 : List ℕ → MixInfo → ℕ → List ℕ
  mix_to_i16 bytes info dst_channels =
      let src_ch = max info.channels 1 in
      let dst_ch = max dst_channels 1 in
      let width = max (info.bits / 8) 1 in
      let stride = src_ch * width in
      if (stride == 0) || ltb (length bytes) stride
      then []
      else mix_frames bytes info src_ch width dst_ch 0 (length bytes / stride)

  -- The frame of a packet at a time.
  unfoldable pub packet_frame : MixInfo → ℕ → ℕ → ℕ → ℕ → Bool → List ℕ → PcmFrame
  packet_frame mix requested_channels now seq num_frames silent bytes = record {
    payload =
        if silent
        then replicate (num_frames * requested_channels * 2) 0
        else mix_to_i16 bytes mix requested_channels;
    format = to_pcm_format mix requested_channels;
    timestamp_us = now;
    sequence = seq;
    frame_count = num_frames;
  }

  -- The inner loop. The flag says whether the thread goes on: it ends when the receiver is gone.
  unfoldable pub drain : MixInfo → ℕ → CaptureState → List Poll → CaptureState × Bool
  drain mix ch s [] = (s, true)
  drain mix ch s (size_failed ∷ rest) = (s, true)
  drain mix ch s (empty ∷ rest) = (s, true)
  drain mix ch s (buffer_failed ∷ rest) = (s, true)
  drain mix ch s (packet now num_frames silent bytes receiver ∷ rest) =
      let held = s.calls ++ (got_buffer num_frames ∷ []) in
      let returned = held ++ (released_buffer num_frames ∷ []) in
      elim (ltb 0 num_frames) [
        | false ↦ drain mix ch (record s { calls = returned }) rest
        | true ↦ elim receiver [
          | false ↦ (record s { calls = returned }, false)
          | true ↦
              drain mix ch
                (record {
                  seq = u64 (s.seq + 1);
                  sent = s.sent ++ (packet_frame mix ch now s.seq num_frames silent bytes ∷ []);
                  calls = returned;
                })
                rest
        ]
      ]

  -- The outer loop.
  unfoldable pub capture_loop : MixInfo → ℕ → CaptureState → List Round → CaptureState
  capture_loop mix ch s [] = s
  capture_loop mix ch s (round ∷ rest) = elim round.stopped [
    | true ↦ s
    | false ↦
        let drained = drain mix ch s round.polls in
        elim drained.1 [ false ↦ drained.0 | true ↦ capture_loop mix ch drained.0 rest ]
  ]
