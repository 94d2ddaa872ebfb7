-- ===== src/Session/Encoder.antt =====
-- The encode task of `start_encoder` in crates/bsm-encode/src/encoder.rs, a round of its loop for
-- each element of a list of turns. The bit rate of the statistics, a float, is left out; the bytes
-- it is computed from are kept.
pub mod Stats
use baxters_stereo_mix_lin.Base.{
  ℕ, zero, suc, ◌+◌, ◌/◌, ◌*◌, ◌%◌, ◌^◌, Bool, true, false, Option, none, some, List, [], ◌∷◌, ◌++◌,
  max, length, map, if◌then◌else◌,
}
use baxters_stereo_mix_lin.Base.Bits.{u64}
use baxters_stereo_mix_lin.Base.Int.{ℤ, from_twos}
use baxters_stereo_mix_lin.Core.{PcmFrame, AudioPacket}

pub record EncoderStats : Type 0 where
  pub encode_time_avg_us : ℕ
  pub encode_time_max_us : ℕ
  pub bytes_out : ℕ
  pub queue_depth : ℕ
  pub packets_encoded : ℕ
  pub frames_dropped : ℕ

-- The task's variables, and what went out through its two channels.
pub record EncoderTask : Type 0 where
  pub encode_times : List ℕ
  pub packets_encoded : ℕ
  pub frames_dropped : ℕ
  pub bytes_out : ℕ
  pub packets : List AudioPacket
  pub stats : List EncoderStats

unfoldable pub fresh : EncoderTask
fresh = record {
  encode_times = [];
  packets_encoded = 0;
  frames_dropped = 0;
  bytes_out = 0;
  packets = [];
  stats = [];
}

-- What the surroundings do in one round: a shutdown, which is looked at first; a frame, or none
-- from a closed channel; whether the packet's receiver is there; the times, and the queue.
pub record Turn : Type 0 where
  pub shutdown : Bool
  pub frame : Option PcmFrame
  pub receiver : Bool
  pub elapsed_us : ℕ
  pub second_over : Bool
  pub queue : ℕ

-- `as i64`: the same 64 bits, read with a sign.
unfoldable pub as_i64 : ℕ → ℤ
as_i64 n = from_twos 63 (u64 n)

unfoldable pub packet_of : PcmFrame → AudioPacket
packet_of f = record {
  payload = f.payload;
  pts = as_i64 f.timestamp_us;
  duration = as_i64 f.frame_count;
  is_key = true;
}

-- Without overflow checks.
unfoldable pub sum : List ℕ → ℕ
sum [] = 0
sum (x ∷ xs) = u64 (x + sum xs)

unfoldable pub maximum : List ℕ → ℕ
maximum [] = 0
maximum (x ∷ xs) = max x (maximum xs)

unfoldable pub average : List ℕ → ℕ
average [] = 0
average (x ∷ xs) = sum (x ∷ xs) / length (x ∷ xs)

unfoldable pub stats_of : EncoderTask → ℕ → EncoderStats
stats_of t queue = record {
  encode_time_avg_us = average t.encode_times;
  encode_time_max_us = maximum t.encode_times;
  bytes_out = t.bytes_out;
  queue_depth = queue;
  packets_encoded = t.packets_encoded;
  frames_dropped = t.frames_dropped;
}

-- The counts are sent once a second, and start again.
unfoldable pub report : EncoderTask → Turn → EncoderTask
report t turn =
    if turn.second_over
    then (record {
      encode_times = [];
      packets_encoded = 0;
      frames_dropped = 0;
      bytes_out = 0;
      packets = t.packets;
      stats = t.stats ++ (stats_of t turn.queue ∷ []);
    })
    else t

-- One frame taken: counted, sent on, timed.
unfoldable pub count_frame : EncoderTask → PcmFrame → EncoderTask
count_frame t f = record t {
  bytes_out = u64 (t.bytes_out + length f.payload);
  packets_encoded = u64 (t.packets_encoded + 1);
}

unfoldable pub send_packet : EncoderTask → PcmFrame → Turn → EncoderTask
send_packet t f turn = record t {
  packets = t.packets ++ (packet_of f ∷ []);
  encode_times = t.encode_times ++ (turn.elapsed_us ∷ []);
}

unfoldable pub encode_loop : EncoderTask → List Turn → EncoderTask
encode_loop t [] = t
encode_loop t (turn ∷ rest) = elim turn.shutdown [
  | true ↦ t
  | false ↦ elim turn.frame [
    | none ↦ t
    | some f ↦ elim turn.receiver [
      | false ↦ count_frame t f
      | true ↦ encode_loop (report (send_packet (count_frame t f) f turn) turn) rest
    ]
  ]
]
