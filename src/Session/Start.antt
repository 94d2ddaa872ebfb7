-- ===== src/Session/Start.antt =====
-- `RecordingSession::start` and `SessionHandle::stop` of crates/bsm-encode/src/output.rs. The free
-- space, the writer of the container and what the join of the mux task gives are parameters; the
-- times of the summary are left out, as is the configuration of the encoder, which nothing reads.
pub mod Summary
use baxters_stereo_mix_lin.Base.{ℕ, ◌*◌, Option, none, some, ltb, if◌then◌else◌}
use baxters_stereo_mix_lin.Core.{
  PcmFormat, EncodeError, not_found, mux_failed, output_file, EncodeResult, ok, err,
}
use baxters_stereo_mix_lin.Session.Output.{AudioMuxer, MuxCounts}
use baxters_stereo_mix_lin.Session.Paths.{AudioEncoderInfo, select_encoder}
use Prim.Native.String.{String}

unfoldable pub check_disk_space : Option ℕ → EncodeResult ℕ
check_disk_space none = err output_file
check_disk_space (some free) = if ltb free (512 * 1024 * 1024) then err output_file else ok free

pub record RecordingSession (Place : Type 0) : Type 0 where
  pub output_path : Place
  pub encoder_name : String
  pub input_format : PcmFormat

pub record SessionHandle (Place : Type 0) : Type 0 where
  pub output_file : Place
  pub codec : String
  pub sample_rate : ℕ
  pub channels : ℕ

pub record SessionInfo (Place : Type 0) : Type 0 where
  pub output_file : Place
  pub frames_captured : ℕ
  pub frames_dropped : ℕ
  pub bytes_written : ℕ
  pub codec : String
  pub sample_rate : ℕ
  pub channels : ℕ
  pub bitrate_kbps : ℕ

-- The end of the mux task, as `await` gives it.
pub data Joined : Type 0 where
  joined : EncodeResult MuxCounts → Joined
  join_failed : Joined

-- `if let Some(dir) = self.output_path.parent()`: the free space of the folder, if there is one.
unfoldable pub room : Option (Option ℕ) → EncodeResult ℕ
room none = ok 0
room (some space) = check_disk_space space

module _ {Place : Type 0} (m : AudioMuxer)
    (open_muxer : Place → PcmFormat → m.Open × EncodeResult (Unit {0})) where
  unfoldable pub handle_of : RecordingSession Place → AudioEncoderInfo → SessionHandle Place
  handle_of s e = record {
    output_file = s.output_path;
    codec = e.name;
    sample_rate = s.input_format.sample_rate;
    channels = s.input_format.channels;
  }

  -- The opening of the writer for an encoder that was chosen.
  unfoldable pub open_with :
      RecordingSession Place → AudioEncoderInfo → EncodeResult (SessionHandle Place × m.Open)
  open_with s e =
      let opened = open_muxer s.output_path s.input_format in
      elim opened.1 [ ok done ↦ ok (handle_of s e, opened.0) | err failed ↦ err failed ]

  unfoldable pub start :
      RecordingSession Place → Option (Option ℕ) → EncodeResult (SessionHandle Place × m.Open)
  start s space = elim (room space) [
    | err e ↦ err e
    | ok free ↦ elim (select_encoder (some s.encoder_name)) [
      | none ↦ err not_found
      | some e ↦ open_with s e
    ]
  ]

-- What a session reports of the counts of its mux task.
unfoldable pub summary : {Place : Type 0} → SessionHandle Place → MuxCounts → SessionInfo Place
summary h c = record {
  output_file = h.output_file;
  frames_captured = c.frames_written;
  frames_dropped = c.frames_dropped;
  bytes_written = c.bytes_written;
  codec = h.codec;
  sample_rate = h.sample_rate;
  channels = h.channels;
  bitrate_kbps = 0;
}

unfoldable pub stop :
    {Place : Type 0} → SessionHandle Place → Joined → EncodeResult (SessionInfo Place)
stop h (joined (ok c)) = ok (summary h c)
stop h (joined (err e)) = err e
stop h join_failed = err mux_failed
