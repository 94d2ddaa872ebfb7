-- ===== src/Examples/Files.antt =====
-- Theorems of the container writers at concrete inputs, on the disk in memory.
use baxters_stereo_mix_lin.Base.{
  ℕ, ◌≡◌, refl, ◌+◌, ◌^◌, ◌<◌, true, false, none, some, List, [], ◌∷◌, ◌++◌, arith, length,
}
use baxters_stereo_mix_lin.Base.Int.{pos}
use baxters_stereo_mix_lin.Core.{PcmFormat, AudioPacket, ok, is_ok}
use baxters_stereo_mix_lin.Muxer.Disk.{write_each}
use baxters_stereo_mix_lin.Muxer.Disk.Memory.{memory, memory-IsDisk}
use baxters_stereo_mix_lin.Muxer.Wav
use baxters_stereo_mix_lin.Muxer.Wav.Content.{wav_file}
use baxters_stereo_mix_lin.Muxer.Mp3
use baxters_stereo_mix_lin.Muxer.Mp3.Content.{write_packets, mp3_file, finalize-mp3_file}
use baxters_stereo_mix_lin.Muxer.FlacStream
use baxters_stereo_mix_lin.Muxer.FlacStream.Reference.{block_samples, flac_file}
use baxters_stereo_mix_lin.Muxer.FlacStream.Progress.{
  IsStreaming, open_flac-IsStreaming, write_packet-IsStreaming,
}
use baxters_stereo_mix_lin.Muxer.FlacStream.Content.{finalize-flac_file}
use baxters_stereo_mix_lin.Flac.StreamInfo.{build_streaminfo}
use baxters_stereo_mix_lin.Session.Output.{MuxTurn, MuxCounts, no_counts, mux_loop, mux_task}
use baxters_stereo_mix_lin.Session.Paths.{select_encoder, find_encoder, probe_audio_encoders}
use baxters_stereo_mix_lin.Session.Start.{
  RecordingSession, SessionHandle, SessionInfo, check_disk_space, room, open_with, handle_of, start,
  joined, summary, stop,
}
use baxters_stereo_mix_lin.Session.Start.Summary.{open_new, stop-wav_file}
use baxters_stereo_mix_lin.Session.Output.Recording.{wav_muxer, taken_bytes, mux_task-wav_file}

abbrev cd : PcmFormat
cd = record { sample_rate = 44100; channels = 2; bit_depth = 16 }

abbrev a_packet : AudioPacket
a_packet = record { payload = 1 ∷ 0 ∷ 2 ∷ 0 ∷ []; pts = pos 0; duration = pos 1; is_key = true }

abbrev a_wav : Wav.WavMuxer memory
a_wav = (Wav.open_wav memory (Wav.new memory) tt cd).0

abbrev turns : List MuxTurn
turns =
    record { shutdown = false; packet = some a_packet }
    ∷ record { shutdown = true; packet = none }
    ∷ []

abbrev one_written : MuxCounts
one_written = record { frames_written = 1; bytes_written = 4; frames_dropped = 0 }

opens : is_ok (Wav.open_wav memory (Wav.new memory) tt cd).1 ≡ true
unfolding Wav.open_wav Wav.write_riff_header Wav.riff_chunks write_each
opens = refl

ends : (mux_task (wav_muxer memory) a_wav turns).1 ≡ ok one_written
unfolding mux_task mux_loop no_counts Wav.write_packet Wav.finalize Wav.patch_sizes Wav.patch_at
    Wav.open_wav Wav.write_riff_header Wav.riff_chunks write_each
ends = refl

fits : 36 + length (taken_bytes turns) < 2 ^ 32
unfolding taken_bytes
fits = omega arith

mux_task-wav_file_example :
    (f : List ℕ × ℕ) × ((mux_task (wav_muxer memory) a_wav turns).0.1 ≡ some f)
    × (f.0 ≡ wav_file cd (taken_bytes turns))
    × (4 ≡ length (taken_bytes turns))
mux_task-wav_file_example =
    mux_task-wav_file memory memory-IsDisk tt cd turns one_written opens ends refl fits
      (omega arith) (omega arith)

abbrev a_stream : FlacStream.FlacMuxer memory
a_stream = (FlacStream.open_flac memory (FlacStream.new memory) tt cd).0

a_stream-IsStreaming : IsStreaming memory memory-IsDisk cd a_stream 0 []
unfolding FlacStream.open_flac FlacStream.header_chunks write_each
a_stream-IsStreaming = open_flac-IsStreaming memory memory-IsDisk cd (FlacStream.new memory) tt refl

takes : is_ok (FlacStream.write_packet memory a_stream a_packet).1 ≡ true
unfolding FlacStream.write_packet FlacStream.flush_blocks FlacStream.flush_loop
    FlacStream.samples_per_block FlacStream.samples_of FlacStream.open_flac FlacStream.header_chunks
    write_each
takes = refl

write_packet-IsStreaming_example :
    (q : ℕ) × IsStreaming memory memory-IsDisk cd
      (FlacStream.write_packet memory a_stream a_packet).0
      q
      ([] ++ FlacStream.samples_of a_packet.payload)
    × (length (FlacStream.write_packet memory a_stream a_packet).0.pcm_buffer < block_samples cd)
write_packet-IsStreaming_example =
    write_packet-IsStreaming memory memory-IsDisk cd a_stream 0 [] a_packet (omega arith)
      a_stream-IsStreaming takes

closes : is_ok (FlacStream.finalize memory a_stream).2 ≡ true
unfolding FlacStream.finalize FlacStream.flush_rest FlacStream.close_stream FlacStream.patch_file
    FlacStream.open_flac FlacStream.header_chunks write_each build_streaminfo
closes = refl

finalize-flac_file_example :
    (f : List ℕ × ℕ) × ((FlacStream.finalize memory a_stream).1 ≡ some f)
    × (f.0 ≡ flac_file cd 0 [])
finalize-flac_file_example =
    finalize-flac_file memory memory-IsDisk cd a_stream 0 [] a_stream-IsStreaming closes

-- An encoder that gives one byte for each call and one at the end.
abbrev counting : Mp3.Lame
counting = record {
  Builder = Unit {0};
  Encoder = ℕ;
  new_builder = some tt;
  set_num_channels = λ b n. some b;
  set_sample_rate = λ b n. some b;
  set_brate = λ b n. some b;
  set_quality_best = λ b. some b;
  build = λ b. some 0;
  encode = λ e samples. (e + 1, some (e ∷ []));
  flush = λ e. (e, some (0xFF ∷ []));
}

abbrev an_mp3 : Mp3.Mp3Muxer memory counting
an_mp3 = (Mp3.open_mp3 memory counting (Mp3.new memory counting) tt cd 192).0

abbrev two_packets : List AudioPacket
two_packets = a_packet ∷ a_packet ∷ []

builds : Mp3.build_encoder memory counting cd 192 ≡ some 0
unfolding Mp3.build_encoder
builds = refl

opens_mp3 : is_ok (Mp3.open_mp3 memory counting (Mp3.new memory counting) tt cd 192).1 ≡ true
unfolding Mp3.open_mp3 Mp3.build_encoder
opens_mp3 = refl

writes_mp3 : (write_packets memory counting an_mp3 two_packets).1 ≡ true
unfolding write_packets Mp3.write_packet Mp3.write_buffer Mp3.open_mp3 Mp3.build_encoder
    FlacStream.samples_of
writes_mp3 = refl

ends_mp3 :
    is_ok (Mp3.finalize memory counting (write_packets memory counting an_mp3 two_packets).0).1
    ≡ true
unfolding write_packets Mp3.write_packet Mp3.write_buffer Mp3.open_mp3 Mp3.build_encoder
    FlacStream.samples_of Mp3.finalize Mp3.close_writer
ends_mp3 = refl

finalize-mp3_file_example :
    (w : List ℕ) × ((Mp3.finalize memory counting
        (write_packets memory counting an_mp3 two_packets).0).0.writer
      ≡ some w)
    × (w ≡ mp3_file counting 0 two_packets)
finalize-mp3_file_example =
    finalize-mp3_file memory memory-IsDisk counting tt cd 192 0 two_packets builds opens_mp3
      writes_mp3 ends_mp3

abbrev wav_session : RecordingSession (Unit {0})
wav_session = record { output_path = tt; encoder_name = "pcm_s16le"; input_format = cd }

abbrev wav_handle : SessionHandle (Unit {0})
wav_handle = record { output_file = tt; codec = "pcm_s16le"; sample_rate = 44100; channels = 2 }

abbrev wav_summary : SessionInfo (Unit {0})
wav_summary = summary wav_handle one_written

begins :
    start (wav_muxer memory) (open_new memory) wav_session (some (some (2 ^ 30)))
    ≡ ok (wav_handle, a_wav)
unfolding start room check_disk_space open_with handle_of select_encoder find_encoder
    probe_audio_encoders Wav.open_wav Wav.write_riff_header Wav.riff_chunks write_each
begins = refl

stops : stop wav_handle (joined (mux_task (wav_muxer memory) a_wav turns).1) ≡ ok wav_summary
unfolding stop
stops = rw ends refl

nothing_lost : wav_summary.frames_dropped ≡ 0
unfolding summary
nothing_lost = refl

stop-wav_file_example :
    (f : List ℕ × ℕ) × ((mux_task (wav_muxer memory) a_wav turns).0.1 ≡ some f)
    × (f.0 ≡ wav_file cd (taken_bytes turns))
    × (wav_summary.bytes_written ≡ length (taken_bytes turns))
    × (wav_summary.output_file ≡ tt)
    × (wav_summary.sample_rate ≡ 44100)
    × (wav_summary.channels ≡ 2)
stop-wav_file_example =
    stop-wav_file memory memory-IsDisk wav_session (some (some (2 ^ 30))) (wav_handle, a_wav) turns
      wav_summary begins stops nothing_lost fits (omega arith) (omega arith)
