-- ===== src/Lib.antt =====
-- A model of the recorder of this repository, and what is proved of it: the path of the samples
-- from the capture to the finished file, and the control of a recording. It covers the crates
-- bsm-encode, bsm-ipc, bsm-hrt, and parts of bsm-core and bsm-audio; the user interface and the
-- system calls of the capture are not modelled.
--
-- The parts, in the order in which a recording passes through them:
--   Audio.Backend, Audio.Pipeline: the trait `AudioBackend` as an interface with the contract of its
--     comments, and `CapturePipeline` over any backend: crates/bsm-audio/src/backend.rs, pipeline.rs.
--   Audio.Null, Audio.Mock, Audio.Wasapi: the three backends, null.rs, mock.rs and wasapi.rs there.
--     Audio.Channels: `map_i16_channels` and `map_u16_channels` of wasapi.rs, which turn the samples
--     of a device into the bytes of a frame. Audio.Negotiation: the choice of a device configuration.
--     Audio.Loopback, Audio.Monitor: the captures of what is playing, loopback.rs and monitor.rs.
--   Ipc.Commands, Ipc.Dispatcher, Ipc.Meter, Ipc.Shutdown: crates/bsm-ipc/src/commands.rs and
--     crates/bsm-ipc/src/dispatcher.rs. `handle_command` is a function of the dispatcher's state, the
--     time and a command; the wait for the background tasks is a step relation whose sequences are
--     the interleavings of the waiter with the tasks. Ipc.Tasks: the bodies of the background tasks,
--     a pipeline over any backend among them. Ipc.Server: the connection handlers of
--     crates/bsm-ipc/src/server.rs, from the lines of a client to its replies.
--   Agent: `handle_conn` of crates/bsm-encode/src/ipc.rs, one request at a time; Agent.Race: the starts
--     that overlap, as a step relation over the table of the sessions and the starts in progress.
--   Hrt: the remote actions of crates/bsm-hrt/src: actions.rs, bridge.rs and client.rs, with rounds
--     of what is ready for their loops.
--   Session.Encoder, Session.Output, Session.Paths, Session.Start: encoder.rs, output.rs and probe.rs
--     of crates/bsm-encode/src. The loops of the tasks run over lists of turns, each with what is ready in it.
--   Muxer.Wav, Muxer.FlacStream, Muxer.Mp3, Muxer.Bitrate: crates/bsm-encode/src/muxer.rs. The files of the
--     standard library are a parameter (Muxer.Disk) with laws for operations that succeed; each may
--     fail, and Muxer.Disk.Memory shows that the laws can hold. So is the MP3 encoder (Mp3.Lame).
--   Flac: crates/bsm-encode/src/flac_enc.rs, one module for each of its sections. Flac.Reader,
--     Flac.Frame.Decode and the modules named RoundTrip hold a decoder written after the FLAC format
--     and not after the encoder, the reference that the encoder is held to.
--   Config, Instance: the validation, the load and the save of crates/bsm-core/src/config.rs, and
--     crates/bsm-core/src/instance.rs.
--   Core: crates/bsm-core/src/types.rs and error.rs. Base: what the modules share.
--   Examples: the theorems at concrete inputs.
--
-- Numbers are natural numbers; where the code wraps, so does the model (`u8`, `u16`, `u32`, `u64`).
-- Samples are the integers of an `i16`. Error values have no messages. The loop over full blocks of
-- the FLAC writer runs on fuel, as many rounds as there are buffered samples, and is proved to end
-- before; the polling wait with a deadline runs on fuel, and is proved to return with two looks more
-- than a twentieth of the wait in milliseconds; all other loops are structural. Where the source's arithmetic can
-- overflow, the model is that of a build without overflow checks. Not modelled: floats (the bit rate
-- of the statistics, the mapping of float samples; the meter's peaks are kept as numerators over
-- 32767), clocks, texts other than command names, and sockets.
pub mod Agent
pub mod Audio
pub mod Base
pub mod Config
pub mod Core
pub mod Examples
pub mod Flac
pub mod Hrt
pub mod Instance
pub mod Ipc
pub mod Muxer
pub mod Session
