-- ===== src/Muxer/Mp3/Content.antt =====
-- What an MP3 recording leaves on the disk: crates/bsm-encode/src/muxer.rs.
use baxters_stereo_mix_lin.Base.{
  ℕ, ◌≡◌, refl, sym, ap, ◌∙◌, Bool, true, false, Option, none, some, List, [], ◌∷◌, ◌++◌,
  append-nil, append_assoc, Bool-cases, Option-cases, inl, inr, if◌then◌else◌, arith,
}
use baxters_stereo_mix_lin.Core.{PcmFormat, AudioPacket, is_ok}
use baxters_stereo_mix_lin.Muxer.Disk.{Disk, IsDisk}
use baxters_stereo_mix_lin.Muxer.FlacStream.{samples_of}
use baxters_stereo_mix_lin.Muxer.Mp3.{
  Lame, Mp3Muxer, new, build_encoder, open_mp3, write_buffer, write_packet, close_writer, finalize,
}

-- The encoder alone: what it makes of the samples of one packet after the other.
unfoldable pub encoder_after : (l : Lame) → l.Encoder → List AudioPacket → l.Encoder
encoder_after l e [] = e
encoder_after l e (pkt ∷ rest) = encoder_after l (l.encode e (samples_of pkt.payload)).0 rest

abbrev bytes_or_none : Option (List ℕ) → List ℕ
bytes_or_none none = []
bytes_or_none (some bs) = bs

unfoldable pub encoded : (l : Lame) → l.Encoder → List AudioPacket → List ℕ
encoded l e [] = []
encoded l e (pkt ∷ rest) =
    bytes_or_none (l.encode e (samples_of pkt.payload)).1
    ++ encoded l (l.encode e (samples_of pkt.payload)).0 rest

-- The whole file: behind the packets what the encoder still holds.
unfoldable pub mp3_file : (l : Lame) → l.Encoder → List AudioPacket → List ℕ
mp3_file l e pkts = encoded l e pkts ++ bytes_or_none (l.flush (encoder_after l e pkts)).1

-- The packets of a session, up to the first that fails, and whether all were written.
unfoldable pub write_packets :
    (d : Disk) (l : Lame) → Mp3Muxer d l → List AudioPacket → Mp3Muxer d l × Bool
write_packets d l m [] = (m, true)
write_packets d l m (pkt ∷ rest) =
    let tried = write_packet d l m pkt in
    let later = write_packets d l tried.0 rest in if is_ok tried.1 then later else (tried.0, false)

module _ (d : Disk) (laws : IsDisk d) (l : Lame) where
  -- The disk holds `done`, and the encoder stands at `e`.
  record IsCoding (m : Mp3Muxer d l) (e : l.Encoder) (done : List ℕ) : Type 0 where
    handle : d.Writer
    opened : m.writer ≡ some handle
    coder : m.encoder ≡ some e
    written : d.view handle ≡ done

  write_buffer-view :
      (w : d.Writer) (bs : List ℕ)
      → (write_buffer d l w bs).1 ≡ true
      → d.view (write_buffer d l w bs).0 ≡ d.view w ++ bs
  unfolding write_buffer
  write_buffer-view w [] h = sym (append-nil (d.view w))
  write_buffer-view w (b ∷ rest) h = laws.write_all_view w (b ∷ rest) h

  write_packet-IsCoding :
      (m : Mp3Muxer d l) (e : l.Encoder) (done : List ℕ) (pkt : AudioPacket)
      → IsCoding m e done
      → is_ok (write_packet d l m pkt).1 ≡ true
      → IsCoding
          (write_packet d l m pkt).0
          (l.encode e (samples_of pkt.payload)).0
          (done ++ bytes_or_none (l.encode e (samples_of pkt.payload)).1)
  unfolding write_packet
  write_packet-IsCoding m e done pkt r h =
      elim (Option-cases (l.encode e (samples_of pkt.payload)).1) [
        | inl failed ↦ absurd (ground (arith, h, r.coder, r.opened, failed))
        | inr (bytes, coded) ↦ elim (Bool-cases (write_buffer d l r.handle bytes).1) [
          | inr bad ↦ absurd (ground (arith, h, r.coder, r.opened, coded, bad))
          | inl good ↦
              rw (write_packet, r.coder, r.opened, coded)
                (record {
                  handle = (write_buffer d l r.handle bytes).0;
                  opened = refl;
                  coder = refl;
                  written =
                      write_buffer-view r.handle bytes good
                      ∙ ap (λ (t : List ℕ). t ++ bytes) r.written;
                })
        ]
      ]

  write_packets-IsCoding :
      (pkts : List AudioPacket) (m : Mp3Muxer d l) (e : l.Encoder) (done : List ℕ)
      → IsCoding m e done
      → (write_packets d l m pkts).1 ≡ true
      → IsCoding (write_packets d l m pkts).0 (encoder_after l e pkts) (done ++ encoded l e pkts)
  unfolding write_packets encoder_after encoded
  write_packets-IsCoding [] m e done r h = rw (append-nil done) r
  write_packets-IsCoding (pkt ∷ rest) m e done r h =
      elim (Bool-cases (is_ok (write_packet d l m pkt).1)) [
        | inr bad ↦ absurd (ground (arith, h, bad))
        | inl good ↦
            rw
              (
                good,
                ← append_assoc done (bytes_or_none (l.encode e (samples_of pkt.payload)).1)
                    (encoded l (l.encode e (samples_of pkt.payload)).0 rest),
              )
              (write_packets-IsCoding rest _ _ _ (write_packet-IsCoding m e done pkt r good)
                (rw good at h))
      ]

  open_mp3-IsCoding :
      (path : d.Place) (fmt : PcmFormat) (kbps : ℕ) (e : l.Encoder)
      → build_encoder d l fmt kbps ≡ some e
      → is_ok (open_mp3 d l (new d l) path fmt kbps).1 ≡ true
      → IsCoding (open_mp3 d l (new d l) path fmt kbps).0 e []
  unfolding open_mp3
  open_mp3-IsCoding path fmt kbps e built h = elim (Option-cases (d.create path)) [
    | inl lost ↦ absurd (ground (arith, h, lost))
    | inr (w, made) ↦
        rw (open_mp3, made, built)
          (record {
            handle = w;
            opened = refl;
            coder = refl;
            written = laws.create_view path w made;
          })
  ]

  -- Finishing appends what the encoder still holds, and puts everything on the disk.
  finalize-on_disk :
      (m : Mp3Muxer d l) (e : l.Encoder) (done : List ℕ)
      → IsCoding m e done
      → is_ok (finalize d l m).1 ≡ true
      → (w : d.Writer) × ((finalize d l m).0.writer ≡ some w)
        × (d.on_disk w ≡ done ++ bytes_or_none (l.flush e).1)
  unfolding finalize close_writer
  finalize-on_disk m e done r h = elim (Option-cases (l.flush e).1) [
    | inl failed ↦ absurd (ground (arith, h, r.coder, failed))
    | inr (bytes, rest) ↦ elim (Bool-cases (write_buffer d l r.handle bytes).1) [
      | inr bad ↦ absurd (ground (arith, h, r.coder, r.opened, rest, bad))
      | inl good ↦ elim (Bool-cases (d.flush (write_buffer d l r.handle bytes).0).1) [
        | inr bad ↦ absurd (ground (arith, h, r.coder, r.opened, rest, good, bad))
        | inl flushed ↦
            rw (finalize, r.coder, rest, close_writer, r.opened, good)
              (
                (d.flush (write_buffer d l r.handle bytes).0).0,
                refl,
                laws.flush_on_disk _ flushed
                    ∙ write_buffer-view r.handle bytes good
                    ∙ ap (λ (t : List ℕ). t ++ bytes) r.written,
              )
      ]
    ]
  ]

-- An MP3 recording that is opened, whose packets are all written and that is finished, each with
-- success, leaves on the disk exactly what the encoder makes of the samples of the packets in their
-- order, with what it still held at the end behind.
pub finalize-mp3_file :
    (d : Disk) (laws : IsDisk d) (l : Lame) (path : d.Place) (fmt : PcmFormat) (kbps : ℕ)
    (e : l.Encoder) (pkts : List AudioPacket)
    → build_encoder d l fmt kbps ≡ some e
    → is_ok (open_mp3 d l (new d l) path fmt kbps).1 ≡ true
    → (write_packets d l (open_mp3 d l (new d l) path fmt kbps).0 pkts).1 ≡ true
    → let m = (write_packets d l (open_mp3 d l (new d l) path fmt kbps).0 pkts).0 in
      is_ok (finalize d l m).1 ≡ true
      → (w : d.Writer) × ((finalize d l m).0.writer ≡ some w) × (d.on_disk w ≡ mp3_file l e pkts)
unfolding mp3_file
finalize-mp3_file d laws l path fmt kbps e pkts built opens writes ends =
    finalize-on_disk d laws l _ _ _
      (write_packets-IsCoding d laws l pkts _ e []
        (open_mp3-IsCoding d laws l path fmt kbps e built opens) writes)
      ends
