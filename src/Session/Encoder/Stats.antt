-- ===== src/Session/Encoder/Stats.antt =====
-- The packets that the encode task sends.
use baxters_stereo_mix_lin.Base.{
  ℕ, ◌^◌, ltb, ◌≤◌, ◌≡◌, refl, sym, ap, ◌∙◌, Bool, true, false, Option, none, some, List, [], ◌∷◌,
  ◌++◌, map, arith, append-nil, append_assoc, Bool-cases, inl, inr,
}
use baxters_stereo_mix_lin.Base.Bits.{u64}
use baxters_stereo_mix_lin.Base.Int.{twos}
use baxters_stereo_mix_lin.Core.{PcmFrame, AudioPacket}
use baxters_stereo_mix_lin.Session.Encoder.{
  EncoderTask, fresh, Turn, as_i64, packet_of, report, count_frame, send_packet, encode_loop,
}

-- The frames taken: up to a shutdown, a closed channel or a lost receiver.
unfoldable pub taken : List Turn → List PcmFrame
taken [] = []
taken (turn ∷ rest) = elim turn.shutdown [
  | true ↦ []
  | false ↦ elim turn.frame [
    | none ↦ []
    | some f ↦ elim turn.receiver [ false ↦ [] | true ↦ f ∷ taken rest ]
  ]
]

report-packets : (t : EncoderTask) (turn : Turn) → (report t turn).packets ≡ t.packets
unfolding report
report-packets t turn = ground arith

-- A turn of given parts.
abbrev part : Turn → Bool → Option PcmFrame → Bool → Turn
part turn s f r = record turn { shutdown = s; frame = f; receiver = r }

turn-packets :
    (t : EncoderTask) (turn : Turn) (rest : List Turn) (s : Bool) (f : Option PcmFrame) (r : Bool)
    → ((t' : EncoderTask)
        → (encode_loop t' rest).packets ≡ t'.packets ++ map packet_of (taken rest))
    → (encode_loop t (part turn s f r ∷ rest)).packets
      ≡ t.packets ++ map packet_of (taken (part turn s f r ∷ rest))
unfolding encode_loop taken count_frame send_packet
turn-packets t turn rest true f r later = sym (append-nil t.packets)
turn-packets t turn rest false none r later = sym (append-nil t.packets)
turn-packets t turn rest false (some f) false later = sym (append-nil t.packets)
turn-packets t turn rest false (some f) true later =
    later _
    ∙ ap (λ p. p ++ map packet_of (taken rest))
        (report-packets (send_packet (count_frame t f) f turn) _)
    ∙ append_assoc t.packets (packet_of f ∷ []) (map packet_of (taken rest))

loop-packets :
    (turns : List Turn) (t : EncoderTask)
    → (encode_loop t turns).packets ≡ t.packets ++ map packet_of (taken turns)
unfolding encode_loop taken
loop-packets [] t = sym (append-nil t.packets)
loop-packets (turn ∷ rest) t =
    turn-packets t turn rest turn.shutdown turn.frame turn.receiver (loop-packets rest)

-- The packet of a frame: the same bytes, and as time and duration the same 64 bits.
abbrev pub Carries : PcmFrame → AudioPacket → Type 0
Carries f p =
    (p.payload ≡ f.payload)
    × (twos 64 p.pts ≡ u64 f.timestamp_us)
    × (twos 64 p.duration ≡ u64 f.frame_count)
    × (p.is_key ≡ true)

-- One packet for each frame, in their order.
unfoldable pub Carried : List PcmFrame → List AudioPacket → Type 0
Carried [] [] = Unit {0}
Carried [] (p ∷ ps) = ⊥
Carried (f ∷ fs) [] = ⊥
Carried (f ∷ fs) (p ∷ ps) = Carries f p × Carried fs ps

twos-as_i64 : (n : ℕ) → twos 64 (as_i64 n) ≡ u64 n
unfolding as_i64
twos-as_i64 n = elim (Bool-cases (ltb (u64 n) (2 ^ 63))) [
  | inl low ↦ rw (as_i64, low) (omega arith)
  | inr high ↦
      let above : 2 ^ 63 ≤ u64 n = ground (arith, high) in rw (as_i64, high) (omega (arith, above))
]

Carried-map : (fs : List PcmFrame) → Carried fs (map packet_of fs)
unfolding Carried packet_of
Carried-map [] = tt
Carried-map (f ∷ fs) =
    ((refl, twos-as_i64 f.timestamp_us, twos-as_i64 f.frame_count, refl), Carried-map fs)

-- The packets sent are those of the frames taken in their order, one for each, with the bytes of its
-- frame and the 64 bits of its time and of its count of frames.
pub encode_loop-Carried :
    (turns : List Turn) → Carried (taken turns) (encode_loop fresh turns).packets
unfolding fresh
encode_loop-Carried turns = rw (loop-packets turns fresh) (Carried-map (taken turns))
