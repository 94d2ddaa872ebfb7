-- ===== src/Audio/Loopback/Capture.antt =====
-- What the capture loop of crates/bsm-audio/src/loopback.rs sends, and the buffers it holds.
use baxters_stereo_mix_lin.Base.{
  ℕ, zero, suc, ◌+◌, ◌*◌, ◌/◌, ◌%◌, ◌^◌, ◌≤◌, ◌<◌, ◌≡◌, refl, ap, ◌∙◌, true, false, Bool, List, [],
  ◌∷◌, ◌++◌, length, length-append, length-replicate, All, All-append, max, arith, ◌==◌, ltb,
  Bool-cases, inl, inr,
}
use baxters_stereo_mix_lin.Base.Bits.{u64}
use baxters_stereo_mix_lin.Base.Int.{ℤ}
use baxters_stereo_mix_lin.Core.{PcmFrame, bytes_per_sample, bytes_per_frame}
use baxters_stereo_mix_lin.Audio.Backend.{IsWhole}
use baxters_stereo_mix_lin.Audio.Channels.{i16_bytes}
use baxters_stereo_mix_lin.Audio.Loopback.{
  MixInfo, mix_frame, mix_frames, mix_to_i16, to_pcm_format, packet_frame, Poll, size_failed, empty,
  buffer_failed, packet, Call, got_buffer, released_buffer, CaptureState, Round, drain,
  capture_loop,
}
use native.Mathlib.Nat.{mul-div_cancel, mul-pos, mul-le-mul_right}

-- Every buffer taken is given back before the next is taken.
pub data Balanced : List Call → Type 0 where
  none_taken : Balanced []
  one_more :
      (n : ℕ) (rest : List Call)
      → Balanced rest
      → Balanced (got_buffer n ∷ released_buffer n ∷ rest)

Balanced-snoc :
    (calls : List Call) (n : ℕ)
    → Balanced calls
    → Balanced ((calls ++ (got_buffer n ∷ [])) ++ (released_buffer n ∷ []))
Balanced-snoc _ n none_taken = one_more n [] none_taken
Balanced-snoc _ n (one_more k rest b) = one_more k _ (Balanced-snoc rest n b)

-- Frames numbered one after the other, as a 64-bit counter does it.
unfoldable pub Numbered : ℕ → List PcmFrame → Type 0
Numbered k [] = Unit {0}
Numbered k (f ∷ rest) = (f.sequence ≡ u64 k) × Numbered (k + 1) rest

Numbered-snoc :
    (k : ℕ) (fs : List PcmFrame) (f : PcmFrame)
    → Numbered k fs
    → f.sequence ≡ u64 (k + length fs)
    → Numbered k (fs ++ (f ∷ []))
unfolding Numbered
Numbered-snoc k [] f h e = (e ∙ (let z : k + 0 ≡ k = omega arith in rw z refl), tt)
Numbered-snoc k (g ∷ fs) f h e = (
  h.0,
  Numbered-snoc (k + 1) fs f h.1
      (e ∙ (let z : k + suc (length fs) ≡ k + 1 + length fs = omega arith in rw z refl)),
)

-- A packet holds the bytes of its frames.
unfoldable pub IsPacket : MixInfo → Poll → Type 0
IsPacket mix (packet now num_frames silent bytes receiver) =
    length bytes ≡ num_frames * (mix.channels * (mix.bits / 8))
IsPacket mix size_failed = Unit {0}
IsPacket mix empty = Unit {0}
IsPacket mix buffer_failed = Unit {0}

pub record IsOrderly (s : CaptureState) : Type 0 where
  pub balanced : Balanced s.calls
  pub counted : s.seq ≡ u64 (length s.sent)
  pub numbered : Numbered 0 s.sent
  pub whole : All IsWhole s.sent

module _ (from_f32 : ℕ → ℕ → ℕ → ℕ → ℤ) (mix : MixInfo) (ch : ℕ) where
  length-mix_frame :
      (bytes : List ℕ) (src width dst f dch k : ℕ)
      → length (mix_frame from_f32 bytes mix src width dst f dch k) ≡ k * 2
  unfolding mix_frame i16_bytes
  length-mix_frame bytes src width dst f dch zero = omega arith
  length-mix_frame bytes src width dst f dch (suc k) =
      omega (arith, length-mix_frame bytes src width dst f (dch + 1) k)

  length-mix_frames :
      (bytes : List ℕ) (src width dst f k : ℕ)
      → length (mix_frames from_f32 bytes mix src width dst f k) ≡ k * (dst * 2)
  unfolding mix_frames
  length-mix_frames bytes src width dst f zero = omega arith
  length-mix_frames bytes src width dst f (suc k) = grind (
    arith,
    length-append (mix_frame from_f32 bytes mix src width dst f 0 dst)
        (mix_frames from_f32 bytes mix src width dst (f + 1) k),
    length-mix_frame bytes src width dst f 0 dst,
    length-mix_frames bytes src width dst (f + 1) k,
  )

  module _ (some_channel : 1 ≤ mix.channels) (some_bits : 8 ≤ mix.bits) (wanted : 1 ≤ ch)
      (few : ch < 2 ^ 16) where
    -- Whatever the depth of the mix, each of its frames gives one of the wanted channels.
    length-mix_to_i16 :
        (bytes : List ℕ) (n : ℕ)
        → 0 < n
        → length bytes ≡ n * (mix.channels * (mix.bits / 8))
        → length (mix_to_i16 from_f32 bytes mix ch) ≡ n * (ch * 2)
    unfolding mix_to_i16
    length-mix_to_i16 bytes n some_frame count =
        rw (mix_to_i16, one_src, one_dst, width, some_stride, long, frames)
          (length-mix_frames bytes mix.channels (mix.bits / 8) ch 0 n)
      where
        one_src : max mix.channels 1 ≡ mix.channels
        one_src = omega arith

        one_dst : max ch 1 ≡ ch
        one_dst = omega arith

        width : max (mix.bits / 8) 1 ≡ mix.bits / 8
        width = omega arith

        positive : 0 < mix.channels * (mix.bits / 8)
        positive = mul-pos some_channel (omega arith)

        some_stride : (mix.channels * (mix.bits / 8) == 0) ≡ false
        some_stride = ground (arith, positive)

        long : ltb (length bytes) (mix.channels * (mix.bits / 8)) ≡ false
        long =
            let least : 1 * (mix.channels * (mix.bits / 8)) ≤ n * (mix.channels * (mix.bits / 8)) =
              mul-le-mul_right (mix.channels * (mix.bits / 8)) some_frame in
            ground (arith, count, least)

        frames : length bytes / (mix.channels * (mix.bits / 8)) ≡ n
        frames = rw count (mul-div_cancel n positive)

    packet_frame-IsWhole :
        (now seq n : ℕ) (silent : Bool) (bytes : List ℕ)
        → 0 < n
        → length bytes ≡ n * (mix.channels * (mix.bits / 8))
        → IsWhole (packet_frame from_f32 mix ch now seq n silent bytes)
    unfolding IsWhole packet_frame to_pcm_format bytes_per_frame bytes_per_sample
    packet_frame-IsWhole now seq n true bytes some_frame count =
        length-replicate (n * ch * 2) 0
        ∙ (let e : n * ch * 2 ≡ n * (ch * 2) = grind arith in e ∙ ap (λ (k : ℕ). n * k) two)
      where
        two : ch * 2 ≡ 2 * ch % 2 ^ 32
        two = omega arith
    packet_frame-IsWhole now seq n false bytes some_frame count =
        length-mix_to_i16 bytes n some_frame count ∙ ap (λ (k : ℕ). n * k) two
      where
        two : ch * 2 ≡ 2 * ch % 2 ^ 32
        two = omega arith

    -- A packet's frame joins those sent.
    sent-IsOrderly :
        (s : CaptureState) (now n : ℕ) (silent : Bool) (bytes : List ℕ)
        → IsOrderly s
        → 0 < n
        → length bytes ≡ n * (mix.channels * (mix.bits / 8))
        → IsOrderly (record {
          seq = u64 (s.seq + 1);
          sent = s.sent ++ (packet_frame from_f32 mix ch now s.seq n silent bytes ∷ []);
          calls = (s.calls ++ (got_buffer n ∷ [])) ++ (released_buffer n ∷ []);
        })
    unfolding packet_frame
    sent-IsOrderly s now n silent bytes h some_frame count = record {
      balanced = Balanced-snoc s.calls n h.balanced;
      counted =
          (let l =
              length-append s.sent (packet_frame from_f32 mix ch now s.seq n silent bytes ∷ []) in
            omega (arith, l, h.counted));
      numbered =
          Numbered-snoc 0 s.sent _ h.numbered
            (h.counted ∙ (let z : 0 + length s.sent ≡ length s.sent = omega arith in rw z refl));
      whole =
          All-append IsWhole s.sent _ h.whole
            (packet_frame-IsWhole now s.seq n silent bytes some_frame count, tt);
    }

    returned-IsOrderly :
        (s : CaptureState) (n : ℕ)
        → IsOrderly s
        → IsOrderly
            (record s { calls = (s.calls ++ (got_buffer n ∷ [])) ++ (released_buffer n ∷ []) })
    returned-IsOrderly s n h = record {
      balanced = Balanced-snoc s.calls n h.balanced;
      counted = h.counted;
      numbered = h.numbered;
      whole = h.whole;
    }

    drain-IsOrderly :
        (polls : List Poll) (s : CaptureState)
        → IsOrderly s
        → All (IsPacket mix) polls
        → IsOrderly (drain from_f32 mix ch s polls).0
    unfolding drain IsPacket
    drain-IsOrderly [] s h all = h
    drain-IsOrderly (size_failed ∷ rest) s h all = h
    drain-IsOrderly (empty ∷ rest) s h all = h
    drain-IsOrderly (buffer_failed ∷ rest) s h all = h
    drain-IsOrderly (packet now n silent bytes true ∷ rest) s h all = elim (Bool-cases (ltb 0 n)) [
      | inl some_frame ↦
          rw (drain, some_frame)
            (drain-IsOrderly rest _ (sent-IsOrderly s now n silent bytes h (ground arith) all.0)
              all.1)
      | inr no_frame ↦
          rw (drain, no_frame) (drain-IsOrderly rest _ (returned-IsOrderly s n h) all.1)
    ]
    drain-IsOrderly (packet now n silent bytes false ∷ rest) s h all = elim (Bool-cases (ltb 0 n)) [
      | inl some_frame ↦ rw (drain, some_frame) (returned-IsOrderly s n h)
      | inr no_frame ↦
          rw (drain, no_frame) (drain-IsOrderly rest _ (returned-IsOrderly s n h) all.1)
    ]

    rounds-IsOrderly :
        (rounds : List Round) (s : CaptureState)
        → IsOrderly s
        → All (λ (r : Round). All (IsPacket mix) r.polls) rounds
        → IsOrderly (capture_loop from_f32 mix ch s rounds)
    unfolding capture_loop
    rounds-IsOrderly [] s h all = h
    rounds-IsOrderly (round ∷ rest) s h all = elim (Bool-cases round.stopped) [
      | inl over ↦ rw (capture_loop, over) h
      | inr on ↦ elim (Bool-cases (drain from_f32 mix ch s round.polls).1) [
        | inl goes_on ↦
            rw (capture_loop, on, goes_on)
              (rounds-IsOrderly rest _ (drain-IsOrderly round.polls s h all.0) all.1)
        | inr ended ↦ rw (capture_loop, on, ended) (drain-IsOrderly round.polls s h all.0)
      ]
    ]

abbrev pub at_first : CaptureState
at_first = record { seq = 0; sent = []; calls = [] }

-- For a mix of at least one channel and 8 bits, from 1 to 65535 wanted channels, and packets that
-- hold the bytes of their frames: whatever the audio client, the receiver and the stop channel do,
-- the capture loop has given back every buffer before it takes the next, also when it ends; the
-- frames it sent are numbered from 0 on, and each has the bytes that its format calls for.
pub capture_loop-IsOrderly :
    (from_f32 : ℕ → ℕ → ℕ → ℕ → ℤ) (mix : MixInfo) (ch : ℕ) (rounds : List Round)
    → 1 ≤ mix.channels
    → 8 ≤ mix.bits
    → 1 ≤ ch
    → ch < 2 ^ 16
    → All (λ (r : Round). All (IsPacket mix) r.polls) rounds
    → IsOrderly (capture_loop from_f32 mix ch at_first rounds)
unfolding Numbered
capture_loop-IsOrderly from_f32 mix ch rounds some_channel some_bits wanted few all =
    rounds-IsOrderly from_f32 mix ch some_channel some_bits wanted few rounds at_first
      (record { balanced = none_taken; counted = refl; numbered = tt; whole = tt }) all
