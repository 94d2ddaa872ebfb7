-- ===== src/Flac/Channels/RoundTrip.antt =====
-- Interleaving, as a decoder does it, undoes the split into channels.
use baxters_stereo_mix_lin.Base.{
  ℕ, zero, suc, ◌+◌, ◌*◌, ◌%◌, ◌≡◌, refl, sym, ap, ◌∙◌, List, [], ◌∷◌, ◌++◌, append_assoc,
  append-nil, arith, All, All-append, length, take, drop, replicate, take-append-drop, length-take,
  length-drop, length-replicate,
}
use baxters_stereo_mix_lin.Base.Int.{ℤ}
use baxters_stereo_mix_lin.Flac.Channels.{push_at, distribute, deinterleave}
use baxters_stereo_mix_lin.Flac.Channels.Rows.{
  interleave, snoc_each, HasLength, distribute-row, interleave-snoc_each, snoc_each-lengths,
  length-snoc_each,
}
use mathlib.Core.Path.{subst}

-- A row taken into the channels: the state that the loop keeps between rows.
record IsFilled (channels n : ℕ) (cs : List (List ℤ)) (samples : List ℤ) : Type 0 where
  wide : length cs ≡ channels
  long : All (HasLength n) cs
  order : interleave n cs ≡ samples

distribute-IsFilled :
    (channels q n : ℕ) (cs : List (List ℤ)) (before samples : List ℤ)
    → IsFilled channels q cs before
    → length samples ≡ n * channels
    → IsFilled channels (q + n) (distribute channels (q * channels) cs samples) (before ++ samples)
distribute-IsFilled channels q zero cs before [] f e =
    let stay : q ≡ q + 0 = omega arith in
    unfold distribute in
    subst (λ t. IsFilled channels t cs (before ++ [])) stay
      (subst (λ t. IsFilled channels q cs t) (sym (append-nil before)) f)
distribute-IsFilled channels q zero cs before (s ∷ samples) f e = absurd (omega arith)
distribute-IsFilled channels q (suc n) cs before samples f e =
    subst
      (λ t. IsFilled channels (q + suc n) (distribute channels (q * channels) cs t) (before ++ t))
      (take-append-drop channels samples)
      (subst (λ t. IsFilled channels (q + suc n) t (before ++ (row ++ rest))) (sym turn)
        (subst
          (λ t.
            IsFilled channels (q + suc n)
              (distribute channels ((q + 1) * channels) (snoc_each cs row) rest) t)
          (append_assoc before row rest)
          (subst
            (λ t.
              IsFilled channels t (distribute channels ((q + 1) * channels) (snoc_each cs row) rest)
                ((before ++ row) ++ rest))
            count
            (distribute-IsFilled channels (q + 1) n (snoc_each cs row) (before ++ row) rest filled
              remaining))))
  where
    row : List ℤ
    row = take channels samples

    rest : List ℤ
    rest = drop channels samples

    width : length cs ≡ length row
    width = ground (arith, f.wide, length-take channels samples, e)

    count : q + 1 + n ≡ q + suc n
    count = omega arith

    remaining : length rest ≡ n * channels
    remaining = grind (arith, length-drop channels samples, e)

    filled : IsFilled channels (q + 1) (snoc_each cs row) (before ++ row)
    filled = record {
      wide = length-snoc_each cs row ∙ f.wide;
      long = snoc_each-lengths q cs row width f.long;
      order = interleave-snoc_each q cs row width f.long ∙ ap (λ t. t ++ row) f.order;
    }

    turn :
        distribute channels (q * channels) cs (row ++ rest)
        ≡ distribute channels ((q + 1) * channels) (snoc_each cs row) rest
    turn =
        ap (λ t. distribute channels t cs (row ++ rest)) start
        ∙ distribute-row channels q [] cs row rest width (ground (arith, f.wide, width))
        ∙ ap (λ t. distribute channels t (snoc_each cs row) rest) next
      where
        start : q * channels ≡ q * channels + 0
        start = omega arith

        next : q * channels + channels ≡ (q + 1) * channels
        next = grind arith

empty-IsFilled : (channels : ℕ) → IsFilled channels 0 (replicate channels []) []
unfolding interleave
empty-IsFilled channels = record {
  wide = length-replicate channels [];
  long = none_yet channels;
  order = refl;
}
  where
    none_yet : (k : ℕ) → All (HasLength 0) (replicate k [])
    none_yet zero = tt
    none_yet (suc k) = (refl, none_yet k)

-- Of `n` samples in each of `channels` channels, the split makes one list for each channel, each
-- of `n` samples, and interleaving them again gives the samples in their order.
pub deinterleave-IsFilled :
    (channels n : ℕ) (interleaved : List ℤ)
    → length interleaved ≡ n * channels
    → (length (deinterleave channels interleaved) ≡ channels)
      × All (HasLength n) (deinterleave channels interleaved)
      × (interleave n (deinterleave channels interleaved) ≡ interleaved)
unfolding deinterleave
deinterleave-IsFilled channels n interleaved e =
    let f =
      distribute-IsFilled channels 0 n (replicate channels []) [] interleaved
        (empty-IsFilled channels) e in
    let none : 0 * channels ≡ 0 = omega arith in
    let all : 0 + n ≡ n = omega arith in
    let g =
      subst
        (λ t.
          IsFilled channels n (distribute channels t (replicate channels []) interleaved)
            interleaved)
        none
        (subst
          (λ t.
            IsFilled channels t
              (distribute channels (0 * channels) (replicate channels []) interleaved) interleaved)
          all f) in
    (g.wide, g.long, g.order)

push_at-All :
    (P : ℤ → Type 0) (k : ℕ) (s : ℤ) (cs : List (List ℤ))
    → P s
    → All (All P) cs
    → All (All P) (push_at k s cs)
unfolding push_at
push_at-All P k s [] h all = tt
push_at-All P zero s (c ∷ cs) h all = (All-append P c (s ∷ []) all.0 (h, tt), all.1)
push_at-All P (suc k) s (c ∷ cs) h all = (all.0, push_at-All P k s cs h all.1)

distribute-All :
    (P : ℤ → Type 0) (channels i : ℕ) (cs : List (List ℤ)) (samples : List ℤ)
    → All (All P) cs
    → All P samples
    → All (All P) (distribute channels i cs samples)
unfolding distribute
distribute-All P channels i cs [] all each = all
distribute-All P channels i cs (s ∷ rest) all each =
    distribute-All P channels (i + 1) _ rest (push_at-All P (i % channels) s cs each.0 all) each.1

-- What holds of every sample holds of every sample of every channel.
pub deinterleave-All :
    (P : ℤ → Type 0) (channels : ℕ) (interleaved : List ℤ)
    → All P interleaved
    → All (All P) (deinterleave channels interleaved)
unfolding deinterleave
deinterleave-All P channels interleaved each =
    distribute-All P channels 0 (replicate channels []) interleaved (none_yet channels) each
  where
    none_yet : (k : ℕ) → All (All P) (replicate k [])
    none_yet zero = tt
    none_yet (suc k) = (tt, none_yet k)
