-- ===== src/Flac/Channels/Rows.antt =====
-- One row of interleaved samples: what the split into channels does with it.
use baxters_stereo_mix_lin.Base.{
  ℕ, zero, suc, ◌+◌, ◌*◌, ◌%◌, ◌≡◌, refl, sym, ap, ◌∙◌, List, [], ◌∷◌, ◌++◌, append_assoc,
  append-nil, arith, All, length, length-append,
}
use baxters_stereo_mix_lin.Base.Int.{ℤ}
use baxters_stereo_mix_lin.Flac.Channels.{push_at, distribute}

unfoldable pub heads : List (List ℤ) → List ℤ
heads [] = []
heads ([] ∷ cs) = heads cs
heads ((s ∷ c) ∷ cs) = s ∷ heads cs

unfoldable pub tails : List (List ℤ) → List (List ℤ)
tails [] = []
tails ([] ∷ cs) = [] ∷ tails cs
tails ((s ∷ c) ∷ cs) = c ∷ tails cs

-- `n` rows, each of one sample from every channel.
unfoldable pub interleave : ℕ → List (List ℤ) → List ℤ
interleave zero cs = []
interleave (suc n) cs = heads cs ++ interleave n (tails cs)

-- One sample more at the end of every channel.
unfoldable pub snoc_each : List (List ℤ) → List ℤ → List (List ℤ)
snoc_each [] row = []
snoc_each (c ∷ cs) [] = c ∷ cs
snoc_each (c ∷ cs) (s ∷ row) = (c ++ (s ∷ [])) ∷ snoc_each cs row

abbrev pub HasLength : ℕ → List ℤ → Type 0
HasLength n c = length c ≡ n

push_at-append :
    (done : List (List ℤ)) (c : List ℤ) (cs : List (List ℤ)) (s : ℤ)
    → push_at (length done) s (done ++ (c ∷ cs)) ≡ done ++ ((c ++ (s ∷ [])) ∷ cs)
unfolding push_at
push_at-append [] c cs s = refl
push_at-append (d ∷ done) c cs s = ap (λ t. d ∷ t) (push_at-append done c cs s)

-- A row of samples, from a column on, goes to the ends of the channels.
pub distribute-row :
    (channels q : ℕ) (done todo : List (List ℤ)) (row rest : List ℤ)
    → length todo ≡ length row
    → length done + length row ≡ channels
    → distribute channels (q * channels + length done) (done ++ todo) (row ++ rest)
      ≡ distribute channels (q * channels + channels) (done ++ snoc_each todo row) rest
unfolding distribute snoc_each
distribute-row channels q done [] [] rest e count =
    ap (λ t. distribute channels (q * channels + t) (done ++ []) rest) (omega arith)
distribute-row channels q done (c ∷ cs) [] rest e count = absurd (omega arith)
distribute-row channels q done [] (s ∷ row) rest e count = absurd (omega arith)
distribute-row channels q done (c ∷ cs) (s ∷ row) rest e count =
    ap (λ t. distribute channels (i + 1) (push_at t s (done ++ (c ∷ cs))) (row ++ rest)) column
    ∙ ap (λ t. distribute channels (i + 1) t (row ++ rest))
        (push_at-append done c cs s ∙ sym (append_assoc done (c' ∷ []) cs))
    ∙ ap (λ t. distribute channels t ((done ++ (c' ∷ [])) ++ cs) (row ++ rest)) next
    ∙ distribute-row channels q (done ++ (c' ∷ [])) cs row rest (omega arith)
        (omega (arith, length-append done (c' ∷ [])))
    ∙ ap (λ t. distribute channels (q * channels + channels) t rest)
        (append_assoc done (c' ∷ []) (snoc_each cs row))
  where
    i : ℕ
    i = q * channels + length done

    c' : List ℤ
    c' = c ++ (s ∷ [])

    column : i % channels ≡ length done
    column = grind arith

    next : i + 1 ≡ q * channels + length (done ++ (c' ∷ []))
    next = omega (arith, length-append done (c' ∷ []))

heads-snoc_each :
    (n : ℕ) (cs : List (List ℤ)) (row : List ℤ)
    → All (HasLength (suc n)) cs
    → heads (snoc_each cs row) ≡ heads cs
unfolding heads snoc_each
heads-snoc_each n [] row all = refl
heads-snoc_each n (c ∷ cs) [] all = refl
heads-snoc_each n ([] ∷ cs) (s ∷ row) all = absurd (omega (arith, all.0))
heads-snoc_each n ((x ∷ c) ∷ cs) (s ∷ row) all = ap (λ t. x ∷ t) (heads-snoc_each n cs row all.1)

tails-snoc_each :
    (n : ℕ) (cs : List (List ℤ)) (row : List ℤ)
    → All (HasLength (suc n)) cs
    → tails (snoc_each cs row) ≡ snoc_each (tails cs) row
unfolding tails snoc_each
tails-snoc_each n [] row all = refl
tails-snoc_each n ([] ∷ cs) row all = absurd (omega (arith, all.0))
tails-snoc_each n ((x ∷ c) ∷ cs) [] all = refl
tails-snoc_each n ((x ∷ c) ∷ cs) (s ∷ row) all =
    ap (λ t. (c ++ (s ∷ [])) ∷ t) (tails-snoc_each n cs row all.1)

tails-lengths :
    (n : ℕ) (cs : List (List ℤ)) → All (HasLength (suc n)) cs → All (HasLength n) (tails cs)
unfolding tails
tails-lengths n [] all = tt
tails-lengths n ([] ∷ cs) all = absurd (omega (arith, all.0))
tails-lengths n ((x ∷ c) ∷ cs) all = (omega (arith, all.0), tails-lengths n cs all.1)

length-tails : (cs : List (List ℤ)) → length (tails cs) ≡ length cs
unfolding tails
length-tails [] = refl
length-tails ([] ∷ cs) = ap suc (length-tails cs)
length-tails ((x ∷ c) ∷ cs) = ap suc (length-tails cs)

heads-singles :
    (cs : List (List ℤ)) (row : List ℤ)
    → length cs ≡ length row
    → All (HasLength 0) cs
    → heads (snoc_each cs row) ≡ row
unfolding heads snoc_each
heads-singles [] [] e all = refl
heads-singles [] (s ∷ row) e all = absurd (omega arith)
heads-singles (c ∷ cs) [] e all = absurd (omega arith)
heads-singles ([] ∷ cs) (s ∷ row) e all = ap (λ t. s ∷ t) (heads-singles cs row (omega arith) all.1)
heads-singles ((x ∷ c) ∷ cs) (s ∷ row) e all = absurd (omega (arith, all.0))

-- A row at the ends of the channels is the last row.
pub interleave-snoc_each :
    (n : ℕ) (cs : List (List ℤ)) (row : List ℤ)
    → length cs ≡ length row
    → All (HasLength n) cs
    → interleave (n + 1) (snoc_each cs row) ≡ interleave n cs ++ row
unfolding interleave
interleave-snoc_each zero cs row e all =
    append-nil (heads (snoc_each cs row)) ∙ heads-singles cs row e all
interleave-snoc_each (suc n) cs row e all =
    let more : suc n + 1 ≡ suc (n + 1) = omega arith in
    rw
      (
        more,
        heads-snoc_each n cs row all,
        tails-snoc_each n cs row all,
        interleave-snoc_each n (tails cs) row (length-tails cs ∙ e) (tails-lengths n cs all),
      )
      (sym (append_assoc (heads cs) (interleave n (tails cs)) row))

pub snoc_each-lengths :
    (n : ℕ) (cs : List (List ℤ)) (row : List ℤ)
    → length cs ≡ length row
    → All (HasLength n) cs
    → All (HasLength (n + 1)) (snoc_each cs row)
unfolding snoc_each
snoc_each-lengths n [] row e all = tt
snoc_each-lengths n (c ∷ cs) [] e all = absurd (omega arith)
snoc_each-lengths n (c ∷ cs) (s ∷ row) e all =
    (omega (arith, length-append c (s ∷ []), all.0), snoc_each-lengths n cs row (omega arith) all.1)

pub length-snoc_each : (cs : List (List ℤ)) (row : List ℤ) → length (snoc_each cs row) ≡ length cs
unfolding snoc_each
length-snoc_each [] row = refl
length-snoc_each (c ∷ cs) [] = refl
length-snoc_each (c ∷ cs) (s ∷ row) = ap suc (length-snoc_each cs row)
