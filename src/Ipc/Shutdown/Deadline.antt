-- ===== src/Ipc/Shutdown/Deadline.antt =====
-- The polling wait with a deadline in `shutdown_blocking_with_timeout` of
-- crates/bsm-ipc/src/dispatcher.rs: look `k` loads the counter of active tasks, reads the clock and
-- sleeps for 20 ms. The loop runs on fuel; `none` means that the fuel is spent.
use baxters_stereo_mix_lin.Base.{
  ℕ, zero, suc, ◌+◌, ◌*◌, ◌/◌, ◌≤◌, ◌<◌, ◌≡◌, inl, inr, Bool, ap, true, false, Option, none, some,
  leb, ◌==◌, if◌then◌else◌, arith, Bool-cases,
}

-- A sleep lasts at least 20 ms.
abbrev pub Sleeps : (ℕ → ℕ) → Type 0
Sleeps clock = (k : ℕ) → clock k + 20 ≤ clock (k + 1)

module _ (clock active : ℕ → ℕ) (deadline : ℕ) where
  unfoldable pub poll_until : ℕ → ℕ → Option Bool
  poll_until zero k = none
  poll_until (suc fuel) k =
      let later = poll_until fuel (k + 1) in
      if active k == 0 then some true else if leb deadline (clock k) then some false else later

  -- Every look before `k` saw a task active, and the clock before the deadline.
  unfoldable pub Waited : ℕ → Type 0
  Waited zero = Unit {0}
  Waited (suc k) = Waited k × (0 < active k) × (clock k < deadline)

  -- What an answer tells: the loop came to a look that sees no task active; or it came to a look that
  -- sees one and finds the deadline passed.
  unfoldable pub Explained : Option Bool → Type 0
  Explained none = ⊥
  Explained (some true) = (k : ℕ) × Waited k × (active k ≡ 0)
  Explained (some false) = (k : ℕ) × Waited k × (0 < active k) × (deadline ≤ clock k)

  -- One look, from the answer of the looks that follow it.
  turn-Explained :
      (fuel k : ℕ)
      → Waited k
      → (clock k < deadline → Waited (suc k) → Explained (poll_until fuel (suc k)))
      → Explained (poll_until (suc fuel) k)
  unfolding poll_until Explained Waited
  turn-Explained fuel k waited later = elim (Bool-cases (active k == 0)) [
    | inl done ↦ rw (poll_until, done) (k, waited, ground arith)
    | inr more ↦ elim (Bool-cases (leb deadline (clock k))) [
      | inl late ↦ rw (poll_until, more, late) (k, waited, ground arith, ground arith)
      | inr early ↦
          let next : k + 1 ≡ suc k = omega arith in
          rw (poll_until, more, early, next)
            (later (ground arith) (waited, ground arith, ground arith))
    ]
  ]

  poll_until-Explained :
      Sleeps clock
      → (fuel k : ℕ) → deadline ≤ clock k + 20 * fuel
      → Waited k
      → Explained (poll_until (suc fuel) k)
  poll_until-Explained sleeps zero k enough waited =
      turn-Explained zero k waited (λ early still. absurd (omega (arith, early, enough)))
  poll_until-Explained sleeps (suc fuel) k enough waited =
      turn-Explained (suc fuel) k waited
        (λ early still. poll_until-Explained sleeps fuel (suc k) (soon early) still)
    where
      soon : clock k < deadline → deadline ≤ clock (suc k) + 20 * fuel
      soon early =
          let next : k + 1 ≡ suc k = omega arith in
          let slept : clock k + 20 ≤ clock (suc k) = rw next at (sleeps k) in
          omega (arith, slept, enough)

  Waited-before : (k i : ℕ) → i < k → Waited k → (0 < active i) × (clock i < deadline)
  unfolding Waited
  Waited-before zero i h w = absurd (omega arith)
  Waited-before (suc k) i h w = elim (Bool-cases (i == k)) [
    | inl same ↦ let e : i ≡ k = ground arith in rw e (w.1, w.2)
    | inr other ↦ Waited-before k i (ground arith) w.0
  ]

  -- No two answers are explained by the same looks.
  Explained-either : Explained (some true) → Explained (some false) → ⊥
  unfolding Explained
  Explained-either (k, waited, none_left) (i, held, busy, late) = elim (Bool-cases (leb k i)) [
    | inl low ↦ elim (Bool-cases (k == i)) [
      | inl same ↦ let e : k ≡ i = ground arith in omega (arith, busy, ap active e, none_left)
      | inr other ↦ omega (arith, (Waited-before i k (ground arith) held).0, none_left)
    ]
    | inr high ↦ omega (arith, (Waited-before k i (ground arith) waited).1, late)
  ]

-- The wait with a deadline ends: where each sleep lasts at least 20 ms and the clock is first read
-- no earlier than the wait began, `max_wait / 20 + 2` looks are enough. The answer is true where the
-- loop came to a look that saw no task active, and false where it came to a look that saw one with
-- the deadline passed; every look before saw one with the deadline ahead. Both cannot hold.
pub poll_until-returns :
    (clock active : ℕ → ℕ) (begun max_wait : ℕ)
    → Sleeps clock
    → begun ≤ clock 0
    → Explained clock active
        (begun + max_wait)
        (poll_until clock active (begun + max_wait) (max_wait / 20 + 2) 0)
      × ¬ (
          Explained clock active (begun + max_wait) (some true)
          × Explained clock active (begun + max_wait) (some false))
unfolding Waited
poll_until-returns clock active begun max_wait sleeps first =
    let enough : max_wait / 20 + 2 ≡ suc (max_wait / 20 + 1) = omega arith in
    (
      rw enough (
          poll_until-Explained clock active (begun + max_wait) sleeps (max_wait / 20 + 1) 0
            (omega (arith, first)) tt),
      λ both. Explained-either clock active (begun + max_wait) both.0 both.1,
    )
