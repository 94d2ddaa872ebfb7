-- ===== src/Ipc/Shutdown/Wakeup.antt =====
-- What the wait for the background tasks guarantees, and what it does not.
use baxters_stereo_mix_lin.Base.{ℕ, zero, suc, ◌≡◌, refl, arith, ◌⊎◌, inl, inr, Bool, true, false}
use baxters_stereo_mix_lin.Ipc.Shutdown.{
  Phase, checking, behind_load, waiting, left, World, notify_waiters, count_out, Step, fetch_sub,
  notify, all_done, still_active, register, late_check, late_wait, Steps, here, then_step,
}
use mathlib.Core.Bool.{true≢false}
use mathlib.Core.Path.{subst, sym}

-- A waiter that left with `completed` has seen no task active, and none becomes active.
unfoldable pub SoundAt : Phase → ℕ → Type 0
SoundAt (left true) n = n ≡ 0
SoundAt (left false) n = Unit {0}
SoundAt checking n = Unit {0}
SoundAt behind_load n = Unit {0}
SoundAt waiting n = Unit {0}

abbrev pub Sound : World → Type 0
Sound w = SoundAt w.phase w.active

count-Sound : (n : ℕ) (p : Phase) → SoundAt p (suc n) → SoundAt p n
unfolding SoundAt
count-Sound n checking s = tt
count-Sound n behind_load s = tt
count-Sound n waiting s = tt
count-Sound n (left true) s = absurd (omega arith)
count-Sound n (left false) s = tt

notify-Sound : (n : ℕ) (p : Phase) → SoundAt p n → SoundAt (notify_waiters p) n
unfolding SoundAt notify_waiters
notify-Sound n checking s = tt
notify-Sound n behind_load s = tt
notify-Sound n waiting s = tt
notify-Sound n (left true) s = s
notify-Sound n (left false) s = tt

Step-Sound : (timed : Bool) (u v : World) → Step timed u v → Sound u → Sound v
unfolding SoundAt
Step-Sound timed _ _ (fetch_sub n b p) s = count-Sound n p s
Step-Sound timed _ _ (notify n p) s = notify-Sound n p s
Step-Sound timed _ _ (all_done b) s = refl
Step-Sound timed _ _ (still_active n b) s = tt
Step-Sound timed _ _ (register n b) s = tt
Step-Sound timed _ _ (late_check n b t) s = tt
Step-Sound timed _ _ (late_wait n b t) s = tt

-- The start of a wait for `n` tasks.
abbrev pub begun : ℕ → World
begun n = record { active = n; notifying = false; phase = checking }

-- From any start of the wait, over any interleaving of the accesses of the waiter and the tasks to
-- the counter and to the notification, `completed` means that every task has counted itself out.
pub completed_sound :
    (timed : Bool) (n : ℕ) (w : World)
    → Steps timed (begun n) w
    → w.phase ≡ left true
    → w.active ≡ 0
unfolding SoundAt
completed_sound timed n w steps e = subst (λ p. SoundAt p w.active) e (sound steps)
  where
    sound : {v : World} → Steps timed (begun n) v → Sound v
    sound (here _) = tt
    sound (then_step earlier last) = Step-Sound timed _ _ last (sound earlier)

-- With a deadline some step is always left until the waiter has left the loop.
pub timed-progress : (w : World) → ((b : Bool) × (w.phase ≡ left b)) ⊎ ((v : World) × Step true w v)
timed-progress w = go w.active w.phase
  where
    go :
        (n : ℕ) (p : Phase)
        → ((b : Bool) × (p ≡ left b))
          ⊎ ((v : World) × Step true (record { active = n; notifying = w.notifying; phase = p }) v)
    go zero checking = inr (_, all_done w.notifying)
    go (suc n) checking = inr (_, still_active n w.notifying)
    go n behind_load = inr (_, register n w.notifying)
    go n waiting = inr (_, late_wait n w.notifying refl)
    go n (left b) = inl (b, refl)

-- No task is active, none is to notify, and the waiter waits.
abbrev pub stuck : World
stuck = record { active = 0; notifying = false; phase = waiting }

-- Without a deadline the waiter may wait for a notification that has been: the last task counts
-- itself out and notifies between the load of the counter and `notified()`, and then no step is left.
pub wakeup-lost : Steps false (begun 1) stuck × ((w : World) → Step false stuck w → ⊥)
unfolding notify_waiters count_out
wakeup-lost = (missed, none_left)
  where
    missed : Steps false (begun 1) stuck
    missed =
        then_step
          (then_step
            (then_step (then_step (here _) (still_active 0 false)) (fetch_sub 0 false behind_load))
            (notify 0 behind_load))
          (register 0 false)

    none_left : (w : World) → Step false stuck w → ⊥
    none_left _ (late_wait n b e) = true≢false (sym e)
