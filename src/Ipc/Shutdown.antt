-- ===== src/Ipc/Shutdown.antt =====
-- The end of a session in crates/bsm-ipc/src/dispatcher.rs: `shutdown_with_timeout` and its
-- siblings, with the background tasks that end meanwhile. One step is one access to the shared
-- counter or to `Notify`: the interleavings of the waiter and the tasks are the sequences of steps.
pub mod Wakeup
pub mod Deadline
use baxters_stereo_mix_lin.Base.{ℕ, zero, suc, ◌≡◌, Bool, true, false, Option, none, some, List}
use baxters_stereo_mix_lin.Ipc.Dispatcher.{Dispatcher, Tasks, signal_shutdown}

-- Where the waiter stands: in front of a load of the counter; behind a load that was not zero, with
-- no `notified()` yet; waiting for the notification; out of the loop, with the value of `completed`.
pub data Phase : Type 0 where
  checking : Phase
  behind_load : Phase
  waiting : Phase
  left : Bool → Phase

-- `notifying`: the last task has counted itself out and has not called `notify_waiters` yet.
pub record World : Type 0 where
  pub active : ℕ
  pub notifying : Bool
  pub phase : Phase

-- `notify_waiters` wakes the waiter that waits, and nobody else; no permit is kept.
unfoldable pub notify_waiters : Phase → Phase
notify_waiters waiting = checking
notify_waiters checking = checking
notify_waiters behind_load = behind_load
notify_waiters (left b) = left b

-- `fetch_sub(1) == 1`: the task whose count was the last goes on to notify.
unfoldable pub count_out : ℕ → Bool → Bool
count_out zero b = true
count_out (suc n) b = b

-- The ends of the tasks, and the arms of the wait. `timed` holds with a `max_wait`; a deadline may
-- pass at any step.
pub data Step (timed : Bool) : World → World → Type 0 where
  fetch_sub :
      (n : ℕ) (b : Bool) (p : Phase)
      → Step timed
          (record { active = suc n; notifying = b; phase = p })
          (record { active = n; notifying = count_out n b; phase = p })
  notify :
      (n : ℕ) (p : Phase)
      → Step timed
          (record { active = n; notifying = true; phase = p })
          (record { active = n; notifying = false; phase = notify_waiters p })
  all_done :
      (b : Bool)
      → Step timed
          (record { active = 0; notifying = b; phase = checking })
          (record { active = 0; notifying = b; phase = left true })
  still_active :
      (n : ℕ) (b : Bool)
      → Step timed
          (record { active = suc n; notifying = b; phase = checking })
          (record { active = suc n; notifying = b; phase = behind_load })
  register :
      (n : ℕ) (b : Bool)
      → Step timed
          (record { active = n; notifying = b; phase = behind_load })
          (record { active = n; notifying = b; phase = waiting })
  late_check :
      (n : ℕ) (b : Bool)
      → timed ≡ true
      → Step timed
          (record { active = n; notifying = b; phase = behind_load })
          (record { active = n; notifying = b; phase = left false })
  late_wait :
      (n : ℕ) (b : Bool)
      → timed ≡ true
      → Step timed
          (record { active = n; notifying = b; phase = waiting })
          (record { active = n; notifying = b; phase = left false })

pub data Steps (timed : Bool) : World → World → Type 0 where
  here : (w : World) → Steps timed w w
  then_step : {u v w : World} → Steps timed u v → Step timed v w → Steps timed u w

-- The fields cleared behind the wait.
unfoldable pub release : Dispatcher → Dispatcher
release d = record d { runtime = false; tasks = none }

-- The polling siblings look at the counter every 20 ms; `looks` are the counts they see, and the
-- deadline is past behind the last one.
unfoldable pub poll : List ℕ → Bool
poll List.[] = false
poll (List.◌∷◌ zero rest) = true
poll (List.◌∷◌ (suc n) rest) = poll rest

unfoldable pub shutdown_blocking_with_timeout : Dispatcher → List ℕ → Dispatcher × Bool
shutdown_blocking_with_timeout d looks =
    let signalled = signal_shutdown d in
    (release signalled, elim signalled.tasks [ none ↦ true | some t ↦ poll looks ])

-- Without a deadline the loop ends only when no task is active.
unfoldable pub shutdown_blocking : Dispatcher → Dispatcher
shutdown_blocking d = release (signal_shutdown d)
