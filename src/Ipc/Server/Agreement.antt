-- ===== src/Ipc/Server/Agreement.antt =====
-- The handler of the named pipe against that of the sockets, both of crates/bsm-ipc/src/server.rs.
use baxters_stereo_mix_lin.Base.{
  ℕ, ◌≡◌, refl, sym, Bool, true, false, none, some, List, [], ◌∷◌, All, Bool-cases, inl, inr,
  if◌then◌else◌,
}
use baxters_stereo_mix_lin.Ipc.Commands.{
  Json, IpcCommand, IpcError, IpcResult, ok, err, parse, parse_command,
}
use baxters_stereo_mix_lin.Ipc.Dispatcher.{Dispatcher, Response, handle_command}
use baxters_stereo_mix_lin.Ipc.Text.{
  is_empty, trim_end, with_newline, trim_end-with_newline, is_blank-trim_end, trim-trim_end,
}
use baxters_stereo_mix_lin.Ipc.Server.{
  Printer, accepted, Arrival, read_failed, end_of_input, line, Turn, End, open_still, returned_ok,
  returned_err, streaming, panicked, Served, Answer, reply, refusal, subscribe, drop_async,
  is_subscribe, answer, write_async, wrote, answer_async, turn_async, handle_connection_tcp,
  write_pipe, or_braces, answer_pipe, turn_pipe, handle_pipe,
}
use Prim.Native.String.{String}
use mathlib.Core.Path.{subst}

-- The same turn as a pipe sees it: lines come with their ends.
unfoldable pub arrives_with_end : Arrival → Arrival
arrives_with_end read_failed = read_failed
arrives_with_end end_of_input = end_of_input
arrives_with_end (line text) = line (with_newline text)

unfoldable pub over_pipe : List Turn → List Turn
over_pipe [] = []
over_pipe (turn ∷ rest) = record turn { arrival = arrives_with_end turn.arrival } ∷ over_pipe rest

-- A turn without shutdown, and with a client that takes the reply.
pub record IsCalm (turn : Turn) : Type 0 where
  pub up_before : turn.shutdown_before ≡ false
  pub up_behind : turn.shutdown_behind ≡ false
  pub taken : turn.writable ≡ true

-- Printing succeeds, as it does for structures of texts, numbers and truth values.
pub record Prints (p : Printer) : Type 0 where
  pub responses : (id : String) (r : Response) → (text : String) × (p.to_json id r ≡ some text)
  pub errors : (e : IpcError) → (text : String) × (p.error_json e ≡ some text)

unfoldable pub is_open : End → Bool
is_open open_still = true
is_open returned_ok = false
is_open returned_err = false
is_open streaming = false
is_open panicked = false

-- Two connections that agree: the same one, or two that are over, with the same effects.
data Agree : Served → Served → Type 0 where
  same : (s : Served) → Agree s s
  over :
      (d : Dispatcher) (w : List String) (e f : End)
      → is_open e ≡ false
      → is_open f ≡ false
      → Agree
          (record { dispatcher = d; written = w; ended = e })
          (record { dispatcher = d; written = w; ended = f })

drop_async-closed : (b : Bool) (e : End) → is_open e ≡ false → is_open (drop_async b e) ≡ false
unfolding drop_async is_open
drop_async-closed true e h = refl
drop_async-closed false e h = h

module _ (j : Json) (p : Printer) where
  answer-trim_end :
      (d : Dispatcher) (now : ℕ) (text : String)
      → answer j p d now (trim_end text) ≡ answer j p d now text
  unfolding answer parse_command parse
  answer-trim_end d now text = rw (answer, parse_command, parse, trim-trim_end text) refl

abbrev pub calm : Arrival → ℕ → Turn
calm a now = record {
  shutdown_before = false;
  arrival = a;
  shutdown_behind = false;
  now = now;
  writable = true;
}

-- A calm turn is one of its arrival and its time.
pub turn-eq-calm : (turn : Turn) → IsCalm turn → turn ≡ calm turn.arrival turn.now
turn-eq-calm turn h = λ i. record {
  shutdown_before = h.up_before i;
  arrival = turn.arrival;
  shutdown_behind = h.up_behind i;
  now = turn.now;
  writable = h.taken i;
}

-- An answer whose text was printed.
unfoldable IsPrinted : Answer → Type 0
IsPrinted (reply d text) = (t : String) × (text ≡ some t)
IsPrinted (refusal text) = (t : String) × (text ≡ some t)
IsPrinted (subscribe text) = (t : String) × (text ≡ some t)

module _ (j : Json) (p : Printer) where
  answer-IsPrinted :
      (d : Dispatcher) (now : ℕ) (raw : String) → Prints p → IsPrinted (answer j p d now raw)
  unfolding answer IsPrinted
  answer-IsPrinted d now raw prints = printed (parse_command j raw)
    where
      printed :
          (r : IpcResult (IpcCommand j × String))
          → IsPrinted (elim r [
            | err e ↦ refusal (p.error_json e)
            | ok request ↦
                if is_subscribe j p request.0
                then subscribe (p.to_json request.1 Response.ok)
                else (let handled = handle_command j d now request.0 in
                    reply handled.0 (p.to_json request.1 handled.1))
          ])
      printed (err e) = prints.errors e
      printed (ok (c, id)) = elim (Bool-cases (is_subscribe j p c)) [
        | inl subscribes ↦ rw subscribes (prints.responses id Response.ok)
        | inr other ↦ rw other (prints.responses id (handle_command j d now c).1)
      ]

  answer-Agree :
      (d : Dispatcher) (w : List String) (turn turn' : Turn) (a : Answer)
      → turn.writable ≡ true
      → turn'.writable ≡ true
      → IsPrinted a
      → Agree
          (answer_pipe j p (record { dispatcher = d; written = w; ended = open_still }) turn' a)
          (answer_async j p (record { dispatcher = d; written = w; ended = open_still }) turn a)
  unfolding answer_pipe answer_async write_pipe write_async wrote IsPrinted or_braces is_open
  answer-Agree d w turn turn' (reply d' none) taken taken' printed = cc
  answer-Agree d w turn turn' (refusal none) taken taken' printed = cc
  answer-Agree d w turn turn' (subscribe none) taken taken' printed = cc
  answer-Agree d w turn turn' (reply d' (some t)) taken taken' printed = rw (taken, taken') (same _)
  answer-Agree d w turn turn' (refusal (some t)) taken taken' printed = rw (taken, taken') (same _)
  answer-Agree d w turn turn' (subscribe (some t)) taken taken' printed =
      rw (taken, taken')
        (over d _ streaming (drop_async d.runtime streaming) refl
          (drop_async-closed d.runtime streaming refl))

  turn-Agree :
      (d : Dispatcher) (w : List String) (a : Arrival) (now : ℕ)
      → Prints p
      → let s : Served = record { dispatcher = d; written = w; ended = open_still } in
        Agree (turn_pipe j p s (calm (arrives_with_end a) now)) (turn_async j p s (calm a now))
  unfolding turn_pipe turn_async arrives_with_end is_open
  turn-Agree d w read_failed now prints =
      over d w returned_ok (drop_async d.runtime returned_err) refl
        (drop_async-closed d.runtime returned_err refl)
  turn-Agree d w end_of_input now prints =
      over d w returned_ok (drop_async d.runtime returned_ok) refl
        (drop_async-closed d.runtime returned_ok refl)
  turn-Agree d w (line text) now prints = elim (Bool-cases (is_empty (trim_end text))) [
    | inl nothing ↦ rw (trim_end-with_newline text, is_blank-trim_end text, nothing) (same _)
    | inr something ↦
        rw
          (
            trim_end-with_newline text,
            is_blank-trim_end text,
            something,
            answer-trim_end j p d now text,
          )
          (answer-Agree d w (calm (line text) now) (calm (line (with_newline text)) now)
            (answer j p d now text) refl refl (answer-IsPrinted d now text prints))
  ]

  over_stays :
      (d : Dispatcher) (w : List String) (e : End) (turns : List Turn)
      → is_open e ≡ false
      → let s : Served = record { dispatcher = d; written = w; ended = e } in
        (handle_pipe j p s turns ≡ s) × (handle_connection_tcp j p s turns ≡ s)
  unfolding handle_pipe handle_connection_tcp is_open
  over_stays d w e [] h = (refl, refl)
  over_stays d w open_still (t ∷ rest) h = cc
  over_stays d w returned_ok (t ∷ rest) h = (refl, refl)
  over_stays d w returned_err (t ∷ rest) h = (refl, refl)
  over_stays d w streaming (t ∷ rest) h = (refl, refl)
  over_stays d w panicked (t ∷ rest) h = (refl, refl)

  any_turn-Agree :
      (d : Dispatcher) (w : List String) (turn : Turn)
      → Prints p
      → IsCalm turn
      → let s : Served = record { dispatcher = d; written = w; ended = open_still } in
        Agree
          (turn_pipe j p s (record turn { arrival = arrives_with_end turn.arrival }))
          (turn_async j p s turn)
  any_turn-Agree d w turn prints h =
      subst
        (λ (t : Turn).
          Agree
            (turn_pipe j p (record { dispatcher = d; written = w; ended = open_still })
              (record t { arrival = arrives_with_end t.arrival }))
            (turn_async j p (record { dispatcher = d; written = w; ended = open_still }) t))
        (sym (turn-eq-calm turn h)) (turn-Agree d w turn.arrival turn.now prints)

  state-Agree :
      (d : Dispatcher) (w : List String) (e : End) (turn : Turn) (rest : List Turn)
      → Prints p
      → IsCalm turn
      → ((s s' : Served)
          → Agree s s'
          → Agree (handle_pipe j p s (over_pipe rest)) (handle_connection_tcp j p s' rest))
      → let s : Served = record { dispatcher = d; written = w; ended = e } in
        Agree
          (handle_pipe j p s (over_pipe (turn ∷ rest)))
          (handle_connection_tcp j p s (turn ∷ rest))
  unfolding handle_pipe handle_connection_tcp over_pipe
  state-Agree d w open_still turn rest prints h later = later _ _ (any_turn-Agree d w turn prints h)
  state-Agree d w returned_ok turn rest prints h later = same _
  state-Agree d w returned_err turn rest prints h later = same _
  state-Agree d w streaming turn rest prints h later = same _
  state-Agree d w panicked turn rest prints h later = same _

  turns-Agree :
      (turns : List Turn) (s s' : Served)
      → Prints p
      → All IsCalm turns
      → Agree s s'
      → Agree (handle_pipe j p s (over_pipe turns)) (handle_connection_tcp j p s' turns)
  unfolding over_pipe handle_pipe handle_connection_tcp
  turns-Agree [] s s' prints all a = a
  turns-Agree (turn ∷ rest) _ _ prints all (same s) =
      state-Agree s.dispatcher s.written s.ended turn rest prints all.0
        (λ u u'. turns-Agree rest u u' prints all.1)
  turns-Agree (turn ∷ rest) _ _ prints all (over d w e f closed closed') =
      rw
        (
          (over_stays d w e (over_pipe (turn ∷ rest)) closed).0,
          (over_stays d w f (turn ∷ rest) closed').1,
        )
        (over d w e f closed closed')

Agree-effects :
    (s s' : Served) → Agree s s' → (s.written ≡ s'.written) × (s.dispatcher ≡ s'.dispatcher)
Agree-effects _ _ (same s) = (refl, refl)
Agree-effects _ _ (over d w e f h h') = (refl, refl)

-- Without a shutdown, to a client that takes every reply, and where printing succeeds: the handler of
-- a named pipe, which gets each line with its end, writes the same replies in the same order as the
-- handler of a socket, and leaves the dispatcher in the same state.
pub handle_pipe-handle_connection_tcp :
    (j : Json) (p : Printer) (d : Dispatcher) (turns : List Turn)
    → Prints p
    → All IsCalm turns
    → ((handle_pipe j p (accepted d) (over_pipe turns)).written
        ≡ (handle_connection_tcp j p (accepted d) turns).written)
      × ((handle_pipe j p (accepted d) (over_pipe turns)).dispatcher
          ≡ (handle_connection_tcp j p (accepted d) turns).dispatcher)
handle_pipe-handle_connection_tcp j p d turns prints all =
    Agree-effects _ _
      (turns-Agree j p turns (accepted d) (accepted d) prints all (same (accepted d)))
