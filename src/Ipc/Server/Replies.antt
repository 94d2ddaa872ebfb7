-- ===== src/Ipc/Server/Replies.antt =====
-- What a connection of crates/bsm-ipc/src/server.rs does with its lines.
use baxters_stereo_mix_lin.Base.{
  ℕ, suc, ◌+◌, ◌≡◌, refl, sym, Bool, true, false, List, [], ◌∷◌, ◌++◌, All, length, length-append,
  Bool-cases, inl, inr, ◌⊎◌, if◌then◌else◌, arith,
}
use baxters_stereo_mix_lin.Ipc.Commands.{Json, IpcCommand, IpcResult, ok, err, parse_command}
use baxters_stereo_mix_lin.Ipc.Dispatcher.{Dispatcher, Response, handle_command}
use baxters_stereo_mix_lin.Ipc.Dispatcher.States.{run}
use baxters_stereo_mix_lin.Ipc.Text.{is_blank}
use baxters_stereo_mix_lin.Ipc.Server.{
  Printer, Arrival, read_failed, end_of_input, line, Turn, End, open_still, returned_ok,
  returned_err, streaming, Served, accepted, reply, refusal, subscribe, drop_async, is_subscribe,
  answer, write_async, wrote, answer_async, turn_async, handle_connection_tcp,
}
use baxters_stereo_mix_lin.Ipc.Server.Agreement.{IsCalm, Prints, calm, turn-eq-calm}
use mathlib.Core.Path.{subst}
use Prim.Native.String.{String}

module _ (j : Json) (p : Printer) where
  -- The commands of the lines, each with its time, up to a subscription or the end of the input.
  unfoldable pub requests : List Turn → List (ℕ × IpcCommand j)
  requests [] = []
  requests (turn ∷ rest) =
      let later = requests rest in
      elim turn.arrival [
        | read_failed ↦ []
        | end_of_input ↦ []
        | line text ↦ if is_blank text then later else elim (parse_command j text) [
          | err e ↦ later
          | ok (c, id) ↦ if is_subscribe j p c then [] else (turn.now, c) ∷ later
        ]
      ]

  -- The number of lines that are not blank, up to a subscription or the end of the input.
  unfoldable pub asked : List Turn → ℕ
  asked [] = 0
  asked (turn ∷ rest) =
      let later = asked rest in
      elim turn.arrival [
        | read_failed ↦ 0
        | end_of_input ↦ 0
        | line text ↦ if is_blank text then later else elim (parse_command j text) [
          | err e ↦ suc later
          | ok (c, id) ↦ if is_subscribe j p c then 1 else suc later
        ]
      ]

  abbrev open_at : Dispatcher → List String → Served
  open_at d w = record { dispatcher = d; written = w; ended = open_still }

  -- The effects of a connection at its end.
  Does : Dispatcher → List String → List (ℕ × IpcCommand j) → ℕ → Served → Type 0
  Does d w cs n s = (s.dispatcher ≡ run j d cs) × (length s.written ≡ length w + n)

  stays :
      (d : Dispatcher) (w : List String) (b : Bool) (e : End) (turns : List Turn)
      → ((e ≡ returned_ok) ⊎ (e ≡ returned_err)) ⊎ (e ≡ streaming)
      → let s : Served = record { dispatcher = d; written = w; ended = drop_async b e } in
        handle_connection_tcp j p s turns ≡ s
  unfolding handle_connection_tcp drop_async
  stays d w b e [] h = refl
  stays d w true e (t ∷ rest) h = refl
  stays d w false e (t ∷ rest) (inl (inl h)) = rw h refl
  stays d w false e (t ∷ rest) (inl (inr h)) = rw h refl
  stays d w false e (t ∷ rest) (inr h) = rw h refl

  module _ (prints : Prints p) where
    parsed-Does :
        (d : Dispatcher) (w : List String) (turn : Turn) (rest : List Turn)
        → turn.writable ≡ true
        → ((d' : Dispatcher) (w' : List String)
            → Does d' w'
                (requests rest)
                (asked rest)
                (handle_connection_tcp j p (open_at d' w') rest))
        → (r : IpcResult (IpcCommand j × String))
        → Does d w
            (elim r [
              | err e ↦ requests rest
              | ok (c, id) ↦ if is_subscribe j p c then [] else (turn.now, c) ∷ requests rest
            ])
            (elim r [
              | err e ↦ suc (asked rest)
              | ok (c, id) ↦ if is_subscribe j p c then 1 else suc (asked rest)
            ])
            (handle_connection_tcp j p
              (answer_async j p (open_at d w) turn (elim r [
                | err e ↦ refusal (p.error_json e)
                | ok request ↦
                    if is_subscribe j p request.0
                    then subscribe (p.to_json request.1 Response.ok)
                    else (let handled = handle_command j d turn.now request.0 in
                        reply handled.0 (p.to_json request.1 handled.1))
              ]))
              rest)
    unfolding Does answer_async write_async wrote run
    parsed-Does d w turn rest taken later (err e) =
        let (text, printed) = prints.errors e in
        let (state, count) = later d (w ++ (text ∷ [])) in
        rw (printed, write_async, taken) (state, omega (arith, count, length-append w (text ∷ [])))
    parsed-Does d w turn rest taken later (ok (c, id)) = elim (Bool-cases (is_subscribe j p c)) [
      | inl subscribes ↦
          let (text, printed) = prints.responses id Response.ok in
          rw
            (
              subscribes,
              printed,
              write_async,
              taken,
              stays d (w ++ (text ∷ [])) d.runtime streaming rest (inr refl),
            )
            (refl, omega (arith, length-append w (text ∷ [])))
      | inr other ↦
          let handled = handle_command j d turn.now c in
          let (text, printed) = prints.responses id handled.1 in
          let (state, count) = later handled.0 (w ++ (text ∷ [])) in
          rw (other, printed, write_async, taken)
            (state, omega (arith, count, length-append w (text ∷ [])))
    ]

    arrived-Does :
        (d : Dispatcher) (w : List String) (a : Arrival) (now : ℕ) (rest : List Turn)
        → ((d' : Dispatcher) (w' : List String)
            → Does d' w'
                (requests rest)
                (asked rest)
                (handle_connection_tcp j p (open_at d' w') rest))
        → Does d w
            (requests (calm a now ∷ rest))
            (asked (calm a now ∷ rest))
            (handle_connection_tcp j p (turn_async j p (open_at d w) (calm a now)) rest)
    unfolding Does requests asked turn_async answer run
    arrived-Does d w read_failed now rest later =
        rw (stays d w d.runtime returned_err rest (inl (inr refl))) (refl, omega arith)
    arrived-Does d w end_of_input now rest later =
        rw (stays d w d.runtime returned_ok rest (inl (inl refl))) (refl, omega arith)
    arrived-Does d w (line text) now rest later = elim (Bool-cases (is_blank text)) [
      | inl blank ↦ rw blank (later d w)
      | inr filled ↦
          rw filled (parsed-Does d w (calm (line text) now) rest refl later (parse_command j text))
    ]

    lines-Does :
        (turns : List Turn) (d : Dispatcher) (w : List String)
        → All IsCalm turns
        → Does d w (requests turns) (asked turns) (handle_connection_tcp j p (open_at d w) turns)
    unfolding handle_connection_tcp Does requests asked run
    lines-Does [] d w all = (refl, omega arith)
    lines-Does (turn ∷ rest) d w all =
        subst
          (λ (t : Turn).
            Does d w (requests (t ∷ rest)) (asked (t ∷ rest))
              (handle_connection_tcp j p (turn_async j p (open_at d w) t) rest))
          (sym (turn-eq-calm turn all.0))
          (arrived-Does d w turn.arrival turn.now rest (λ d' w'. lines-Does rest d' w' all.1))

-- Without a shutdown, to a client that takes every reply, and where printing succeeds: a connection
-- leaves its dispatcher in the state that the commands of its lines lead to, in their order, up to a
-- subscription or the end of the input; and it writes one reply for each line that is not blank.
pub handle_connection_tcp-run :
    (j : Json) (p : Printer) (d : Dispatcher) (turns : List Turn)
    → Prints p
    → All IsCalm turns
    → let s = handle_connection_tcp j p (accepted d) turns in
      (s.dispatcher ≡ run j d (requests j p turns)) × (length s.written ≡ asked j p turns)
unfolding accepted Does
handle_connection_tcp-run j p d turns prints all =
    let (state, count) = lines-Does j p prints turns d [] all in (state, omega (arith, count))
