-- ===== src/Ipc/Server.antt =====
-- The connection handlers of crates/bsm-ipc/src/server.rs, a round of their loops for each element of
-- a list: what is read, the shutdown flag before and behind the read, the time, and whether the reply
-- can be written. JSON and its printing are parameters.
pub mod Replies
pub mod Agreement
use baxters_stereo_mix_lin.Base.{
  ℕ, ◌+◌, Bool, true, false, Option, none, some, List, [], ◌∷◌, ◌++◌, if◌then◌else◌,
}
use baxters_stereo_mix_lin.Ipc.Commands.{
  Json, IpcCommand, IpcError, ok, err, shutdown, subscribe_telemetry, parse_command,
}
use baxters_stereo_mix_lin.Ipc.Dispatcher
use baxters_stereo_mix_lin.Ipc.Dispatcher.{Dispatcher, Response, signal_shutdown, handle_command}
use baxters_stereo_mix_lin.Ipc.Shutdown.{release}
use baxters_stereo_mix_lin.Ipc.Text.{is_blank, is_empty, trim_end}
use Prim.Native.String.{String}

-- `to_json` of a response with its id, and the printing of the error of a line that is no command.
pub record Printer : Type 0 where
  pub to_json : String → Response → Option String
  pub error_json : IpcError → Option String

pub data Arrival : Type 0 where
  read_failed : Arrival
  end_of_input : Arrival
  line : String → Arrival

pub record Turn : Type 0 where
  pub shutdown_before : Bool
  pub arrival : Arrival
  pub shutdown_behind : Bool
  pub now : ℕ
  pub writable : Bool

-- How a handler ended, if it did: with `Ok`, with `Err`, in the telemetry stream, or in the panic of
-- `tokio` where a runtime is dropped inside of an asynchronous task.
pub data End : Type 0 where
  open_still : End
  returned_ok : End
  returned_err : End
  streaming : End
  panicked : End

pub record Served : Type 0 where
  pub dispatcher : Dispatcher
  pub written : List String
  pub ended : End

unfoldable pub accepted : Dispatcher → Served
accepted d = record { dispatcher = d; written = []; ended = open_still }

-- What a command line calls for.
pub data Answer : Type 0 where
  reply : Dispatcher → Option String → Answer
  refusal : Option String → Answer
  subscribe : Option String → Answer

-- `let _ = shutdown_with_timeout(...)`: whatever the wait says, the session is taken down.
unfoldable pub taken_down : Dispatcher → Dispatcher
taken_down d = release (signal_shutdown d)

-- `self.rt.take()` where the drop of the runtime panics: the fields behind it are not cleared.
unfoldable pub dropped : Dispatcher → Dispatcher
dropped d = record (signal_shutdown d) { runtime = false }

-- The end of an asynchronous handler, which drops its dispatcher.
unfoldable pub drop_async : Bool → End → End
drop_async true e = panicked
drop_async false e = e

module _ (j : Json) (p : Printer) where
  unfoldable pub is_subscribe : IpcCommand j → Bool
  is_subscribe subscribe_telemetry = true
  is_subscribe c = false

  -- `match parse_command(...)`.
  unfoldable pub answer : Dispatcher → ℕ → String → Answer
  answer d now raw = elim (parse_command j raw) [
    | err e ↦ refusal (p.error_json e)
    | ok request ↦
        if is_subscribe request.0
        then subscribe (p.to_json request.1 Response.ok)
        else (let handled = handle_command j d now request.0 in
            reply handled.0 (p.to_json request.1 handled.1))
  ]

  -- The response to the shutdown of the server.
  unfoldable pub shutdown_reply : Dispatcher → ℕ → Dispatcher × Option String
  shutdown_reply d now =
      let handled = handle_command j d now shutdown in
      (taken_down handled.0, p.to_json "shutdown" handled.1)

  -- `to_json()?` and the writes, each with `?`.
  unfoldable pub write_async : Served → Turn → Option String → Option (List String)
  write_async s turn none = none
  write_async s turn (some text) = if turn.writable then some (s.written ++ (text ∷ [])) else none

  -- `w.write_all` fails, or goes on: the rest of the arms of the asynchronous handler.
  unfoldable pub wrote : Served → Dispatcher → Option (List String) → End → Served
  wrote s d none e = record {
    dispatcher = d;
    written = s.written;
    ended = drop_async d.runtime returned_err;
  }
  wrote s d (some written) e = record { dispatcher = d; written = written; ended = e }

  -- The shutdown in an asynchronous handler: the runtime of a recording is dropped before the reply.
  unfoldable pub close_async : Served → Turn → Served
  close_async s turn =
      let closed = shutdown_reply s.dispatcher turn.now in
      if s.dispatcher.runtime
      then record {
        dispatcher = dropped (handle_command j s.dispatcher turn.now shutdown).0;
        written = s.written;
        ended = panicked;
      }
      else wrote s closed.0 (write_async s turn closed.1) returned_ok

  -- A line that is no blank, answered.
  unfoldable pub answer_async : Served → Turn → Answer → Served
  answer_async s turn (subscribe text) =
      wrote s s.dispatcher (write_async s turn text) (drop_async s.dispatcher.runtime streaming)
  answer_async s turn (refusal text) = wrote s s.dispatcher (write_async s turn text) open_still
  answer_async s turn (reply d text) = wrote s d (write_async s turn text) open_still

  unfoldable pub turn_async : Served → Turn → Served
  turn_async s turn = elim turn.arrival [
    | read_failed ↦ record s { ended = drop_async s.dispatcher.runtime returned_err }
    | end_of_input ↦ record s { ended = drop_async s.dispatcher.runtime returned_ok }
    | line text ↦
        if turn.shutdown_behind
        then close_async s turn
        else if is_blank text
        then s
        else answer_async s turn (answer s.dispatcher turn.now text)
  ]

  -- The handlers for TCP and for Unix sockets are the same line for line.
  unfoldable pub handle_connection_tcp : Served → List Turn → Served
  handle_connection_tcp s [] = s
  handle_connection_tcp s (turn ∷ rest) = elim s.ended [
    | open_still ↦ handle_connection_tcp (turn_async s turn) rest
    | _ ↦ s
  ]

  unfoldable pub handle_connection_unix : Served → List Turn → Served
  handle_connection_unix s turns = handle_connection_tcp s turns

  -- The handler of a named pipe writes what can be written and goes on.
  unfoldable pub write_pipe : Served → Turn → Option String → List String
  write_pipe s turn none = s.written
  write_pipe s turn (some text) = if turn.writable then s.written ++ (text ∷ []) else s.written

  unfoldable pub close_pipe : Served → Turn → Served
  close_pipe s turn =
      let closed = shutdown_reply s.dispatcher turn.now in
      record { dispatcher = closed.0; written = write_pipe s turn closed.1; ended = returned_ok }

  -- `unwrap_or_else(|_| "{}".into())`
  unfoldable pub or_braces : Option String → String
  or_braces none = "{}"
  or_braces (some text) = text

  unfoldable pub answer_pipe : Served → Turn → Answer → Served
  answer_pipe s turn (subscribe text) = record s {
    written = write_pipe s turn text;
    ended = streaming;
  }
  answer_pipe s turn (refusal text) = record s {
    written = write_pipe s turn (some (or_braces text));
  }
  answer_pipe s turn (reply d text) = record s { dispatcher = d; written = write_pipe s turn text }

  unfoldable pub turn_pipe : Served → Turn → Served
  turn_pipe s turn = if turn.shutdown_before then close_pipe s turn else elim turn.arrival [
    | read_failed ↦ record s { ended = returned_ok }
    | end_of_input ↦ record s { ended = returned_ok }
    | line text ↦
        if is_empty (trim_end text)
        then s
        else if turn.shutdown_behind
        then close_pipe s turn
        else answer_pipe s turn (answer s.dispatcher turn.now (trim_end text))
  ]

  unfoldable pub handle_pipe : Served → List Turn → Served
  handle_pipe s [] = s
  handle_pipe s (turn ∷ rest) = elim s.ended [
    | open_still ↦ handle_pipe (turn_pipe s turn) rest
    | _ ↦ s
  ]

-- What the telemetry receiver yields, and whether it can be written on.
pub data Received : Type 0 where
  message : String → Bool → Received
  nothing_yet : Received
  lagged_or_closed : Received

-- The task that streams telemetry to a socket ends at the first failure, a lag included.
unfoldable pub stream_async : List String → List Received → List String
stream_async written [] = written
stream_async written (message text true ∷ rest) = stream_async (written ++ (text ∷ [])) rest
stream_async written (message text false ∷ rest) = written
stream_async written (nothing_yet ∷ rest) = stream_async written rest
stream_async written (lagged_or_closed ∷ rest) = written

-- The polling stream of a pipe: the flag beside each poll is the shutdown behind it.
unfoldable pub stream_pipe : List String → List (Received × Bool) → List String
stream_pipe written [] = written
stream_pipe written ((message text true, down) ∷ rest) =
    let later = stream_pipe (written ++ (text ∷ [])) rest in
    if down then written ++ (text ∷ []) else later
stream_pipe written ((message text false, down) ∷ rest) =
    let later = stream_pipe written rest in if down then written else later
stream_pipe written ((nothing_yet, down) ∷ rest) =
    let later = stream_pipe written rest in if down then written else later
stream_pipe written ((lagged_or_closed, down) ∷ rest) = written
