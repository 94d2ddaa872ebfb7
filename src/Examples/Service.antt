-- ===== src/Examples/Service.antt =====
-- Theorems of the control server at concrete inputs.
use baxters_stereo_mix_lin.Base.{ℕ, ◌≡◌, refl, Option, some, List, [], ◌∷◌, length}
use baxters_stereo_mix_lin.Ipc.Commands.{Json}
use baxters_stereo_mix_lin.Ipc.Dispatcher.{new}
use baxters_stereo_mix_lin.Ipc.Dispatcher.States.{run}
use baxters_stereo_mix_lin.Ipc.Server.{
  Printer, Turn, line, accepted, handle_connection_tcp, handle_pipe,
}
use baxters_stereo_mix_lin.Ipc.Server.Agreement.{
  Prints, IsCalm, calm, over_pipe, handle_pipe-handle_connection_tcp,
}
use baxters_stereo_mix_lin.Ipc.Server.Replies.{requests, asked, handle_connection_tcp-run}

-- JSON in which every text asks for a start on device 3, and a printer of ids.
abbrev starts : Json
starts = record {
  Value = Option ℕ;
  get_u64 = λ v key. v;
  from_str = λ raw. some ("start_recording", "7", some 3);
}

abbrev id_printer : Printer
id_printer = record { to_json = λ id r. some id; error_json = λ e. some "error" }

id_printer-Prints : Prints id_printer
id_printer-Prints = record { responses = λ id r. (id, refl); errors = λ e. ("error", refl) }

abbrev two_lines : List Turn
two_lines = calm (line "begin") 5 ∷ calm (line "  ") 6 ∷ []

calm-IsCalm : IsCalm (calm (line "begin") 5) × IsCalm (calm (line "  ") 6) × Unit {0}
calm-IsCalm = (
  record { up_before = refl; up_behind = refl; taken = refl },
  record { up_before = refl; up_behind = refl; taken = refl },
  tt,
)

handle_pipe-handle_connection_tcp_example :
    ((handle_pipe starts id_printer (accepted (new 0)) (over_pipe two_lines)).written
      ≡ (handle_connection_tcp starts id_printer (accepted (new 0)) two_lines).written)
    × ((handle_pipe starts id_printer (accepted (new 0)) (over_pipe two_lines)).dispatcher
        ≡ (handle_connection_tcp starts id_printer (accepted (new 0)) two_lines).dispatcher)
handle_pipe-handle_connection_tcp_example =
    handle_pipe-handle_connection_tcp starts id_printer (new 0) two_lines id_printer-Prints
      (calm-IsCalm.0, (calm-IsCalm.1, tt))

handle_connection_tcp-run_example :
    ((handle_connection_tcp starts id_printer (accepted (new 0)) two_lines).dispatcher
      ≡ run starts (new 0) (requests starts id_printer two_lines))
    × (length (handle_connection_tcp starts id_printer (accepted (new 0)) two_lines).written
        ≡ asked starts id_printer two_lines)
handle_connection_tcp-run_example =
    handle_connection_tcp-run starts id_printer (new 0) two_lines id_printer-Prints
      (calm-IsCalm.0, (calm-IsCalm.1, tt))

-- A recording is on when the server shuts down.
