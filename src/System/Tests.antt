-- ===== src/System/Tests.antt =====
-- Runs of stdiobus/client.py over stdiobus/backends/subprocess.py at concrete inputs.
mod Carried
mod Woken
use stdiobus_python.Base.{◌≡◌, refl, true, false, none, some, [], ◌∷◌, inr}
use stdiobus_python.Base.Int.{pos}
use stdiobus_python.Json.{null}
use stdiobus_python.Types.Enums.{created, running, stopped, no_stats}
use stdiobus_python.Types.Protocol.{no_options}
use stdiobus_python.Client.Bus.{Bus}
use stdiobus_python.Client.Loop.{handle_all}
use stdiobus_python.Client.Teardown.{on_backend_closed}
use stdiobus_python.Client.Lifecycle
use stdiobus_python.Client.Run.{requests, stops}
use stdiobus_python.Client.Tests.{rt, idle, calling}
use stdiobus_python.Backends.Subprocess
use stdiobus_python.Backends.Subprocess.{whole, Subprocess, alive, drains, Line}
use stdiobus_python.System.{ops, wire, run, starts, acts, outputs, output_ends, reads_all}
use stdiobus_python.System.Settled.{IsQuiet}
use stdiobus_python.System.Quiet.{run-IsQuiet}
use stdiobus_python.System.Pipe.{reads_all_lem}

abbrev process : Subprocess
process = wire (record {
  state = created;
  has_process = false;
  has_stdin = false;
  registered = 0;
  message_handlers = [];
  stats = no_stats;
  notices = [];
  kills = 0;
})

abbrev bus : Bus Subprocess
bus = record {
  client = idle;
  backend = some process;
  client_session_id = "client-1";
  agent_session_id = null;
  timeout_ms = pos 30000;
  released = [];
  loop = none;
}

abbrev ok : Line
ok = record { text = "ok"; size = 3 }

abbrev noise : Line
noise = record { text = "noise"; size = 6 }

run-IsQuiet_example : IsQuiet (
    run rt bus (
      starts 0 alive
      ∷ acts drains whole (requests "1" "prompt" none none none no_options)
      ∷ outputs ok
      ∷ output_ends
      ∷ acts drains whole stops
      ∷ []))
unfolding wire
run-IsQuiet_example =
    run-IsQuiet rt bus
      (starts 0 alive
        ∷ acts drains whole (requests "1" "prompt" none none none no_options)
        ∷ outputs ok
        ∷ output_ends
        ∷ acts drains whole stops
        ∷ [])
      (inr refl)

-- A client with a request, over a process that runs.
abbrev serving : Bus Subprocess
serving = record bus {
  client = calling;
  backend = some (record process { state = running; has_process = true; has_stdin = true });
}

reads_all_lem_example :
    ((reads_all rt serving (noise ∷ ok ∷ [])).client
      ≡ on_backend_closed (handle_all rt calling ("ok" ∷ [])))
    × (Lifecycle.get_state (ops alive drains whole) (reads_all rt serving (noise ∷ ok ∷ []))
        ≡ stopped)
unfolding wire Subprocess.on_message
reads_all_lem_example =
    reads_all_lem rt (noise ∷ ok ∷ []) serving
      (record process { state = running; has_process = true; has_stdin = true }, refl, refl, refl)
