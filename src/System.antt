-- ===== src/System.antt =====
-- The client of stdiobus/client.py over the backend of stdiobus/backends/subprocess.py, wired as the
-- client's constructor wires them.
pub mod Empty
pub mod Settled
pub mod Quiet
pub mod Pipe
pub mod Call
pub mod Carrier
pub mod Exchange
pub mod Carriers
mod Tests
use stdiobus_python.Base.{ℕ, Bool, true, none, some, List, [], ◌∷◌, ◌==◌, nat-Eq, if◌then◌else◌}
use stdiobus_python.Types.Enums.{is_running_state}
use stdiobus_python.Client.State.{Client, Runtime}
use stdiobus_python.Client.Bus.{Bus, BackendOps}
use stdiobus_python.Client.Loop.{handle_message_on_loop}
use stdiobus_python.Client.Teardown.{on_backend_closed}
use stdiobus_python.Client.Lifecycle
use stdiobus_python.Client.Run
use stdiobus_python.Backends.Subprocess
use stdiobus_python.Backends.Subprocess.{
  Subprocess, Notice, handled, closed, Spawn, Exit, drains, Write, whole, Line, read_line,
  end_reading,
}

-- The handler that is `AsyncStdioBus._handle_message`.
abbrev pub client_handler : ℕ
client_handler = 0

-- `self._backend.on_message(self._handle_message)`
unfoldable pub wire : Subprocess → Subprocess
unfolding Subprocess.on_message
wire k = Subprocess.on_message k client_handler

-- The backend as the client sees it. How a spawn and an exit go, and how the write to the pipe
-- goes, is given for each call.
abbrev pub ops : Spawn → Exit → (written : Write) → BackendOps Subprocess
ops spawn exit written = record {
  get_state = λ k. k.state;
  send = λ k m. Subprocess.send k m written;
  start = λ k. Subprocess.start k spawn;
  stop = λ k. Subprocess.stop k exit;
  destroy = λ k. Subprocess.destroy k;
}

-- What happens to the two together: the start, any other call of the client or wake of a coroutine, a
-- line of output, or its end.
pub data Event : Type 0 where
  starts : (l : ℕ) → Spawn → Event
  acts : Exit → (written : Write) → Run.Event → Event
  outputs : Line → Event
  output_ends : Event

module _ (rt : Runtime) where
  -- A call of the backend's handler or of its close callback. The read loop is a task of the client's
  -- loop, so that messages are handled at once; what a handler raises is caught.
  unfoldable pub react : Client → Notice → Client
  react c (handled h m) = if h == client_handler then (handle_message_on_loop rt c m).0 else c
  react c closed = on_backend_closed c

  unfoldable pub react_all : Client → List Notice → Client
  unfolding react
  react_all c [] = c
  react_all c (n ∷ ns) = react_all (react c n) ns

  abbrev pub take_notices : Bus Subprocess → Subprocess → Bus Subprocess
  take_notices b k = record b {
    client = react_all b.client k.notices;
    backend = some (record k { notices = [] });
  }

  -- One round of the backend's read loop on a line, while it runs.
  unfoldable pub reads_line : Bus Subprocess → Line → Bus Subprocess
  reads_line b l = elim b.backend [
    | none ↦ b
    | some k ↦
        if is_running_state k.state
        then take_notices b (read_line rt (record k { notices = [] }) l)
        else b
  ]

  -- The end of the read loop, at the end of the process's output.
  unfoldable pub reads_end : Bus Subprocess → Bus Subprocess
  reads_end b = elim b.backend [
    | none ↦ b
    | some k ↦ take_notices b (end_reading rt (record k { notices = [] }))
  ]

  unfoldable pub reads_all : Bus Subprocess → List Line → Bus Subprocess
  unfolding reads_line reads_end
  reads_all b [] = reads_end b
  reads_all b (l ∷ ls) = reads_all (reads_line b l) ls

  unfoldable pub step : Bus Subprocess → Event → Bus Subprocess
  step b (starts l spawn) = (Lifecycle.start (ops spawn drains whole) b l).0
  step b (acts exit written e) = Run.step rt (ops Subprocess.alive exit written) b e
  step b (outputs l) = reads_line b l
  step b output_ends = reads_end b

  unfoldable pub run : Bus Subprocess → List Event → Bus Subprocess
  run b [] = b
  run b (e ∷ es) = run (step b e) es
