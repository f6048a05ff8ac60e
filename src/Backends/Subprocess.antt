-- ===== src/Backends/Subprocess.antt =====
-- `SubprocessBackend` of stdiobus/backends/subprocess.py: its life, its read loop, `send`, and the
-- registry `_active_processes`.
pub mod Lifecycle
pub mod Reading
pub mod Spawning
pub mod Delivery
pub mod Interleaved
use Prim.Native.String
use stdiobus_python.Base.{
  ℕ, zero, suc, ◌+◌, String, ◌<>◌, Bool, true, false, ◌&&◌, not, Option, none, some, List, [], ◌∷◌,
  ◌++◌, map, ◌==◌, string-Eq, is_empty, if◌then◌else◌,
}
use stdiobus_python.Errors.{Exception, sdk, invalid_state_class, transport_class, raise_new}
use stdiobus_python.Types.Enums.{
  BusState, created, starting, running, stopped, is_running_state, BusStats,
}
use stdiobus_python.Client.State.{Runtime}
use stdiobus_python.Client.Bus.{Sent, returned, raised}

-- A call of a message handler, and a call of the callback that `set_on_close` sets.
pub data Notice : Type 0 where
  handled : ℕ → String → Notice
  closed : Notice

-- `registered` is how often the backend stands in `_active_processes`; `kills` counts the kills.
pub record Subprocess : Type 0 where
  pub state : BusState
  pub has_process : Bool
  pub has_stdin : Bool
  pub registered : ℕ
  pub message_handlers : List ℕ
  pub stats : BusStats
  pub notices : List Notice
  pub kills : ℕ

abbrev pub not_started : Exception
not_started = sdk (raise_new invalid_state_class "Backend already started")

-- How the spawn and the check for an early exit go: the spawn raises, the process is there and its
-- `returncode` is set by the end of the grace period, or it is not set.
pub data Spawn : Type 0 where
  spawn_raises : Exception → Spawn
  exits_early alive : Spawn

-- `list.remove`, with its `ValueError` caught.
abbrev pub remove_one : ℕ → ℕ
remove_one zero = zero
remove_one (suc n) = n

-- The `try` of `start`; on an exception the backend stops and leaves the registry.
unfoldable pub after_spawn : Subprocess → Spawn → Subprocess × Option Exception
after_spawn b (spawn_raises e) =
    (record b { state = stopped; registered = remove_one b.registered }, some e)
after_spawn b exits_early = (
  record b {
    state = stopped;
    has_process = true;
    has_stdin = true;
    registered = remove_one b.registered;
  },
  some (sdk (raise_new transport_class "stdio_bus exited")),
)
after_spawn b alive = (record b { state = running; has_process = true; has_stdin = true }, none)

-- if self._state != BusState.CREATED
abbrev pub is_created : BusState → Bool
is_created created = true
is_created _ = false

unfoldable pub start : Subprocess → Spawn → Subprocess × Option Exception
unfolding after_spawn
start b s =
    if is_created b.state
    then after_spawn (record b { state = starting; registered = suc b.registered }) s
    else (b, some not_started)

-- How the process ends in `stop`: by itself, by SIGTERM, or only by SIGKILL.
pub data Exit : Type 0 where
  drains terminated killed : Exit

abbrev pub is_active : BusState → Bool
is_active running = true
is_active starting = true
is_active _ = false

abbrev pub count_kill : Exit → ℕ → ℕ
count_kill killed n = suc n
count_kill _ n = n

unfoldable pub stop : Subprocess → Exit → Subprocess
stop b x =
    if is_active b.state
    then (if b.has_process
        then record b {
          state = stopped;
          registered = remove_one b.registered;
          kills = count_kill x b.kills;
        }
        else record b { state = stopped })
    else b

unfoldable pub destroy : Subprocess → Subprocess
destroy b = record b {
  state = stopped;
  has_process = false;
  registered = remove_one b.registered;
  message_handlers = [];
  kills = (if b.has_process then suc b.kills else b.kills);
}

-- on_message
unfoldable pub on_message : Subprocess → ℕ → Subprocess
on_message b h = record b { message_handlers = b.message_handlers ++ h ∷ [] }

-- _force_kill, and the handler at the interpreter's exit, for the backends in `_active_processes`
unfoldable pub force_kill : Subprocess → Subprocess
force_kill b = if b.has_process then record b { kills = suc b.kills } else b

unfoldable pub cleanup_orphans : List Subprocess → List Subprocess
unfolding force_kill
cleanup_orphans [] = []
cleanup_orphans (b ∷ bs) = force_kill b ∷ cleanup_orphans bs

-- message.endswith("\n")
unfoldable pub ends_line : String → Bool
ends_line String.[] = false
ends_line (String.◌∷◌ c String.[]) = String.◌∷◌ c String.[] == "\n"
ends_line (String.◌∷◌ c s) = ends_line s

-- message if message.endswith("\n") else message + "\n"
unfoldable pub frame : String → String
unfolding ends_line
frame m = if ends_line m then m else m <> "\n"

-- How the write to the pipe goes: it takes the data, raises an `OSError`, or raises anything else, as the
-- encoding of a lone surrogate or a stream that is closed does.
pub data Write : Type 0 where
  whole os_error : Write
  write_raises : Exception → Write

-- Only an `OSError` is caught. `len(data)` counts characters.
unfoldable pub send : Subprocess → String → Write → Subprocess × Sent
unfolding frame
send b m w =
    if is_running_state b.state && b.has_stdin
    then elim w [
      | whole ↦ (
        record b {
          stats = record b.stats {
            messages_in = b.stats.messages_in + 1;
            bytes_in = b.stats.bytes_in + String.count (frame m);
          };
        },
        returned true,
      )
      | os_error ↦ (b, returned false)
      | write_raises e ↦ (b, raised e)
    ]
    else (b, returned false)

-- A line of standard output: its text without the line end, and how many bytes it had.
pub record Line : Type 0 where
  pub text : String
  pub size : ℕ

module _ (rt : Runtime) where
  -- The loop's body, for a line that is not the end of the file.
  unfoldable pub read_line : Subprocess → Line → Subprocess
  read_line b l = if is_empty l.text then b else elim (rt.loads l.text) [
    | none ↦ b
    | some j ↦ record b {
      stats = record b.stats {
        messages_out = b.stats.messages_out + 1;
        bytes_out = b.stats.bytes_out + l.size;
      };
      notices = b.notices ++ map (λ h. handled h l.text) b.message_handlers;
    }
  ]

  -- The `finally` clause: only a backend that still runs stops here, and calls back.
  unfoldable pub end_reading : Subprocess → Subprocess
  end_reading b =
      if is_running_state b.state
      then record b { state = stopped; notices = b.notices ++ closed ∷ [] }
      else b

  -- The lines up to the end of the file; the loop also ends where the state is no longer RUNNING.
  unfoldable pub read_loop : Subprocess → List Line → Subprocess
  unfolding read_line end_reading
  read_loop b [] = end_reading b
  read_loop b (l ∷ ls) =
      let rest = read_loop (read_line b l) ls in
      if is_running_state b.state then rest else end_reading b
