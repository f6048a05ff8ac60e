-- ===== src/Backends/Subprocess/Lifecycle.antt =====
-- The life of `SubprocessBackend` of stdiobus/backends/subprocess.py, where no call is interrupted.

use stdiobus_python.Base.{
  ℕ, suc, ◌+◌, ◌≤◌, String, ◌≡◌, ◌≢◌, refl, true, false, some, List, [], ◌∷◌, ◌++◌, map, arith,
  string-Eq, if◌then◌else◌, ◌⊎◌,
}
use stdiobus_python.Types.Enums.{created, running, stopped, is_running_state}
use stdiobus_python.Client.State.{Runtime}
use stdiobus_python.Client.Bus.{returned}
use stdiobus_python.Backends.Subprocess.{
  Subprocess, Notice, handled, closed, Spawn, spawn_raises, exits_early, alive, after_spawn, start,
  not_started, Exit, stop, destroy, Write, send, Line, read_line, end_reading,
}

-- What happens to a backend, and the state afterwards.
pub data Event : Type 0 where
  starts : Spawn → Event
  stops : Exit → Event
  destroys : Event
  sends : String → Write → Event
  reads : Line → Event
  ends : Event

unfoldable pub step : Runtime → Subprocess → Event → Subprocess
step rt b (starts s) = (start b s).0
step rt b (stops x) = stop b x
step rt b destroys = destroy b
step rt b (sends m w) = (send b m w).0
step rt b (reads l) = if is_running_state b.state then read_line rt b l else b
step rt b ends = end_reading rt b

abbrev pub closes : List Notice → ℕ
closes [] = 0
closes (handled h m ∷ l) = closes l
closes (closed ∷ l) = suc (closes l)

pub closes-append : (l k : List Notice) → closes (l ++ k) ≡ closes l + closes k
closes-append [] k = omega arith
closes-append (handled h m ∷ l) k = closes-append l k
closes-append (closed ∷ l) k = omega (arith, closes-append l k)

pub closes-handled : (hs : List ℕ) (m : String) → closes (map (λ h. handled h m) hs) ≡ 0
closes-handled [] m = refl
closes-handled (h ∷ hs) m = closes-handled hs m

-- Between two events the backend was never started, runs, or is stopped for good; it stands in the
-- registry once at most, and before a stop the close callback has not been called.
pub record IsSound (b : Subprocess) : Type 0 where
  pub settled : (b.state ≡ created) ⊎ ((b.state ≡ running) ⊎ (b.state ≡ stopped))
  pub registered_once : b.registered ≤ 1
  pub fresh : b.state ≡ created → b.registered ≡ 0
  pub served :
      b.state ≡ running → (b.registered ≡ 1) × (b.has_process ≡ true) × (b.has_stdin ≡ true)
  pub silent : b.state ≢ stopped → closes b.notices ≡ 0
  pub called_once : closes b.notices ≤ 1

pub step-IsSound : (rt : Runtime) (b : Subprocess) (e : Event) → IsSound b → IsSound (step rt b e)
unfolding step start after_spawn stop destroy send read_line end_reading
step-IsSound rt b (starts (spawn_raises x)) v = ground arith
step-IsSound rt b (starts exits_early) v = ground arith
step-IsSound rt b (starts alive) v = ground arith
step-IsSound rt b (stops x) v = ground arith
step-IsSound rt b destroys v = ground arith
step-IsSound rt b (sends m w) v = ground arith
step-IsSound rt b (reads l) v = ground (
  arith,
  closes-append b.notices (map (λ h. handled h l.text) b.message_handlers),
  closes-handled b.message_handlers l.text,
)
step-IsSound rt b ends v = ground (arith, closes-append b.notices (closed ∷ []))

unfoldable pub run : Runtime → Subprocess → List Event → Subprocess
run rt b [] = b
run rt b (e ∷ es) = run rt (step rt b e) es

-- Whatever happens to a backend, each call to its end before the next event, it stays sound: so the
-- callback for an unexpected exit is called at most once, only together with a stop, and a backend that
-- runs stands in the registry exactly once.
pub run-IsSound :
    (rt : Runtime) (b : Subprocess) (es : List Event) → IsSound b → IsSound (run rt b es)
unfolding run
run-IsSound rt b [] v = v
run-IsSound rt b (e ∷ es) v = run-IsSound rt (step rt b e) es (step-IsSound rt b e v)

step_stopped :
    (rt : Runtime) (b : Subprocess) (e : Event) → b.state ≡ stopped → (step rt b e).state ≡ stopped
unfolding step start after_spawn stop destroy send read_line end_reading
step_stopped rt b (starts s) h = ground arith
step_stopped rt b (stops x) h = ground arith
step_stopped rt b destroys h = ground arith
step_stopped rt b (sends m w) h = ground arith
step_stopped rt b (reads l) h = ground arith
step_stopped rt b ends h = ground arith

run_stopped :
    (rt : Runtime) (b : Subprocess) (es : List Event)
    → b.state ≡ stopped
    → (run rt b es).state ≡ stopped
unfolding run
run_stopped rt b [] h = h
run_stopped rt b (e ∷ es) h = run_stopped rt (step rt b e) es (step_stopped rt b e h)

-- In such a history a backend that has stopped never runs again, and from then on every `start` raises and every `send`
-- returns `False`.
pub stopped_final :
    (rt : Runtime) (b : Subprocess) (es : List Event)
    → b.state ≡ stopped
    → ((run rt b es).state ≡ stopped)
      × ((s : Spawn) → (start (run rt b es) s).1 ≡ some not_started)
      × ((m : String) (w : Write) → (send (run rt b es) m w).1 ≡ returned false)
unfolding start send
stopped_final rt b es h =
    let final = run_stopped rt b es h in
    (final, (λ s. ground (arith, final)), (λ m w. ground (arith, final)))
