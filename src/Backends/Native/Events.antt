-- ===== src/Backends/Native/Events.antt =====
-- What happens to a `NativeBackend` of stdiobus/backends/native.py: calls of its methods, each on some
-- thread, and the wakes by its loop.
use mathlib.Core.Path.{◌≡◌}
use stdiobus_python.Base.{ℕ, zero, suc, Bool, none, some, List, [], ◌∷◌}
use stdiobus_python.Backends.Text.{Text}
use stdiobus_python.Backends.Native.State.{Library, Native}
use stdiobus_python.Backends.Native.Starting.{start}
use stdiobus_python.Backends.Native.Operations.{
  stop, send, destroy, on_poll_timer, on_poll_ready, run_soon, on_message,
}
use stdiobus_python.Backends.Native.Questions.{
  get_state, get_stats, get_worker_count, get_client_count,
}

pub data Event : Type 0 where
  starts : (l th : ℕ) → (can_watch : Bool) → Event
  stops : (th timeout_ms : ℕ) → Event
  is_destroyed : (th : ℕ) → Event
  sends : (th : ℕ) → Text → Event
  timer_fires : (th : ℕ) → Event
  reader_wakes : (th : ℕ) → Event
  turn_comes : (th : ℕ) → Event
  tells_state : (th : ℕ) → Event
  tells_stats : (th : ℕ) → Event
  tells_workers : (th : ℕ) → Event
  tells_clients : (th : ℕ) → Event
  adds_handler : ℕ → Event

module _ {H : Type 0} (lib : Library H) where
  -- The loop wakes the object only where it has a timer, a reader or a callback of it.
  unfoldable pub step : Native H → Event → Native H
  step b (starts l th can_watch) = (start lib b l th can_watch).0
  step b (stops th timeout_ms) = stop lib b th timeout_ms
  step b (is_destroyed th) = destroy b th
  step b (sends th m) = (send lib b th m).0
  step b (timer_fires th) = elim b.timers [ zero ↦ b | suc n ↦ on_poll_timer lib b th ]
  step b (reader_wakes th) = elim b.reader [ none ↦ b | some fd ↦ on_poll_ready lib b th ]
  step b (turn_comes th) = elim b.soon [ zero ↦ b | suc n ↦ run_soon lib b th ]
  step b (tells_state th) = (get_state lib b th).0
  step b (tells_stats th) = (get_stats lib b th).0
  step b (tells_workers th) = (get_worker_count lib b th).0
  step b (tells_clients th) = (get_client_count lib b th).0
  step b (adds_handler n) = on_message b n

  unfoldable pub run : Native H → List Event → Native H
  run b [] = b
  run b (e ∷ es) = run (step b e) es

-- The event is a send or a new handler, from any thread, or it happens on the thread `th`.
abbrev pub IsHome : ℕ → Event → Type 0
IsHome th (sends t m) = Unit {0}
IsHome th (starts l t w) = t ≡ th
IsHome th (stops t n) = t ≡ th
IsHome th (is_destroyed t) = t ≡ th
IsHome th (timer_fires t) = t ≡ th
IsHome th (reader_wakes t) = t ≡ th
IsHome th (turn_comes t) = t ≡ th
IsHome th (tells_state t) = t ≡ th
IsHome th (tells_stats t) = t ≡ th
IsHome th (tells_workers t) = t ≡ th
IsHome th (tells_clients t) = t ≡ th
IsHome th (adds_handler n) = Unit
