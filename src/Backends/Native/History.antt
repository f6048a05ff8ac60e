-- ===== src/Backends/Native/History.antt =====
-- The library's contract holds over every history of a `NativeBackend` of
-- stdiobus/backends/native.py.
use stdiobus_python.Base.{
  ℕ, zero, suc, ◌≡◌, refl, List, [], ◌∷◌, All, arith, nat-Eq, Option-cases, inl, inr, ◌⊎◌,
}
use stdiobus_python.Backends.Native.State.{Library, Native}
use stdiobus_python.Backends.Native.Operations.{begin_stop, stop}
use stdiobus_python.Backends.Native.Events.{
  adds_handler, Event, starts, stops, is_destroyed, sends, timer_fires, reader_wakes, turn_comes,
  tells_state, tells_stats, tells_workers, tells_clients, step, run, IsHome,
}
use stdiobus_python.Backends.Native.Contract.{IsSound}
use stdiobus_python.Backends.Native.Driven.{
  Pointer-cases, drain-IsSound, on_poll_timer-IsSound, on_poll_ready-IsSound, run_soon-IsSound,
}
use stdiobus_python.Backends.Native.Kept.{
  begin_stop-IsSound, start-IsSound, destroy-IsSound, send-IsSound, get_state-IsSound,
  get_stats-IsSound, get_worker_count-IsSound, get_client_count-IsSound, on_message-IsSound,
}

zero-cases : (n : ℕ) → (n ≡ 0) ⊎ ((m : ℕ) × (n ≡ suc m))
zero-cases zero = inl refl
zero-cases (suc m) = inr (m, refl)

module _ {H : Type 0} (th : ℕ) (lib : Library H) where
  stop-IsSound : (b : Native H) (t : ℕ) → IsSound th 0 b → IsSound th 0 (stop lib b th t)
  unfolding stop
  stop-IsSound b t v = elim (Pointer-cases b.bus) [
    | inr dead ↦ ground arith
    | inl (h, e) ↦
        rw (e, stop)
          (drain-IsSound th lib 0 t (begin_stop lib b h th t) (begin_stop-IsSound th lib b h t e v))
  ]

  -- No event breaks the contract.
  pub step-IsSound :
      (b : Native H) (e : Event) → IsHome th e → IsSound th 0 b → IsSound th 0 (step lib b e)
  unfolding step
  step-IsSound b (starts l t w) h v = rw h (start-IsSound th lib b l w v)
  step-IsSound b (stops t n) h v = rw h (stop-IsSound b n v)
  step-IsSound b (is_destroyed t) h v = rw h (destroy-IsSound th lib b v)
  step-IsSound b (sends t m) h v = send-IsSound th lib b t m v
  step-IsSound b (timer_fires t) h v = rw h (elim (zero-cases b.timers) [
    | inl e ↦ rw (e, step) v
    | inr (n, e) ↦ rw (e, step) (on_poll_timer-IsSound th lib b (omega (arith, e)) v)
  ])
  step-IsSound b (reader_wakes t) h v = rw h (elim (Option-cases b.reader) [
    | inl e ↦ rw (e, step) v
    | inr (fd, e) ↦ rw (e, step) (on_poll_ready-IsSound th lib 0 b v)
  ])
  step-IsSound b (turn_comes t) h v = rw h (elim (zero-cases b.soon) [
    | inl e ↦ rw (e, step) v
    | inr (n, e) ↦ rw (e, step) (run_soon-IsSound th lib 0 b v)
  ])
  step-IsSound b (tells_state t) h v = rw h (get_state-IsSound th lib b v)
  step-IsSound b (tells_stats t) h v = rw h (get_stats-IsSound th lib b v)
  step-IsSound b (tells_workers t) h v = rw h (get_worker_count-IsSound th lib b v)
  step-IsSound b (tells_clients t) h v = rw h (get_client_count-IsSound th lib b v)
  step-IsSound b (adds_handler n) h v = on_message-IsSound th lib b n v

  -- Whatever calls of its methods and wakes by its loop come to the object, the queries of the library
  -- among them, in any order, as long as all but the sends and the registrations of handlers happens on one
  -- thread: the library's calls keep to its contract. A handle is made, started, used and destroyed on that
  -- thread, none is used after it was destroyed or before it was started, and while one runs, exactly one
  -- of the loop's reader and its timer drives it.
  pub history-IsSound :
      (b : Native H) (es : List Event)
      → All (IsHome th) es
      → IsSound th 0 b
      → IsSound th 0 (run lib b es)
  unfolding run
  history-IsSound b [] h v = v
  history-IsSound b (e ∷ es) h v = history-IsSound (step lib b e) es h.1 (step-IsSound b e h.0 v)
