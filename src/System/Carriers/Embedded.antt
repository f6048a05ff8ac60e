-- ===== src/System/Carriers/Embedded.antt =====
-- The C library behind stdiobus/backends/native.py as a carrier, on the thread `th` of its loop.
use stdiobus_python.Base.{
  ℕ, String, ◌≡◌, refl, Bool, true, none, some, List, [], ◌∷◌, ◌==◌, nat-Eq, if◌then◌else◌,
}
use stdiobus_python.Base.Int.{pos}
use stdiobus_python.Types.Enums.{is_running_state}
use stdiobus_python.Client.Bus.{BackendOps, returned}
use stdiobus_python.Backends.Text.{Text, Handled}
use stdiobus_python.Backends.Utf8.{encode}
use stdiobus_python.Backends.Native.State.{Library, Native, live}
use stdiobus_python.Backends.Native.Starting
use stdiobus_python.Backends.Native.Starting.{is_some, schedule_poll_timer}
use stdiobus_python.Backends.Native.Operations
use stdiobus_python.Backends.Native.Operations.{
  on_loop_thread, ingest, on_poll_timer, on_poll_ready, run_soon, step_nonblocking, step_library,
}
use stdiobus_python.Backends.Native.Questions
use stdiobus_python.Backends.Native.Events.{step, timer_fires, reader_wakes, turn_comes}
use stdiobus_python.System.{client_handler}
use stdiobus_python.System.Carrier.{Carrier}

-- What wakes the object: the reader or the timer of its polling, or a turn of the loop, with a callback
-- that a send has put there.
pub data Wake : Type 0 where
  by_poll by_turn : Wake

module _ {H : Type 0} (lib : Library H) (th l timeout_ms : ℕ) (can_watch : Bool)
    (to_text : Text → String) (of_text : String → Text) where
  abbrev pub heard : List Handled → List String
  heard [] = []
  heard (c ∷ cs) = if c.handler == client_handler then to_text c.line ∷ heard cs else heard cs

  unfoldable pub wake : Native H → Wake → Native H
  wake k by_poll = elim k.reader [
    | some fd ↦ step lib k (reader_wakes th)
    | none ↦ step lib k (timer_fires th)
  ]
  wake k by_turn = step lib k (turn_comes th)

  -- A wake, with the handlers' calls taken out of the record.
  unfoldable pub read : Native H → Wake → Native H × List String
  unfolding wake
  read k w = let k' = wake (record k { calls = [] }) w in (record k' { calls = [] }, heard k'.calls)

  abbrev pub embedded_ops : BackendOps (Native H)
  embedded_ops = record {
    get_state = λ k. (Questions.get_state lib k th).1;
    send = λ k m. Operations.send lib k th (of_text m);
    start = λ k. Starting.start lib k l th can_watch;
    stop = λ k. Operations.stop lib k th timeout_ms;
    destroy = λ k. Operations.destroy k th;
  }

  -- A handle whose library runs and takes every message, on its own thread; the messages can be encoded.
  abbrev pub IsReady : Native H → Type 0
  IsReady k =
      (h : H) × (k.bus ≡ live h)
      × (lib.get_state h ≡ 2)
      × (on_loop_thread k th ≡ true)
      × ((bytes : List ℕ) → (lib.ingest h bytes).1 ≡ pos 0)
      × ((m : String) → (bytes : List ℕ) × (encode (of_text m) ≡ some bytes))

  pub embedded_runs :
      (k : Native H) → IsReady k → is_running_state (embedded_ops.get_state k) ≡ true
  unfolding Questions.get_state
  embedded_runs k (h, e, s, t, a, n) = rw e (rw s refl)

  pub embedded_sends :
      (k : Native H) (m : String) → IsReady k → (embedded_ops.send k m).1 ≡ returned true
  unfolding Operations.send ingest
  embedded_sends k m (h, e, s, t, a, n) = let (bytes, b) = n m in rw (e, t, b, a bytes) refl

  abbrev pub embedded : Carrier
  embedded = record {
    Backend = Native H;
    Input = Wake;
    ops = embedded_ops;
    read = read;
    IsReady = IsReady;
    ready_runs = embedded_runs;
    ready_sends = embedded_sends;
  }
