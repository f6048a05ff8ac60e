-- ===== src/Client/Run.antt =====
-- Histories of `AsyncStdioBus` in stdiobus/client.py: the calls of its user, the messages and the end
-- of its backend, and the wakes of its waiting coroutines, in any order on the owning loop.
use stdiobus_python.Base.{ℕ, String, Option, List, [], ◌∷◌}
use stdiobus_python.Base.Int.{ℤ}
use stdiobus_python.Json.{Fields}
use stdiobus_python.Types.Protocol.{RequestOptions}
use stdiobus_python.Client.State.{Client, Runtime}
use stdiobus_python.Client.Subscription.{OverflowPolicy}
use stdiobus_python.Client.Bus.{Bus, BackendOps}
use stdiobus_python.Client.Dispatch.{close_subscription}
use stdiobus_python.Client.Loop.{handle_message_on_loop}
use stdiobus_python.Client.Teardown.{on_backend_closed}
use stdiobus_python.Client.Requests.{Wake, begin_request, end_request, notify}
use stdiobus_python.Client.Stream.{Stream, Awake, start_stream, next_round, resume, after_result}
use stdiobus_python.Client.Lifecycle.{stop, destroy, subscribe_notifications, iterate}

pub data Event : Type 0 where
  receives : String → Event
  backend_exits stops destroys : Event
  requests :
      (msg_id method : String) → Option Fields → Option ℤ → Option String → RequestOptions → Event
  wakes : (msg_id method : String) → ℕ → Wake → Event
  opens_stream :
      ℕ
      → (msg_id method : String) → Option Fields
      → Option ℤ
      → Option String
      → RequestOptions
      → Event
  pulls : Stream → ℕ → Event
  resumes : Stream → Awake → Event
  finishes : Stream → Event
  notifies : String → Option Fields → RequestOptions → Event
  subscribes : ℕ → OverflowPolicy → Event
  unsubscribes iterates : ℕ → Event

abbrev pub on_client : {B : Type 0} → Bus B → Client → Bus B
on_client b c = record b { client = c }

module _ {B : Type 0} (rt : Runtime) (ops : BackendOps B) where
  unfoldable pub step : Bus B → Event → Bus B
  step b (receives m) = on_client b (handle_message_on_loop rt b.client m).0
  step b backend_exits = on_client b (on_backend_closed b.client)
  step b stops = stop ops b
  step b destroys = destroy ops b
  step b (requests id method params timeout session opts) =
      (begin_request rt ops b id method params timeout session opts).0
  step b (wakes id method p w) = on_client b (end_request b.client id method p w).0
  step b (opens_stream now id method params timeout session opts) =
      (start_stream rt ops b now id method params timeout session opts).0
  step b (pulls s now) = on_client b (next_round b.client s now).0
  step b (resumes s a) = on_client b (resume b.client s a).0
  step b (finishes s) = on_client b (after_result b.client s).0
  step b (notifies method params opts) = (notify rt ops b method params opts).0
  step b (subscribes n o) = on_client b (subscribe_notifications b.client n o).0
  step b (unsubscribes p) = on_client b (close_subscription b.client p)
  step b (iterates p) = on_client b (iterate b.client p).0

  unfoldable pub run : Bus B → List Event → Bus B
  run b [] = b
  run b (e ∷ es) = run (step b e) es
