-- ===== src/Client/Sync.antt =====
-- `StdioBus` of stdiobus/client.py: each coroutine of the asynchronous client runs to its end on a
-- private loop.
use stdiobus_python.Base.{
  ℕ, suc, String, Bool, false, ◌==◌, nat-Eq, if◌then◌else◌, Option, none, some, List,
}
use stdiobus_python.Base.Int.{ℤ}
use stdiobus_python.Json.{Json, Fields}
use stdiobus_python.Errors.{Exception}
use stdiobus_python.Types.Enums.{BusState, BusStats, ListenMode}
use stdiobus_python.Types.Protocol.{RequestOptions, HelloParams}
use stdiobus_python.Client.State.{Runtime}
use stdiobus_python.Client.Bus
use stdiobus_python.Client.Bus.{Bus, BackendOps, Sent}
use stdiobus_python.Client.Requests
use stdiobus_python.Client.Requests.{Wake, Reply}
use stdiobus_python.Client.Lifecycle
use stdiobus_python.Client.Run.{Event}
use stdiobus_python.Client.Session
use stdiobus_python.Client.Queries
use stdiobus_python.Client.Queries.{Introspection}
use stdiobus_python.Client.Session.{Greeted, Connected}

-- A loop, by its number, and whether it is closed.
pub record Loop : Type 0 where
  pub number : ℕ
  pub is_closed : Bool

pub record StdioBus (B : Type 0) : Type 0 where
  pub bus : Bus B
  pub loop : Option Loop
  pub next_loop : ℕ

-- `run_until_complete` returns what the coroutine returns, or raises `RuntimeError` because a loop
-- already runs in the thread, before the coroutine has begun.
pub data Outcome (A : Type 0) : Type 0 where
  done : A → Outcome A
  loop_runs : Outcome A

abbrev pub open_loop : ℕ → Loop
open_loop n = record { number = n; is_closed = false }

abbrev runs : Option ℕ → ℕ → Bool
runs none n = false
runs (some r) n = r == n

module _ {B : Type 0} where
  -- `asyncio.get_running_loop()`, or `asyncio.new_event_loop()`. `running` is the loop that runs in the
  -- calling thread.
  abbrev pub find_loop : StdioBus B → Option ℕ → StdioBus B × ℕ
  find_loop s (some r) = (record s { loop = some (open_loop r) }, r)
  find_loop s none =
      (record s { loop = some (open_loop s.next_loop); next_loop = suc s.next_loop }, s.next_loop)

  unfoldable pub get_loop : StdioBus B → Option ℕ → StdioBus B × ℕ
  get_loop s running = elim s.loop [
    | none ↦ find_loop s running
    | some l ↦ if l.is_closed then find_loop s running else (s, l.number)
  ]

  -- `_run`, of a coroutine that gets the number of its loop.
  unfoldable pub run :
      {A : Type 0} → StdioBus B → Option ℕ → (ℕ → Bus B → Bus B × A) → StdioBus B × Outcome A
  unfolding get_loop
  run s running coro =
      let (s', l) = get_loop s running in
      elim running [
        | some r ↦ (s', loop_runs)
        | none ↦ (let (b, x) = coro l s'.bus in (record s' { bus = b }, done x))
      ]

  -- The methods that pass on to the client's own attributes.
  unfoldable pub on_message : StdioBus B → ℕ → StdioBus B
  on_message s h = record s { bus = record s.bus { client = Lifecycle.on_message s.bus.client h } }

  unfoldable pub on_notification : StdioBus B → ℕ → StdioBus B
  on_notification s h = record s {
    bus = record s.bus { client = Lifecycle.on_notification s.bus.client h };
  }

  unfoldable pub set_agent_session : StdioBus B → Json → StdioBus B
  set_agent_session s v = record s { bus = Lifecycle.set_agent_session s.bus v }

  module _ (rt : Runtime) (ops : BackendOps B) (s : StdioBus B) (running : Option ℕ) where
    unfoldable pub start : StdioBus B × Outcome (Option Exception)
    unfolding run
    start = run s running (λ l b. Lifecycle.start ops b l)

    unfoldable pub stop : StdioBus B × Outcome Unit
    unfolding run
    stop = run s running (λ l b. (Lifecycle.stop ops b, tt))

    unfoldable pub connect :
        String → Option HelloParams → List Event → Wake → StdioBus B × Outcome Connected
    unfolding run
    connect id params during w =
        run s running (λ l b. Session.connect rt ops b l id params during w)

    unfoldable pub hello : String → HelloParams → List Event → Wake → StdioBus B × Outcome Greeted
    unfolding run
    hello id p during w = run s running (λ l b. Session.hello rt ops b id p during w)

    unfoldable pub request :
        (msg_id method : String)
        → Option Fields
        → Option ℤ
        → Option String
        → RequestOptions
        → List Event
        → Wake
        → StdioBus B × Outcome Reply
    unfolding run
    request id method params timeout session opts during w =
        run s running
          (λ l b. Session.request rt ops b id method params timeout session opts during w)

    unfoldable pub notify :
        String → Option Fields → RequestOptions → StdioBus B × Outcome (Option Exception)
    unfolding run
    notify method params opts = run s running (λ l b. Requests.notify rt ops b method params opts)

    -- No coroutine.
    unfoldable pub send : String → StdioBus B × Sent
    send m = let (b, r) = Bus.send ops s.bus m in (record s { bus = b }, r)

    unfoldable pub get_state : BusState
    get_state = Lifecycle.get_state ops s.bus

    unfoldable pub is_running : Bool
    is_running = Lifecycle.is_running ops s.bus

    -- The bus first; then the loop is closed, unless it is closed already. The loop that runs in the
    -- thread cannot be closed: `RuntimeError`, and the attribute stays.
    unfoldable pub destroy : StdioBus B × Outcome Unit
    destroy =
        let s' : StdioBus B = record s { bus = Lifecycle.destroy ops s.bus } in
        elim s.loop [
          | none ↦ (s', done tt)
          | some l ↦
              if l.is_closed
              then (s', done tt)
              else if runs running l.number
              then (s', loop_runs)
              else (record s' { loop = none }, done tt)
        ]

  module _ (rt : Runtime) (ops : BackendOps B) where
    -- `with StdioBus(…) as bus`: the entry.
    unfoldable pub enter : StdioBus B → Option ℕ → StdioBus B × Outcome (Option Exception)
    unfolding start
    enter s running = start rt ops s running

    -- `with StdioBus(…) as bus`: the exit. Where `stop` raises, `destroy` is not called.
    unfoldable pub exit : StdioBus B → Option ℕ → StdioBus B × Outcome Unit
    unfolding stop destroy
    exit s running =
        let (s', r) = stop rt ops s running in
        elim r [ loop_runs ↦ (s', loop_runs) | done x ↦ destroy rt ops s' running ]

-- The queries, which pass on to the client's own.
module _ {B : Type 0} (i : Introspection B) (s : StdioBus B) where
  unfoldable pub get_stats : BusStats
  get_stats = Queries.get_stats i s.bus

  unfoldable pub get_backend_type : String
  get_backend_type = Queries.get_backend_type i s.bus

  unfoldable pub get_listen_mode : ListenMode
  get_listen_mode = Queries.get_listen_mode i s.bus

  unfoldable pub get_worker_count : ℤ
  get_worker_count = Queries.get_worker_count i s.bus

  unfoldable pub get_client_count : ℤ
  get_client_count = Queries.get_client_count i s.bus
