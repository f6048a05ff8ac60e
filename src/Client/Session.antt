-- ===== src/Client/Session.antt =====
-- The coroutines `request`, `hello` and `connect` of stdiobus/client.py as wholes: what happens on the
-- loop while a request waits is a list of events.
use stdiobus_python.Base.{ℕ, String, Option, none, some, List}
use stdiobus_python.Base.Int.{ℤ}
use stdiobus_python.Json.{Fields}
use stdiobus_python.Errors.{Exception, attribute_error}
use stdiobus_python.Types.Protocol.{
  RequestOptions, no_options, HelloParams, HelloResult, hello_params_dict,
}
use stdiobus_python.Client.State.{Runtime}
use stdiobus_python.Client.Bus.{Bus, BackendOps}
use stdiobus_python.Client.Requests.{
  Begun, begin_raised, awaits, begin_request, Wake, end_request, Reply, replies, reply_raised,
}
use stdiobus_python.Client.Lifecycle.{start, end_hello}
use stdiobus_python.Client.Run
use stdiobus_python.Client.Run.{Event, receives, on_client}

-- What `hello` comes to: the result, or what its request, or the reading of its answer, raises.
pub data Greeted : Type 0 where
  greeted : HelloResult → Greeted
  not_greeted : Reply → Greeted

-- What `connect` comes to: `None` without parameters, the result of `hello`, or an exception.
pub data Connected : Type 0 where
  connected : Option HelloResult → Connected
  not_connected : Reply → Connected

module _ {B : Type 0} (rt : Runtime) (ops : BackendOps B) where
  unfoldable pub end_call :
      Bus B × Begun → (msg_id method : String) → List Event → Wake → Bus B × Reply
  end_call (b, begin_raised e) id method during w = (b, reply_raised e)
  end_call (b, awaits p t) id method during w =
      let b' = Run.run rt ops b during in
      let (c, r) = end_request b'.client id method p w in (on_client b' c, r)

  -- `during` is what the loop does until the wait ends, and `w` how it ends.
  unfoldable pub request :
      Bus B
      → (msg_id method : String) → Option Fields
      → Option ℤ
      → Option String
      → RequestOptions
      → List Event
      → Wake
      → Bus B × Reply
  unfolding end_call
  request b id method params timeout session opts during w =
      end_call (begin_request rt ops b id method params timeout session opts) id method during w

  unfoldable pub greet : Bus B × Reply → Bus B × Greeted
  greet (b, replies r) =
      let (b', h) = end_hello b r in
      (b', elim h [ none ↦ not_greeted (reply_raised attribute_error) | some x ↦ greeted x ])
  greet (b, r) = (b, not_greeted r)

  unfoldable pub hello : Bus B → String → HelloParams → List Event → Wake → Bus B × Greeted
  unfolding request greet
  hello b id p during w =
      greet
        (request b id "stdio_bus/hello" (some (hello_params_dict p)) none none no_options during w)

  abbrev pub after_hello : Bus B × Greeted → Bus B × Connected
  after_hello (b, greeted h) = (b, connected (some h))
  after_hello (b, not_greeted r) = (b, not_connected r)

  unfoldable pub after_start :
      Bus B × Option Exception → String → Option HelloParams → List Event → Wake → Bus B × Connected
  unfolding hello
  after_start (b, some x) id params during w = (b, not_connected (reply_raised x))
  after_start (b, none) id none during w = (b, connected none)
  after_start (b, none) id (some p) during w = after_hello (hello b id p during w)

  -- `l` is the running loop.
  unfoldable pub connect :
      Bus B → ℕ → String → Option HelloParams → List Event → Wake → Bus B × Connected
  unfolding after_start
  connect b l id params during w = after_start (start ops b l) id params during w
