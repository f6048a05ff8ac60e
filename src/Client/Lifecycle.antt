-- ===== src/Client/Lifecycle.antt =====
-- The life of `AsyncStdioBus` in stdiobus/client.py: `start`, `stop`, `destroy`, `__aexit__`, the
-- end of `hello`, the subscriptions that it opens, and the queries.
use stdiobus_python.Base.{ℕ, suc, Bool, Option, none, some, [], ◌∷◌, ◌++◌, update}
use stdiobus_python.Json.{Json}
use stdiobus_python.Errors.{Exception, sdk, invalid_state_class, raise_new}
use stdiobus_python.Types.Enums.{BusState, stopped, is_running_state}
use stdiobus_python.Types.Protocol.{HelloResult, hello_result}
use stdiobus_python.Client.State.{Client}
use stdiobus_python.Client.Subscription
use stdiobus_python.Client.Subscription.{OverflowPolicy, Next, anext}
use stdiobus_python.Client.Teardown.{stop_client, close_subscriptions}
use stdiobus_python.Client.Bus.{Bus, BackendOps}

module _ {B : Type 0} (ops : BackendOps B) where
  -- `start`, on the running loop `l`.
  unfoldable pub start : Bus B → ℕ → Bus B × Option Exception
  start b l = elim b.backend [
    | none ↦ (b, some (sdk (raise_new invalid_state_class "Bus not initialized")))
    | some k ↦ let (k', e) = ops.start k in (record b { loop = some l; backend = some k' }, e)
  ]

  unfoldable pub stop : Bus B → Bus B
  stop b =
      let b' : Bus B = record b { client = stop_client b.client } in
      elim b.backend [ none ↦ b' | some k ↦ record b' { backend = some (ops.stop k) } ]

  unfoldable pub destroy : Bus B → Bus B
  destroy b = record b {
    client = close_subscriptions b.client;
    backend = none;
    released = elim b.backend [ none ↦ b.released | some k ↦ ops.destroy k ∷ b.released ];
  }

  -- `async with`: the entry starts the bus on the running loop.
  unfoldable pub aenter : Bus B → ℕ → Bus B × Option Exception
  unfolding start
  aenter b l = start b l

  -- `async with`: the exit stops the bus, then destroys it.
  unfoldable pub aexit : Bus B → Bus B
  unfolding stop destroy
  aexit b = destroy (stop b)

  unfoldable pub get_state : Bus B → BusState
  get_state b = elim b.backend [ none ↦ stopped | some k ↦ ops.get_state k ]

  unfoldable pub is_running : Bus B → Bool
  unfolding get_state
  is_running b = is_running_state (get_state b)

-- The setter of `agent_session_id`.
unfoldable pub set_agent_session : {B : Type 0} → Bus B → Json → Bus B
set_agent_session b v = record b { agent_session_id = v }

-- `hello`, once its request has returned a result: the session becomes the agent's.
unfoldable pub end_hello : {B : Type 0} → Bus B → Json → Bus B × (Option HelloResult)
end_hello b r = elim (hello_result r) [
  | none ↦ (b, none)
  | some h ↦ (record b { agent_session_id = h.session_id }, some h)
]

-- `subscribe_notifications`: the set is in the order of the calls.
unfoldable pub subscribe_notifications : Client → ℕ → OverflowPolicy → Client × ℕ
subscribe_notifications c max_queue overflow = (
  record c {
    subscriptions = c.subscriptions ++ c.next_sub ∷ [];
    subs = update c.subs c.next_sub (Subscription.new max_queue overflow);
    next_sub = suc c.next_sub;
  },
  c.next_sub,
)

-- One call of `__anext__` of the subscription at `p`.
unfoldable pub iterate : Client → ℕ → Client × Next
iterate c p = let (s, r) = anext (c.subs p) in (record c { subs = update c.subs p s }, r)

-- `on_message` and `on_notification`
unfoldable pub on_message : Client → ℕ → Client
on_message c h = record c { message_handlers = c.message_handlers ++ h ∷ [] }

unfoldable pub on_notification : Client → ℕ → Client
on_notification c h = record c { notification_handlers = c.notification_handlers ++ h ∷ [] }
