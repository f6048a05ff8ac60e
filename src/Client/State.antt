-- ===== src/Client/State.antt =====
-- The state of `AsyncStdioBus` in stdiobus/client.py that message handling reads and writes.
use stdiobus_python.Base.{ℕ, String, Option, List}
use stdiobus_python.Base.Dict.{Dict}
use stdiobus_python.Json.{Json}
use stdiobus_python.Client.Pending.{PendingRequest}
use stdiobus_python.Client.Subscription.{NotificationSubscription}

-- A call of a registered handler: which handler, and the text that it got.
pub data Call : Type 0 where
  on_message on_notification : ℕ → String → Call

-- `pending` and `subs` are the objects, by address; the table and the set hold addresses. Handlers
-- are user code: a handler is its number, and what they are called with is kept in `calls`.
pub record Client : Type 0 where
  pub message_handlers : List ℕ
  pub notification_handlers : List ℕ
  pub pending_requests : Dict ℕ
  pub pending : ℕ → PendingRequest
  pub next_pending : ℕ
  pub subscriptions : List ℕ
  pub subs : ℕ → NotificationSubscription
  pub next_sub : ℕ
  pub calls : List Call

-- What the code takes from the language's runtime: `json.loads` (`none` is `JSONDecodeError`),
-- `json.dumps`, and `str`.
pub record Runtime : Type 0 where
  pub loads : String → Option Json
  pub dumps : Json → String
  pub to_str : Json → String
