-- ===== src/Client/Subscription.antt =====
-- `NotificationSubscription` of stdiobus/client.py, apart from the owner's set of subscriptions.
pub mod Queue
pub mod Drain
pub mod Members
pub mod Isolation
pub mod Feed
use stdiobus_python.Base.{
  ℕ, Bool, true, false, ◌&&◌, Option, none, some, List, [], ◌∷◌, ◌++◌, length, ltb, leb,
  if◌then◌else◌,
}
use stdiobus_python.Json.{Fields}

pub data OverflowPolicy : Type 0 where
  drop close : OverflowPolicy

-- What the queue holds: a notification, or `_CLOSE_SENTINEL`.
pub data Entry : Type 0 where
  item : Fields → Entry
  sentinel : Entry

-- `maxsize` 0 stands for every `max_queue` up to 0: `asyncio.Queue` is unbounded then.
pub record NotificationSubscription : Type 0 where
  pub queue : List Entry
  pub maxsize : ℕ
  pub overflow : OverflowPolicy
  pub closed : Bool

-- The constructor of `NotificationSubscription`.
unfoldable pub new : ℕ → OverflowPolicy → NotificationSubscription
new max_queue overflow = record {
  queue = [];
  maxsize = max_queue;
  overflow = overflow;
  closed = false;
}

-- queue.full() of `asyncio.Queue`
abbrev pub is_full : NotificationSubscription → Bool
is_full s = ltb 0 s.maxsize && leb s.maxsize (length s.queue)

-- queue.put_nowait(entry), with `none` for `QueueFull`
unfoldable pub put_nowait : NotificationSubscription → Entry → Option NotificationSubscription
put_nowait s e = if is_full s then none else some (record s { queue = s.queue ++ e ∷ [] })

-- The part of `close` that changes the object itself: mark it, then enqueue the sentinel if there is
-- room.
unfoldable pub close_queue : NotificationSubscription → NotificationSubscription
unfolding put_nowait
close_queue s = elim (put_nowait (record s { closed = true }) sentinel) [
  | none ↦ record s { closed = true }
  | some t ↦ t
]

-- What a delivery does to the object: the second part tells whether it closed.
unfoldable pub deliver_queue : NotificationSubscription → Fields → NotificationSubscription × Bool
unfolding put_nowait close_queue
deliver_queue s n = if s.closed then (s, false) else elim (put_nowait s (item n)) [
  | some t ↦ (t, false)
  | none ↦ elim s.overflow [ drop ↦ (s, false) | close ↦ (close_queue s, true) ]
]

-- What one call of `__anext__` comes to: the next notification, `StopAsyncIteration`, or a wait for
-- the queue.
pub data Next : Type 0 where
  yields : Fields → Next
  stops blocks : Next

unfoldable pub anext : NotificationSubscription → NotificationSubscription × Next
anext s = elim s.queue [
  | [] ↦ if s.closed then (s, stops) else (s, blocks)
  | item n ∷ rest ↦ (record s { queue = rest }, yields n)
  | sentinel ∷ rest ↦ (record s { queue = rest }, stops)
]
