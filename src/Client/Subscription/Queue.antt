-- ===== src/Client/Subscription/Queue.antt =====
-- The bounded queue of a `NotificationSubscription` of stdiobus/client.py: its bound, what each
-- overflow policy does, and the drain of a closed subscription.
use stdiobus_python.Base.{
  ℕ, ◌≤◌, ◌<◌, ◌≡◌, true, false, [], ◌∷◌, ◌++◌, length, length-append, arith,
}
use stdiobus_python.Json.{Fields}
use stdiobus_python.Client.Subscription.{
  NotificationSubscription, OverflowPolicy, drop, close, item, sentinel, new, is_full, close_queue,
  deliver_queue, anext,
}

-- The bound of a queue that has one.
abbrev pub IsBounded : NotificationSubscription → Type 0
IsBounded s = (0 < s.maxsize → length s.queue ≤ s.maxsize)

pub new-IsBounded : (n : ℕ) (o : OverflowPolicy) → IsBounded (new n o)
unfolding new
new-IsBounded n o = λ h. omega arith

-- No delivery, no close and no pull takes a queue past its bound, whatever the policy.
pub queue-IsBounded :
    (s : NotificationSubscription) (n : Fields)
    → IsBounded s
    → IsBounded (deliver_queue s n).0 × IsBounded (close_queue s) × IsBounded (anext s).0
unfolding deliver_queue close_queue anext
queue-IsBounded s n v = (
  (λ h.
      ground
        (arith, v, length-append s.queue (item n ∷ []), length-append s.queue (sentinel ∷ []))),
  (λ h. ground (arith, v, length-append s.queue (sentinel ∷ []))),
  (λ h. ground (arith, v)),
)

-- An open subscription with room takes the notification at the end of its queue.
pub deliver_room :
    (s : NotificationSubscription) (n : Fields)
    → s.closed ≡ false
    → is_full s ≡ false
    → deliver_queue s n ≡ (record s { queue = s.queue ++ item n ∷ [] }, false)
unfolding deliver_queue
deliver_room s n o f = rw (o, f)

-- A full one under `drop` is left as it was, and one under `close` is closed with its queue kept;
-- a closed one takes nothing.
pub deliver_overflow :
    (s : NotificationSubscription) (n : Fields)
    → (s.closed ≡ false → is_full s ≡ true → s.overflow ≡ drop → deliver_queue s n ≡ (s, false))
      × (s.closed ≡ false
          → is_full s ≡ true
          → s.overflow ≡ close
          → deliver_queue s n ≡ (record s { closed = true }, true))
      × (s.closed ≡ true → deliver_queue s n ≡ (s, false))
unfolding deliver_queue
deliver_overflow s n = ((λ o f p. ground arith), (λ o f p. ground arith), (λ o. ground arith))
