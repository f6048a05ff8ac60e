-- ===== src/Client/Subscription/Drain.antt =====
-- The end of a `NotificationSubscription` of stdiobus/client.py: once closed, it hands out what was
-- buffered, in order, and then stops.
use stdiobus_python.Base.{
  ℕ, zero, suc, ◌≡◌, ◌≢◌, refl, ap, true, List, [], ◌∷◌, ◌++◌, map, length, arith, Bool-cases, inl,
  inr, ◌⊎◌,
}
use stdiobus_python.Json.{Fields}
use stdiobus_python.Client.Subscription.{
  NotificationSubscription, Entry, item, sentinel, is_full, close_queue, Next, yields, stops,
  blocks, anext,
}

-- What the next pulls give, with nothing in between.
unfoldable pub pulls : NotificationSubscription → ℕ → List Next
pulls s zero = []
pulls s (suc k) = (anext s).1 ∷ pulls (anext s).0 k

anext_at :
    (s : NotificationSubscription) (n : Fields) (rest : List Entry)
    → s.queue ≡ item n ∷ rest
    → anext s ≡ (record s { queue = rest }, yields n)
unfolding anext
anext_at s n rest e = rw (e, anext)

-- With a closed queue that holds notifications, and then a sentinel or nothing, pulls give the
-- notifications and then the end.
pulls_closed :
    (ns : List Fields) (s : NotificationSubscription)
    → s.closed ≡ true
    → (s.queue ≡ map item ns) ⊎ (s.queue ≡ map item ns ++ sentinel ∷ [])
    → pulls s (suc (length ns)) ≡ map yields ns ++ stops ∷ []
unfolding pulls anext
pulls_closed [] s c (inl e) = rw (e, anext) (rw c)
pulls_closed [] s c (inr e) = rw (e, anext)
pulls_closed (n ∷ ns) s c (inl e) =
    rw (anext_at s n (map item ns) e)
      (ap (◌∷◌ (yields n)) (pulls_closed ns (record s { queue = map item ns }) c (inl refl)))
pulls_closed (n ∷ ns) s c (inr e) = rw (anext_at s n (map item ns ++ sentinel ∷ []) e) (
    ap (◌∷◌ (yields n))
      (pulls_closed ns (record s { queue = map item ns ++ sentinel ∷ [] }) c (inr refl)))

closed_queue :
    (s : NotificationSubscription) (q : List Entry)
    → s.queue ≡ q
    → ((close_queue s).closed ≡ true)
      × (((close_queue s).queue ≡ q) ⊎ ((close_queue s).queue ≡ q ++ sentinel ∷ []))
unfolding close_queue
closed_queue s q e = elim (Bool-cases (is_full s)) [
  | inl f ↦ rw (f, close_queue) (refl, inl e)
  | inr r ↦ rw (r, close_queue) (refl, inr (ap (λ x. x ++ sentinel ∷ []) e))
]

-- Drain, then stop: closing a subscription loses no buffered notification. The consumer gets them
-- all, in order, and then the end of the iteration, whether or not the queue had room for the
-- sentinel; and no pull waits.
pub drain_then_stop :
    (s : NotificationSubscription) (ns : List Fields)
    → s.queue ≡ map item ns
    → pulls (close_queue s) (suc (length ns)) ≡ map yields ns ++ stops ∷ []
drain_then_stop s ns e =
    let (c, q) = closed_queue s (map item ns) e in pulls_closed ns (close_queue s) c q

-- A closed subscription never makes its consumer wait.
pub closed_never_blocks : (s : NotificationSubscription) → s.closed ≡ true → (anext s).1 ≢ blocks
unfolding anext
closed_never_blocks s c e = ground arith
