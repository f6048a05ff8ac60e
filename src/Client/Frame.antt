-- ===== src/Client/Frame.antt =====
-- What the notification side of stdiobus/client.py leaves alone: handlers and subscriptions never
-- change the requests, and requests never change the subscriptions.
use stdiobus_python.Base.{ℕ, ◌≡◌, refl, ◌∙◌, List, [], ◌∷◌, Bool-cases, inl, inr}
use stdiobus_python.Json.{Fields}
use stdiobus_python.Client.Subscription.{deliver_queue}
use stdiobus_python.Client.State.{Client}
use stdiobus_python.Client.Dispatch.{close_subscription, deliver, deliver_each}
use stdiobus_python.Client.Teardown.{close_each, close_subscriptions}

pub record SameRequests (c c' : Client) : Type 0 where
  pub table : c'.pending_requests ≡ c.pending_requests
  pub objects : c'.pending ≡ c.pending
  pub next : c'.next_pending ≡ c.next_pending

pub SameRequests-trans : {a b c : Client} → SameRequests a b → SameRequests b c → SameRequests a c
SameRequests-trans x y = record {
  table = y.table ∙ x.table;
  objects = y.objects ∙ x.objects;
  next = y.next ∙ x.next;
}

unchanged : (c : Client) → SameRequests c c
unchanged c = record { table = refl; objects = refl; next = refl }

pub deliver-SameRequests : (c : Client) (p : ℕ) (n : Fields) → SameRequests c (deliver c p n)
unfolding deliver
deliver-SameRequests c p n = elim (Bool-cases (deliver_queue (c.subs p) n).1) [
  | inl e ↦ rw e (record { table = refl; objects = refl; next = refl })
  | inr e ↦ rw e (record { table = refl; objects = refl; next = refl })
]

pub deliver_each-SameRequests :
    (c : Client) (ps : List ℕ) (n : Fields) → SameRequests c (deliver_each c ps n)
unfolding deliver_each
deliver_each-SameRequests c [] n = unchanged c
deliver_each-SameRequests c (p ∷ ps) n =
    SameRequests-trans (deliver-SameRequests c p n) (deliver_each-SameRequests (deliver c p n) ps n)

pub close_subscription-SameRequests : (c : Client) (p : ℕ) → SameRequests c (close_subscription c p)
unfolding close_subscription
close_subscription-SameRequests c p = elim (Bool-cases (c.subs p).closed) [
  | inl e ↦ rw e (unchanged c)
  | inr e ↦ rw e (record { table = refl; objects = refl; next = refl })
]

pub close_each-SameRequests : (c : Client) (ps : List ℕ) → SameRequests c (close_each c ps)
unfolding close_each
close_each-SameRequests c [] = unchanged c
close_each-SameRequests c (p ∷ ps) =
    SameRequests-trans (close_subscription-SameRequests c p)
      (close_each-SameRequests (close_subscription c p) ps)

pub close_subscriptions-SameRequests : (c : Client) → SameRequests c (close_subscriptions c)
unfolding close_subscriptions
close_subscriptions-SameRequests c = close_each-SameRequests c c.subscriptions
