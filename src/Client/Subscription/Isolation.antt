-- ===== src/Client/Subscription/Isolation.antt =====
-- The set of subscriptions of stdiobus/client.py: one subscriber never affects another.
use mathlib.Core.Path.{subst}
use stdiobus_python.Base.{
  String, Option, none, some, sym, All, each_holds, ℕ, ◌≡◌, ◌≢◌, refl, ap, ◌∙◌, false, List, [],
  ◌∷◌, In, Distinct, update_self, update_ne, Bool-cases, inl, inr, ◌==◌, nat-Eq, nat_eq_iff,
}
use stdiobus_python.Json.{Fields, obj}
use stdiobus_python.Client.Subscription.{NotificationSubscription, deliver_queue}
use stdiobus_python.Client.State.{Client, Runtime}
use stdiobus_python.Client.Dispatch.{
  deliver, deliver_each, broadcast_chunk, chunk_text, call_message_handlers,
  call_notification_handlers, handle_notification_on_loop,
}
use stdiobus_python.Client.Loop.{dispatch, dispatch_object, handle_message_on_loop}
use stdiobus_python.Client.Notifications.{IsNotification}
use stdiobus_python.Client.Subscription.Members.{HasMembers}

deliver_other : (c : Client) (p q : ℕ) (n : Fields) → q ≢ p → (deliver c p n).subs q ≡ c.subs q
unfolding deliver
deliver_other c p q n ne = elim (Bool-cases (deliver_queue (c.subs p) n).1) [
  | inl e ↦ rw e (update_ne c.subs p q _ ne)
  | inr e ↦ rw e (update_ne c.subs p q _ ne)
]

deliver_own :
    (c : Client) (p : ℕ) (n : Fields) → (deliver c p n).subs p ≡ (deliver_queue (c.subs p) n).0
unfolding deliver
deliver_own c p n = elim (Bool-cases (deliver_queue (c.subs p) n).1) [
  | inl e ↦ rw e (update_self c.subs p _)
  | inr e ↦ rw e (update_self c.subs p _)
]

deliver_each_out :
    (ps : List ℕ) (c : Client) (q : ℕ) (n : Fields)
    → ¬ In q ps
    → (deliver_each c ps n).subs q ≡ c.subs q
unfolding deliver_each
deliver_each_out [] c q n out = refl
deliver_each_out (p ∷ ps) c q n out =
    deliver_each_out ps (deliver c p n) q n (λ i. out (inr i))
    ∙ deliver_other c p q n (λ e. out (inl e))

deliver_each_at :
    (ps : List ℕ) (c : Client) (q : ℕ) (n : Fields)
    → Distinct ps
    → (In q ps → (deliver_each c ps n).subs q ≡ (deliver_queue (c.subs q) n).0)
      × (¬ In q ps → (deliver_each c ps n).subs q ≡ c.subs q)
unfolding deliver_each
deliver_each_at [] c q n d = ((λ i. elim i [ ]), (λ out. refl))
deliver_each_at (p ∷ ps) c q n d = (
  (λ i. elim (Bool-cases (q == p)) [
    | inl same ↦
        let e : q ≡ p = (nat_eq_iff q p).0 same in
        rw e (deliver_each_out ps (deliver c p n) p n d.0 ∙ deliver_own c p n)
    | inr other ↦ elim i [
      | inl e ↦ absurd (differ other e)
      | inr j ↦
          (deliver_each_at ps (deliver c p n) q n d.1).0 j
          ∙ ap (λ s. (deliver_queue s n).0) (deliver_other c p q n (differ other))
    ]
  ]),
  deliver_each_out (p ∷ ps) c q n,
)
  where
    differ : (q == p) ≡ false → q ≢ p
    differ other e = cc ((nat_eq_iff q p).1 e)

broadcast_chunk-subs :
    (c : Client) (o : Option String)
    → ((broadcast_chunk c o).subs ≡ c.subs)
      × ((broadcast_chunk c o).subscriptions ≡ c.subscriptions)
unfolding broadcast_chunk
broadcast_chunk-subs c none = (refl, refl)
broadcast_chunk-subs c (some t) = (refl, refl)

module _ (rt : Runtime) where
  notified :
      (c : Client) (d : Fields) (q : ℕ)
      → Distinct c.subscriptions
      → In q c.subscriptions
      → (handle_notification_on_loop rt c d).subs q ≡ (deliver_queue (c.subs q) d).0
  unfolding handle_notification_on_loop call_notification_handlers
  notified c d q distinct i =
      let c1 = broadcast_chunk c (chunk_text d) in
      let c2 = call_notification_handlers c1 (rt.dumps (obj d)) in
      let (same, set) = broadcast_chunk-subs c (chunk_text d) in
      (deliver_each_at c2.subscriptions c2 q d (subst (λ l. Distinct l) (sym set) distinct)).0
        (subst (λ l. In q l) (sym set) i)
      ∙ ap (λ (h : ℕ → NotificationSubscription). (deliver_queue (h q) d).0) same

  -- When a notification comes, each subscription that is active gets it exactly once, as if it were alone:
  -- what it becomes depends on its own queue, bound and policy only, whoever else is closed or full.
  pub subscriber_isolated :
      (c : Client) (m : String) (d : Fields)
      → IsNotification rt (m, d)
      → HasMembers c
      → All
          (λ q. (handle_message_on_loop rt c m).0.subs q ≡ (deliver_queue (c.subs q) d).0)
          c.subscriptions
  unfolding handle_message_on_loop call_message_handlers
  subscriber_isolated c m d n v = each_holds _ c.subscriptions (λ q i.
      rw (n.0, handle_message_on_loop)
        (unfold dispatch in
          rw (n.1, dispatch_object)
            (rw n.2 (notified (call_message_handlers c m) d q v.distinct i))))
