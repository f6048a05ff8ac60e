-- ===== src/Client/Shutdown.antt =====
-- The ends that stdiobus/client.py gives to requests and subscriptions: `stop`, the exit of the
-- backend, and `destroy`.
use stdiobus_python.Base.{
  ℕ, String, ◌≡◌, refl, sym, ap, ◌∙◌, false, Option, none, some, List, [], ◌∷◌, ◌++◌, In, Distinct,
  All, each_holds, update, update_ne, arith, Bool-cases, inl, inr, if◌then◌else◌, ◌==◌, nat-Eq,
  nat_eq_iff,
}
use stdiobus_python.Base.Dict
use stdiobus_python.Base.Dict.{values}
use stdiobus_python.Base.Heap.{for_each-In, get-In}
use stdiobus_python.Errors.{StdioBusError}
use stdiobus_python.Client.Pending.{
  is_stream, PendingRequest, Future, waiting, rejected, Item, error, deliver_error,
}
use stdiobus_python.Client.Subscription.{NotificationSubscription, close_queue}
use stdiobus_python.Client.Subscription.Members.{In-discard, HasMembers}
use stdiobus_python.Client.State.{Client}
use stdiobus_python.Client.Dispatch
use stdiobus_python.Client.Dispatch.{close_subscription}
use stdiobus_python.Client.Teardown.{
  fail_all, on_backend_closed, exited_error, shutdown_error, close_each, close_subscriptions,
  stop_client,
}
use stdiobus_python.Client.Frame.{close_subscriptions-SameRequests}
use stdiobus_python.Client.Valid.{IsValid}

close_subscription_open :
    (c : Client) (p : ℕ)
    → (c.subs p).closed ≡ false
    → ((close_subscription c p).subs ≡ update c.subs p (close_queue (c.subs p)))
      × ((close_subscription c p).subscriptions ≡ Dispatch.discard c.subscriptions p)
unfolding close_subscription
close_subscription_open c p e = rw e (refl, refl)

-- Closing the members of a list, all open: what each becomes, and who is left in the set.
module _ (q : ℕ) where
  close_each_at :
      (ps : List ℕ) (c : Client)
      → Distinct ps
      → ((p : ℕ) → In p ps → (c.subs p).closed ≡ false)
      → (In q ps → (close_each c ps).subs q ≡ close_queue (c.subs q))
        × (¬ In q ps → (close_each c ps).subs q ≡ c.subs q)
        × (In q (close_each c ps).subscriptions → In q c.subscriptions × (¬ In q ps))
  unfolding close_each
  close_each_at [] c d o = ((λ i. absurd i), (λ out. refl), (λ i. (i, (λ j. j))))
  close_each_at (p ∷ ps) c d o =
      let (h, set) = close_subscription_open c p (o p (inl refl)) in
      let (ins, outs, left) = close_each_at ps (close_subscription c p) d.1 (λ x i.
        rw (h, update_ne c.subs p x (close_queue (c.subs p)) (λ e. d.0 (rw e at i)))
          (o x (inr i))) in
      (
        (λ i. elim (Bool-cases (q == p)) [
          | inl same ↦
              let e : q ≡ p = (nat_eq_iff q p).0 same in
              outs (λ j. d.0 (rw e at j))
              ∙ ap (λ (k : ℕ → NotificationSubscription). k q) h
              ∙ rw same (ap (λ x. close_queue (c.subs x)) (sym e))
          | inr other ↦ elim i [
            | inl e ↦ cc ((nat_eq_iff q p).1 e)
            | inr j ↦
                ins j ∙ ap close_queue (ap (λ (k : ℕ → NotificationSubscription). k q) h ∙ rw other)
          ]
        ]),
        (λ out.
            outs (λ j. out (inr j))
            ∙ ap (λ (k : ℕ → NotificationSubscription). k q) h
            ∙ update_ne c.subs p q _ (λ e. out (inl e))),
        (λ i.
            let (j, out) = left i in
            let (k, ne) = In-discard c.subscriptions p q (rw set at j) in
            (k, (λ x. elim x [ inl e ↦ ne e | inr y ↦ out y ]))),
      )

nothing_In : (ps : List ℕ) → ((q : ℕ) → ¬ In q ps) → ps ≡ []
nothing_In [] h = refl
nothing_In (p ∷ ps) h = absurd (h p (inl refl))

-- `destroy`, and `stop` too, leave no active subscription, and close each that was active, which
-- keeps what it has buffered; they touch no other.
pub close_subscriptions_all :
    (c : Client)
    → HasMembers c
    → ((close_subscriptions c).subscriptions ≡ [])
      × ((q : ℕ)
          → (In q c.subscriptions → (close_subscriptions c).subs q ≡ close_queue (c.subs q))
            × (¬ In q c.subscriptions → (close_subscriptions c).subs q ≡ c.subs q))
unfolding close_subscriptions
close_subscriptions_all c v = (
  nothing_In _ (λ q i.
      let (_, _, left) = close_each_at q c.subscriptions c v.distinct v.is_open in
      let (j, out) = left i in out j),
  (λ q. let (ins, outs, _) = close_each_at q c.subscriptions c v.distinct v.is_open in (ins, outs)),
)

-- What a request comes to by an error: a stream has it at the end of its queue, and a future that
-- waits has it as its exception.
abbrev pub failed_queue : Option (List Item) → StdioBusError → Option (List Item)
failed_queue none e = none
failed_queue (some q) e = some (q ++ error e ∷ [])

abbrev pub failed_future : Option Future → StdioBusError → Option Future
failed_future (some waiting) e = some (rejected e)
failed_future f e = f

abbrev pub Fails : PendingRequest → PendingRequest → StdioBusError → Type 0
Fails o o' e =
    (o'.queue ≡ failed_queue o.queue e)
    × (o'.future ≡ (if is_stream o then o.future else failed_future o.future e))

deliver_error-Fails : (o : PendingRequest) (e : StdioBusError) → Fails o (deliver_error o e) e
unfolding deliver_error
deliver_error-Fails o e = (ground arith, ground arith)

fail_all_at :
    (c : Client) (e : StdioBusError) (id : String) (p : ℕ)
    → IsValid c
    → Dict.get c.pending_requests id ≡ some p
    → (fail_all c e).pending p ≡ deliver_error (c.pending p) e
unfolding fail_all
fail_all_at c e id p v known =
    for_each-In (λ o. deliver_error o e) (values c.pending_requests) c.pending p v.distinct
      (get-In c.pending_requests id p known)

-- When the backend exits, the table is empty, and every request that was in flight, in either mode,
-- has failed with the transport error of an exit.
pub on_backend_closed_all :
    (c : Client) (id : String) (p : ℕ)
    → IsValid c
    → Dict.get c.pending_requests id ≡ some p
    → ((on_backend_closed c).pending_requests ≡ [])
      × Fails (c.pending p) ((on_backend_closed c).pending p) exited_error
unfolding on_backend_closed
on_backend_closed_all c id p v known = (
  unfold fail_all in refl,
  rw (fail_all_at c exited_error id p v known) (deliver_error-Fails (c.pending p) exited_error),
)

pub stop_client_lem :
    (c : Client)
    → IsValid c
    → HasMembers c
    → ((stop_client c).pending_requests ≡ [])
      × ((stop_client c).subscriptions ≡ [])
      × All
          (λ p. Fails (c.pending p) ((stop_client c).pending p) shutdown_error)
          (values c.pending_requests)
      × All (λ q. (stop_client c).subs q ≡ close_queue (c.subs q)) c.subscriptions
unfolding stop_client
stop_client_lem c v m =
    let failed = fail_all c shutdown_error in
    let s = close_subscriptions-SameRequests failed in
    let (empty, each) = close_subscriptions_all failed (unfold fail_all in m) in
    (
      s.table ∙ unfold fail_all in refl,
      empty,
      each_holds _ (values c.pending_requests)
          (λ p i. rw (s.objects, failed_at p i) (deliver_error-Fails (c.pending p) shutdown_error)),
      each_holds _ c.subscriptions (λ q i. unfold fail_all in (each q).0 i),
    )
  where
    failed_at :
        (p : ℕ)
        → In p (values c.pending_requests)
        → (fail_all c shutdown_error).pending p ≡ deliver_error (c.pending p) shutdown_error
    failed_at p i =
        unfold fail_all in
        for_each-In (λ o. deliver_error o shutdown_error) (values c.pending_requests) c.pending p
          v.distinct i
