-- ===== src/Client/Subscription/Members.antt =====
-- The set of active subscriptions of stdiobus/client.py: the invariant of the set and of the queues,
-- and that deliveries, closes, pulls and new subscriptions keep it.
use stdiobus_python.Base.{
  ℕ, suc, ◌<◌, ◌≡◌, ◌≢◌, sym, ap, ◌∙◌, false, List, [], ◌∷◌, ◌++◌, In, Distinct, update,
  update_self, update_ne, arith, Bool-cases, inl, inr, ◌⊎◌, ◌==◌, nat-Eq, nat_eq_iff,
}
use stdiobus_python.Json.{Fields}
use stdiobus_python.Client.Subscription.{
  NotificationSubscription, OverflowPolicy, new, deliver_queue,
}
use stdiobus_python.Client.Subscription.Queue.{IsBounded, new-IsBounded, queue-IsBounded}
use stdiobus_python.Client.State.{Client}
use stdiobus_python.Client.Dispatch.{discard, deliver, deliver_each}

pub In-discard : (qs : List ℕ) (p q : ℕ) → In q (discard qs p) → In q qs × (q ≢ p)
unfolding discard
In-discard [] p q i = absurd i
In-discard (x ∷ qs) p q i = elim (Bool-cases (x == p)) [
  | inl same ↦ let (j, ne) = In-discard qs p q (rw same at i) in (inr j, ne)
  | inr other ↦ elim (rw other at i) [
    | inl e ↦ (inl e, λ h. cc ((nat_eq_iff x p).1 (sym e ∙ h)))
    | inr j ↦ let (k, ne) = In-discard qs p q j in (inr k, ne)
  ]
]

discard-Distinct : (qs : List ℕ) (p : ℕ) → Distinct qs → Distinct (discard qs p)
unfolding discard
discard-Distinct [] p d = tt
discard-Distinct (x ∷ qs) p d = elim (Bool-cases (x == p)) [
  | inl same ↦ rw same (discard-Distinct qs p d.1)
  | inr other ↦ rw other ((λ i. d.0 (In-discard qs p x i).0), discard-Distinct qs p d.1)
]

In-append : (qs : List ℕ) (p q : ℕ) → In q (qs ++ p ∷ []) → In q qs ⊎ (q ≡ p)
In-append [] p q (inl e) = inr e
In-append [] p q (inr i) = elim i [ ]
In-append (x ∷ qs) p q (inl e) = inl (inl e)
In-append (x ∷ qs) p q (inr i) = elim (In-append qs p q i) [ inl j ↦ inl (inr j) | inr e ↦ inr e ]

append-Distinct : (qs : List ℕ) (p : ℕ) → Distinct qs → ¬ In p qs → Distinct (qs ++ p ∷ [])
append-Distinct [] p d out = ((λ i. i), tt)
append-Distinct (x ∷ qs) p d out = (
  (λ i. elim (In-append qs p x i) [ inl j ↦ d.0 j | inr e ↦ out (inl (sym e)) ]),
  append-Distinct qs p d.1 (λ i. out (inr i)),
)

-- Each member stands once, was allocated and is open; and every queue keeps to its bound.
pub record Members (qs : List ℕ) (h : ℕ → NotificationSubscription) (n : ℕ) : Type 0 where
  pub distinct : Distinct qs
  pub fresh : (q : ℕ) → In q qs → q < n
  pub is_open : (q : ℕ) → In q qs → (h q).closed ≡ false
  pub bounded : (q : ℕ) → IsBounded (h q)

module _ {qs : List ℕ} {h : ℕ → NotificationSubscription} {n : ℕ} (v : Members qs h n) where
  update-IsBounded :
      (p : ℕ) (s : NotificationSubscription) → IsBounded s → (q : ℕ) → IsBounded (update h p s q)
  update-IsBounded p s b q = elim (Bool-cases (q == p)) [
    | inl same ↦ rw same b
    | inr other ↦ rw other (v.bounded q)
  ]

  -- A member changes and leaves.
  pub leave-Members :
      (p : ℕ) (s : NotificationSubscription) → IsBounded s → Members (discard qs p) (update h p s) n
  leave-Members p s b = record {
    distinct = discard-Distinct qs p v.distinct;
    fresh = λ q i. v.fresh q (In-discard qs p q i).0;
    is_open = λ q i. let (j, ne) = In-discard qs p q i in rw (update_ne h p q s ne) (v.is_open q j);
    bounded = update-IsBounded p s b;
  }

  -- An object changes and is open where it was.
  pub change-Members :
      (p : ℕ) (s : NotificationSubscription)
      → IsBounded s
      → s.closed ≡ (h p).closed
      → Members qs (update h p s) n
  change-Members p s b same_closed = record {
    distinct = v.distinct;
    fresh = v.fresh;
    is_open = λ q i. elim (Bool-cases (q == p)) [
      | inl same ↦
          let e : q ≡ p = (nat_eq_iff q p).0 same in
          rw same (same_closed ∙ ap (λ x. (h x).closed) (sym e) ∙ v.is_open q i)
      | inr other ↦ rw other (v.is_open q i)
    ];
    bounded = update-IsBounded p s b;
  }

  pub subscribe-Members :
      (size : ℕ) (o : OverflowPolicy) → Members (qs ++ n ∷ []) (update h n (new size o)) (suc n)
  unfolding new
  subscribe-Members size o = record {
    distinct = append-Distinct qs n v.distinct (λ i. absurd (omega (arith, v.fresh n i)));
    fresh = λ q i. elim (In-append qs n q i) [
      | inl j ↦ omega (arith, v.fresh q j)
      | inr e ↦ omega arith
    ];
    is_open = λ q i. elim (In-append qs n q i) [
      | inl j ↦ rw (update_ne h n q _ (λ e. absurd (omega (arith, v.fresh q j)))) (v.is_open q j)
      | inr e ↦ rw (e, update_self h n (new size o))
    ];
    bounded = update-IsBounded n (new size o) (new-IsBounded size o);
  }

abbrev pub HasMembers : Client → Type 0
HasMembers c = Members c.subscriptions c.subs c.next_sub

deliver_queue-closed :
    (s : NotificationSubscription) (n : Fields)
    → (deliver_queue s n).1 ≡ false
    → (deliver_queue s n).0.closed ≡ s.closed
unfolding deliver_queue
deliver_queue-closed s n e = ground arith

pub deliver-HasMembers :
    (c : Client) (p : ℕ) (n : Fields) → HasMembers c → HasMembers (deliver c p n)
unfolding deliver
deliver-HasMembers c p n v = elim (Bool-cases (deliver_queue (c.subs p) n).1) [
  | inl e ↦ rw e (leave-Members v p _ (queue-IsBounded (c.subs p) n (v.bounded p)).0)
  | inr e ↦ rw e (
      change-Members v p _ (queue-IsBounded (c.subs p) n (v.bounded p)).0
        (deliver_queue-closed (c.subs p) n e))
]

pub deliver_each-HasMembers :
    (c : Client) (ps : List ℕ) (n : Fields) → HasMembers c → HasMembers (deliver_each c ps n)
unfolding deliver_each
deliver_each-HasMembers c [] n v = v
deliver_each-HasMembers c (p ∷ ps) n v =
    deliver_each-HasMembers (deliver c p n) ps n (deliver-HasMembers c p n v)
