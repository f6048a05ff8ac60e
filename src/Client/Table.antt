-- ===== src/Client/Table.antt =====
-- The table of pending requests of stdiobus/client.py and the objects that it holds: the invariant
-- of both, and that every change which the client makes to them keeps it.
use stdiobus_python.Base.{
  ℕ, suc, ◌+◌, ◌≤◌, ◌<◌, String, ◌≡◌, ap, inl, inr, true, some, [], arith, update, update_self,
  update_ne, In, Distinct, Bool-cases, ◌==◌, nat-Eq, string-Eq,
}
use stdiobus_python.Base.Dict.{Dict, get, put, remove, values}
use stdiobus_python.Base.Heap.{
  for_each, for_each-In, for_each-not_In, get-In, In-remove, remove-Distinct, remove_out, In-put,
  put-Distinct,
}
use stdiobus_python.Errors.{StdioBusError}
use stdiobus_python.Client.Pending.{is_stream, PendingRequest, deliver_error}
use stdiobus_python.Client.Objects.{
  outcomes, outcomes-deliver_error, one_if, streams, streams_cong, streams-remove, streams-put,
  In-dec,
}

-- Each object stands under one identifier, and was allocated; none that stands in the table has a
-- result or an error in its queue, and none at all has two; one at most in the table is a stream.
pub record Inv (t : Dict ℕ) (h : ℕ → PendingRequest) (n : ℕ) : Type 0 where
  pub distinct : Distinct (values t)
  pub fresh : (p : ℕ) → In p (values t) → p < n
  pub live : (p : ℕ) → In p (values t) → outcomes (h p) ≡ 0
  pub single : (p : ℕ) → outcomes (h p) ≤ 1
  pub alone : streams h (values t) ≤ 1

module _ {t : Dict ℕ} {h : ℕ → PendingRequest} {n : ℕ} (v : Inv t h n) where
  -- The objects of the table are older than the next address.
  older : (p : PendingRequest) (q : ℕ) → In q (values t) → update h n p q ≡ h q
  older p q i = update_ne h n q p (λ same. absurd (omega (arith, v.fresh q i)))

  -- A new object under an identifier, in stream mode only where there is no stream.
  pub put-Inv :
      (id : String) (p : PendingRequest)
      → outcomes p ≡ 0
      → (is_stream p ≡ true → streams h (values t) ≡ 0)
      → Inv (put t id n) (update h n p) (suc n)
  put-Inv id p e free = record {
    distinct = put-Distinct t id n v.distinct (λ i. absurd (omega (arith, v.fresh n i)));
    fresh = λ q i. elim (In-put t id n q i) [
      | inl s ↦ omega (arith, v.fresh q s)
      | inr here ↦ omega arith
    ];
    live = λ q i. elim (In-put t id n q i) [
      | inl s ↦ rw (older p q s) (v.live q s)
      | inr here ↦ rw (here, update_self h n p) e
    ];
    single = λ q. elim (Bool-cases (q == n)) [
      | inl same ↦ rw same (omega arith)
      | inr other ↦ rw other (v.single q)
    ];
    alone = elim (Bool-cases (is_stream p)) [
      | inl stream ↦ omega (arith, counted, free stream, ap one_if stream)
      | inr plain ↦ omega (arith, counted, v.alone, ap one_if plain)
    ];
  }
    where
      counted :
          streams (update h n p) (values (put t id n)) ≤ streams h (values t) + one_if (is_stream p)
      counted =
          rw
            (
              ← streams_cong h (update h n p) (values t) (λ q i. ap is_stream (older p q i)),
              ← ap is_stream (update_self h n p),
            )
            (streams-put (update h n p) t id n)

  pub remove-Inv : (id : String) → Inv (remove t id) h n
  remove-Inv id = record {
    distinct = remove-Distinct t id v.distinct;
    fresh = λ q i. v.fresh q (In-remove t id q i);
    live = λ q i. v.live q (In-remove t id q i);
    single = v.single;
    alone = omega (arith, v.alone, streams-remove h t id);
  }

  -- Changes of objects that add no result and no error, and keep their mode.
  pub change-Inv :
      (k : ℕ → PendingRequest)
      → ((p : ℕ) → outcomes (k p) ≤ outcomes (h p))
      → ((p : ℕ) → is_stream (k p) ≡ is_stream (h p))
      → Inv t k n
  change-Inv k le mode = record {
    distinct = v.distinct;
    fresh = v.fresh;
    live = λ q i. omega (arith, v.live q i, le q);
    single = λ q. omega (arith, v.single q, le q);
    alone = rw (streams_cong h k (values t) (λ q i. mode q)) v.alone;
  }

  -- The object under `id` leaves the table and gets its outcome.
  pub settle-Inv :
      (id : String) (p : ℕ) (o : PendingRequest)
      → get t id ≡ some p
      → outcomes o ≤ outcomes (h p) + 1
      → Inv (remove t id) (update h p o) n
  settle-Inv id p o e le = record {
    distinct = remove-Distinct t id v.distinct;
    fresh = λ q i. v.fresh q (In-remove t id q i);
    live = λ q i. rw (others q i) (v.live q (In-remove t id q i));
    single = λ q. elim (Bool-cases (q == p)) [
      | inl same ↦ rw same (omega (arith, le, v.live p (get-In t id p e)))
      | inr other ↦ rw other (v.single q)
    ];
    alone =
        rw (streams_cong h (update h p o) (values (remove t id)) (λ q i. ap is_stream (others q i)))
          (omega (arith, v.alone, streams-remove h t id));
  }
    where
      others : (q : ℕ) → In q (values (remove t id)) → update h p o q ≡ h q
      others q i = update_ne h p q o (λ same. remove_out t id p v.distinct e (rw same at i))

  -- Every object in the table gets an error, and the table is cleared.
  pub fail-Inv : (e : StdioBusError) → Inv [] (for_each (λ p. deliver_error p e) (values t) h) n
  fail-Inv e = record {
    distinct = tt;
    fresh = λ q i. elim i [ ];
    live = λ q i. elim i [ ];
    single = λ q. elim (In-dec q (values t)) [
      | inl i ↦
          rw (for_each-In (λ p. deliver_error p e) (values t) h q v.distinct i)
            (omega (arith, outcomes-deliver_error (h q) e, v.live q i))
      | inr out ↦ rw (for_each-not_In (λ p. deliver_error p e) (values t) h q out) (v.single q)
    ];
    alone = omega arith;
  }
