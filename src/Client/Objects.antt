-- ===== src/Client/Objects.antt =====
-- The request objects of stdiobus/client.py: how many outcomes a queue holds, how many of the objects
-- in the table are in stream mode, and what the changes of objects and table do to these numbers.
use stdiobus_python.Base.{
  ℕ, suc, ◌+◌, ◌≤◌, String, ◌≡◌, refl, ap, ◌⊎◌, inl, inr, Bool, true, false, Option, none, some,
  List, [], ◌∷◌, ◌++◌, arith, In, Bool-cases, ◌==◌, nat-Eq, string-Eq,
}
use native.Mathlib.Decide.{ℕ_discrete}
use stdiobus_python.Client.Stream.{any_stream}
use stdiobus_python.Base.Dict.{Dict, put, remove, values}
use stdiobus_python.Json.{Json}
use stdiobus_python.Errors.{StdioBusError}
use stdiobus_python.Client.Pending.{
  is_stream, PendingRequest, Future, Item, chunk, result, error, deliver_chunk, deliver_result,
  deliver_error,
}

abbrev pub terminals : List Item → ℕ
terminals [] = 0
terminals (chunk t ∷ q) = terminals q
terminals (result r ∷ q) = suc (terminals q)
terminals (error e ∷ q) = suc (terminals q)

-- How many results and errors a stream's queue holds.
abbrev pub outcomes? : Option (List Item) → ℕ
outcomes? none = 0
outcomes? (some q) = terminals q

abbrev pub outcomes : PendingRequest → ℕ
outcomes p = outcomes? p.queue

pub terminals-append : (q r : List Item) → terminals (q ++ r) ≡ terminals q + terminals r
terminals-append [] r = omega arith
terminals-append (chunk t ∷ q) r = terminals-append q r
terminals-append (result t ∷ q) r = omega (arith, terminals-append q r)
terminals-append (error t ∷ q) r = omega (arith, terminals-append q r)

module _ (f : Option Future) (l : List String) where
  abbrev at_queue : Option (List Item) → PendingRequest
  at_queue q = record { future = f; chunks = l; queue = q }

  chunk-at :
      (q : Option (List Item)) (t : String) → outcomes (deliver_chunk (at_queue q) t) ≡ outcomes? q
  unfolding deliver_chunk
  chunk-at none t = refl
  chunk-at (some q) t = omega (arith, terminals-append q (chunk t ∷ []))

  result-at :
      (q : Option (List Item)) (r : Json)
      → outcomes (deliver_result (at_queue q) r) ≤ outcomes? q + 1
  unfolding deliver_result
  result-at none r = ground arith
  result-at (some q) r = omega (arith, terminals-append q (result r ∷ []))

  error-at :
      (q : Option (List Item)) (e : StdioBusError)
      → outcomes (deliver_error (at_queue q) e) ≤ outcomes? q + 1
  unfolding deliver_error
  error-at none e = ground arith
  error-at (some q) e = omega (arith, terminals-append q (error e ∷ []))

pub outcomes-deliver_chunk :
    (p : PendingRequest) (t : String) → outcomes (deliver_chunk p t) ≡ outcomes p
outcomes-deliver_chunk p t = chunk-at p.future p.chunks p.queue t

pub outcomes-deliver_result :
    (p : PendingRequest) (r : Json) → outcomes (deliver_result p r) ≤ outcomes p + 1
outcomes-deliver_result p r = result-at p.future p.chunks p.queue r

pub outcomes-deliver_error :
    (p : PendingRequest) (e : StdioBusError) → outcomes (deliver_error p e) ≤ outcomes p + 1
outcomes-deliver_error p e = error-at p.future p.chunks p.queue e

abbrev pub one_if : Bool → ℕ
one_if true = 1
one_if false = 0

-- How many of the objects are in stream mode.
abbrev pub streams : (ℕ → PendingRequest) → List ℕ → ℕ
streams h [] = 0
streams h (p ∷ ps) = one_if (is_stream (h p)) + streams h ps

pub streams_cong :
    (h k : ℕ → PendingRequest) (ps : List ℕ)
    → ((q : ℕ) → In q ps → is_stream (k q) ≡ is_stream (h q))
    → streams k ps ≡ streams h ps
streams_cong h k [] e = refl
streams_cong h k (p ∷ ps) e =
    rw (e p (inl refl))
      (ap (◌+◌ (one_if (is_stream (h p)))) (streams_cong h k ps (λ q i. e q (inr i))))

pub streams-remove :
    (h : ℕ → PendingRequest) (t : Dict ℕ) (id : String)
    → streams h (values (remove t id)) ≤ streams h (values t)
unfolding remove
streams-remove h [] id = omega arith
streams-remove h ((j, p) ∷ t) id = elim (Bool-cases (j == id)) [
  | inl same ↦ rw same (omega (arith, streams-remove h t id))
  | inr other ↦ rw other (omega (arith, streams-remove h t id))
]

pub streams-put :
    (h : ℕ → PendingRequest) (t : Dict ℕ) (id : String) (p : ℕ)
    → streams h (values (put t id p)) ≤ streams h (values t) + one_if (is_stream (h p))
unfolding put
streams-put h [] id p = omega arith
streams-put h ((j, q) ∷ t) id p = elim (Bool-cases (j == id)) [
  | inl same ↦ rw same (omega arith)
  | inr other ↦ rw other (omega (arith, streams-put h t id p))
]

-- The test of `stream_request` passes exactly where no object in the table is in stream mode.
pub streams-any_stream :
    (h : ℕ → PendingRequest) (ps : List ℕ) → any_stream h ps ≡ false → streams h ps ≡ 0
unfolding any_stream
streams-any_stream h [] e = refl
streams-any_stream h (p ∷ ps) e = elim (Bool-cases (is_stream (h p))) [
  | inl here ↦ cc (rw here at e)
  | inr other ↦ rw other (omega (arith, streams-any_stream h ps (rw other at e)))
]

pub In-dec : (q : ℕ) (ps : List ℕ) → In q ps ⊎ ¬ In q ps
In-dec q [] = inr (λ i. i)
In-dec q (p ∷ ps) = elim (ℕ_discrete q p) [
  | yes e ↦ inl (inl e)
  | no ne ↦ elim (In-dec q ps) [
    | inl i ↦ inl (inr i)
    | inr out ↦ inr (λ i. elim i [ inl e ↦ ne e | inr j ↦ out j ])
  ]
]
