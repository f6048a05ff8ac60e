-- ===== src/Client/Outcome.antt =====
-- The outcome of a request in stdiobus/client.py: once its future is done, nothing changes it.
use stdiobus_python.Base.{
  ℕ, ◌<◌, String, ◌≡◌, ◌≢◌, sym, some, List, arith, Bool-cases, Option-cases, inl, inr, ◌==◌,
  nat-Eq, nat_eq_iff, update_ne,
}
use stdiobus_python.Json.{Json}
use stdiobus_python.Errors.{StdioBusError}
use stdiobus_python.Client.Pending.{
  PendingRequest, Future, waiting, resolved, rejected, cancelled, set_if_waiting, deliver_to_future,
  deliver_chunk, deliver_result, deliver_error,
}
use stdiobus_python.Client.Bus.{Bus, BackendOps, add_pending, drop_pending}
use stdiobus_python.Client.Run.{Event, run}
use stdiobus_python.Client.Moves.{
  Change, apply, chunk_comes, result_comes, error_comes, is_cancelled, is_left_with, Move, keeps,
  drops, clears, adds, changes, Moves-keep,
}
use stdiobus_python.Client.Moved.{run-Moves}
use stdiobus_python.Client.State.{Client, Runtime}

-- The future of an object is done, with that outcome.
abbrev pub IsDone : Future → PendingRequest → Type 0
IsDone f o = (o.future ≡ some f) × (f ≢ waiting)

deliver_to_future-IsDone :
    (f g : Future) (o : PendingRequest) → IsDone f o → IsDone f (deliver_to_future o g)
unfolding deliver_to_future set_if_waiting
deliver_to_future-IsDone f g o d = ground arith

deliver_result-IsDone :
    (f : Future) (o : PendingRequest) (r : Json) → IsDone f o → IsDone f (deliver_result o r)
unfolding deliver_result
deliver_result-IsDone f o r d = elim (Option-cases o.queue) [
  | inl e ↦ rw (e, deliver_result) (deliver_to_future-IsDone f (resolved r) o d)
  | inr (q, e) ↦ rw (e, deliver_result) d
]

deliver_error-IsDone :
    (f : Future) (o : PendingRequest) (e : StdioBusError)
    → IsDone f o
    → IsDone f (deliver_error o e)
unfolding deliver_error
deliver_error-IsDone f o x d = elim (Option-cases o.queue) [
  | inl e ↦ rw (e, deliver_error) (deliver_to_future-IsDone f (rejected x) o d)
  | inr (q, e) ↦ rw (e, deliver_error) d
]

deliver_chunk-IsDone :
    (f : Future) (o : PendingRequest) (t : String) → IsDone f o → IsDone f (deliver_chunk o t)
unfolding deliver_chunk
deliver_chunk-IsDone f o t d = elim (Option-cases o.queue) [
  | inl e ↦ rw (e, deliver_chunk) d
  | inr (q, e) ↦ rw (e, deliver_chunk) d
]

change-IsDone : (f : Future) (o : PendingRequest) (g : Change) → IsDone f o → IsDone f (apply g o)
change-IsDone f o (chunk_comes t) d = deliver_chunk-IsDone f o t d
change-IsDone f o (result_comes r) d = deliver_result-IsDone f o r d
change-IsDone f o (error_comes e) d = deliver_error-IsDone f o e d
change-IsDone f o is_cancelled d = deliver_to_future-IsDone f cancelled o d
change-IsDone f o (is_left_with q) d = d

-- The object at `p` was made, and its future is done with the outcome `f`.
abbrev pub HasOutcome : ℕ → Future → Client → Type 0
HasOutcome p f c = (p < c.next_pending) × IsDone f (c.pending p)

Move-HasOutcome :
    (p : ℕ) (f : Future) (c d : Client) → Move c d → HasOutcome p f c → HasOutcome p f d
unfolding drop_pending add_pending
Move-HasOutcome p f _ _ (keeps s) (n, h) = (omega (arith, s.next), rw s.objects h)
Move-HasOutcome p f _ _ (drops c id) h = h
Move-HasOutcome p f _ _ (clears c) h = h
Move-HasOutcome p f _ _ (adds c id m) (n, h) =
    (omega arith, rw (update_ne c.pending c.next_pending p _ (λ e. omega (arith, e))) h)
Move-HasOutcome p f _ _ (changes c q g) (n, h) = (
  n,
  elim (Bool-cases (p == q)) [
    | inl same ↦ rw (same, sym ((nat_eq_iff p q).0 same)) (change-IsDone f (c.pending p) g h)
    | inr other ↦ rw other h
  ],
)

-- The outcome of a request, whether its result, its error or its cancellation, is final: whatever events
-- follow it, in any order, its future keeps it.
pub outcome_final :
    {B : Type 0} (rt : Runtime) (ops : BackendOps B) (b : Bus B) (es : List Event) (p : ℕ)
    (f : Future)
    → HasOutcome p f b.client
    → HasOutcome p f (run rt ops b es).client
outcome_final rt ops b es p f h =
    Moves-keep (HasOutcome p f) (Move-HasOutcome p f) (run-Moves rt ops b es) h
