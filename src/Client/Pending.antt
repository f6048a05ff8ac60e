-- ===== src/Client/Pending.antt =====
-- `_PendingRequest` of stdiobus/client.py: a request in flight, in future mode or in stream mode.
use stdiobus_python.Base.{String, ◌<>◌, Bool, true, false, Option, none, some, List, [], ◌∷◌, ◌++◌}
use stdiobus_python.Json.{Json}
use stdiobus_python.Errors.{StdioBusError}

-- An `asyncio.Future`.
pub data Future : Type 0 where
  waiting : Future
  resolved : Json → Future
  rejected : StdioBusError → Future
  cancelled : Future

abbrev pub done : Future → Bool
done waiting = false
done (resolved r) = true
done (rejected e) = true
done cancelled = true

-- A `(kind, payload)` pair of a stream's queue.
pub data Item : Type 0 where
  chunk : String → Item
  result : Json → Item
  error : StdioBusError → Item

-- The queue of a stream is unbounded, so `put_nowait` always succeeds.
pub record PendingRequest : Type 0 where
  pub future : Option Future
  pub chunks : List String
  pub queue : Option (List Item)

-- p.queue is not None
abbrev pub is_stream : PendingRequest → Bool
is_stream p = elim p.queue [ none ↦ false | some q ↦ true ]

unfoldable pub for_future : PendingRequest
for_future = record { future = some waiting; chunks = []; queue = none }

unfoldable pub for_stream : PendingRequest
for_stream = record { future = none; chunks = []; queue = some [] }

-- A result or an error goes to the queue, or else to the future unless that is done.
unfoldable pub set_if_waiting : Future → Future → Future
set_if_waiting waiting g = g
set_if_waiting f g = f

unfoldable pub deliver_to_future : PendingRequest → Future → PendingRequest
unfolding set_if_waiting
deliver_to_future p g = elim p.future [
  | none ↦ p
  | some f ↦ record p { future = some (set_if_waiting f g) }
]

unfoldable pub deliver_chunk : PendingRequest → String → PendingRequest
deliver_chunk p text = elim p.queue [
  | none ↦ record p { chunks = p.chunks ++ text ∷ [] }
  | some q ↦ record p { chunks = p.chunks ++ text ∷ []; queue = some (q ++ chunk text ∷ []) }
]

unfoldable pub deliver_result : PendingRequest → Json → PendingRequest
unfolding deliver_to_future
deliver_result p r = elim p.queue [
  | none ↦ deliver_to_future p (resolved r)
  | some q ↦ record p { queue = some (q ++ result r ∷ []) }
]

unfoldable pub deliver_error : PendingRequest → StdioBusError → PendingRequest
unfolding deliver_to_future
deliver_error p e = elim p.queue [
  | none ↦ deliver_to_future p (rejected e)
  | some q ↦ record p { queue = some (q ++ error e ∷ []) }
]

-- "".join(chunks)
unfoldable pub join : List String → String
join [] = ""
join (s ∷ l) = s <> join l
