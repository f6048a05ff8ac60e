-- ===== src/Client/Tests/Order.antt =====
-- Two requests of stdiobus/client.py whose responses come in the other order.
use stdiobus_python.Base.{
  refl, arith, some, List, [], ◌∷◌, All, Distinct, ◌==◌, nat-Eq, string-Eq, if◌then◌else◌, inl, inr,
}
use stdiobus_python.Base.Dict
use stdiobus_python.Json
use stdiobus_python.Json.{Fields, str, obj, end, field}
use stdiobus_python.Client.Pending.{for_future}
use stdiobus_python.Client.State.{Client, Runtime}
use stdiobus_python.Client.Loop.{message_id, handle_all}
use stdiobus_python.Client.Concurrent.{Answer, Awaits, Responds, IsAnswered, answers_any_order}
use stdiobus_python.Client.Tests.{rt, decode, idle, failure}

abbrev second : Fields
second = field "id" (str "2") (field "result" (str "yes") end)

abbrev both : Runtime
both = record rt { loads = λ m. if m == "two" then some (obj second) else decode m }

abbrev waiting_twice : Client
waiting_twice = record idle {
  pending_requests = ("1", 0) ∷ ("2", 1) ∷ [];
  pending = λ p. for_future;
  next_pending = 2;
}

abbrev answers : List Answer
answers =
    record { id = "2"; address = 1; chunks = []; message = "two"; fields = second }
    ∷ record { id = "1"; address = 0; chunks = []; message = "bad"; fields = failure }
    ∷ []

respond : All (Responds both) answers
unfolding Json.get message_id
respond = ((str "2", refl, refl, refl), ((str "1", refl, refl, refl), tt))

wait : All (Awaits waiting_twice) answers
unfolding for_future Dict.get
wait = ((refl, refl), ((refl, refl), tt))

apart : Distinct (1 ∷ 0 ∷ [])
apart = ((λ i. elim i [ inl e ↦ omega arith | inr j ↦ absurd j ]), ((λ i. i), tt))

answers_any_order_example :
    All (IsAnswered (handle_all both waiting_twice ("two" ∷ "bad" ∷ []))) answers
answers_any_order_example = answers_any_order both answers waiting_twice respond apart wait
