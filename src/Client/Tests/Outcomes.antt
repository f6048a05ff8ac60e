-- ===== src/Client/Tests/Outcomes.antt =====
-- Outcomes and second responses of stdiobus/client.py at concrete inputs.
use stdiobus_python.Base.{◌≡◌, ◌≢◌, refl, arith, true, none, some, [], ◌∷◌, List, nat-Eq, string-Eq}
use stdiobus_python.Base.Int.{pos}
use stdiobus_python.Json.{str, null}
use stdiobus_python.Types.Protocol.{no_options}
use stdiobus_python.Types.Enums.{running}
use stdiobus_python.Client.Pending.{Future, resolved, waiting}
use stdiobus_python.Client.State.{Client}
use stdiobus_python.Client.Bus.{Bus, BackendOps, returned, add_pending}
use stdiobus_python.Client.Dispatch.{call_message_handlers}
use stdiobus_python.Client.Loop.{handle_message_on_loop}
use stdiobus_python.Client.Run.{Event, run, receives, stops, backend_exits, requests}
use stdiobus_python.Client.Outcome.{HasOutcome, outcome_final}
use stdiobus_python.Client.Late.{response_once}
use stdiobus_python.Client.Tests.{rt, calling, call_known, reply, reply_is, failure, failure_is}

-- A request whose response has come.
abbrev settled : Client
settled = record calling {
  pending = λ p. record { future = some (resolved (str "done")); chunks = []; queue = none };
}

abbrev ops : BackendOps (Unit {0})
ops = record {
  get_state = λ k. running;
  send = λ k m. (k, returned true);
  start = λ k. (k, none);
  stop = λ k. k;
  destroy = λ k. k;
}

abbrev bus : Bus (Unit {0})
bus = record {
  client = settled;
  backend = some tt;
  client_session_id = "client-1";
  agent_session_id = null;
  timeout_ms = pos 30000;
  released = [];
  loop = none;
}

abbrev events : List Event
events =
    receives "bad" ∷ requests "2" "prompt" none none none no_options ∷ backend_exits ∷ stops ∷ []

is_done : ◌≢◌ {A = Future} (resolved (str "done")) waiting
is_done e = cc e

outcome_final_example : HasOutcome 0 (resolved (str "done")) (run rt ops bus events).client
unfolding add_pending
outcome_final_example =
    outcome_final rt ops bus events 0 (resolved (str "done")) (omega arith, (refl, is_done))

response_once_example :
    let c = (handle_message_on_loop rt calling "ok").0 in
    handle_message_on_loop rt c "bad" ≡ (call_message_handlers c "bad", none)
response_once_example =
    response_once rt calling "1" 0 "ok" reply "bad" failure reply_is call_known failure_is
