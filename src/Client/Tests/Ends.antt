-- ===== src/Client/Tests/Ends.antt =====
-- Runs of the ends of stdiobus/client.py: `stop`, the exit of the backend, and of its subscriptions.
use stdiobus_python.Base.{◌≡◌, refl, false, none, [], ◌∷◌, All}
use stdiobus_python.Base.Dict.{values}
use stdiobus_python.Client.Subscription.{
  NotificationSubscription, drop, item, close_queue, deliver_queue, yields, stops,
}
use stdiobus_python.Client.Subscription.Drain.{pulls, drain_then_stop}
use stdiobus_python.Client.Subscription.Isolation.{subscriber_isolated}
use stdiobus_python.Client.Loop.{handle_message_on_loop, handle_all, run_scheduled}
use stdiobus_python.Client.Teardown.{stop_client, on_backend_closed, shutdown_error, exited_error}
use stdiobus_python.Client.Shutdown.{Fails, stop_client_lem, on_backend_closed_all}
use stdiobus_python.Client.Marshalling.{post_all, owned, marshalled}
use stdiobus_python.Client.Tests.{
  rt, piece, notes_are, idle, calling, calling-IsValid, call_known, subscribed, subscribed-IsValid,
  subscribed-HasMembers,
}

stop_client_lem_example :
    ((stop_client subscribed).pending_requests ≡ [])
    × ((stop_client subscribed).subscriptions ≡ [])
    × All
        (λ p. Fails (subscribed.pending p) ((stop_client subscribed).pending p) shutdown_error)
        (values subscribed.pending_requests)
    × All (λ q. (stop_client subscribed).subs q ≡ close_queue (subscribed.subs q)) (0 ∷ [])
stop_client_lem_example = stop_client_lem subscribed subscribed-IsValid subscribed-HasMembers

on_backend_closed_all_example :
    ((on_backend_closed calling).pending_requests ≡ [])
    × Fails (calling.pending 0) ((on_backend_closed calling).pending 0) exited_error
on_backend_closed_all_example = on_backend_closed_all calling "1" 0 calling-IsValid call_known

abbrev full : NotificationSubscription
full = record {
  queue = item (piece "a") ∷ item (piece "b") ∷ [];
  maxsize = 2;
  overflow = drop;
  closed = false;
}

drain_then_stop_example :
    pulls (close_queue full) 3 ≡ yields (piece "a") ∷ yields (piece "b") ∷ stops ∷ []
drain_then_stop_example = drain_then_stop full (piece "a" ∷ piece "b" ∷ []) refl

subscriber_isolated_example :
    All
      (λ q.
        (handle_message_on_loop rt subscribed "hel").0.subs q
        ≡ (deliver_queue (subscribed.subs q) (piece "Hel")).0)
      (0 ∷ [])
subscriber_isolated_example =
    subscriber_isolated rt subscribed "hel" (piece "Hel") notes_are.0 subscribed-HasMembers

marshalled_example :
    ((post_all rt (owned rt idle 5 []) none ("hel" ∷ "ok" ∷ [])).client ≡ idle)
    × (run_scheduled rt (post_all rt (owned rt idle 5 []) none ("hel" ∷ "ok" ∷ []))
        ≡ owned rt (handle_all rt idle ("hel" ∷ "ok" ∷ [])) 5 [])
marshalled_example = marshalled rt idle 5 none ("hel" ∷ "ok" ∷ []) tt
