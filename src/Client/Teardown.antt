-- ===== src/Client/Teardown.antt =====
-- What ends the requests and the subscriptions of `AsyncStdioBus` in stdiobus/client.py:
-- `_on_backend_closed`, and the client's part of `stop` and `destroy`.
use stdiobus_python.Base.{ℕ, List, [], ◌∷◌}
use stdiobus_python.Base.Dict.{values}
use stdiobus_python.Base.Heap.{for_each}
use stdiobus_python.Errors.{StdioBusError, transport_class, raise_new}
use stdiobus_python.Client.Pending.{deliver_error}
use stdiobus_python.Client.State.{Client}
use stdiobus_python.Client.Dispatch.{close_subscription}

-- `for pending in list(self._pending_requests.values()): pending.deliver_error(e)`, then `clear()`.
unfoldable pub fail_all : Client → StdioBusError → Client
fail_all c e = record c {
  pending = for_each (λ p. deliver_error p e) (values c.pending_requests) c.pending;
  pending_requests = [];
}

abbrev pub exited_error : StdioBusError
exited_error = raise_new transport_class "stdio_bus process exited unexpectedly"

abbrev pub shutdown_error : StdioBusError
shutdown_error = raise_new transport_class "Bus is shutting down"

unfoldable pub on_backend_closed : Client → Client
unfolding fail_all
on_backend_closed c = fail_all c exited_error

unfoldable pub close_each : Client → List ℕ → Client
close_each c [] = c
close_each c (p ∷ ps) = close_each (close_subscription c p) ps

-- `for sub in list(self._subscriptions): sub.close()`
unfoldable pub close_subscriptions : Client → Client
unfolding close_each
close_subscriptions c = close_each c c.subscriptions

-- `stop`, up to the call of the backend.
unfoldable pub stop_client : Client → Client
unfolding fail_all close_subscriptions
stop_client c = close_subscriptions (fail_all c shutdown_error)
