-- ===== src/System/Carrier.antt =====
-- The client of stdiobus/client.py over any backend, by what it needs of one: a backend that is ready
-- takes a message, and each of its reads gives the client's handler some messages, in order.
use stdiobus_python.Base.{
  String, ◌≡◌, refl, sym, ◌∙◌, true, none, some, List, [], ◌∷◌, ◌++◌, string-Eq,
}
use stdiobus_python.Client.State.{Client, Runtime}
use stdiobus_python.Client.Bus
use stdiobus_python.Client.Bus.{
  Bus, BackendOps, Sent, returned, raised, ready, is_running, add_pending, effective_timeout,
}
use stdiobus_python.Client.Loop.{handle_all, handle_message_on_loop}

-- A backend with what its read loop reads, an input at a time. `IsReady` is what the client relies on.
pub record Carrier : Type 1 where
  pub Backend : Type 0
  pub Input : Type 0
  pub ops : BackendOps Backend
  pub read : Backend → Input → Backend × List String
  pub IsReady : Backend → Type 0
  pub ready_runs : (k : Backend) → IsReady k → is_running ops k ≡ true
  pub ready_sends : (k : Backend) (m : String) → IsReady k → (ops.send k m).1 ≡ returned true

module _ (carrier : Carrier) where
  open carrier use {Backend, Input, read}

  -- The messages that the inputs give the client's handler.
  abbrev pub delivered : Backend → List Input → List String
  delivered k [] = []
  delivered k (i ∷ is) = (read k i).1 ++ delivered (read k i).0 is

module _ (rt : Runtime) (carrier : Carrier) where
  open carrier use {Backend, Input, ops, read, IsReady, ready_runs, ready_sends}

  -- One input of the backend's read loop. The loop runs on the client's, or hands the message over to it
  -- in order, so that each message is handled when the next one comes.
  unfoldable pub reads : Bus Backend → Input → Bus Backend
  reads b i = elim b.backend [
    | none ↦ b
    | some k ↦
        (let (k', ms) = read k i in
          record b { client = handle_all rt b.client ms; backend = some k' })
  ]

  unfoldable pub reads_each : Bus Backend → List Input → Bus Backend
  unfolding reads
  reads_each b [] = b
  reads_each b (i ∷ is) = reads_each (reads b i) is

  handle_all-append :
      (c : Client) (ms ns : List String)
      → handle_all rt c (ms ++ ns) ≡ handle_all rt (handle_all rt c ms) ns
  unfolding handle_all
  handle_all-append c [] ns = refl
  handle_all-append c (m ∷ ms) ns = handle_all-append (handle_message_on_loop rt c m).0 ms ns

  pub client-reads_each :
      (is : List Input) (b : Bus Backend) (k : Backend)
      → b.backend ≡ some k
      → (reads_each b is).client ≡ handle_all rt b.client (delivered carrier k is)
  unfolding reads_each handle_all
  client-reads_each [] b k e = refl
  client-reads_each (i ∷ is) b k e =
      rw (e, reads)
        (client-reads_each is
            (record b { client = handle_all rt b.client (read k i).1; backend = some (read k i).0 })
            (read k i).0 refl
          ∙ sym (handle_all-append b.client (read k i).1 (delivered carrier (read k i).0 is)))

  pub backend-send :
      (b : Bus Backend) (k : Backend) (m : String)
      → b.backend ≡ some k
      → ((Bus.send ops b m).0.backend ≡ some (ops.send k m).0)
        × ((Bus.send ops b m).1 ≡ (ops.send k m).1)
  unfolding Bus.send
  backend-send b k m e = rw (e, Bus.send) (refl, refl)

  pub carrier-ready :
      (b : Bus Backend) (k : Backend) → b.backend ≡ some k → IsReady k → ready ops b ≡ true
  unfolding ready
  carrier-ready b k e r = rw (e, ready) (ready_runs k r)
