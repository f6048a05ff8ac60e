-- ===== src/System/Pipe.antt =====
-- What the output of the process of stdiobus/backends/subprocess.py does to the client of
-- stdiobus/client.py.
use stdiobus_python.Base.{
  String, ◌≡◌, refl, ap, ◌∙◌, some, List, [], ◌∷◌, map, Bool-cases, inl, inr, nat-Eq, if◌then◌else◌,
}
use stdiobus_python.Types.Enums.{running, stopped, is_running_state}
use stdiobus_python.Client.State.{Client, Runtime}
use stdiobus_python.Client.Bus.{Bus}
use stdiobus_python.Client.Loop.{handle_all}
use stdiobus_python.Client.Teardown.{on_backend_closed}
use stdiobus_python.Client.Lifecycle
use stdiobus_python.Backends.Subprocess.{
  whole, Subprocess, handled, Line, end_reading, drains, alive,
}
use stdiobus_python.Backends.Subprocess.Reading.{is_message, read_line_effect}
use stdiobus_python.System.{client_handler, ops, react, react_all, reads_line, reads_end, reads_all}

-- The subprocess runs, and the client is its only listener.
abbrev pub IsServed : Bus Subprocess → Type 0
IsServed b =
    (k : Subprocess) × (b.backend ≡ some k)
    × (k.state ≡ running)
    × (k.message_handlers ≡ client_handler ∷ [])

module _ (rt : Runtime) where
  -- The texts of the lines that are messages.
  abbrev pub messages : List Line → List String
  messages [] = []
  messages (l ∷ ls) = if is_message rt l then l.text ∷ messages ls else messages ls

  react_all-handled :
      (c : Client) (l : Line)
      → react_all rt c (if is_message rt l then handled client_handler l.text ∷ [] else [])
        ≡ handle_all rt c (if is_message rt l then l.text ∷ [] else [])
  unfolding react_all react handle_all
  react_all-handled c l = elim (Bool-cases (is_message rt l)) [ inl m ↦ rw m | inr m ↦ rw m ]

  pub reads_line-IsServed :
      (b : Bus Subprocess) (l : Line)
      → IsServed b
      → IsServed (reads_line rt b l)
        × ((reads_line rt b l).client
            ≡ handle_all rt b.client (if is_message rt l then l.text ∷ [] else []))
  unfolding reads_line
  reads_line-IsServed b l (k, e, r, h) =
      let (s, hs, ns, n, m) = read_line_effect rt (record k { notices = [] }) l in
      let heard =
        ns ∙ ap (λ hs. if is_message rt l then map (λ h. handled h l.text) hs else []) h in
      rw (e, reads_line)
        (rw (ap is_running_state r) (
          (_, refl, s ∙ r, hs ∙ h),
          ap (react_all rt b.client) heard ∙ react_all-handled b.client l,
        ))

  reads_end_served :
      (b : Bus Subprocess)
      → IsServed b
      → ((reads_end rt b).client ≡ on_backend_closed b.client)
        × (Lifecycle.get_state (ops alive drains whole) (reads_end rt b) ≡ stopped)
  unfolding reads_end end_reading react_all react Lifecycle.get_state
  reads_end_served b (k, e, r, h) = rw (e, reads_end) (rw (ap is_running_state r) (refl, refl))

  -- From a bus whose subprocess runs and whose client is the only listener, the output of the process up
  -- to its end does to the client what handling each line that is JSON, in order, and then the callback
  -- `_on_backend_closed` do; and the bus is then stopped.
  pub reads_all_lem :
      (ls : List Line) (b : Bus Subprocess)
      → IsServed b
      → ((reads_all rt b ls).client ≡ on_backend_closed (handle_all rt b.client (messages ls)))
        × (Lifecycle.get_state (ops alive drains whole) (reads_all rt b ls) ≡ stopped)
  unfolding reads_all handle_all
  reads_all_lem [] b v = reads_end_served b v
  reads_all_lem (l ∷ ls) b v =
      let (v', e) = reads_line-IsServed b l v in
      let (client, state) = reads_all_lem ls (reads_line rt b l) v' in
      (
        client ∙ ap on_backend_closed (ap (λ c. handle_all rt c (messages ls)) e ∙ joined b.client),
        state,
      )
    where
      joined :
          (c : Client)
          → handle_all rt
              (handle_all rt c (if is_message rt l then l.text ∷ [] else []))
              (messages ls)
            ≡ handle_all rt c (messages (l ∷ ls))
      joined c = elim (Bool-cases (is_message rt l)) [ inl m ↦ rw m refl | inr m ↦ rw m refl ]
