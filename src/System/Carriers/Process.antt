-- ===== src/System/Carriers/Process.antt =====
-- The process of stdiobus/backends/subprocess.py as a carrier.
use stdiobus_python.Base.{
  String, ◌≡◌, refl, ap, ◌∙◌, true, List, [], ◌∷◌, ◌++◌, map, ◌==◌, nat-Eq, if◌then◌else◌,
  Bool-cases, inl, inr, arith,
}
use stdiobus_python.Types.Enums.{running, is_running_state}
use stdiobus_python.Client.State.{Runtime}
use stdiobus_python.Client.Bus.{returned}
use stdiobus_python.Backends.Subprocess
use stdiobus_python.Backends.Subprocess.{
  whole, Subprocess, Notice, handled, closed, Line, read_line, alive, drains,
}
use stdiobus_python.Backends.Subprocess.Reading.{is_message, read_line_effect}
use stdiobus_python.System.{client_handler, ops}
use stdiobus_python.System.Pipe.{messages}
use stdiobus_python.System.Carrier.{Carrier, delivered}

-- What reaches the client's handler.
abbrev pub heard : List Notice → List String
heard [] = []
heard (handled h m ∷ ns) = if h == client_handler then m ∷ heard ns else heard ns
heard (closed ∷ ns) = heard ns

abbrev pub IsReady : Subprocess → Type 0
IsReady k = (k.state ≡ running) × (k.has_stdin ≡ true)

module _ (rt : Runtime) where
  -- A round of the read loop, whose calls are taken out of the record.
  unfoldable pub read : Subprocess → Line → Subprocess × List String
  read k l =
      if is_running_state k.state
      then (let k' = read_line rt (record k { notices = [] }) l in
          (record k' { notices = [] }, heard k'.notices))
      else (k, [])

  pub process_runs : (k : Subprocess) → IsReady k → is_running_state k.state ≡ true
  process_runs k r = ap is_running_state r.0

  pub process_sends :
      (k : Subprocess) (m : String) → IsReady k → (Subprocess.send k m whole).1 ≡ returned true
  unfolding Subprocess.send
  process_sends k m r = ground arith

  abbrev pub process : Carrier
  process = record {
    Backend = Subprocess;
    Input = Line;
    ops = ops alive drains whole;
    read = read;
    IsReady = IsReady;
    ready_runs = process_runs;
    ready_sends = process_sends;
  }

  heard-line :
      (k : Subprocess) (l : Line)
      → k.state ≡ running
      → k.message_handlers ≡ client_handler ∷ []
      → ((read k l).1 ≡ (if is_message rt l then l.text ∷ [] else []))
        × ((read k l).0.state ≡ running)
        × ((read k l).0.message_handlers ≡ client_handler ∷ [])
  unfolding read
  heard-line k l r h =
      let (s, hs, ns, n, m) = read_line_effect rt (record k { notices = [] }) l in
      rw (ap is_running_state r) (
        ap heard (ns ∙ ap (λ hs. if is_message rt l then map (λ h. handled h l.text) hs else []) h)
            ∙ one_heard,
        s ∙ r,
        hs ∙ h,
      )
    where
      one_heard :
          heard (if is_message rt l then handled client_handler l.text ∷ [] else [])
          ≡ (if is_message rt l then l.text ∷ [] else [])
      one_heard = elim (Bool-cases (is_message rt l)) [ inl m ↦ rw m refl | inr m ↦ rw m refl ]

  -- While the process runs and the client is its only listener, the lines of output give the client's
  -- handler those of them that are JSON, in order.
  pub delivered-process :
      (ls : List Line) (k : Subprocess)
      → k.state ≡ running
      → k.message_handlers ≡ client_handler ∷ []
      → delivered (process) k ls ≡ messages rt ls
  delivered-process [] k r h = refl
  delivered-process (l ∷ ls) k r h =
      let (one, r', h') = heard-line k l r h in
      rw one (
        ap (λ x. (if is_message rt l then l.text ∷ [] else []) ++ x)
          (delivered-process ls (read k l).0 r' h')
        ∙ joined)
    where
      joined :
          (if is_message rt l then l.text ∷ [] else []) ++ messages rt ls ≡ messages rt (l ∷ ls)
      joined = elim (Bool-cases (is_message rt l)) [ inl m ↦ rw m refl | inr m ↦ rw m refl ]
