-- ===== src/System/Quiet.antt =====
-- Histories of the client of stdiobus/client.py over stdiobus/backends/subprocess.py: when the backend
-- is not running, no request is pending.
use stdiobus_python.Base.{refl, ◌∙◌, some, List, [], ◌∷◌, Bool-cases, Option-cases, inl, inr}
use mathlib.Core.Path.{subst}
use stdiobus_python.Types.Enums.{is_running_state}
use stdiobus_python.Client.State.{Runtime}
use stdiobus_python.Client.Bus.{Bus}
use stdiobus_python.Client.Teardown.{fail_all, on_backend_closed}
use stdiobus_python.Backends.Subprocess.{Subprocess, end_reading, Line}
use stdiobus_python.System.{
  step, run, react, react_all, reads_line, reads_end, Event, starts, acts, outputs, output_ends,
}
use stdiobus_python.System.Settled.{
  Settled, IsQuiet, read_line-state, is_running-running, step_starts, step_acts,
}

-- A round of the read loop.
reads_line-IsQuiet :
    (rt : Runtime) (b : Bus Subprocess) (l : Line) → IsQuiet b → IsQuiet (reads_line rt b l)
unfolding reads_line
reads_line-IsQuiet rt b l q = elim (Option-cases b.backend) [
  | inl e ↦ rw (e, reads_line) q
  | inr (k, e) ↦ elim (Bool-cases (is_running_state k.state)) [
    | inr r ↦ rw (e, reads_line) (rw r q)
    | inl r ↦
        rw (e, reads_line) (rw r (inl (read_line-state rt _ l ∙ is_running-running k.state r)))
  ]
]

reads_end-IsQuiet : (rt : Runtime) (b : Bus Subprocess) → IsQuiet b → IsQuiet (reads_end rt b)
unfolding reads_end end_reading react_all react on_backend_closed fail_all
reads_end-IsQuiet rt b q = elim (Option-cases b.backend) [
  | inl e ↦ rw (e, reads_end) q
  | inr (k, e) ↦
      let at : Settled (some k) b.client = subst (λ o. Settled o b.client) e q in
      elim (Bool-cases (is_running_state k.state)) [
        | inl r ↦ rw (e, reads_end) (rw r (inr refl))
        | inr r ↦ rw (e, reads_end) (rw r at)
      ]
]

step-IsQuiet : (rt : Runtime) (b : Bus Subprocess) (e : Event) → IsQuiet b → IsQuiet (step rt b e)
unfolding step
step-IsQuiet rt b (starts l s) q = step_starts rt b l s q
step-IsQuiet rt b (acts exit written e) q = step_acts rt exit written b e q
step-IsQuiet rt b (outputs l) q = reads_line-IsQuiet rt b l q
step-IsQuiet rt b output_ends q = reads_end-IsQuiet rt b q

-- Whatever happens to a client and its subprocess, each `start` and `stop` of the backend in one event, from
-- a state in which it holds: the backend runs, or no request is pending, or the bus has no backend.
pub run-IsQuiet :
    (rt : Runtime) (b : Bus Subprocess) (es : List Event) → IsQuiet b → IsQuiet (run rt b es)
unfolding run
run-IsQuiet rt b [] q = q
run-IsQuiet rt b (e ∷ es) q = run-IsQuiet rt (step rt b e) es (step-IsQuiet rt b e q)
