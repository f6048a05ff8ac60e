-- ===== src/Backends/Docker/Interleaved/Survival.antt =====
-- The ends of a container in stdiobus/backends/docker.py, and the starts that go on after one.
use stdiobus_python.Base.{
  ℕ, String, ◌≡◌, refl, ap, Bool, true, false, none, some, List, ◌++◌, arith, ◌⊎◌, inl, inr,
  Option-cases, if-false,
}
use stdiobus_python.Types.Enums.{starting, running, stopping, stopped, is_running_state}
use stdiobus_python.Backends.Utf8.{decode}
use stdiobus_python.Backends.Docker.{destroy, send, take_text, split_lines}
use stdiobus_python.Backends.Docker.Interleaved.{
  Turns, launching, over, start_called, launched, connected, stop_called, stop_ends,
  stops_container, read_task_ended, connection_closed, container_stopped, reading_goes_on,
  block_read, Step, Reach, calls_start, has_launched, has_connected, calls_stop, ends_reading,
  ends_connection, ends_container, begins_reading, reads_nothing, reads_block, reads_end,
  is_cancelled, calls_send, calls_destroy, here, next,
}
use stdiobus_python.Backends.Docker.Interleaved.Invariant.{block_at, counted, handle_lines-Like}

abbrev destroyed : Turns → Turns
destroyed c = record c { backend = destroy c.backend }

-- The turns of a `start` that waits for the container's command when `destroy` is called.
abbrev pub revived : Turns → Turns
revived c = connected (launched (destroyed c) true) true

-- A `start` that waits for the container's command cannot be called off: `stop` does nothing then, and
-- when `destroy` is called and the command and the connection still go well, the backend is RUNNING
-- afterwards, with a container and a connection, and `send` takes messages.
pub start_survives :
    (c : Turns)
    → c.starter ≡ launching
    → c.backend.state ≡ starting
    → (stop_called c ≡ c)
      × Reach c (revived c)
      × ((revived c).backend.state ≡ running)
      × ((revived c).backend.has_container ≡ true)
      × ((m : String) → (send (revived c).backend m true).1 ≡ true)
unfolding stop_called launched connected send
start_survives c l s = (
  if-false _ _ _ (ap is_running_state s),
  next (next (next here (calls_destroy c)) (has_launched (destroyed c) true l))
      (has_connected (launched (destroyed c) true) true refl),
  refl,
  refl,
  λ m. refl,
)

-- `start` is over and the backend does not run; `once` tells that it had stopped before.
abbrev HasEnded : Bool → Turns → Type 0
HasEnded once c =
    (c.starter ≡ over)
    × ((c.backend.state ≡ stopped) ⊎ ((c.backend.state ≡ stopping) × (once ≡ false)))

goes_on-HasEnded : (once : Bool) (c : Turns) → HasEnded once c → HasEnded once (reading_goes_on c)
unfolding reading_goes_on
goes_on-HasEnded once c v = v

block_read-HasEnded :
    (once : Bool) (c : Turns) (block : List ℕ)
    → HasEnded once c
    → HasEnded once (block_read c block)
unfolding take_text reading_goes_on
block_read-HasEnded once c block v = elim (Option-cases (decode block)) [
  | inl e ↦ rw (block_at c block none e) v
  | inr (t, e) ↦
      let (s, x, y) = handle_lines-Like (counted c block) (split_lines (c.buffer ++ t)).0 in
      rw (block_at c block (some t) e) (ground (arith, s, v))
]

Step-HasEnded : (once : Bool) {c d : Turns} → Step c d → HasEnded once c → HasEnded once d
unfolding start_called launched connected stop_called stop_ends stops_container read_task_ended
    connection_closed container_stopped send destroy
Step-HasEnded once (calls_start c p e) v = ground arith
Step-HasEnded once (has_launched c s e) v = ground arith
Step-HasEnded once (has_connected c r e) v = ground arith
Step-HasEnded once (calls_stop c) v = ground arith
Step-HasEnded once (ends_reading c e k) v = ground arith
Step-HasEnded once (ends_connection c e) v = ground arith
Step-HasEnded once (ends_container c e) v = (v.0, inl refl)
Step-HasEnded once (begins_reading c e) v = goes_on-HasEnded once c v
Step-HasEnded once (reads_nothing c e) v = goes_on-HasEnded once c v
Step-HasEnded once (reads_block c block e) v = block_read-HasEnded once c block v
Step-HasEnded once (reads_end c e) v = v
Step-HasEnded once (is_cancelled c e) v = v
Step-HasEnded once (calls_send c m w) v = ground arith
Step-HasEnded once (calls_destroy c) v = (v.0, inl refl)

Reach-HasEnded : (once : Bool) {c d : Turns} → Reach c d → HasEnded once c → HasEnded once d
Reach-HasEnded once here v = v
Reach-HasEnded once (next r s) v = Step-HasEnded once s (Reach-HasEnded once r v)

-- When `start` is over and a stop has begun, the backend never runs again, whatever turns follow: it is
-- STOPPED, or STOPPING if it was that before, and every `send` returns `False`.
pub container_final :
    (c d : Turns)
    → c.starter ≡ over
    → (c.backend.state ≡ stopped) ⊎ (c.backend.state ≡ stopping)
    → Reach c d
    → ((d.backend.state ≡ stopped) ⊎ ((d.backend.state ≡ stopping) × (c.backend.state ≡ stopping)))
      × ((m : String) (w : Bool) → (send d.backend m w).1 ≡ false)
unfolding send
container_final c d o s r = elim s [
  | inl e ↦
      let v = Reach-HasEnded true r (o, inl e) in (ground (arith, v), (λ m w. ground (arith, v)))
  | inr e ↦
      let v = Reach-HasEnded false r (o, inr (e, refl)) in
      (ground (arith, v, e), (λ m w. ground (arith, v)))
]
