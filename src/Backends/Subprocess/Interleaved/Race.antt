-- ===== src/Backends/Subprocess/Interleaved/Race.antt =====
-- A `stop` after `start` of stdiobus/backends/subprocess.py, and one during its grace period.
use stdiobus_python.Base.{
  suc, String, ◌≡◌, refl, Bool, true, false, [], ◌∷◌, ◌++◌, arith, ◌⊎◌, inl, inr, if-true, ap,
}
use stdiobus_python.Types.Enums.{starting, running, stopping, stopped, is_running_state}
use stdiobus_python.Client.State.{Runtime}
use stdiobus_python.Client.Bus.{returned}
use stdiobus_python.Backends.Subprocess.{
  closed, destroy, Write, send, drains, read_line, end_reading,
}
use stdiobus_python.Backends.Subprocess.Interleaved.{
  Turns, asleep, over, absent, scheduled, at_read, done, cancel, fails, at_once, with_grace,
  start_called, start_done, start_fails, start_wakes, stop_called, stop_waited, stop_done,
  reading_begins, line_read, reading_ends, Step, Reach, calls_start, wakes_start, calls_stop,
  learns_exit, ends_wait, ends_stop, begins_reading, reads_line, reads_end, is_cancelled,
  calls_send, calls_destroy, here, next,
}

-- `start` is over, and a stop has begun or the backend has stopped; `once` tells that it had stopped before.
abbrev HasEnded : Bool → Turns → Type 0
HasEnded once c =
    (c.starter ≡ over)
    × ((c.backend.state ≡ stopped) ⊎ ((c.backend.state ≡ stopping) × (once ≡ false)))

module _ (rt : Runtime) where
  Step-HasEnded : (once : Bool) {c d : Turns} → Step rt c d → HasEnded once c → HasEnded once d
  unfolding start_called start_done start_fails start_wakes stop_called stop_waited stop_done
      reading_begins line_read reading_ends read_line end_reading send destroy
  Step-HasEnded once (calls_start c fails e) v = ground arith
  Step-HasEnded once (calls_start c at_once e) v = ground arith
  Step-HasEnded once (calls_start c with_grace e) v = ground arith
  Step-HasEnded once (wakes_start c e) v = ground arith
  Step-HasEnded once (calls_stop c) v = ground arith
  Step-HasEnded once (learns_exit c e) v = v
  Step-HasEnded once (ends_wait c x n e k) v = v
  Step-HasEnded once (ends_stop c n e k) v = (v.0, inl refl)
  Step-HasEnded once (begins_reading c e) v = ground arith
  Step-HasEnded once (reads_line c l e) v = ground arith
  Step-HasEnded once (reads_end c e) v = ground arith
  Step-HasEnded once (is_cancelled c e) v = ground arith
  Step-HasEnded once (calls_send c m w) v = ground arith
  Step-HasEnded once (calls_destroy c) v = (v.0, inl refl)

  Reach-HasEnded : (once : Bool) {c d : Turns} → Reach rt c d → HasEnded once c → HasEnded once d
  Reach-HasEnded once here v = v
  Reach-HasEnded once (next r s) v = Step-HasEnded once s (Reach-HasEnded once r v)

  -- From a state that is STOPPING or STOPPED with `start` over, the backend never runs again, whatever turns
  -- follow: it is STOPPED, or STOPPING if it was that before, and every `send` returns `False`.
  pub stop_final :
      (c d : Turns)
      → c.starter ≡ over
      → (c.backend.state ≡ stopped) ⊎ (c.backend.state ≡ stopping)
      → Reach rt c d
      → ((d.backend.state ≡ stopped)
          ⊎ ((d.backend.state ≡ stopping) × (c.backend.state ≡ stopping)))
        × ((m : String) (w : Write) → (send d.backend m w).1 ≡ returned false)
  unfolding send
  stop_final c d o s r = elim s [
    | inl e ↦
        let v = Reach-HasEnded true r (o, inl e) in (ground (arith, v), (λ m w. ground (arith, v)))
    | inr e ↦
        let v = Reach-HasEnded false r (o, inr (e, refl)) in
        (ground (arith, v, e), (λ m w. ground (arith, v)))
  ]

  -- The turns of a `stop` that is called while `start` sleeps: `start` wakes, the read task begins, and
  -- then the process exits.
  abbrev pub reopened : Turns → Turns
  reopened c = start_wakes (stop_called c)

  abbrev pub reclosed : Turns → Turns
  reclosed c =
      reading_ends rt
        (stop_waited (record (reading_begins rt (reopened c)) { exit_known = true }) drains)

  -- What `reopened` and the turns after it are, at a `start` that sleeps with the process alive.
  abbrev pub Sleeps : Turns → Type 0
  Sleeps c =
      (c.starter ≡ asleep)
      × (c.reader ≡ absent)
      × (c.backend.state ≡ starting)
      × (c.backend.has_process ≡ true)
      × (c.exit_known ≡ false)

  reopened-runs :
      (c : Turns)
      → Sleeps c
      → ((stop_called c).starter ≡ asleep)
        × ((reopened c).backend.state ≡ running)
        × ((reopened c).reader ≡ scheduled)
        × ((reopened c).draining ≡ suc c.draining)
        × ((reopened c).waited ≡ true)
        × ((reopened c).backend.notices ≡ c.backend.notices)
  unfolding start_wakes start_done stop_called
  reopened-runs c v = ground arith

  abbrev read_again : Turns → Turns
  read_again c = reading_begins rt (reopened c)

  read_again-waits :
      (c : Turns)
      → Sleeps c
      → ((read_again c).reader ≡ at_read)
        × ((read_again c).waited ≡ true)
        × ((read_again c).draining ≡ suc c.draining)
        × ((read_again c).backend.state ≡ running)
        × ((read_again c).backend.notices ≡ c.backend.notices)
  unfolding reading_begins
  read_again-waits c v =
      let (st, run, r, d, w, n) = reopened-runs c v in
      rw
        (if-true (is_running_state (reopened c).backend.state)
          (record (reopened c) { reader = at_read })
          (record (reopened c) { backend = end_reading rt (reopened c).backend; reader = done })
          (ap is_running_state run))
        (refl, w, d, run, n)

  reclosed-Reach : (c : Turns) → Sleeps c → Reach rt c (reclosed c)
  unfolding stop_waited
  reclosed-Reach c v =
      let (st, run, r, d, w, n) = reopened-runs c v in
      let (r', w', d', run', n') = read_again-waits c v in
      next
        (next
          (next
            (next (next (next here (calls_stop c)) (wakes_start (stop_called c) st))
              (begins_reading (reopened c) r))
            (learns_exit (read_again c) w'))
          (ends_wait (record (read_again c) { exit_known = true }) drains c.draining d' (inr refl)))
        (is_cancelled (stop_waited (record (read_again c) { exit_known = true }) drains)
          (ap cancel r'))

  -- A `stop` that is called while `start` sleeps, with the process alive, does not hold: when `start` wakes
  -- before the exit is known, the backend is RUNNING again, with the `stop` still waiting; and in the turns
  -- that then follow, the `stop` makes the close callback be called as for an unexpected exit.
  pub stop_in_grace :
      (c : Turns)
      → Sleeps c
      → ((stop_called c).backend.state ≡ stopping)
        × ((reopened c).backend.state ≡ running)
        × ((reopened c).draining ≡ suc c.draining)
        × Reach rt c (reclosed c)
        × ((reclosed c).backend.notices ≡ c.backend.notices ++ closed ∷ [])
  unfolding stop_called reading_ends stop_waited end_reading
  stop_in_grace c v =
      let (st, run, r, d, w, n) = reopened-runs c v in
      let (r', w', d', run', n') = read_again-waits c v in
      (ground arith, run, d, reclosed-Reach c v, ground (arith, run', n'))
