-- ===== src/Backends/Subprocess/Interleaved/Ends.antt =====
-- The `stop` of stdiobus/backends/subprocess.py at a process that never exits.
use mathlib.Core.Path.{subst}
use stdiobus_python.Base.{
  ℕ, zero, suc, ◌+◌, ◌≤◌, ◌≡◌, ◌*◌, refl, ap, ◌∙◌, arith, false, inl, inr, Bool-cases, sym,
  if-false,
}
use stdiobus_python.Types.Enums.{stopping, stopped, is_running_state}
use stdiobus_python.Client.State.{Runtime}
use stdiobus_python.Backends.Subprocess.{Subprocess, killed, remove_one, end_reading}
use stdiobus_python.Backends.Subprocess.Interleaved.{
  is_ending, Turns, fresh, stop_waited, stop_done, reading_ends, Reach, ends_wait, ends_stop,
  is_cancelled, cancelled,
}
use stdiobus_python.Backends.Subprocess.Interleaved.Invariant.{IsNew, always-IsCoherent}
use stdiobus_python.Backends.Subprocess.Interleaved.Own.{
  Kept, Finish, over_now, turn, turns, append-Finish, Finish-Kept, Finish-left, unread_once,
}

module _ (rt : Runtime) where
  -- What the waits for the process leave.
  record Waited (c d : Turns) (n : ℕ) : Type 0 where
    by : Finish rt c d
    drained : d.draining ≡ 0
    closes_all : d.closing ≡ c.closing + n
    state_kept : d.backend.state ≡ c.backend.state
    listed : d.backend.registered ≡ c.backend.registered
    told : d.backend.notices ≡ c.backend.notices
    killed_all : d.backend.kills ≡ c.backend.kills + n

  waits_end : (c : Turns) (n : ℕ) → c.draining ≡ n → (d : Turns) × Waited c d n
  unfolding stop_waited
  waits_end c zero e = (
    c,
    record {
      by = over_now;
      drained = e;
      closes_all = omega arith;
      state_kept = refl;
      listed = refl;
      told = refl;
      killed_all = omega arith;
    },
  )
  waits_end c (suc n) e =
      let (d, w) = waits_end (stop_waited c killed) n (ground (arith, e)) in
      (
        d,
        record {
          by = turn (ends_wait c killed n e (inl refl)) refl w.by;
          drained = w.drained;
          closes_all = omega (arith, w.closes_all);
          state_kept = w.state_kept;
          listed = w.listed;
          told = w.told;
          killed_all = omega (arith, w.killed_all);
        },
      )

  -- What the rest of each `stop` leaves.
  record Closed (c d : Turns) : Type 0 where
    by : Finish rt c d
    is_stopped : d.backend.state ≡ stopped
    drained : d.draining ≡ c.draining
    closed_all : d.closing ≡ 0
    unlisted : d.backend.registered ≡ 0
    told : d.backend.notices ≡ c.backend.notices
    kills_kept : d.backend.kills ≡ c.backend.kills

  after_one :
      {c d : Turns} {n : ℕ}
      → c.closing ≡ suc n
      → is_ending c.reader ≡ false
      → Closed (stop_done c) d
      → Closed c d
  unfolding stop_done
  after_one e f w = record {
    by = turn (ends_stop _ _ e f) tt w.by;
    is_stopped = w.is_stopped;
    drained = w.drained;
    closed_all = w.closed_all;
    unlisted = w.unlisted;
    told = w.told;
    kills_kept = w.kills_kept;
  }

  more_end :
      (c : Turns) (n : ℕ)
      → c.closing ≡ n
      → is_ending c.reader ≡ false
      → c.backend.state ≡ stopped
      → c.backend.registered ≡ 0
      → (d : Turns) × Closed c d
  unfolding stop_done
  more_end c zero e f s r = (
    c,
    record {
      by = over_now;
      is_stopped = s;
      drained = refl;
      closed_all = e;
      unlisted = r;
      told = refl;
      kills_kept = refl;
    },
  )
  more_end c (suc n) e f s r =
      let (d, w) = more_end (stop_done c) n (ap remove_one e) f refl (ap remove_one r) in
      (d, after_one e f w)

  remove_last : (n : ℕ) → n ≤ 1 → remove_one n ≡ 0
  remove_last zero h = refl
  remove_last (suc n) h = omega (arith, h)

  closing_ends :
      (c : Turns) (n : ℕ)
      → c.closing ≡ suc n
      → is_ending c.reader ≡ false
      → c.backend.registered ≤ 1
      → (d : Turns) × Closed c d
  unfolding stop_done
  closing_ends c n e f r =
      let (d, w) =
        more_end (stop_done c) n (ap remove_one e) f refl (remove_last c.backend.registered r) in
      (d, after_one e f w)

  -- The read task's `finally` clause changes nothing in a backend that does not run.
  end_reading-quiet : (b : Subprocess) → is_running_state b.state ≡ false → end_reading rt b ≡ b
  unfolding end_reading
  end_reading-quiet b e = if-false _ _ _ e

  after_reading :
      {c d : Turns}
      → c.reader ≡ cancelled
      → is_running_state c.backend.state ≡ false
      → Closed (reading_ends rt c) d
      → Closed c d
  unfolding reading_ends
  after_reading {c} e s w =
      let same = end_reading-quiet c.backend s in
      record {
        by = turn (is_cancelled c e) tt w.by;
        is_stopped = w.is_stopped;
        drained = w.drained;
        closed_all = w.closed_all;
        unlisted = w.unlisted;
        told = w.told ∙ ap (λ b. b.notices) same;
        kills_kept = w.kills_kept ∙ ap (λ b. b.kills) same;
      }

  stopping_closes :
      (c : Turns) (n : ℕ)
      → c.closing ≡ suc n
      → c.backend.state ≡ stopping
      → c.backend.registered ≤ 1
      → (d : Turns) × Closed c d
  unfolding reading_ends
  stopping_closes c n e s r = elim (Bool-cases (is_ending c.reader)) [
    | inr free ↦ closing_ends c n e free r
    | inl held ↦
        let quiet = ap is_running_state s in
        let (d, w) =
          closing_ends (reading_ends rt c) n e refl
            (subst (λ b. b.registered ≤ 1) (sym (end_reading-quiet c.backend quiet)) r) in
        (d, after_reading (ground (arith, held)) quiet w)
  ]

  stopped_closes :
      (c : Turns) → c.backend.state ≡ stopped → c.backend.registered ≡ 0 → (d : Turns) × Closed c d
  unfolding reading_ends
  stopped_closes c s r = elim (Bool-cases (is_ending c.reader)) [
    | inr free ↦ more_end c c.closing refl free s r
    | inl held ↦
        let quiet = ap is_running_state s in
        let same = sym (end_reading-quiet c.backend quiet) in
        let (d, w) =
          more_end (reading_ends rt c) c.closing refl refl (subst (λ b. b.state ≡ stopped) same s)
            (subst (λ b. b.registered ≡ 0) same r) in
        (d, after_reading (ground (arith, held)) quiet w)
  ]

  positive : (n : ℕ) → 1 ≤ n → (m : ℕ) × (n ≡ suc m)
  positive zero h = absurd (omega arith)
  positive (suc m) h = (m, refl)

  -- The calls of `stop` have ended: the backend is STOPPED and out of the registry, each call that waited
  -- for the process has sent one SIGKILL, and no handler and no close callback was called.
  abbrev pub Ended : Turns → Turns → Type 0
  Ended c d =
      (d.backend.state ≡ stopped)
      × (d.draining ≡ 0)
      × (d.closing ≡ 0)
      × (d.backend.registered ≡ 0)
      × (d.backend.notices ≡ c.backend.notices)
      × (d.backend.kills ≡ c.backend.kills + c.draining)

  join :
      {c d w e : Turns} → Kept c d → Waited d w d.draining → Closed w e → Finish rt d e × Ended c e
  join v p q = (
    append-Finish rt p.by q.by,
    (
      q.is_stopped,
      q.drained ∙ p.drained,
      q.closed_all,
      q.unlisted,
      q.told ∙ p.told ∙ v.told,
      q.kills_kept ∙ p.killed_all ∙ v.kills_due,
    ),
  )

  kept_ends : {c : Turns} (d : Turns) → Kept c d → (e : Turns) × Finish rt d e × Ended c e
  kept_ends d v =
      let (w, p) = waits_end d d.draining refl in
      elim v.quiet [
        | inl (s, pending) ↦
            let (n, e) = positive w.closing (omega (arith, p.closes_all, pending)) in
            let (end, q) =
              stopping_closes w n e (p.state_kept ∙ s) (omega (arith, p.listed, v.listed)) in
            (let (run, final) = join v p q in (end, run, final))
        | inr (s, r) ↦
            let (end, q) = stopped_closes w (p.state_kept ∙ s) (p.listed ∙ r) in
            (let (run, final) = join v p q in (end, run, final))
      ]

  -- A process that never exits cannot keep a STOPPING backend. From every state that the turns of a new
  -- object lead to, the turns of the calls of `stop` that are under way, and of the read task that they
  -- cancel, are at most two for each call that waits for the process, one for each that waits for the read
  -- task, and one; and wherever they have led, these turns alone can go on to where each of the calls has
  -- ended, the backend is STOPPED and out of the registry, each call that still waited for the process has
  -- sent one SIGKILL, and no handler and no close callback was called on the way.
  pub stopping_ends :
      (b : Subprocess) (c d : Turns)
      → IsNew b
      → Reach rt (fresh b) c
      → c.backend.state ≡ stopping
      → (p : Finish rt c d)
      → (turns rt p ≤ 2 * c.draining + c.closing + 1) × ((e : Turns) × Finish rt d e × Ended c e)
  stopping_ends b c d new r s p =
      let v = always-IsCoherent rt b new r in
      let pending = v.stops s in
      let start : Kept c c = record {
        quiet = inl (s, pending);
        listed = v.listed;
        told = refl;
        kills_due = refl;
      } in
      let all = Finish-left rt p in
      (omega (arith, all, unread_once c.reader), kept_ends d (Finish-Kept rt p start))
