-- ===== src/Backends/Docker/Interleaved/Invariant.antt =====
-- What stays true whatever turns the coroutines of stdiobus/backends/docker.py take.
use stdiobus_python.Base.{
  ℕ, ◌≤◌, ◌≡◌, ◌≢◌, refl, ap, Option, none, some, List, [], ◌∷◌, ◌++◌, arith, ◌⊎◌, inl, inr,
  Option-cases,
}
use stdiobus_python.Types.Enums.{created, starting, running, stopping}
use stdiobus_python.Backends.Text.{Text}
use stdiobus_python.Backends.Utf8.{decode}
use stdiobus_python.Backends.Docker.{
  Docker, destroy, send, take_text, count_bytes, handle_line, handle_lines, split_lines,
}
use stdiobus_python.Backends.Docker.Interleaved.{
  Turns, not_called, launching, connecting, over, absent, at_read, done, Stopper, not_stopping,
  unreading, disconnecting, removing, ended, fresh, start_called, launched, connected, stop_called,
  stop_ends, stops_container, read_task_ended, connection_closed, container_stopped,
  reading_goes_on, block_read, Step, Reach, calls_start, has_launched, has_connected, calls_stop,
  ends_reading, ends_connection, ends_container, begins_reading, reads_nothing, reads_block,
  reads_end, is_cancelled, calls_send, calls_destroy, here, next,
}

-- How often `stop` has come to its end.
abbrev pub endings : Stopper → ℕ
endings ended = 1
endings _ = 0

abbrev pub IsWaiting : Stopper → Type 0
IsWaiting s = (s ≡ unreading) ⊎ ((s ≡ disconnecting) ⊎ (s ≡ removing))

-- The state tells where the coroutines are, and the counters what they have done.
pub record IsCoherent (c : Turns) : Type 0 where
  pub new : c.backend.state ≡ created → c.starter ≡ not_called
  pub begins : c.backend.state ≡ starting → (c.starter ≡ launching) ⊎ (c.starter ≡ connecting)
  pub runs :
      c.backend.state ≡ running
      → (c.starter ≡ over) × (c.stopper ≡ not_stopping) × (c.backend.stats.client_connects ≡ 1)
  pub stops : c.backend.state ≡ stopping → IsWaiting c.stopper
  pub unconnected :
      c.starter ≢ over
      → (c.reader ≡ absent) × (c.stopper ≡ not_stopping) × (c.backend.stats.client_connects ≡ 0)
  pub connects_once : c.backend.stats.client_connects ≤ 1
  pub stopped_once : c.backend.stats.client_disconnects ≡ endings c.stopper
  pub stopped_after : c.stopper ≢ not_stopping → c.backend.stats.client_connects ≡ 1

-- What the read loop leaves alone.
abbrev pub Like : Docker → Docker → Type 0
Like b b' =
    (b'.state ≡ b.state)
    × (b'.stats.client_connects ≡ b.stats.client_connects)
    × (b'.stats.client_disconnects ≡ b.stats.client_disconnects)

pub handle_lines-Like : (b : Docker) (ls : List Text) → Like b (handle_lines b ls)
unfolding handle_lines handle_line
handle_lines-Like b [] = (refl, refl, refl)
handle_lines-Like b (l ∷ ls) =
    let rest = handle_lines-Like (handle_line b l) ls in ground (arith, rest)

reading_goes_on-IsCoherent :
    (c : Turns) → c.starter ≡ over → IsCoherent c → IsCoherent (reading_goes_on c)
unfolding reading_goes_on
reading_goes_on-IsCoherent c o v = ground arith

-- Coherence does not depend on the rest.
same-IsCoherent :
    (c : Turns) (b : Docker) (t : Text)
    → Like c.backend b
    → IsCoherent c
    → IsCoherent (record c { backend = b; buffer = t })
same-IsCoherent c b t l v = ground arith

reader-over : (c : Turns) → IsCoherent c → c.reader ≢ absent → c.starter ≡ over
reader-over c v r = ground arith

done-IsCoherent :
    (c : Turns) → c.starter ≡ over → IsCoherent c → IsCoherent (record c { reader = done })
done-IsCoherent c o v = ground arith

module _ (c : Turns) (block : List ℕ) where
  abbrev pub counted : Docker
  counted = count_bytes c.backend block

  abbrev pub taken : Text → Docker × Text
  taken t = take_text counted c.buffer t

  pub block_at :
      (o : Option Text)
      → decode block ≡ o
      → block_read c block ≡ (elim o [
        | none ↦ record c { backend = counted; reader = done }
        | some t ↦ reading_goes_on (record c { backend = (taken t).0; buffer = (taken t).1 })
      ])
  unfolding block_read
  block_at o e =
      ap
        (λ o. elim o as (λ x. Turns) [
          | none ↦ record c { backend = counted; reader = done }
          | some t ↦ reading_goes_on (record c { backend = (taken t).0; buffer = (taken t).1 })
        ])
        e

  block_read-IsCoherent : c.reader ≡ at_read → IsCoherent c → IsCoherent (block_read c block)
  unfolding take_text
  block_read-IsCoherent r v =
      let still : c.starter ≡ over = reader-over c v (ground (arith, r)) in
      elim (Option-cases (decode block)) [
        | inl e ↦ rw (block_at none e) (
            done-IsCoherent (record c { backend = counted }) still
              (same-IsCoherent c counted c.buffer (refl, refl, refl) v))
        | inr (t, e) ↦ rw (block_at (some t) e) (
            reading_goes_on-IsCoherent (record c { backend = (taken t).0; buffer = (taken t).1 })
              still
              (same-IsCoherent c (taken t).0 (taken t).1
                (handle_lines-Like counted (split_lines (c.buffer ++ t)).0) v))
      ]

Step-IsCoherent : {c d : Turns} → Step c d → IsCoherent c → IsCoherent d
unfolding start_called launched connected stop_called stop_ends stops_container read_task_ended
    connection_closed container_stopped reading_goes_on send destroy
Step-IsCoherent (calls_start c p e) v = ground arith
Step-IsCoherent (has_launched c s e) v = ground arith
Step-IsCoherent (has_connected c r e) v = ground arith
Step-IsCoherent (calls_stop c) v = ground arith
Step-IsCoherent (ends_reading c e k) v = ground arith
Step-IsCoherent (ends_connection c e) v = ground arith
Step-IsCoherent (ends_container c e) v = ground arith
Step-IsCoherent (begins_reading c e) v = ground arith
Step-IsCoherent (reads_nothing c e) v = ground arith
Step-IsCoherent (reads_block c block e) v = block_read-IsCoherent c block e v
Step-IsCoherent (reads_end c e) v = ground arith
Step-IsCoherent (is_cancelled c e) v = ground arith
Step-IsCoherent (calls_send c m w) v = ground arith
Step-IsCoherent (calls_destroy c) v = ground arith

pub Reach-IsCoherent : {c d : Turns} → IsCoherent c → Reach c d → IsCoherent d
Reach-IsCoherent v here = v
Reach-IsCoherent v (next r s) = Step-IsCoherent s (Reach-IsCoherent v r)

-- An object that `__init__` has made.
abbrev pub IsNew : Docker → Type 0
IsNew b = (b.state ≡ created) × (b.stats.client_connects ≡ 0) × (b.stats.client_disconnects ≡ 0)

pub fresh-IsCoherent : (b : Docker) → IsNew b → IsCoherent (fresh b)
fresh-IsCoherent b n = ground arith

-- Whatever turns the coroutines of a new object take: STARTING means that `start` waits, RUNNING that it
-- is over and no `stop` has begun, STOPPING that a `stop` waits; the read task is created only when `start`
-- is over; the object connects once at most, `stop` runs to its end once at most, only after that, and
-- `client_disconnects` counts it.
pub turns-IsCoherent : (b : Docker) {c : Turns} → IsNew b → Reach (fresh b) c → IsCoherent c
turns-IsCoherent b n r = Reach-IsCoherent (fresh-IsCoherent b n) r
