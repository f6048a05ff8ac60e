-- ===== src/Backends/Subprocess/Interleaved/Own.antt =====
-- The turns of the calls of `stop` of stdiobus/backends/subprocess.py that are under way, of all the turns
-- that its coroutines can take.
use stdiobus_python.Base.{ℕ, suc, ◌+◌, ◌≤◌, ◌≡◌, ◌*◌, ◌⊎◌, arith}
use stdiobus_python.Types.Enums.{stopping, stopped}
use stdiobus_python.Client.State.{Runtime}
use stdiobus_python.Backends.Subprocess.{killed, end_reading}
use stdiobus_python.Backends.Subprocess.Interleaved.{
  Turns, stop_waited, stop_done, reading_ends, Step, ends_wait, ends_stop, is_cancelled, cancelled,
  at_read, Reader, calls_start, wakes_start, calls_stop, learns_exit, begins_reading, reads_line,
  reads_end, calls_send, calls_destroy,
}

-- What such turns keep: a `stop` is still under way, or the backend is out of the registry for good.
pub record Kept (c d : Turns) : Type 0 where
  pub quiet :
      ((d.backend.state ≡ stopping) × (1 ≤ d.draining + d.closing))
      ⊎ ((d.backend.state ≡ stopped) × (d.backend.registered ≡ 0))
  pub listed : d.backend.registered ≤ 1
  pub told : d.backend.notices ≡ c.backend.notices
  pub kills_due : d.backend.kills + d.draining ≡ c.backend.kills + c.draining

abbrev pub unread : Reader → ℕ
unread at_read = 1
unread cancelled = 1
unread _ = 0

-- How many of these turns are left.
abbrev pub left : Turns → ℕ
left c = 2 * c.draining + c.closing + unread c.reader

pub unread_once : (r : Reader) → unread r ≤ 1
unread_once r = ground arith

module _ (rt : Runtime) where
  -- The turns of a `stop` that is under way, and of the read task that it cancels, at a process that
  -- never exits: a wait for the process ends with SIGKILL.
  abbrev pub IsOwn : {c d : Turns} → Step rt c d → Type 0
  IsOwn (ends_wait c x n e k) = x ≡ killed
  IsOwn (ends_stop c n e k) = Unit
  IsOwn (is_cancelled c e) = Unit
  IsOwn _ = ⊥

  -- Such turns, one after the other.
  pub data Finish : Turns → Turns → Type 0 where
    over_now : {c : Turns} → Finish c c
    turn : {c d e : Turns} (s : Step rt c d) → IsOwn s → Finish d e → Finish c e

  pub append-Finish : {c d e : Turns} → Finish c d → Finish d e → Finish c e
  append-Finish over_now q = q
  append-Finish (turn s o p) q = turn s o (append-Finish p q)

  own-Kept : {c d e : Turns} (s : Step rt d e) → IsOwn s → Kept c d → Kept c e
  unfolding stop_waited stop_done reading_ends end_reading
  own-Kept (ends_wait d x n e k) o v = ground arith
  own-Kept (ends_stop d n e k) o v = ground arith
  own-Kept (is_cancelled d e) o v = ground arith
  own-Kept (calls_start d l e) o v = absurd o
  own-Kept (wakes_start d e) o v = absurd o
  own-Kept (calls_stop d) o v = absurd o
  own-Kept (learns_exit d e) o v = absurd o
  own-Kept (begins_reading d e) o v = absurd o
  own-Kept (reads_line d l e) o v = absurd o
  own-Kept (reads_end d e) o v = absurd o
  own-Kept (calls_send d m w) o v = absurd o
  own-Kept (calls_destroy d) o v = absurd o

  pub Finish-Kept : {c d e : Turns} → Finish d e → Kept c d → Kept c e
  Finish-Kept over_now v = v
  Finish-Kept (turn s o p) v = Finish-Kept p (own-Kept s o v)

  abbrev pub turns : {c d : Turns} → Finish c d → ℕ
  turns over_now = 0
  turns (turn s o p) = suc (turns p)

  own-left : {c d : Turns} (s : Step rt c d) → IsOwn s → suc (left d) ≡ left c
  unfolding stop_waited stop_done reading_ends
  own-left (ends_wait c x n e k) o = ground arith
  own-left (ends_stop c n e k) o = ground arith
  own-left (is_cancelled c e) o = ground arith
  own-left (calls_start d l e) o = absurd o
  own-left (wakes_start d e) o = absurd o
  own-left (calls_stop d) o = absurd o
  own-left (learns_exit d e) o = absurd o
  own-left (begins_reading d e) o = absurd o
  own-left (reads_line d l e) o = absurd o
  own-left (reads_end d e) o = absurd o
  own-left (calls_send d m w) o = absurd o
  own-left (calls_destroy d) o = absurd o

  pub Finish-left : {c d : Turns} (p : Finish c d) → turns p + left d ≡ left c
  Finish-left over_now = omega arith
  Finish-left (turn s o p) = omega (arith, Finish-left p, own-left s o)
