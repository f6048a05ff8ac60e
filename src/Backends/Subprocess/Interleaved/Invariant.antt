-- ===== src/Backends/Subprocess/Interleaved/Invariant.antt =====
-- What stays true whatever turns the coroutines of stdiobus/backends/subprocess.py take.
use stdiobus_python.Base.{ℕ, ◌+◌, ◌≤◌, ◌≡◌, ◌≢◌, [], ◌∷◌, map, arith}
use stdiobus_python.Types.Enums.{created, starting, running, stopping}
use stdiobus_python.Client.State.{Runtime}
use stdiobus_python.Backends.Subprocess.{
  Subprocess, handled, closed, destroy, send, read_line, end_reading,
}
use stdiobus_python.Backends.Subprocess.Lifecycle.{closes, closes-append, closes-handled}
use stdiobus_python.Backends.Subprocess.Interleaved.{
  Turns, not_called, asleep, over, Reader, absent, done, fresh, fails, at_once, with_grace,
  start_called, start_done, start_fails, start_wakes, stop_called, stop_waited, stop_done,
  reading_begins, line_read, reading_ends, Step, Reach, calls_start, wakes_start, calls_stop,
  learns_exit, ends_wait, ends_stop, begins_reading, reads_line, reads_end, is_cancelled,
  calls_send, calls_destroy, here, next,
}

-- How often the `finally` clause of the read task has run.
abbrev pub endings : Reader → ℕ
endings done = 1
endings _ = 0

-- The state tells where the coroutines are.
pub record IsCoherent (c : Turns) : Type 0 where
  pub new : c.backend.state ≡ created → (c.starter ≡ not_called) × (c.backend.registered ≡ 0)
  pub waits : c.backend.state ≡ starting → c.starter ≡ asleep
  pub runs : c.backend.state ≡ running → c.starter ≡ over
  pub stops : c.backend.state ≡ stopping → 1 ≤ c.draining + c.closing
  pub unread : c.starter ≢ over → c.reader ≡ absent
  pub listed : c.backend.registered ≤ 1
  pub called_once : closes c.backend.notices ≤ endings c.reader

module _ (rt : Runtime) where
  Step-IsCoherent : {c d : Turns} → Step rt c d → IsCoherent c → IsCoherent d
  unfolding start_called start_done start_fails start_wakes stop_called stop_waited stop_done
      reading_begins line_read reading_ends read_line end_reading send destroy
  Step-IsCoherent (calls_start c fails e) v = ground arith
  Step-IsCoherent (calls_start c at_once e) v = ground arith
  Step-IsCoherent (calls_start c with_grace e) v = ground arith
  Step-IsCoherent (wakes_start c e) v = ground arith
  Step-IsCoherent (calls_stop c) v = ground arith
  Step-IsCoherent (learns_exit c e) v = ground arith
  Step-IsCoherent (ends_wait c x n e k) v = ground arith
  Step-IsCoherent (ends_stop c n e k) v = ground arith
  Step-IsCoherent (begins_reading c e) v =
      ground (arith, closes-append c.backend.notices (closed ∷ []))
  Step-IsCoherent (reads_line c l e) v = ground (
    arith,
    closes-append c.backend.notices (map (λ h. handled h l.text) c.backend.message_handlers),
    closes-handled c.backend.message_handlers l.text,
  )
  Step-IsCoherent (reads_end c e) v = ground (arith, closes-append c.backend.notices (closed ∷ []))
  Step-IsCoherent (is_cancelled c e) v =
      ground (arith, closes-append c.backend.notices (closed ∷ []))
  Step-IsCoherent (calls_send c m w) v = ground arith
  Step-IsCoherent (calls_destroy c) v = ground arith

  pub Reach-IsCoherent : {c d : Turns} → IsCoherent c → Reach rt c d → IsCoherent d
  Reach-IsCoherent v here = v
  Reach-IsCoherent v (next r s) = Step-IsCoherent s (Reach-IsCoherent v r)

-- An object that `__init__` has made.
abbrev pub IsNew : Subprocess → Type 0
IsNew b = (b.state ≡ created) × (b.registered ≡ 0) × (b.notices ≡ [])

pub fresh-IsCoherent : (b : Subprocess) → IsNew b → IsCoherent (fresh b)
fresh-IsCoherent b n = ground arith

-- Whatever turns the coroutines of a new object take: STARTING means that `start` is asleep, RUNNING that
-- it is over, STOPPING that a `stop` is still under way; the read task is created only when `start` is over;
-- the object stands in the registry at most once, and its close callback is called at most once, and only
-- once the read task has ended.
pub always-IsCoherent :
    (rt : Runtime) (b : Subprocess) {c : Turns} → IsNew b → Reach rt (fresh b) c → IsCoherent c
always-IsCoherent rt b n r = Reach-IsCoherent rt (fresh-IsCoherent b n) r
