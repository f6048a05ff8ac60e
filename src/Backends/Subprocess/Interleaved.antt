-- ===== src/Backends/Subprocess/Interleaved.antt =====
-- `SubprocessBackend` of stdiobus/backends/subprocess.py where its coroutines take turns: `start`, the
-- calls of `stop` and the read loop, cut at each `await`. Time is left out: a wait may end at any turn.
pub mod Invariant
pub mod Race
pub mod Own
pub mod Ends
use stdiobus_python.Base.{ℕ, suc, String, ◌≡◌, Bool, true, false, ◌&&◌, not, if◌then◌else◌, ◌⊎◌}
use stdiobus_python.Types.Enums.{created, starting, running, stopping, stopped, is_running_state}
use stdiobus_python.Client.State.{Runtime}
use stdiobus_python.Backends.Subprocess.{
  Subprocess, is_created, is_active, remove_one, destroy, Write, send, Exit, killed, count_kill,
  Line, read_line, end_reading,
}

-- Where `start` is: not called on a new object, asleep in the grace period, or over.
pub data Starter : Type 0 where
  not_called asleep over : Starter

-- Where the read task is: not created, created, at its read, cancelled there, or done.
pub data Reader : Type 0 where
  absent scheduled at_read cancelled done : Reader

-- `draining` counts the calls of `stop` that wait for the process, `closing` those that wait for the read
-- task; `waited` tells that a thread is in `proc.wait`, and `exit_known` that `returncode` is set.
pub record Turns : Type 0 where
  pub backend : Subprocess
  pub starter : Starter
  pub reader : Reader
  pub draining : ℕ
  pub closing : ℕ
  pub waited : Bool
  pub exit_known : Bool

-- A new object.
abbrev pub fresh : Subprocess → Turns
fresh b = record {
  backend = b;
  starter = not_called;
  reader = absent;
  draining = 0;
  closing = 0;
  waited = false;
  exit_known = false;
}

-- How the spawn of a `start` goes, and whether there is a grace period.
pub data Launch : Type 0 where
  fails at_once with_grace : Launch

-- The end of the `try` of `start`, and its `except`.
unfoldable pub start_done : Turns → Turns
start_done c = record c {
  backend = record c.backend { state = running };
  starter = over;
  reader = scheduled;
}

unfoldable pub start_fails : Turns → Turns
start_fails c = record c {
  backend = record c.backend { state = stopped; registered = remove_one c.backend.registered };
  starter = over;
}

-- `start` up to its sleep. The spawn has no `await` in it.
unfoldable pub start_called : Turns → Launch → Turns
unfolding start_done start_fails
start_called c fails = start_fails (record c {
  backend = record c.backend { state = starting; registered = suc c.backend.registered };
})
start_called c at_once = start_done (record c {
  backend = record c.backend {
    state = starting;
    registered = suc c.backend.registered;
    has_process = true;
    has_stdin = true;
  };
})
start_called c with_grace = record c {
  backend = record c.backend {
    state = starting;
    registered = suc c.backend.registered;
    has_process = true;
    has_stdin = true;
  };
  starter = asleep;
}

-- `start` after its sleep: `self._process` may be gone, and `returncode` known.
unfoldable pub start_wakes : Turns → Turns
unfolding start_done start_fails
start_wakes c = if c.backend.has_process && not c.exit_known then start_done c else start_fails c

-- `stop` up to its wait for the process.
unfoldable pub stop_called : Turns → Turns
stop_called c =
    if is_active c.backend.state
    then (if c.backend.has_process
        then record c {
          backend = record c.backend { state = stopping };
          draining = suc c.draining;
          waited = true;
        }
        else record c { backend = record c.backend { state = stopped } })
    else c

-- `task.cancel()`; a task that has not begun never runs.
abbrev pub cancel : Reader → Reader
cancel scheduled = done
cancel at_read = cancelled
cancel r = r

-- The task that `stop` waits for.
abbrev pub is_ending : Reader → Bool
is_ending cancelled = true
is_ending _ = false

-- `stop` after its waits for the process, up to the end of the read task.
unfoldable pub stop_waited : Turns → Exit → Turns
stop_waited c x = record c {
  backend = record c.backend { kills = count_kill x c.backend.kills };
  reader = cancel c.reader;
  draining = remove_one c.draining;
  closing = suc c.closing;
}

-- The rest of `stop`.
unfoldable pub stop_done : Turns → Turns
stop_done c = record c {
  backend = record c.backend { state = stopped; registered = remove_one c.backend.registered };
  closing = remove_one c.closing;
}

module _ (rt : Runtime) where
  -- The read task's first turn: into the loop, or to its end.
  unfoldable pub reading_begins : Turns → Turns
  reading_begins c =
      if is_running_state c.backend.state
      then record c { reader = at_read }
      else record c { backend = end_reading rt c.backend; reader = done }

  -- A line has come: the loop's body, and its test.
  unfoldable pub line_read : Turns → Line → Turns
  unfolding reading_begins
  line_read c l = reading_begins (record c { backend = read_line rt c.backend l })

  -- The read gave the end of the file, or the task is cancelled: the `finally` clause.
  unfoldable pub reading_ends : Turns → Turns
  reading_ends c = record c { backend = end_reading rt c.backend; reader = done }

  -- A turn of a coroutine, or a call. A second `start` raises and changes nothing.
  pub data Step : Turns → Turns → Type 0 where
    calls_start :
        (c : Turns) (l : Launch) → is_created c.backend.state ≡ true → Step c (start_called c l)
    wakes_start : (c : Turns) → c.starter ≡ asleep → Step c (start_wakes c)
    calls_stop : (c : Turns) → Step c (stop_called c)
    learns_exit : (c : Turns) → c.waited ≡ true → Step c (record c { exit_known = true })
    ends_wait :
        (c : Turns) (x : Exit) (n : ℕ)
        → c.draining ≡ suc n
        → (x ≡ killed) ⊎ (c.exit_known ≡ true)
        → Step c (stop_waited c x)
    ends_stop :
        (c : Turns) (n : ℕ) → c.closing ≡ suc n → is_ending c.reader ≡ false → Step c (stop_done c)
    begins_reading : (c : Turns) → c.reader ≡ scheduled → Step c (reading_begins c)
    reads_line : (c : Turns) (l : Line) → c.reader ≡ at_read → Step c (line_read c l)
    reads_end : (c : Turns) → c.reader ≡ at_read → Step c (reading_ends c)
    is_cancelled : (c : Turns) → c.reader ≡ cancelled → Step c (reading_ends c)
    calls_send :
        (c : Turns) (m : String) (w : Write)
        → Step c (record c { backend = (send c.backend m w).0 })
    calls_destroy : (c : Turns) → Step c (record c { backend = destroy c.backend })

  pub data Reach (c : Turns) : Turns → Type 0 where
    here : Reach c c
    next : {d e : Turns} → Reach c d → Step d e → Reach c e
