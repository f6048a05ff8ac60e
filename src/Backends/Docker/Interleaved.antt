-- ===== src/Backends/Docker/Interleaved.antt =====
-- `DockerBackend` of stdiobus/backends/docker.py where its coroutines take turns: `start`, `stop` and the
-- read loop, cut at each `await`. Time is left out: a wait may end at any turn.
pub mod Invariant
pub mod Survival
use stdiobus_python.Base.{
  ℕ, ◌+◌, String, ◌≡◌, Bool, true, false, not, none, some, List, [], if◌then◌else◌,
}
use stdiobus_python.Types.Enums.{created, starting, running, stopping, stopped, is_running_state}
use stdiobus_python.Backends.Text.{Text}
use stdiobus_python.Backends.Utf8.{decode}
use stdiobus_python.Backends.Docker.{Docker, is_created, destroy, send, take_text, count_bytes}

-- Where `start` is: not called on a new object, at the wait for the command that starts the container, at
-- the wait for a connection, or over.
pub data Starter : Type 0 where
  not_called launching connecting over : Starter

-- Where the read task is: not created, created, at its read, cancelled there, or done.
pub data Reader : Type 0 where
  absent scheduled at_read cancelled done : Reader

-- Where `stop` is: not called while the backend runs, at the wait for the read task, for the connection's
-- end, or for the command that stops the container, or over.
pub data Stopper : Type 0 where
  not_stopping unreading disconnecting removing ended : Stopper

pub record Turns : Type 0 where
  pub backend : Docker
  pub starter : Starter
  pub reader : Reader
  pub stopper : Stopper
  pub buffer : Text

-- A new object.
abbrev pub fresh : Docker → Turns
fresh b = record {
  backend = b;
  starter = not_called;
  reader = absent;
  stopper = not_stopping;
  buffer = [];
}

-- `start` up to its first wait; `pulled` tells whether `_pull_image` goes well. The `except` of `start`
-- does no more than the state.
unfoldable pub start_called : Turns → (pulled : Bool) → Turns
start_called c true = record c {
  backend = record c.backend { state = starting };
  starter = launching;
}
start_called c false = record c { backend = record c.backend { state = stopped }; starter = over }

-- The rest of `_start_container`, by the return code of the command.
unfoldable pub launched : Turns → (succeeded : Bool) → Turns
launched c true = record c {
  backend = record c.backend { has_container = true };
  starter = connecting;
}
launched c false = record c { backend = record c.backend { state = stopped }; starter = over }

-- `_wait_for_ready` has a connection, or has run out of time; and the rest of `start`.
unfoldable pub connected : Turns → (ready : Bool) → Turns
connected c true = record c {
  backend = record c.backend {
    state = running;
    has_writer = true;
    stats = record c.backend.stats { client_connects = c.backend.stats.client_connects + 1 };
  };
  starter = over;
  reader = scheduled;
}
connected c false = record c { backend = record c.backend { state = stopped }; starter = over }

-- `task.cancel()`; a task that has not begun never runs.
abbrev pub cancel : Reader → Reader
cancel scheduled = done
cancel at_read = cancelled
cancel r = r

abbrev pub is_ending : Reader → Bool
is_ending cancelled = true
is_ending _ = false

-- `stop` up to its wait for the read task.
unfoldable pub stop_called : Turns → Turns
stop_called c =
    if is_running_state c.backend.state
    then record c {
      backend = record c.backend { state = stopping };
      reader = cancel c.reader;
      stopper = unreading;
    }
    else c

-- The end of `stop`, from each of its waits. A wait is skipped where there is nothing to wait for.
unfoldable pub stop_ends : Turns → Turns
stop_ends c = record c {
  backend = record c.backend {
    state = stopped;
    stats = record c.backend.stats { client_disconnects = c.backend.stats.client_disconnects + 1 };
  };
  stopper = ended;
}

unfoldable pub stops_container : Turns → Turns
unfolding stop_ends
stops_container c = if c.backend.has_container then record c { stopper = removing } else stop_ends c

unfoldable pub read_task_ended : Turns → Turns
unfolding stops_container
read_task_ended c =
    if c.backend.has_writer then record c { stopper = disconnecting } else stops_container c

unfoldable pub connection_closed : Turns → Turns
unfolding stops_container
connection_closed c =
    stops_container (record c { backend = record c.backend { has_writer = false } })

unfoldable pub container_stopped : Turns → Turns
unfolding stop_ends
container_stopped c = stop_ends (record c { backend = record c.backend { has_container = false } })

-- The read task's loop test; past the loop the task does nothing.
unfoldable pub reading_goes_on : Turns → Turns
reading_goes_on c = record c {
  reader = (if is_running_state c.backend.state then at_read else done);
}

-- A block has come: the loop's body, and its test. A block that does not decode ends the task.
unfoldable pub block_read : Turns → List ℕ → Turns
unfolding reading_goes_on
block_read c block =
    let b = count_bytes c.backend block in
    elim (decode block) [
      | none ↦ record c { backend = b; reader = done }
      | some t ↦
          (let (b', rest) = take_text b c.buffer t in
            reading_goes_on (record c { backend = b'; buffer = rest }))
    ]

-- A turn of a coroutine, or a call. A second `start` raises and changes nothing.
pub data Step : Turns → Turns → Type 0 where
  calls_start :
      (c : Turns) (pulled : Bool)
      → is_created c.backend.state ≡ true
      → Step c (start_called c pulled)
  has_launched :
      (c : Turns) (succeeded : Bool) → c.starter ≡ launching → Step c (launched c succeeded)
  has_connected : (c : Turns) (ready : Bool) → c.starter ≡ connecting → Step c (connected c ready)
  calls_stop : (c : Turns) → Step c (stop_called c)
  ends_reading :
      (c : Turns) → c.stopper ≡ unreading → is_ending c.reader ≡ false → Step c (read_task_ended c)
  ends_connection : (c : Turns) → c.stopper ≡ disconnecting → Step c (connection_closed c)
  ends_container : (c : Turns) → c.stopper ≡ removing → Step c (container_stopped c)
  begins_reading : (c : Turns) → c.reader ≡ scheduled → Step c (reading_goes_on c)
  reads_nothing : (c : Turns) → c.reader ≡ at_read → Step c (reading_goes_on c)
  reads_block : (c : Turns) (block : List ℕ) → c.reader ≡ at_read → Step c (block_read c block)
  reads_end : (c : Turns) → c.reader ≡ at_read → Step c (record c { reader = done })
  is_cancelled : (c : Turns) → c.reader ≡ cancelled → Step c (record c { reader = done })
  calls_send :
      (c : Turns) (m : String) (w : Bool) → Step c (record c { backend = (send c.backend m w).0 })
  calls_destroy : (c : Turns) → Step c (record c { backend = destroy c.backend })

pub data Reach (c : Turns) : Turns → Type 0 where
  here : Reach c c
  next : {d e : Turns} → Reach c d → Step d e → Reach c e
