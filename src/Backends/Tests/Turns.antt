-- ===== src/Backends/Tests/Turns.antt =====
-- Turns of the coroutines of stdiobus/backends/subprocess.py at concrete inputs.
use stdiobus_python.Base.{String, ◌≡◌, refl, false, none, [], ◌∷◌, inl, inr, ◌⊎◌, ◌+◌, ◌*◌, ◌≤◌}
use stdiobus_python.Client.State.{Runtime}
use stdiobus_python.Client.Bus.{returned}
use stdiobus_python.Types.Enums.{created, running, stopping, stopped, no_stats}
use stdiobus_python.Backends.Subprocess.{Subprocess, closed, Write, send, killed}
use stdiobus_python.Backends.Subprocess.Interleaved.{
  Turns, fresh, with_grace, start_called, start_wakes, stop_called, stop_waited, ends_wait,
  reading_begins, Reach, calls_start, wakes_start, calls_stop, begins_reading, reads_end, here,
  next, reading_ends, start_done,
}
use stdiobus_python.Backends.Subprocess.Interleaved.Invariant.{IsCoherent, always-IsCoherent}
use stdiobus_python.Backends.Subprocess.Interleaved.Race.{
  stop_final, stop_in_grace, reopened, reclosed,
}
use stdiobus_python.Backends.Subprocess.Interleaved.Own.{Finish, turn, over_now}
use stdiobus_python.Backends.Subprocess.Interleaved.Ends.{Ended, stopping_ends}

abbrev rt : Runtime
rt = record { loads = λ s. none; dumps = λ j. ""; to_str = λ j. "" }

abbrev object : Subprocess
object = record {
  state = created;
  has_process = false;
  has_stdin = false;
  registered = 0;
  message_handlers = [];
  stats = no_stats;
  notices = [];
  kills = 0;
}

abbrev sleeps : Turns
sleeps = start_called (fresh object) with_grace

abbrev runs : Turns
runs = start_wakes sleeps

abbrev reads : Turns
reads = reading_begins rt runs

to_reads : Reach rt (fresh object) reads
unfolding start_called start_wakes start_done
to_reads =
    next (next (next here (calls_start (fresh object) with_grace refl)) (wakes_start sleeps refl))
      (begins_reading runs refl)

-- A start, the read task, and the end of the process.
always-IsCoherent_example : IsCoherent (reading_ends rt reads)
unfolding reading_begins start_called start_wakes start_done
always-IsCoherent_example =
    always-IsCoherent rt object (refl, refl, refl) (next to_reads (reads_end reads refl))

abbrev stops : Turns
stops = stop_called reads

stop_final_example :
    (((reading_ends rt stops).backend.state ≡ stopped)
      ⊎ (((reading_ends rt stops).backend.state ≡ stopping) × (stops.backend.state ≡ stopping)))
    × ((m : String) (w : Write) → (send (reading_ends rt stops).backend m w).1 ≡ returned false)
unfolding reading_begins start_called start_wakes start_done stop_called
stop_final_example =
    stop_final rt stops (reading_ends rt stops) refl (inr refl) (next here (reads_end stops refl))

stop_in_grace_example :
    ((stop_called sleeps).backend.state ≡ stopping)
    × ((reopened rt sleeps).backend.state ≡ running)
    × ((reopened rt sleeps).draining ≡ 1)
    × Reach rt sleeps (reclosed rt sleeps)
    × ((reclosed rt sleeps).backend.notices ≡ closed ∷ [])
unfolding start_called
stop_in_grace_example = stop_in_grace rt sleeps (refl, refl, refl, refl, refl)

-- The one `stop` waits for the process; after its SIGKILL it waits for the read task.
abbrev gave_up : Turns
gave_up = stop_waited stops killed

stopping_ends_example : (1 ≤ 2 * 1 + 0 + 1) × ((e : Turns) × Finish rt gave_up e × Ended rt stops e)
unfolding reading_begins start_called start_wakes start_done stop_called
stopping_ends_example =
    stopping_ends rt object stops gave_up (refl, refl, refl) (next to_reads (calls_stop reads)) refl
      (turn (ends_wait stops killed 0 refl (inl refl)) refl over_now)
