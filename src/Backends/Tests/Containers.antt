-- ===== src/Backends/Tests/Containers.antt =====
-- Turns of the coroutines of stdiobus/backends/docker.py at concrete inputs.
use stdiobus_python.Base.{String, ◌≡◌, refl, Bool, false, true, [], inr, ◌⊎◌}
use stdiobus_python.Types.Enums.{created, running, stopping, stopped, no_stats}
use stdiobus_python.Backends.Docker.{Docker, send}
use stdiobus_python.Backends.Docker.Interleaved.{
  Turns, fresh, start_called, launched, connected, stop_called, reading_goes_on, read_task_ended,
  Reach, calls_start, has_launched, has_connected, begins_reading, calls_stop, is_cancelled,
  ends_reading, here, next, done,
}
use stdiobus_python.Backends.Docker.Interleaved.Invariant.{IsCoherent, turns-IsCoherent}
use stdiobus_python.Backends.Docker.Interleaved.Survival.{revived, start_survives, container_final}

abbrev object : Docker
object = record {
  state = created;
  has_writer = false;
  has_container = false;
  message_handlers = [];
  stats = no_stats;
  calls = [];
}

abbrev launches : Turns
launches = start_called (fresh object) true

abbrev runs : Turns
runs = reading_goes_on (connected (launched launches true) true)

to_runs : Reach (fresh object) runs
unfolding start_called launched connected
to_runs =
    next
      (next
        (next (next here (calls_start (fresh object) true refl)) (has_launched launches true refl))
        (has_connected (launched launches true) true refl))
      (begins_reading (connected (launched launches true) true) refl)

abbrev stops : Turns
stops = stop_called runs

-- A start, the read task, and a stop.
turns-IsCoherent_example : IsCoherent stops
turns-IsCoherent_example =
    turns-IsCoherent object (refl, refl, refl) (next to_runs (calls_stop runs))

start_survives_example :
    (stop_called launches ≡ launches)
    × Reach launches (revived launches)
    × ((revived launches).backend.state ≡ running)
    × ((revived launches).backend.has_container ≡ true)
    × ((m : String) → (send (revived launches).backend m true).1 ≡ true)
unfolding start_called
start_survives_example = start_survives launches refl refl

abbrev unread : Turns
unread = record stops { reader = done }

container_final_example :
    (((read_task_ended unread).backend.state ≡ stopped)
      ⊎ (((read_task_ended unread).backend.state ≡ stopping) × (stops.backend.state ≡ stopping)))
    × ((m : String) (w : Bool) → (send (read_task_ended unread).backend m w).1 ≡ false)
unfolding start_called launched connected reading_goes_on stop_called
container_final_example =
    container_final stops (read_task_ended unread) refl (inr refl)
      (next (next here (is_cancelled stops refl)) (ends_reading unread refl refl))
