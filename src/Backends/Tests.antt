-- ===== src/Backends/Tests.antt =====
-- Runs of stdiobus/backends at concrete inputs.
mod Echoes
mod Containers
mod Builds
mod Turns
mod Starts
mod Natives
use stdiobus_python.Base.{◌≡◌, refl, true, [], ◌∷◌}
use stdiobus_python.Types.Enums.{running, no_stats}
use stdiobus_python.Backends.Docker

abbrev container : Docker.Docker
container = record {
  state = running;
  has_writer = true;
  has_container = true;
  message_handlers = 7 ∷ [];
  stats = no_stats;
  calls = [];
}

-- "é", a newline and "a", cut inside "é": no handler is called, and what follows is not read.
cut_inside : (Docker.read_loop container [] ((0xc3 ∷ []) ∷ (0xa9 ∷ 10 ∷ 97 ∷ []) ∷ [])).0.calls ≡ []
unfolding Docker.read_loop
cut_inside = refl
