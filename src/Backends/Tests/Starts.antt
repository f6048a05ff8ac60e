-- ===== src/Backends/Tests/Starts.antt =====
-- Starts of a process and of a container of stdiobus/backends at concrete inputs.
use stdiobus_python.Base.{
  ◌+◌, ◌≡◌, refl, arith, ◌<>◌, string-Eq, nat-Eq, leb, none, some, [], ◌∷◌, true, false,
}
use stdiobus_python.Types.Options.{SubprocessOptions, DockerOptions}
use stdiobus_python.Client.Resolve.{Machine, resolve_binary}
use stdiobus_python.Backends.Subprocess.Spawning.{Os, Parent, spawn_process}
use stdiobus_python.Backends.Subprocess.Delivery.{IsReading, config_piped}
use stdiobus_python.Backends.Docker.Engine.{Engine, Rounds, wait_for_ready, pull_image, failed}
use stdiobus_python.Backends.Docker.Readiness.{IsTicking, Ends, wait_for_ready_ends}

-- A pipe that takes one byte at a time.
abbrev os : Os
os = record {
  temp = (9, "/tmp/config.json");
  pipe = (3, 4);
  popen = λ c. none;
  takes = λ i n. some 1;
  utf8 = λ s. 123 ∷ 125 ∷ [];
  decimal = λ n. "3";
}

os-IsReading : IsReading os
os-IsReading i n h = (1, refl, omega arith, h)

abbrev linux : Machine
linux = record {
  system = "linux";
  bundled_is_file = true;
  bundled_path = "/opt/stdio_bus";
  which = none;
  native_available = false;
}

abbrev options : SubprocessOptions
options = record { binary_path = ""; stderr_buffer_lines = 200 }

abbrev parent : Parent
parent = record { descriptors = 0 ∷ 1 ∷ 2 ∷ []; piped = []; temp_file = none; spawned = none }

resolved : resolve_binary linux options.binary_path ≡ some "/opt/stdio_bus"
unfolding resolve_binary
resolved = refl

config_piped_example :
    let r = spawn_process os linux none (some "{}") options parent in
    (r.1 ≡ none)
    × (r.0.spawned
        ≡ some (record {
          binary = "/opt/stdio_bus";
          args = "--config-fd" ∷ "3" ∷ "--stdio" ∷ [];
          pass_fds = 3 ∷ [];
        }))
    × (r.0.piped ≡ 123 ∷ 125 ∷ [])
    × (r.0.descriptors ≡ 0 ∷ 1 ∷ 2 ∷ [])
config_piped_example =
    config_piped os linux none "{}" options parent "/opt/stdio_bus" refl resolved refl os-IsReading

-- A container that answers in its third round.
abbrev slow : Rounds
slow = record { time = λ i. i; accepts = λ i. leb 2 i }

slow-IsTicking : IsTicking slow
slow-IsTicking i e = omega arith

wait_for_ready_ends_example : Ends slow (0 + 5) 0 (wait_for_ready slow 5 0 6 0)
wait_for_ready_ends_example = wait_for_ready_ends slow 5 0 slow-IsTicking (omega arith)

-- An engine that refuses every command.
abbrev engine : Engine
engine = record {
  which = λ s. true;
  answer = λ log c. record { code = 1; out = []; err = "no" };
  free_port = 5000;
  pid = 42;
  decimal = λ n. "5000";
}

abbrev docker : DockerOptions
docker = record {
  image = "bus";
  pull_policy = "always";
  engine_path = "docker";
  container_name_prefix = "stdiobus";
  extra_args = [];
  env = [];
}

pull_refused :
    (pull_image engine docker []).1 ≡ some (failed ("Failed to pull Docker image: " <> "bus"))
unfolding pull_image
pull_refused = refl
