-- ===== src/Backends/Docker/Engine.antt =====
-- The calls of the container engine in stdiobus/backends/docker.py: the check, the image, the container,
-- and the wait until it answers.
use stdiobus_python.Base.{
  ℕ, zero, suc, ◌+◌, String, ◌<>◌, Bool, Option, none, some, List, [], ◌∷◌, ◌++◌, ◌==◌, string-Eq,
  nat-Eq, ltb, if◌then◌else◌,
}
use stdiobus_python.Base.Dict.{Dict}
use stdiobus_python.Errors.{Exception, sdk, transport_class, unavailable_class, raise_new}
use stdiobus_python.Types.Options.{DockerOptions}
use stdiobus_python.Backends.Text.{Text}
use stdiobus_python.Backends.Subprocess.{is_created}
use stdiobus_python.Backends.Docker.{
  Docker, Launch, launch_raises, never_ready, connects, start, already_started, is_space,
}

-- What a command leaves: its return code, its output as decoded text, and its decoded errors.
pub record Answer : Type 0 where
  pub code : ℕ
  pub out : Text
  pub err : String

-- The machine: whether `shutil.which` finds a command, what a command answers after the earlier ones, and
-- a port that is free. Beside them, `str` of a number.
pub record Engine : Type 0 where
  pub which : String → Bool
  pub answer : List (List String) → List String → Answer
  pub free_port : ℕ
  pub pid : ℕ
  pub decimal : ℕ → String

-- The commands so far, the last one at the end.
abbrev pub Log : Type 0
Log = List (List String)

abbrev pub no_engine : Exception
no_engine = sdk (
    raise_new unavailable_class
      "Docker is not available. Please install Docker Desktop or ensure docker CLI is in PATH. Download: https://www.docker.com/products/docker-desktop")

abbrev pub failed : String → Exception
failed s = sdk (raise_new transport_class s)

-- str.strip, and [:12]
unfoldable pub skip_spaces : Text → Text
skip_spaces [] = []
skip_spaces (c ∷ l) = if is_space c then skip_spaces l else c ∷ l

unfoldable pub drop_spaces : Text → Text
drop_spaces [] = []
drop_spaces (c ∷ l) = elim (drop_spaces l) [
  | [] ↦ if is_space c then [] else c ∷ []
  | x ∷ xs ↦ c ∷ x ∷ xs
]

abbrev strip : Text → Text
strip t = drop_spaces (skip_spaces t)

unfoldable pub prefix : ℕ → Text → Text
prefix zero l = []
prefix (suc n) [] = []
prefix (suc n) (x ∷ l) = x ∷ prefix n l

-- The identifier of the container, or what is raised.
pub data Container : Type 0 where
  container : Text → Container
  container_raises : Exception → Container

module _ (e : Engine) (o : DockerOptions) where
  abbrev pub succeeds : Log → List String → Bool
  succeeds log c = (e.answer log c).code == 0

  -- `_check_docker`, in the constructor
  unfoldable pub check_docker : Log → Log × Option Exception
  check_docker log =
      let c = o.engine_path ∷ "--version" ∷ [] in
      if e.which o.engine_path
      then (if succeeds log c then (log ++ c ∷ [], none) else (
        log ++ c ∷ [],
        some (sdk (raise_new unavailable_class ("Docker check failed: " <> (e.answer log c).err))),
      ))
      else (log, some no_engine)

  -- The checks of the constructor, once it has the absolute path.
  unfoldable pub construct : (exists : Bool) → (config_path : String) → Log → Log × Option Exception
  unfolding check_docker
  construct exists path log =
      if exists then check_docker log else (log, some (failed ("Config file not found: " <> path)))

  abbrev pub pull_command : List String
  pull_command = o.engine_path ∷ "pull" ∷ o.image ∷ []

  abbrev pub inspect_command : List String
  inspect_command = o.engine_path ∷ "image" ∷ "inspect" ∷ o.image ∷ []

  unfoldable pub pull : Log → Log × Option Exception
  pull log = (
    log ++ pull_command ∷ [],
    (if succeeds log pull_command
        then none
        else some (failed ("Failed to pull Docker image: " <> o.image))),
  )

  unfoldable pub pull_image : Log → Log × Option Exception
  unfolding pull
  pull_image log =
      if o.pull_policy == "never"
      then (log, none)
      else if o.pull_policy == "if-missing"
      then (if succeeds log inspect_command
          then (log ++ inspect_command ∷ [], none)
          else pull (log ++ inspect_command ∷ []))
      else pull log

  unfoldable pub env_args : Dict String → List String
  env_args [] = []
  env_args ((k, v) ∷ d) = "-e" ∷ (k <> ("=" <> v)) ∷ env_args d

  abbrev pub container_port : ℕ
  container_port = 8765

  unfoldable pub run_command : (config_path : String) → List String
  unfolding env_args
  run_command path =
      (o.engine_path
        ∷ "run"
        ∷ "--rm"
        ∷ "-d"
        ∷ "--name"
        ∷ (o.container_name_prefix <> ("-" <> e.decimal e.pid))
        ∷ "-p"
        ∷ ("127.0.0.1:" <> (e.decimal e.free_port <> (":" <> e.decimal container_port)))
        ∷ "-v"
        ∷ (path <> ":/app/config.json:ro")
        ∷ [])
      ++ env_args o.env
      ++ o.extra_args
      ++ (o.image
          ∷ "--config"
          ∷ "/app/config.json"
          ∷ "--tcp"
          ∷ ("0.0.0.0:" <> e.decimal container_port)
          ∷ [])

  unfoldable pub start_container : Log → (config_path : String) → Log × Container
  unfolding run_command skip_spaces drop_spaces prefix
  start_container log path =
      let c = run_command path in
      (
        log ++ c ∷ [],
        (if succeeds log c
            then container (prefix 12 (strip (e.answer log c).out))
            else container_raises (failed ("Failed to start container: " <> (e.answer log c).err))),
      )

-- How `_wait_for_ready` ends. It would go on where the fuel is used up.
pub data Ready : Type 0 where
  ready timed_out unfinished : Ready

-- The rounds of the loop: the clock at the test of each, in milliseconds, and whether the connection is
-- made in it.
pub record Rounds : Type 0 where
  pub time : ℕ → ℕ
  pub accepts : ℕ → Bool

unfoldable pub wait_for_ready : Rounds → (timeout start fuel round : ℕ) → Ready
wait_for_ready r timeout start zero i = unfinished
wait_for_ready r timeout start (suc n) i =
    let rest = wait_for_ready r timeout start n (suc i) in
    if ltb (r.time i) (start + timeout) then (if r.accepts i then ready else rest) else timed_out

-- The `try` of `start`. The time-out is in milliseconds, and `shown` is its text in seconds.
module _ (e : Engine) (o : DockerOptions) (r : Rounds) (config_path shown : String)
    (timeout began : ℕ) where
  abbrev pub not_ready : Exception
  not_ready = failed ("Container failed to become ready within " <> (shown <> "s"))

  unfoldable pub connect : Log × Container → Log × Launch
  unfolding wait_for_ready
  connect (log, container_raises x) = (log, launch_raises x)
  connect (log, container id) = elim (wait_for_ready r timeout began (suc timeout) 0) [
    | ready ↦ (log, connects)
    | _ ↦ (log, never_ready not_ready)
  ]

  unfoldable pub launch_container : Log × Option Exception → Log × Launch
  unfolding connect start_container
  launch_container (log, some x) = (log, launch_raises x)
  launch_container (log, none) = connect (start_container e o log config_path)

  abbrev pub finish : Docker → Log × Launch → Docker × Log × Option Exception
  finish b (log, l) = (let (b', x) = start b l in (b', log, x))

  -- `start` whole.
  unfoldable pub start_docker : Docker → Log → Docker × Log × Option Exception
  unfolding launch_container pull_image
  start_docker b log =
      if is_created b.state
      then finish b (launch_container (pull_image e o log))
      else (b, log, some already_started)
