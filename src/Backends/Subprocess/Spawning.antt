-- ===== src/Backends/Subprocess/Spawning.antt =====
-- `_spawn_process` of stdiobus/backends/subprocess.py: the command line, and how the configuration and
-- the descriptors of its pipe are handled.
use stdiobus_python.Base.{
  ℕ, zero, suc, String, Bool, Option, none, some, List, [], ◌∷◌, ◌++◌, length, ◌==◌, string-Eq,
  nat-Eq, if◌then◌else◌,
}
use stdiobus_python.Errors.{Exception, sdk, transport_class, raise_new}
use stdiobus_python.Types.Options.{SubprocessOptions}
use stdiobus_python.Client.Resolve.{Machine, resolve_binary}
use stdiobus_python.Backends.Subprocess.{
  Subprocess, Spawn, spawn_raises, exits_early, alive, start, is_created, not_started,
}

-- What `Popen` is called with, the environment aside.
pub record Command : Type 0 where
  pub binary : String
  pub args : List String
  pub pass_fds : List ℕ

-- What the operating system answers: `tempfile.mkstemp`, `os.pipe` (the end to read and the end to
-- write), what `Popen` raises, and how many bytes `os.write` takes of so many in a round of the loop,
-- `none` for `BrokenPipeError`. Beside them, `str.encode` and `str` of a number.
pub record Os : Type 0 where
  pub temp : ℕ × String
  pub pipe : ℕ × ℕ
  pub popen : Command → Option Exception
  pub takes : ℕ → ℕ → Option ℕ
  pub utf8 : String → List ℕ
  pub decimal : ℕ → String

-- The parent process: the descriptors that it holds, the bytes that it has put into the pipe, the
-- temporary file with its contents, and the command that was spawned.
pub record Parent : Type 0 where
  pub descriptors : List ℕ
  pub piped : List ℕ
  pub temp_file : Option (String × List ℕ)
  pub spawned : Option Command

-- os.close(fd)
unfoldable pub close_fd : ℕ → List ℕ → List ℕ
close_fd fd [] = []
close_fd fd (x ∷ l) = let rest = close_fd fd l in if fd == x then l else x ∷ rest

-- data[:n] and data[n:]
abbrev pub take : ℕ → List ℕ → List ℕ
take zero l = []
take (suc n) [] = []
take (suc n) (x ∷ l) = x ∷ take n l

abbrev pub drop : ℕ → List ℕ → List ℕ
drop zero l = l
drop (suc n) [] = []
drop (suc n) (x ∷ l) = drop n l

-- How the loop that writes the configuration ends. It would go on where the fuel is used up.
pub data Written : Type 0 where
  whole broken_pipe unfinished : Written

abbrev pub prepend : List ℕ → List ℕ × Written → List ℕ × Written
prepend l (m, w) = (l ++ m, w)

module _ (os : Os) where
  -- while offset < len(data): written = os.write(config_write_fd, data[offset:]); offset += written
  unfoldable pub write_loop : (fuel round : ℕ) → List ℕ → List ℕ × Written
  write_loop n i [] = ([], whole)
  write_loop zero i (x ∷ l) = ([], unfinished)
  write_loop (suc n) i (x ∷ l) = elim (os.takes i (length (x ∷ l))) [
    | none ↦ ([], broken_pipe)
    | some k ↦ prepend (take k (x ∷ l)) (write_loop n (suc i) (drop k (x ∷ l)))
  ]

  abbrev pub popen : Parent → Command → Parent × Option Exception
  popen p c = elim (os.popen c) [
    | none ↦ (record p { spawned = some c }, none)
    | some e ↦ (p, some e)
  ]

  -- After `Popen`: the loop and the close where it returned; where it raised, that exception goes on.
  unfoldable pub deliver : ℕ → String → Parent × Option Exception → Parent × Option Exception
  unfolding write_loop close_fd
  deliver fd json (p, some e) = (p, some e)
  deliver fd json (p, none) =
      let bytes = os.utf8 json in
      (
        record p {
          piped = p.piped ++ (write_loop (length bytes) 0 bytes).0;
          descriptors = close_fd fd p.descriptors;
        },
        none,
      )

  abbrev pub close_read : Parent × Option Exception → Parent × Option Exception
  close_read (p, e) = (record p { descriptors = close_fd os.pipe.0 p.descriptors }, e)

  -- config_json on Unix
  unfoldable pub spawn_piped : Parent → String → String → Parent × Option Exception
  unfolding deliver
  spawn_piped p binary json =
      let c : Command = record {
        binary = binary;
        args = "--config-fd" ∷ os.decimal os.pipe.0 ∷ "--stdio" ∷ [];
        pass_fds = os.pipe.0 ∷ [];
      } in
      let p' : Parent = record p { descriptors = os.pipe.0 ∷ os.pipe.1 ∷ p.descriptors } in
      deliver os.pipe.1 json (close_read (popen p' c))

  -- `--config` with a path, which on Windows is that of the temporary file.
  unfoldable pub spawn_config : Parent → String → String → Parent × Option Exception
  spawn_config p binary path =
      popen p (record { binary = binary; args = "--config" ∷ path ∷ "--stdio" ∷ []; pass_fds = [] })

  -- The file is closed again, so that its descriptor does not stay.
  unfoldable pub spawn_temp : Parent → String → String → Parent × Option Exception
  unfolding spawn_config
  spawn_temp p binary json =
      spawn_config (record p { temp_file = some (os.temp.1, os.utf8 json) }) binary os.temp.1

  abbrev pub no_binary : Exception
  no_binary = sdk (
      raise_new transport_class
        "stdio_bus binary not found. Checked bundled kernel/dist/stdio_bus and system PATH. Install the complete sdist or set SubprocessOptions(binary_path='/path/to/stdio_bus') explicitly.")

  abbrev pub no_config : Exception
  no_config = sdk (raise_new transport_class "No config source provided")

  unfoldable pub spawn_process :
      Machine
      → (config_path config_json : Option String) → SubprocessOptions
      → Parent
      → Parent × Option Exception
  unfolding spawn_piped spawn_temp spawn_config
  spawn_process m path json o p = elim (resolve_binary m o.binary_path) [
    | none ↦ (p, some no_binary)
    | some binary ↦ elim json [
      | some j ↦ if m.system == "windows" then spawn_temp p binary j else spawn_piped p binary j
      | none ↦ elim path [ none ↦ (p, some no_config) | some q ↦ spawn_config p binary q ]
    ]
  ]

  -- How the `try` of `start` goes, where `exited` tells whether the process has gone by the end of the
  -- grace period.
  abbrev pub spawn_outcome : Option Exception → (exited : Bool) → Spawn
  spawn_outcome (some e) exited = spawn_raises e
  spawn_outcome none exited = if exited then exits_early else alive

  -- `start` whole.
  unfoldable pub start_process :
      Machine
      → (config_path config_json : Option String) → SubprocessOptions
      → (exited : Bool) → Subprocess
      → Parent
      → Subprocess × Parent × Option Exception
  unfolding spawn_process
  start_process m path json o exited b p =
      if is_created b.state
      then (let (p', raised) = spawn_process m path json o p in
          let (b', e) = start b (spawn_outcome raised exited) in (b', p', e))
      else (b, p, some not_started)
