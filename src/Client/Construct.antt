-- ===== src/Client/Construct.antt =====
-- The constructor of `AsyncStdioBus` in stdiobus/client.py up to the choice of the backend, and the
-- builder `StdioBusBuilder`, which gathers its keywords.
use stdiobus_python.Base.{String, Bool, false, not, Option, none, some, is_empty, if◌then◌else◌}
use stdiobus_python.Base.Int.{ℤ, pos}
use stdiobus_python.Json.{obj}
use stdiobus_python.Types.Enums.{BackendMode, auto, backend_mode}
use stdiobus_python.Types.Config
use stdiobus_python.Types.Config.{BusConfig, ConfigError, config_dict}
use stdiobus_python.Types.Options
use stdiobus_python.Types.Options.{NativeOptions, NativeError, SubprocessOptions, DockerOptions}
use stdiobus_python.Client.State.{Runtime}
use stdiobus_python.Client.Resolve.{Machine, Chosen, resolve_backend}

-- `BackendMode | str`
pub data Mode : Type 0 where
  of_mode : BackendMode → Mode
  of_text : String → Mode

pub record Arguments : Type 0 where
  pub config : Option BusConfig
  pub config_path : Option String
  pub backend : Mode
  pub timeout_ms : ℤ
  pub docker : Option DockerOptions
  pub subprocess : Option SubprocessOptions
  pub native : Option NativeOptions

-- What the constructor raises of its own: the first two and `bad_native` are `InvalidArgumentError`s,
-- the others pass a `ValueError` on.
pub data Invalid : Type 0 where
  config_and_path no_config : Invalid
  bad_mode : String → Invalid
  bad_native : NativeError → Invalid
  bad_config : ConfigError → Invalid

pub data Constructed : Type 0 where
  invalid : Invalid → Constructed
  constructed : Chosen → (timeout_ms : ℤ) → Constructed

abbrev pub read_mode : Mode → Option BackendMode
read_mode (of_mode m) = some m
read_mode (of_text s) = backend_mode s

abbrev pub mode_text : Mode → String
mode_text (of_mode m) = ""
mode_text (of_text s) = s

abbrev pub check_native : Option NativeOptions → Option NativeError
check_native none = none
check_native (some o) = Options.validate o

-- bool(config_path)
abbrev pub has_path : Option String → Bool
has_path none = false
has_path (some s) = not (is_empty s)

module _ (rt : Runtime) (m : Machine) where
  -- With the mode read and the native options checked.
  unfoldable pub construct_checked : Arguments → BackendMode → Constructed
  construct_checked a mode = elim a.config [
    | none ↦
        constructed (resolve_backend m a.config_path none mode a.docker a.subprocess a.native)
          a.timeout_ms
    | some c ↦ elim (Config.validate c) [
      | some e ↦ invalid (bad_config e)
      | none ↦
          constructed
            (resolve_backend m none (some (rt.dumps (obj (config_dict c)))) mode a.docker
              a.subprocess a.native)
            a.timeout_ms
    ]
  ]

  unfoldable pub construct_mode : Arguments → Constructed
  unfolding construct_checked
  construct_mode a = elim (read_mode a.backend) [
    | none ↦ invalid (bad_mode (mode_text a.backend))
    | some mode ↦ elim (check_native a.native) [
      | some e ↦ invalid (bad_native e)
      | none ↦ construct_checked a mode
    ]
  ]

  unfoldable pub construct : Arguments → Constructed
  unfolding construct_mode
  construct a = elim a.config [
    | none ↦ if has_path a.config_path then construct_mode a else invalid no_config
    | some c ↦ if has_path a.config_path then invalid config_and_path else construct_mode a
  ]

-- The builder's map of keywords: a keyword that is not there takes the constructor's default.
pub record Keywords : Type 0 where
  pub config : Option BusConfig
  pub config_path : Option String
  pub backend : Option Mode
  pub timeout_ms : Option ℤ
  pub docker : Option DockerOptions
  pub subprocess : Option SubprocessOptions
  pub native : Option NativeOptions

-- `StdioBusBuilder()`
unfoldable pub no_keywords : Keywords
no_keywords = record {
  config = none;
  config_path = none;
  backend = none;
  timeout_ms = none;
  docker = none;
  subprocess = none;
  native = none;
}

-- One call of a setter.
pub data Setter : Type 0 where
  set_config : BusConfig → Setter
  set_config_path : String → Setter
  set_backend : Mode → Setter
  set_timeout_ms : ℤ → Setter
  set_docker : DockerOptions → Setter
  set_subprocess : SubprocessOptions → Setter
  set_native : NativeOptions → Setter

unfoldable pub apply_setter : Keywords → Setter → Keywords
apply_setter k (set_config c) = record k { config = some c }
apply_setter k (set_config_path p) = record k { config_path = some p }
apply_setter k (set_backend b) = record k { backend = some b }
apply_setter k (set_timeout_ms t) = record k { timeout_ms = some t }
apply_setter k (set_docker d) = record k { docker = some d }
apply_setter k (set_subprocess s) = record k { subprocess = some s }
apply_setter k (set_native n) = record k { native = some n }

abbrev or_mode : Option Mode → Mode
or_mode none = of_mode auto
or_mode (some b) = b

abbrev or_timeout : Option ℤ → ℤ
or_timeout none = pos 30000
or_timeout (some t) = t

-- AsyncStdioBus(**kwargs)
unfoldable pub arguments : Keywords → Arguments
arguments k = record {
  config = k.config;
  config_path = k.config_path;
  backend = or_mode k.backend;
  timeout_ms = or_timeout k.timeout_ms;
  docker = k.docker;
  subprocess = k.subprocess;
  native = k.native;
}

unfoldable pub build : Runtime → Machine → Keywords → Constructed
unfolding construct arguments
build rt m k = construct rt m (arguments k)
