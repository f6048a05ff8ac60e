-- ===== src/Client/Resolve.antt =====
-- The choice of a backend in stdiobus/client.py (`_resolve_backend` and the functions that it calls)
-- and stdiobus/_resolve_binary.py.
use stdiobus_python.Base.{
  String, Bool, true, false, Option, none, some, or_text, is_empty, ◌==◌, string-Eq, if◌then◌else◌,
}
use stdiobus_python.Base.Int.{ℤ, pos}
use stdiobus_python.Errors.{Exception, sdk, invalid_argument_class, raise_new}
use stdiobus_python.Types.Enums.{
  BackendMode, auto, native, docker, subprocess, no_listener, listen_mode_value,
}
use stdiobus_python.Types.Options.{NativeOptions, SubprocessOptions, DockerOptions}

-- What the machine answers: `platform.system().lower()`, whether the bundled launcher is a file, its
-- path, `shutil.which("stdio_bus")`, and whether the native bindings can be imported.
pub record Machine : Type 0 where
  pub system : String
  pub bundled_is_file : Bool
  pub bundled_path : String
  pub which : Option String
  pub native_available : Bool

unfoldable pub resolve_binary : Machine → String → Option String
resolve_binary m path =
    if is_empty path
    then (if m.bundled_is_file
        then some m.bundled_path
        else elim m.which [ none ↦ none | some p ↦ if is_empty p then none else some p ])
    else some path

unfoldable pub get_bundled_binary_path : Machine → Option String
get_bundled_binary_path m = if m.bundled_is_file then some m.bundled_path else none

-- The keywords of `NativeBackend(…)` that come from the options.
pub record NativeArguments : Type 0 where
  pub listen_mode : String
  pub tcp_host : String
  pub tcp_port : ℤ
  pub unix_path : String
  pub poll_interval_ms : ℤ

-- The backend that is constructed. The one for Docker is given a path: the caller's, or that of a
-- temporary file with the configuration's text, which `materialized` stands for.
pub data DockerConfig : Type 0 where
  given_path materialized : String → DockerConfig

pub data Chosen : Type 0 where
  native_backend : (config_path config_json : Option String) → NativeArguments → Chosen
  subprocess_backend : (config_path config_json : Option String) → Option SubprocessOptions → Chosen
  docker_backend : DockerConfig → Option DockerOptions → Chosen
  refused : Exception → Chosen

-- `NativeOptions()`
abbrev pub default_native : NativeOptions
default_native = record {
  mode = no_listener;
  tcp_host = "127.0.0.1";
  tcp_port = none;
  unix_path = none;
  poll_interval_ms = pos 1;
}

-- `SubprocessOptions()`
abbrev pub default_subprocess : SubprocessOptions
default_subprocess = record { binary_path = ""; stderr_buffer_lines = 200 }

abbrev native_or_default : Option NativeOptions → NativeOptions
native_or_default none = default_native
native_or_default (some o) = o

abbrev pub port_or_zero : Option ℤ → ℤ
port_or_zero none = pos 0
port_or_zero (some p) = p

unfoldable pub native_arguments : Option NativeOptions → NativeArguments
native_arguments n =
    let o = native_or_default n in
    record {
      listen_mode = listen_mode_value o.mode;
      tcp_host = o.tcp_host;
      tcp_port = port_or_zero o.tcp_port;
      unix_path = or_text o.unix_path "";
      poll_interval_ms = o.poll_interval_ms;
    }

abbrev pub binary_path : Option SubprocessOptions → String
binary_path none = default_subprocess.binary_path
binary_path (some o) = o.binary_path

-- native_options is not None and native_options.listen_mode != ListenMode.NONE
unfoldable pub listener_requested : Option NativeOptions → Bool
listener_requested none = false
listener_requested (some o) = elim o.mode [ no_listener ↦ false | _ ↦ true ]

abbrev pub bad_argument : String → Exception
bad_argument s = sdk (raise_new invalid_argument_class s)

abbrev no_docker_listener : Exception
no_docker_listener =
    bad_argument
      "listen_mode is a native-backend capability and is not supported with backend='docker'. Use backend='native'."

abbrev no_subprocess_listener : Exception
no_subprocess_listener =
    bad_argument
      "listen_mode is a native-backend capability and is not supported with backend='subprocess'. Use backend='native'."

abbrev no_native : Exception
no_native =
    bad_argument
      "Native backend not available: Native bindings not built. Use backend='subprocess' or backend='docker'."

module _ (m : Machine) (path json : Option String) where
  unfoldable pub create_native : Option NativeOptions → Chosen
  create_native o =
      if m.native_available
      then native_backend path json (native_arguments o)
      else refused no_native

  unfoldable pub create_docker : Option DockerOptions → Chosen
  create_docker o = elim path [
    | none ↦ docker_backend (materialized (or_text json "{}")) o
    | some p ↦
        if is_empty p
        then docker_backend (materialized (or_text json "{}")) o
        else docker_backend (given_path p) o
  ]

  -- The search of auto mode without a listener: the binary first, on every system; then, except on
  -- Windows, the native bindings; then Docker.
  unfoldable pub search_backends :
      Option DockerOptions → Option SubprocessOptions → Option NativeOptions → Chosen
  unfolding resolve_binary create_native create_docker
  search_backends d s n = elim (resolve_binary m (binary_path s)) [
    | some b ↦ subprocess_backend path json s
    | none ↦
        if m.system == "windows"
        then create_docker d
        else if m.native_available
        then create_native n
        else create_docker d
  ]

  unfoldable pub resolve_backend :
      BackendMode → Option DockerOptions → Option SubprocessOptions → Option NativeOptions → Chosen
  unfolding search_backends listener_requested
  resolve_backend docker d s n =
      if listener_requested n then refused no_docker_listener else create_docker d
  resolve_backend subprocess d s n =
      if listener_requested n
      then refused no_subprocess_listener
      else subprocess_backend path json s
  resolve_backend native d s n = create_native n
  resolve_backend auto d s n =
      if listener_requested n then create_native n else search_backends d s n
