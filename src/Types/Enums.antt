-- ===== src/Types/Enums.antt =====
-- The enumerations of stdiobus/types.py, with their values and the calls that look a value up.
use stdiobus_python.Base.{
  ℕ, String, ◌≡◌, refl, Bool, true, false, Option, none, some, ◌==◌, string-Eq, if◌then◌else◌,
}

pub data BusState : Type 0 where
  created starting running stopping stopped : BusState

abbrev pub is_running_state : BusState → Bool
is_running_state running = true
is_running_state _ = false

pub data BackendMode : Type 0 where
  auto native docker subprocess : BackendMode

unfoldable pub backend_mode_value : BackendMode → String
backend_mode_value auto = "auto"
backend_mode_value native = "native"
backend_mode_value docker = "docker"
backend_mode_value subprocess = "subprocess"

-- `BackendMode(text)`, with `none` for its `ValueError`.
unfoldable pub backend_mode : String → Option BackendMode
backend_mode s =
    if s == "auto"
    then some auto
    else if s == "native"
    then some native
    else if s == "docker"
    then some docker
    else if s == "subprocess"
    then some subprocess
    else none

-- Of type `ListenMode`; the constructor `none` is `NONE`.
pub data ListenMode : Type 0 where
  no_listener tcp unix : ListenMode

unfoldable pub listen_mode_value : ListenMode → String
listen_mode_value no_listener = "none"
listen_mode_value tcp = "tcp"
listen_mode_value unix = "unix"

-- `ListenMode(text)`, with `none` for its `ValueError`.
unfoldable pub listen_mode : String → Option ListenMode
listen_mode s =
    if s == "none"
    then some no_listener
    else if s == "tcp"
    then some tcp
    else if s == "unix"
    then some unix
    else none

pub backend_mode-value : (m : BackendMode) → backend_mode (backend_mode_value m) ≡ some m
unfolding backend_mode backend_mode_value
backend_mode-value auto = refl
backend_mode-value _ = refl

pub listen_mode-value : (m : ListenMode) → listen_mode (listen_mode_value m) ≡ some m
unfolding listen_mode listen_mode_value
listen_mode-value tcp = refl
listen_mode-value _ = refl

-- `BusStats` of stdiobus/types.py.
pub record BusStats : Type 0 where
  pub messages_in : ℕ
  pub messages_out : ℕ
  pub bytes_in : ℕ
  pub bytes_out : ℕ
  pub worker_restarts : ℕ
  pub routing_errors : ℕ
  pub client_connects : ℕ
  pub client_disconnects : ℕ

-- `BusStats()`
abbrev pub no_stats : BusStats
no_stats = record {
  messages_in = 0;
  messages_out = 0;
  bytes_in = 0;
  bytes_out = 0;
  worker_restarts = 0;
  routing_errors = 0;
  client_connects = 0;
  client_disconnects = 0;
}
