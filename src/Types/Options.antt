-- ===== src/Types/Options.antt =====
-- `NativeOptions`, `SubprocessOptions` and `DockerOptions` of stdiobus/types.py.
use stdiobus_python.Base.{ℕ, String, ◌&&◌, Option, none, some, List, is_empty, if◌then◌else◌}
use stdiobus_python.Base.Int.{ℤ, pos, leb_ℤ}
use stdiobus_python.Base.Dict.{Dict}
use stdiobus_python.Types.Enums.{ListenMode, no_listener, tcp, unix, listen_mode}

-- After `__post_init__`, so that the mode is a `ListenMode`.
pub record NativeOptions : Type 0 where
  pub mode : ListenMode
  pub tcp_host : String
  pub tcp_port : Option ℤ
  pub unix_path : Option String
  pub poll_interval_ms : ℤ

-- `NativeOptions(listen_mode=text, …)`: `__post_init__` coerces the text, and `none` is its
-- `ValueError`.
unfoldable pub post_init : String → NativeOptions → Option NativeOptions
post_init s o = elim (listen_mode s) [ none ↦ none | some m ↦ some (record o { mode = m }) ]

-- The `ValueError`s of `validate`.
pub data NativeError : Type 0 where
  tcp_requires_port unix_requires_path : NativeError
  port_out_of_range bad_poll_interval : ℤ → NativeError

unfoldable pub validate_port : Option ℤ → Option NativeError
validate_port none = some tcp_requires_port
validate_port (some p) =
    if leb_ℤ (pos 1) p && leb_ℤ p (pos 65535) then none else some (port_out_of_range p)

unfoldable pub validate_path : Option String → Option NativeError
validate_path none = some unix_requires_path
validate_path (some s) = if is_empty s then some unix_requires_path else none

unfoldable pub validate_listener : NativeOptions → Option NativeError
unfolding validate_port validate_path
validate_listener o = elim o.mode [
  | tcp ↦ validate_port o.tcp_port
  | unix ↦ validate_path o.unix_path
  | no_listener ↦ none
]

-- `none`: the options are accepted.
unfoldable pub validate : NativeOptions → Option NativeError
unfolding validate_listener
validate o = elim (validate_listener o) [
  | some e ↦ some e
  | none ↦
      if leb_ℤ (pos 1) o.poll_interval_ms then none else some (bad_poll_interval o.poll_interval_ms)
]

-- The part of `SubprocessOptions` that the code computes with.
pub record SubprocessOptions : Type 0 where
  pub binary_path : String
  pub stderr_buffer_lines : ℕ

pub record DockerOptions : Type 0 where
  pub image : String
  pub pull_policy : String
  pub engine_path : String
  pub container_name_prefix : String
  pub extra_args : List String
  pub env : Dict String
