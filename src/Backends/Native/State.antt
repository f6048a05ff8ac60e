-- ===== src/Backends/Native/State.antt =====
-- The object of `NativeBackend` in stdiobus/backends/native.py, and its callbacks. The C library is a parameter: a record of its calls,
-- over a type `H` of what a live handle stands for. Texts are lists of code points, as they are encoded.
use stdiobus_python.Base.{
  ℕ, ◌+◌, String, Bool, true, false, ◌&&◌, Option, none, some, List, [], ◌∷◌, ◌++◌, ◌==◌, nat-Eq,
  string-Eq, is_empty, if◌then◌else◌,
}
use stdiobus_python.Base.Int.{ℤ}
use stdiobus_python.Types.Enums.{BusStats}
use stdiobus_python.Backends.Utf8.{decode}
use stdiobus_python.Backends.Text.{Text, Handled, handled_all}

-- `options.listener`, by `STDIO_BUS_LISTEN_TCP`, `_UNIX` and `_NONE`.
pub data Listener : Type 0 where
  listen_none : Listener
  listen_tcp : String → ℤ → Listener
  listen_unix : String → Listener

-- `options.config_path` or `options.config_json`; the other one is NULL.
pub data Source : Type 0 where
  from_path from_json : String → Source

-- What `stdio_bus_step` calls back: a message's bytes, or the event of a worker.
pub data Callback : Type 0 where
  message : List ℕ → Callback
  worker_event : List ℕ → Callback

-- The calls of the library. A code 0 is `STDIO_BUS_OK`; the states are 0 to 4.
pub record Library (H : Type 0) : Type 0 where
  pub create : Source → Listener → Option H
  pub start : H → H × ℤ
  pub get_poll_fd : H → ℤ
  pub step : H → ℕ → H × List Callback
  pub stop : H → ℕ → H × ℤ
  pub get_state : H → ℕ
  pub ingest : H → List ℕ → H × ℤ
  pub get_stats : H → BusStats
  pub worker_count : H → ℤ
  pub client_count : H → ℤ

-- A call that was made, with its thread. `creates` and `launches` tell how the call went; the others are
-- `uses`.
pub data LibraryCall : Type 0 where
  creates : ℕ → Bool → LibraryCall
  launches : ℕ → Bool → LibraryCall
  uses : ℕ → LibraryCall
  destroys : ℕ → LibraryCall

-- `self._bus`: `None`, `ffi.NULL`, or a handle.
pub data Pointer (H : Type 0) : Type 0 where
  absent : Pointer H
  null : Pointer H
  live : H → Pointer H

-- The object; and, of the loop that it uses, `reader`, the file descriptor with a reader of this object,
-- `timers`, the timers that will call it, and `soon`, its callbacks that wait for the next turn.
-- `log` has the library's calls, the newest first; a handler's calls are in `calls`.
pub record Native (H : Type 0) : Type 0 where
  pub config_path : Option String
  pub config_json : Option String
  pub listen_mode : String
  pub tcp_host : String
  pub tcp_port : ℤ
  pub unix_path : String
  pub bus : Pointer H
  pub message_handlers : List ℕ
  pub stats : BusStats
  pub loop : Option ℕ
  pub poll_fd : Option ℕ
  pub has_timer : Bool
  pub thread : Option ℕ
  pub is_stopping : Bool
  pub is_stepping : Bool
  pub strings : List String
  pub reader : Option ℕ
  pub timers : ℕ
  pub soon : ℕ
  pub calls : List Handled
  pub log : List LibraryCall

-- ffi.string(msg, length): the bytes before the first NUL
unfoldable pub c_string : List ℕ → List ℕ
c_string [] = []
c_string (c ∷ l) = let rest = c_string l in if c == 0 then [] else c ∷ rest

-- "restarting"
abbrev pub restarting : Text
restarting = 114 ∷ 101 ∷ 115 ∷ 116 ∷ 97 ∷ 114 ∷ 116 ∷ 105 ∷ 110 ∷ 103 ∷ []

unfoldable pub same_text : Text → Text → Bool
same_text [] [] = true
same_text (c ∷ l) (d ∷ k) = c == d && same_text l k
same_text _ _ = false

-- Of an optional text, the source that it is, unless it is `None` or empty.
abbrev pub path_source : Option String → Option Source
path_source none = none
path_source (some s) = if is_empty s then none else some (from_path s)

abbrev pub json_source : Option String → Option Source
json_source none = none
json_source (some s) = if is_empty s then none else some (from_json s)

module _ {H : Type 0} where
  -- `on_message` and `on_worker`. A text that does not decode is reported and dropped.
  unfoldable pub call_back : Native H → Callback → Native H
  call_back b (message m) = elim (decode (c_string m)) [
    | none ↦ b
    | some t ↦ record b {
      stats = record b.stats { messages_out = b.stats.messages_out + 1 };
      calls = b.calls ++ handled_all b.message_handlers t;
    }
  ]
  call_back b (worker_event m) = elim (decode (c_string m)) [
    | none ↦ b
    | some t ↦
        if same_text t restarting
        then record b { stats = record b.stats { worker_restarts = b.stats.worker_restarts + 1 } }
        else b
  ]

  unfoldable pub call_back_all : Native H → List Callback → Native H
  call_back_all b [] = b
  call_back_all b (c ∷ cs) = call_back_all (call_back b c) cs

  abbrev pub logs : Native H → LibraryCall → Native H
  logs b c = record b { log = c ∷ b.log }

  abbrev pub keeps_string : Native H → String → Native H
  keeps_string b s = record b { strings = b.strings ++ s ∷ [] }

  -- The configuration's path, or else its text.
  unfoldable pub source : Native H → Option Source
  source b = elim (path_source b.config_path) [ some s ↦ some s | none ↦ json_source b.config_json ]

  unfoldable pub listener : Native H → Listener
  listener b =
      if b.listen_mode == "tcp"
      then listen_tcp b.tcp_host b.tcp_port
      else if b.listen_mode == "unix"
      then listen_unix b.unix_path
      else listen_none
