-- ===== src/Backends/Tests/Echoes.antt =====
-- A message of stdiobus/backends/native.py that comes back, at a concrete input.
use stdiobus_python.Base.{◌+◌, ℕ, ◌≡◌, refl, arith, false, true, none, some, [], ◌∷◌, length}
use stdiobus_python.Base.Int.{pos}
use stdiobus_python.Types.Enums.{no_stats}
use stdiobus_python.Client.Bus.{returned}
use stdiobus_python.Backends.Utf8.{encode}
use stdiobus_python.Backends.Native.State.{Library, Native, live, message, call_back}
use stdiobus_python.Backends.Native.Operations.{send, on_loop_thread}
use stdiobus_python.Backends.Native.Echo.{echoed}

abbrev mute : Library ℕ
mute = record {
  create = λ s l. some 0;
  start = λ h. (h, pos 0);
  get_poll_fd = λ h. pos 5;
  step = λ h t. (h, []);
  stop = λ h t. (h, pos 0);
  get_state = λ h. 2;
  ingest = λ h m. (h + length m, pos 0);
  get_stats = λ h. no_stats;
  worker_count = λ h. pos 1;
  client_count = λ h. pos 0;
}

abbrev started : Native ℕ
started = record {
  config_path = some "c.json";
  config_json = none;
  listen_mode = "none";
  tcp_host = "127.0.0.1";
  tcp_port = pos 0;
  unix_path = "";
  bus = live 0;
  message_handlers = 7 ∷ [];
  stats = no_stats;
  loop = some 1;
  poll_fd = some 5;
  has_timer = false;
  thread = some 1;
  is_stopping = false;
  is_stepping = false;
  strings = [];
  reader = some 5;
  timers = 0;
  soon = 0;
  calls = [];
  log = [];
}

-- "é", NUL and "a": all of it is handed over, and "é" comes back.
echoed_example :
    ((send mute started 1 (233 ∷ 0 ∷ 97 ∷ [])).1 ≡ returned true)
    × ((send mute started 1 (233 ∷ 0 ∷ 97 ∷ [])).0.bus ≡ live 4)
    × ((call_back
          (send mute started 1 (233 ∷ 0 ∷ 97 ∷ [])).0
          (message (0xc3 ∷ 0xa9 ∷ 0 ∷ 97 ∷ []))).calls
        ≡ (record { handler = 7; line = 233 ∷ [] }) ∷ [])
unfolding encode on_loop_thread
echoed_example =
    echoed mute started 0 1 (233 ∷ 0 ∷ 97 ∷ []) (0xc3 ∷ 0xa9 ∷ 0 ∷ 97 ∷ []) refl refl refl
      (omega arith, (omega arith, (omega arith, tt))) refl
