-- ===== src/Backends/Tests/Natives.antt =====
-- Runs of stdiobus/backends/native.py over a library of numbers: a handle is its state, and a step of a
-- stopping library stops it.
use stdiobus_python.Base.{
  ℕ, ◌+◌, ◌≤◌, ◌*◌, ◌≡◌, false, refl, arith, ◌==◌, nat-Eq, none, some, List, [], ◌∷◌, length,
  if◌then◌else◌,
}
use stdiobus_python.Base.Int.{pos}
use stdiobus_python.Types.Enums.{no_stats, stopped}
use stdiobus_python.Backends.Native.State.{Library, Native, absent, live}
use stdiobus_python.Backends.Native.Operations.{stop}
use stdiobus_python.Backends.Native.Questions.{get_state}
use stdiobus_python.Backends.Native.Events.{
  adds_handler, tells_workers, Event, starts, stops, is_destroyed, sends, timer_fires, turn_comes,
  run,
}
use stdiobus_python.Backends.Native.Contract.{IsSound}
use stdiobus_python.Backends.Native.History.{history-IsSound}
use stdiobus_python.Backends.Native.Drain.{stop_drains, stop_gives_up}

abbrev toy : Library ℕ
toy = record {
  create = λ s l. some 0;
  start = λ h. (2, pos 0);
  get_poll_fd = λ h. pos 5;
  step = λ h t. (if h == 3 then 4 else h, []);
  stop = λ h t. (3, pos 0);
  get_state = λ h. h;
  ingest = λ h m. (h, pos 0);
  get_stats = λ h. no_stats;
  worker_count = λ h. pos 1;
  client_count = λ h. pos 0;
}

abbrev fresh : Native ℕ
fresh = record {
  config_path = some "c.json";
  config_json = none;
  listen_mode = "none";
  tcp_host = "127.0.0.1";
  tcp_port = pos 0;
  unix_path = "";
  bus = absent;
  message_handlers = [];
  stats = no_stats;
  loop = none;
  poll_fd = none;
  has_timer = false;
  thread = none;
  is_stopping = false;
  is_stepping = false;
  strings = [];
  reader = none;
  timers = 0;
  soon = 0;
  calls = [];
  log = [];
}

fresh-IsSound : IsSound 1 0 fresh
fresh-IsSound = ground arith

-- A start where the loop cannot watch a descriptor, a message from another thread, and the end.
abbrev life : List Event
life =
    adds_handler 7
    ∷ starts 0 1 false
    ∷ timer_fires 1
    ∷ sends 2 (97 ∷ [])
    ∷ turn_comes 1
    ∷ tells_workers 1
    ∷ stops 1 5
    ∷ is_destroyed 1
    ∷ []

history-IsSound_example : IsSound 1 0 (run toy fresh life)
history-IsSound_example =
    history-IsSound 1 toy fresh life (tt, (refl, (refl, (tt, (refl, (refl, (refl, (refl, tt))))))))
      fresh-IsSound

abbrev running : Native ℕ
running = record fresh { bus = live 2; thread = some 1; loop = some 0 }

stop_drains_example :
    ((get_state toy (stop toy running 1 5) 1).1 ≡ stopped)
    × (length (stop toy running 1 5).log ≤ 0 + 1 + 2 * 5)
stop_drains_example = stop_drains toy 1 running 2 5 1 refl (omega arith) refl

-- A library that never stops.
abbrev stuck : Library ℕ
stuck = record toy { get_state = λ h. 3; step = λ h t. (h + 1, []) }

stop_gives_up_example :
    ((stop stuck running 1 5).bus ≡ live 8) × (length (stop stuck running 1 5).log ≡ 0 + 1 + 2 * 5)
stop_gives_up_example = stop_gives_up stuck 1 running 2 5 refl (λ j k e. omega (arith, e))
