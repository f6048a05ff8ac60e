-- ===== src/Backends/Native/Starting.antt =====
-- `start` of `NativeBackend` in stdiobus/backends/native.py. `th` is the calling thread.
use stdiobus_python.Base.{
  ℕ, zero, suc, Bool, true, false, ◌||◌, not, Option, none, some, List, [], ◌∷◌, ◌++◌, nat-Eq,
  String, if◌then◌else◌,
}
use stdiobus_python.Base.Int.{ℤ, pos, negsuc}
use stdiobus_python.Errors.{Exception, sdk, invalid_state_class, transport_class, raise_new}
use stdiobus_python.Backends.Native.State.{
  Library, Native, absent, null, live, Source, from_path, from_json, Listener, listen_none,
  listen_tcp, listen_unix, creates, launches, uses, destroys, source, listener,
}

abbrev pub is_ok : ℤ → Bool
is_ok (pos zero) = true
is_ok _ = false

abbrev pub is_some {ℓ} : {A : Type ℓ} → Option A → Bool
is_some none = false
is_some (some a) = true

abbrev pub transport_error : String → Exception
transport_error s = sdk (raise_new transport_class s)

-- The C strings that the options hold.
abbrev source_strings : Source → List String
source_strings (from_path s) = s ∷ []
source_strings (from_json s) = s ∷ []

abbrev listener_strings : Listener → List String
listener_strings listen_none = []
listener_strings (listen_tcp host port) = host ∷ []
listener_strings (listen_unix path) = path ∷ []

module _ {H : Type 0} where
  unfoldable pub schedule_poll_timer : Native H → Native H
  schedule_poll_timer b =
      if b.is_stopping || not (is_some b.loop)
      then b
      else record b { has_timer = true; timers = suc b.timers }

  module _ (lib : Library H) where
    -- The end of `start`: the loop's reader for the library's file descriptor, or else the timer.
    unfoldable pub attach : Native H → H → (l th : ℕ) → (can_watch : Bool) → Native H
    unfolding schedule_poll_timer
    attach b h l th can_watch =
        let b' : Native H = record b {
          bus = live h;
          loop = some l;
          thread = some th;
          is_stopping = false;
          log = uses th ∷ b.log;
        } in
        elim (lib.get_poll_fd h) [
          | negsuc n ↦ schedule_poll_timer (record b' { poll_fd = none })
          | pos n ↦
              if can_watch
              then record b' { poll_fd = some n; reader = some n; has_timer = false }
              else schedule_poll_timer (record b' { poll_fd = none })
        ]

    -- The strings of the options stay for as long as the handle.
    abbrev pub keeps : Native H → Source → (th : ℕ) → Native H
    keeps b s th = record b {
      strings = b.strings ++ source_strings s ++ listener_strings (listener b);
      log = launches th true ∷ creates th true ∷ b.log;
    }

    -- From `stdio_bus_create` on.
    unfoldable pub launch : Native H → Source → (l th : ℕ) → Bool → Native H × Option Exception
    unfolding attach listener
    launch b s l th can_watch = elim (lib.create s (listener b)) [
      | none ↦ (
        record b { bus = null; strings = []; log = creates th false ∷ b.log },
        some (transport_error "Failed to create stdio_bus instance"),
      )
      | some h ↦
          let (h', r) = lib.start h in
          if is_ok r then (attach (keeps b s th) h' l th can_watch, none) else (
            record b {
              bus = absent;
              strings = [];
              log = destroys th ∷ launches th false ∷ creates th true ∷ b.log;
            },
            some (transport_error "Failed to start stdio_bus"),
          )
    ]

    -- `l` is the running loop, and `can_watch` tells whether it has `add_reader`.
    unfoldable pub start : Native H → (l th : ℕ) → (can_watch : Bool) → Native H × Option Exception
    unfolding launch source
    start b l th can_watch = elim b.bus [
      | absent ↦ elim (source b) [
        | none ↦ (b, some (transport_error "No config source provided"))
        | some s ↦ launch b s l th can_watch
      ]
      | _ ↦ (b, some (sdk (raise_new invalid_state_class "Backend already started")))
    ]
