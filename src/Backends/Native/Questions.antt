-- ===== src/Backends/Native/Questions.antt =====
-- What `NativeBackend` tells of itself, in stdiobus/backends/native.py. `th` is the calling thread.
use stdiobus_python.Base.{ℕ, Option, ◌∷◌, ◌==◌, nat-Eq, if◌then◌else◌}
use stdiobus_python.Base.Int.{ℤ, pos}
use stdiobus_python.Types.Enums.{
  BusState, created, starting, running, stopping, stopped, BusStats, ListenMode, listen_mode,
}
use stdiobus_python.Backends.Native.State.{Library, Native, live, uses}

-- `state_map.get(state, BusState.STOPPED)`
abbrev pub state_of : ℕ → BusState
state_of n =
    if n == 0
    then created
    else if n == 1
    then starting
    else if n == 2
    then running
    else if n == 3
    then stopping
    else stopped

module _ {H : Type 0} where
  -- Questions to the library: the answer, or what there is without a handle.
  abbrev pub asks : {A : Type 0} → Native H → (th : ℕ) → (H → A) → A → Native H × A
  asks b th f d = elim b.bus [ live h ↦ (record b { log = uses th ∷ b.log }, f h) | _ ↦ (b, d) ]

  module _ (lib : Library H) where
    unfoldable pub get_state : Native H → (th : ℕ) → Native H × BusState
    get_state b th = asks b th (λ h. state_of (lib.get_state h)) stopped

    unfoldable pub get_stats : Native H → (th : ℕ) → Native H × BusStats
    get_stats b th = asks b th lib.get_stats b.stats

    unfoldable pub get_worker_count : Native H → (th : ℕ) → Native H × ℤ
    get_worker_count b th = asks b th lib.worker_count (pos 0)

    unfoldable pub get_client_count : Native H → (th : ℕ) → Native H × ℤ
    get_client_count b th = asks b th lib.client_count (pos 0)

  -- ListenMode(self._listen_mode)
  unfoldable pub get_listen_mode : Native H → Option ListenMode
  get_listen_mode b = listen_mode b.listen_mode
