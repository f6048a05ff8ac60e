-- ===== src/Client/Building.antt =====
-- What the constructor of stdiobus/client.py accepts, and what the order of the builder's setters means.
use stdiobus_python.Base.{
  ◌≡◌, Bool, true, false, not, Option, none, some, arith, Bool-cases, Option-cases, inl, inr,
}
use stdiobus_python.Base.Int.{ℤ}
use stdiobus_python.Types.Config
use stdiobus_python.Types.Config.{BusConfig}
use stdiobus_python.Types.Enums.{BackendMode}
use stdiobus_python.Client.State.{Runtime}
use stdiobus_python.Client.Resolve.{Machine, Chosen}
use stdiobus_python.Client.Construct.{
  Arguments, constructed, construct, construct_mode, construct_checked, check_native, has_path,
  read_mode, Keywords, Setter, set_config, set_config_path, set_backend, set_timeout_ms, set_docker,
  set_subprocess, set_native, apply_setter,
}

abbrev pub is_given : Option BusConfig → Bool
is_given none = false
is_given (some c) = true

abbrev pub IsAccepted : Option BusConfig → Type 0
IsAccepted none = Unit {0}
IsAccepted (some c) = Config.validate c ≡ none

module _ (rt : Runtime) (m : Machine) where
  checked_sound :
      (a : Arguments) (mode : BackendMode) (ch : Chosen) (t : ℤ)
      → construct_checked rt m a mode ≡ constructed ch t
      → IsAccepted a.config × (t ≡ a.timeout_ms)
  unfolding construct_checked
  checked_sound a mode ch t h = ground arith

  mode_sound :
      (a : Arguments) (ch : Chosen) (t : ℤ)
      → construct_mode rt m a ≡ constructed ch t
      → (check_native a.native ≡ none) × IsAccepted a.config × (t ≡ a.timeout_ms)
  unfolding construct_mode
  mode_sound a ch t h = elim (Option-cases (read_mode a.backend)) [
    | inl e ↦ cc (rw (e, construct_mode) at h)
    | inr (mode, e) ↦ elim (Option-cases (check_native a.native)) [
      | inr (x, f) ↦ cc (rw (f, construct_mode) at (rw (e, construct_mode) at h))
      | inl f ↦
          let (x, y) =
            checked_sound a mode ch t (rw (f, construct_mode) at (rw (e, construct_mode) at h)) in
          (f, x, y)
    ]
  ]

  -- Where the constructor succeeds, exactly one of `config` and a non-empty `config_path` was given, the
  -- native options passed their validation, and so did the configuration.
  pub construct_sound :
      (a : Arguments) (ch : Chosen) (t : ℤ)
      → construct rt m a ≡ constructed ch t
      → (is_given a.config ≡ not (has_path a.config_path))
        × (check_native a.native ≡ none)
        × IsAccepted a.config
        × (t ≡ a.timeout_ms)
  unfolding construct
  construct_sound a ch t h = elim (Bool-cases (has_path a.config_path)) [
    | inl p ↦ elim (Option-cases a.config) [
      | inl e ↦ ground (arith, mode_sound a ch t)
      | inr (c, e) ↦ ground arith
    ]
    | inr p ↦ elim (Option-cases a.config) [
      | inl e ↦ ground arith
      | inr (c, e) ↦ ground (arith, mode_sound a ch t)
    ]
  ]

-- Two setters set the same keyword.
abbrev pub same_keyword : Setter → Setter → Bool
same_keyword (set_config _) (set_config _) = true
same_keyword (set_config_path _) (set_config_path _) = true
same_keyword (set_backend _) (set_backend _) = true
same_keyword (set_timeout_ms _) (set_timeout_ms _) = true
same_keyword (set_docker _) (set_docker _) = true
same_keyword (set_subprocess _) (set_subprocess _) = true
same_keyword (set_native _) (set_native _) = true
same_keyword _ _ = false

-- Of two setters of the same keyword, the later one alone counts.
pub setters_last_wins :
    (k : Keywords) (s t : Setter)
    → same_keyword s t ≡ true
    → apply_setter (apply_setter k s) t ≡ apply_setter k t
unfolding apply_setter
setters_last_wins k s t e = ground arith

-- Setters of different keywords can be called in either order.
pub setters_commute :
    (k : Keywords) (s t : Setter)
    → same_keyword s t ≡ false
    → apply_setter (apply_setter k s) t ≡ apply_setter (apply_setter k t) s
unfolding apply_setter
setters_commute k s t e = ground arith
