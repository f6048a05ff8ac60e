-- ===== src/Types/Checks.antt =====
-- The validation of stdiobus/types.py: exactly which configurations and native options are accepted,
-- and what the limits' dictionary holds.
use stdiobus_python.Base.{
  ℕ, suc, String, ◌≡◌, ◌≢◌, ◌↔◌, refl, Option, none, some, List, [], ◌∷◌, All, arith, eq_iff, ◌==◌,
  string-Eq, if◌then◌else◌, Option-cases, inl, inr,
}
use stdiobus_python.Base.Int.{ℤ, pos, ◌≤ℤ◌}
use stdiobus_python.Json.{Json, Fields, int, get, get-put}
use stdiobus_python.Types.Enums.{ListenMode, tcp, unix, no_listener}
use stdiobus_python.Types.Config
use stdiobus_python.Types.Config.{
  PoolConfig, BusConfig, LimitsConfig, ConfigError, missing_id, missing_command, bad_instances,
  no_pools, validate_pool, validate_pools, limits_dict, put_limit,
}
use stdiobus_python.Types.Options
use stdiobus_python.Types.Options.{
  NativeOptions, NativeError, validate_listener, validate_port, validate_path,
}

-- A pool with an identifier, a command and at least one instance.
abbrev pub IsPool : PoolConfig → Type 0
IsPool p = (p.id ≢ "") × (p.command ≢ "") × (pos 1 ≤ℤ p.instances)

validate_pool_iff : (i : ℕ) (p : PoolConfig) → (validate_pool i p ≡ none) ↔ IsPool p
unfolding validate_pool
validate_pool_iff i p = (
  (λ e. (
    (λ h. ground (arith, eq_iff p.id "")),
    (λ h. ground (arith, eq_iff p.id "", eq_iff p.command "")),
    ground (arith, eq_iff p.id "", eq_iff p.command ""),
  )),
  (λ v. ground (arith, v.0, v.1, v.2, eq_iff p.id "", eq_iff p.command "")),
)

validate_pools_iff : (i : ℕ) (ps : List PoolConfig) → (validate_pools i ps ≡ none) ↔ All IsPool ps
unfolding validate_pools
validate_pools_iff i [] = ((λ e. tt), (λ t. refl))
validate_pools_iff i (p ∷ ps) = elim (Option-cases (validate_pool i p)) [
  | inl e ↦
      rw (e, validate_pools)
        (
          (λ h. ((validate_pool_iff i p).0 e, (validate_pools_iff (suc i) ps).0 h)),
          (λ v. (validate_pools_iff (suc i) ps).1 v.1),
        )
  | inr (x, e) ↦ rw (e, validate_pools) ((λ h. cc), (λ v. cc (e, (validate_pool_iff i p).1 v.0)))
]

-- A configuration is accepted exactly where it has a pool and each of its pools is complete.
pub validate_config_iff :
    (c : BusConfig) → (Config.validate c ≡ none) ↔ ((c.pools ≢ []) × All IsPool c.pools)
unfolding Config.validate
validate_config_iff c = pools_iff c.pools
  where
    pools_iff :
        (ps : List PoolConfig)
        → ((elim ps as (λ x. Option ConfigError) [
          | [] ↦ some no_pools
          | p ∷ qs ↦ validate_pools 0 (p ∷ qs)
        ])
            ≡ none)
          ↔ ((ps ≢ []) × All IsPool ps)
    pools_iff [] = ((λ e. cc), (λ v. absurd (v.0 refl)))
    pools_iff (p ∷ qs) = (
      (λ e. ((λ h. cc), (validate_pools_iff 0 (p ∷ qs)).0 e)),
      (λ v. (validate_pools_iff 0 (p ∷ qs)).1 v.1),
    )

-- The listener's own fields: a port from 1 to 65535 for TCP, a path for a Unix socket.
abbrev pub HasPort : Option ℤ → Type 0
HasPort none = ⊥
HasPort (some p) = (pos 1 ≤ℤ p) × (p ≤ℤ pos 65535)

abbrev pub HasPath : Option String → Type 0
HasPath none = ⊥
HasPath (some s) = s ≢ ""

validate_port_iff : (o : Option ℤ) → (validate_port o ≡ none) ↔ HasPort o
unfolding validate_port
validate_port_iff none = ((λ e. cc), (λ v. absurd v))
validate_port_iff (some p) = ((λ e. (ground arith, ground arith)), (λ v. ground arith))

validate_path_iff : (o : Option String) → (validate_path o ≡ none) ↔ HasPath o
unfolding validate_path
validate_path_iff none = ((λ e. cc), (λ v. absurd v))
validate_path_iff (some s) =
    ((λ e h. ground (arith, eq_iff s "")), (λ v. ground (arith, v, eq_iff s "")))

abbrev pub HasListener : NativeOptions → Type 0
HasListener o = elim o.mode [
  | tcp ↦ HasPort o.tcp_port
  | unix ↦ HasPath o.unix_path
  | no_listener ↦ Unit {0}
]

module _ (host : String) (port : Option ℤ) (path : Option String) (poll : ℤ) where
  abbrev listening : ListenMode → NativeOptions
  listening m = record {
    mode = m;
    tcp_host = host;
    tcp_port = port;
    unix_path = path;
    poll_interval_ms = poll;
  }

  listener_iff :
      (m : ListenMode) → (validate_listener (listening m) ≡ none) ↔ HasListener (listening m)
  unfolding validate_listener
  listener_iff tcp = validate_port_iff port
  listener_iff unix = validate_path_iff path
  listener_iff no_listener = ((λ e. tt), (λ v. refl))

-- Native options are accepted exactly where the fields that the listener needs are right and the poll
-- interval is at least one millisecond.
pub validate_native_iff :
    (o : NativeOptions)
    → (Options.validate o ≡ none) ↔ (HasListener o × (pos 1 ≤ℤ o.poll_interval_ms))
unfolding Options.validate
validate_native_iff o =
    let l = listener_iff o.tcp_host o.tcp_port o.unix_path o.poll_interval_ms o.mode in
    elim (Option-cases (validate_listener o)) [
      | inl e ↦ rw (e, Options.validate) ((λ h. (l.0 e, ground arith)), (λ v. ground (arith, v.1)))
      | inr (x, e) ↦ rw (e, Options.validate) ((λ h. cc), (λ v. cc (e, l.1 v.0)))
    ]

abbrev pub limit : Option ℤ → Option Json
limit none = none
limit (some n) = some (int n)

abbrev or_else : Option Json → Option Json → Option Json
or_else none v = v
or_else (some w) v = some w

get-put_limit :
    (d : Fields) (k j : String) (o : Option ℤ)
    → get (put_limit d k o) j ≡ (if k == j then or_else (limit o) (get d j) else get d j)
get-put_limit d k j none = ground arith
get-put_limit d k j (some n) = get-put d k j (int n)

or_else-none : (o : Option ℤ) → or_else (limit o) none ≡ limit o
or_else-none none = refl
or_else-none (some n) = refl

-- `to_json` writes under each limit's name the limit, where it is given, and nothing where it is not.
pub limits_dict_fields :
    (l : LimitsConfig)
    → (get (limits_dict l) "max_input_buffer" ≡ limit l.max_input_buffer)
      × (get (limits_dict l) "max_output_queue" ≡ limit l.max_output_queue)
      × (get (limits_dict l) "max_restarts" ≡ limit l.max_restarts)
      × (get (limits_dict l) "restart_window_sec" ≡ limit l.restart_window_sec)
      × (get (limits_dict l) "drain_timeout_sec" ≡ limit l.drain_timeout_sec)
      × (get (limits_dict l) "backpressure_timeout_sec" ≡ limit l.backpressure_timeout_sec)
unfolding limits_dict get
limits_dict_fields l = (
  simp (get-put_limit, or_else-none),
  simp (get-put_limit, or_else-none),
  simp (get-put_limit, or_else-none),
  simp (get-put_limit, or_else-none),
  simp (get-put_limit, or_else-none),
  simp (get-put_limit, or_else-none),
)
