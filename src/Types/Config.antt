-- ===== src/Types/Config.antt =====
-- `BusConfig`, `PoolConfig` and `LimitsConfig` of stdiobus/types.py.
use stdiobus_python.Base.{
  ℕ, suc, String, Option, none, some, List, [], ◌∷◌, is_empty, if◌then◌else◌,
}
use stdiobus_python.Base.Int.{ℤ, pos, leb_ℤ}
use stdiobus_python.Json.{
  Json, Items, nil, cons, int, str, arr, obj, Fields, end, field, put, items, is_end,
}

pub record PoolConfig : Type 0 where
  pub id : String
  pub command : String
  pub args : List String
  pub instances : ℤ

pub record LimitsConfig : Type 0 where
  pub max_input_buffer : Option ℤ
  pub max_output_queue : Option ℤ
  pub max_restarts : Option ℤ
  pub restart_window_sec : Option ℤ
  pub drain_timeout_sec : Option ℤ
  pub backpressure_timeout_sec : Option ℤ

pub record BusConfig : Type 0 where
  pub pools : List PoolConfig
  pub limits : Option LimitsConfig

-- The `ValueError`s of `validate`, with what their messages name.
pub data ConfigError : Type 0 where
  no_pools : ConfigError
  missing_id : ℕ → ConfigError
  missing_command bad_instances : String → ConfigError

unfoldable pub validate_pool : ℕ → PoolConfig → Option ConfigError
validate_pool i p =
    if is_empty p.id
    then some (missing_id i)
    else if is_empty p.command
    then some (missing_command p.id)
    else if leb_ℤ (pos 1) p.instances
    then none
    else some (bad_instances p.id)

-- The loop of `validate`, at the index `i`.
unfoldable pub validate_pools : ℕ → List PoolConfig → Option ConfigError
validate_pools i [] = none
validate_pools i (p ∷ ps) =
    let rest = validate_pools (suc i) ps in
    elim (validate_pool i p) [ some e ↦ some e | none ↦ rest ]

-- `none`: the configuration is accepted.
unfoldable pub validate : BusConfig → Option ConfigError
validate c = elim c.pools [ [] ↦ some no_pools | p ∷ ps ↦ validate_pools 0 (p ∷ ps) ]

unfoldable pub pool_json : PoolConfig → Json
pool_json p = obj (
    field "id" (str p.id) (
      field "command" (str p.command)
        (field "args" (arr (items p.args)) (field "instances" (int p.instances) end))))

unfoldable pub pools_json : List PoolConfig → Items
pools_json [] = nil
pools_json (p ∷ ps) = cons (pool_json p) (pools_json ps)

-- `if val is not None: limits_dict[f_name] = val`
abbrev pub put_limit : Fields → String → Option ℤ → Fields
put_limit d k none = d
put_limit d k (some n) = put d k (int n)

unfoldable pub limits_dict : LimitsConfig → Fields
limits_dict l =
    let d1 = put_limit end "max_input_buffer" l.max_input_buffer in
    let d2 = put_limit d1 "max_output_queue" l.max_output_queue in
    let d3 = put_limit d2 "max_restarts" l.max_restarts in
    let d4 = put_limit d3 "restart_window_sec" l.restart_window_sec in
    let d5 = put_limit d4 "drain_timeout_sec" l.drain_timeout_sec in
    put_limit d5 "backpressure_timeout_sec" l.backpressure_timeout_sec

-- The dictionary that `to_json` hands to `json.dumps`.
unfoldable pub config_dict : BusConfig → Fields
unfolding pools_json limits_dict
config_dict c =
    let d : Fields = field "pools" (arr (pools_json c.pools)) end in
    elim c.limits [
      | none ↦ d
      | some l ↦ if is_end (limits_dict l) then d else put d "limits" (obj (limits_dict l))
    ]
