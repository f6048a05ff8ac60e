-- ===== src/Types/Tests.antt =====
-- Runs of stdiobus/types.py at concrete inputs.
use stdiobus_python.Base.{◌≡◌, ◌≢◌, ◌↔◌, none, some, [], ◌∷◌, All}
use stdiobus_python.Base.Int.{pos}
use stdiobus_python.Types.Config
use stdiobus_python.Types.Config.{PoolConfig, LimitsConfig, BusConfig, limits_dict}
use stdiobus_python.Types.Checks.{IsPool, validate_config_iff}

abbrev config : BusConfig
config = record {
  pools = (record { id = "p"; command = "worker"; args = []; instances = pos 2 }) ∷ [];
  limits = none;
}

validate_config_iff_example :
    (Config.validate config ≡ none) ↔ ((config.pools ≢ []) × All IsPool config.pools)
validate_config_iff_example = validate_config_iff config

abbrev some_limits : LimitsConfig
some_limits = record {
  max_input_buffer = some (pos 1024);
  max_output_queue = none;
  max_restarts = some (pos 3);
  restart_window_sec = none;
  drain_timeout_sec = none;
  backpressure_timeout_sec = some (pos 9);
}
