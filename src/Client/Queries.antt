-- ===== src/Client/Queries.antt =====
-- What `AsyncStdioBus` of stdiobus/client.py tells of its backend, through the optional methods of
-- stdiobus/backends/base.py.
use stdiobus_python.Base.{String, none, some}
use stdiobus_python.Base.Int.{ℤ, negsuc}
use stdiobus_python.Types.Enums.{BusStats, no_stats, ListenMode, no_listener}
use stdiobus_python.Client.Bus.{Bus}

-- The classes that `isinstance` tells apart.
pub data Class : Type 0 where
  subprocess_class docker_class native_class other_class : Class

-- What a backend tells, over its own state.
pub record Introspection (B : Type 0) : Type 0 where
  pub get_class : B → Class
  pub get_stats : B → BusStats
  pub get_listen_mode : B → ListenMode
  pub get_worker_count : B → ℤ
  pub get_client_count : B → ℤ

-- `-1`, for a value that the backend cannot report
abbrev pub unknown_count : ℤ
unknown_count = negsuc 0

-- The methods that `Backend` itself defines; `get_class` and `get_stats` are the subclass's.
abbrev pub default_introspection : {B : Type 0} → (B → Class) → (B → BusStats) → Introspection B
default_introspection get_class get_stats = record {
  get_class = get_class;
  get_stats = get_stats;
  get_listen_mode = λ k. no_listener;
  get_worker_count = λ k. unknown_count;
  get_client_count = λ k. unknown_count;
}

unfoldable pub type_name : Class → String
type_name subprocess_class = "subprocess"
type_name docker_class = "docker"
type_name native_class = "native"
type_name other_class = "unknown"

module _ {B : Type 0} (i : Introspection B) (b : Bus B) where
  unfoldable pub get_stats : BusStats
  get_stats = elim b.backend [ none ↦ no_stats | some k ↦ i.get_stats k ]

  unfoldable pub get_backend_type : String
  unfolding type_name
  get_backend_type = elim b.backend [ none ↦ "unknown" | some k ↦ type_name (i.get_class k) ]

  unfoldable pub get_listen_mode : ListenMode
  get_listen_mode = elim b.backend [ none ↦ no_listener | some k ↦ i.get_listen_mode k ]

  unfoldable pub get_worker_count : ℤ
  get_worker_count = elim b.backend [ none ↦ unknown_count | some k ↦ i.get_worker_count k ]

  unfoldable pub get_client_count : ℤ
  get_client_count = elim b.backend [ none ↦ unknown_count | some k ↦ i.get_client_count k ]
