-- ===== src/Backends/Introspection.antt =====
-- What the three backends tell of themselves: stdiobus/backends/subprocess.py, stdiobus/backends/docker.py
-- and stdiobus/backends/native.py.
use stdiobus_python.Base.{ℕ, ◌≡◌, refl, none, some}
use stdiobus_python.Base.Int.{pos}
use stdiobus_python.Types.Enums.{no_stats, no_listener, stopped}
use stdiobus_python.Client.Bus.{Bus, BackendOps}
use stdiobus_python.Client.Lifecycle
use stdiobus_python.Client.Queries
use stdiobus_python.Client.Queries.{
  Introspection, subprocess_class, docker_class, native_class, default_introspection, unknown_count,
}
use stdiobus_python.Backends.Subprocess.{Subprocess}
use stdiobus_python.Backends.Docker.{Docker, client_count}
use stdiobus_python.Backends.Native.State.{Native, Library}
use stdiobus_python.Backends.Native.Questions

abbrev pub of_subprocess : Introspection Subprocess
of_subprocess = default_introspection (λ k. subprocess_class) (λ k. k.stats)

abbrev pub of_docker : Introspection Docker
of_docker = record (default_introspection (λ k. docker_class) (λ k. k.stats)) {
  get_client_count = λ k. pos (client_count k);
}

-- A mode that is none of the three raises `ValueError` in `get_listen_mode`; the client makes the backend
-- with a mode of the enumeration.
abbrev pub of_native : {H : Type 0} → Library H → (thread : ℕ) → Introspection (Native H)
of_native lib th = record {
  get_class = λ k. native_class;
  get_stats = λ k. (Questions.get_stats lib k th).1;
  get_listen_mode = λ k. elim (Questions.get_listen_mode k) [ none ↦ no_listener | some m ↦ m ];
  get_worker_count = λ k. (Questions.get_worker_count lib k th).1;
  get_client_count = λ k. (Questions.get_client_count lib k th).1;
}

-- After `destroy`, whatever the backend was and told: the bus is stopped, counts nothing, is of an
-- unknown type, listens nowhere, and knows neither workers nor clients.
pub destroyed_answers :
    {B : Type 0} (ops : BackendOps B) (i : Introspection B) (b : Bus B)
    → (Lifecycle.get_state ops (Lifecycle.destroy ops b) ≡ stopped)
      × (Queries.get_stats i (Lifecycle.destroy ops b) ≡ no_stats)
      × (Queries.get_backend_type i (Lifecycle.destroy ops b) ≡ "unknown")
      × (Queries.get_listen_mode i (Lifecycle.destroy ops b) ≡ no_listener)
      × (Queries.get_worker_count i (Lifecycle.destroy ops b) ≡ unknown_count)
      × (Queries.get_client_count i (Lifecycle.destroy ops b) ≡ unknown_count)
unfolding Lifecycle.get_state Lifecycle.destroy Queries.get_stats Queries.get_backend_type
    Queries.get_listen_mode Queries.get_worker_count Queries.get_client_count
destroyed_answers ops i b = (refl, refl, refl, refl, refl, refl)
