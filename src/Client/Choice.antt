-- ===== src/Client/Choice.antt =====
-- Which backend stdiobus/client.py chooses (`_resolve_backend`).
use stdiobus_python.Base.{
  String, ◌≡◌, refl, Bool, true, false, Option, none, some, arith, ◌==◌, string-Eq, if◌then◌else◌,
  Bool-cases, inl, inr, ◌⊎◌, or_text, Option-cases, not, ◌&&◌,
}
use stdiobus_python.Base.Int.{ℤ, pos}
use stdiobus_python.Errors.{sdk, invalid_argument_class}
use stdiobus_python.Types.Enums.{
  BackendMode, auto, native, docker, subprocess, ListenMode, tcp, unix, no_listener,
  listen_mode_value,
}
use stdiobus_python.Types.Options.{NativeOptions, SubprocessOptions, DockerOptions}
use stdiobus_python.Client.Resolve.{
  Machine, Chosen, native_backend, subprocess_backend, refused, resolve_binary, listener_requested,
  create_native, create_docker, search_backends, resolve_backend, binary_path, native_arguments,
  port_or_zero,
}

-- The text of a listener's kind.
abbrev pub listens_as : ListenMode → String
listens_as tcp = "tcp"
listens_as unix = "unix"
listens_as no_listener = "none"

-- The modes whose backend can listen.
abbrev pub can_listen : BackendMode → Bool
can_listen auto = true
can_listen native = true
can_listen docker = false
can_listen subprocess = false

-- Where `can` holds, the choice is the native backend, with the configuration and the options that are
-- asked for, and else no backend at all, for want of an argument that fits.
abbrev pub ListensOrRefused :
    (path json : Option String) → NativeOptions → (can : Bool) → Chosen → Type 0
ListensOrRefused path json o can (native_backend a b k) =
    (can ≡ true)
    × (a ≡ path)
    × (b ≡ json)
    × (k.listen_mode ≡ listens_as o.mode)
    × (k.tcp_host ≡ o.tcp_host)
    × ((o.tcp_port ≡ some k.tcp_port) ⊎ ((o.tcp_port ≡ none) × (k.tcp_port ≡ pos 0)))
    × (k.unix_path ≡ or_text o.unix_path "")
    × (k.poll_interval_ms ≡ o.poll_interval_ms)
ListensOrRefused path json o can (refused (sdk e)) =
    (can ≡ false) × (e.class ≡ invalid_argument_class)
ListensOrRefused path json o can _ = ⊥

module _ (m : Machine) (path json : Option String) where
  listens-mode : (l : ListenMode) → listen_mode_value l ≡ listens_as l
  unfolding listen_mode_value
  listens-mode tcp = refl
  listens-mode unix = refl
  listens-mode no_listener = refl

  port_given :
      (p : Option ℤ) → (p ≡ some (port_or_zero p)) ⊎ ((p ≡ none) × (port_or_zero p ≡ pos 0))
  port_given none = inr (refl, refl)
  port_given (some n) = inl refl

  native_listens :
      (o : NativeOptions)
      → ListensOrRefused path json o m.native_available (create_native m path json (some o))
  unfolding create_native native_arguments
  native_listens o = elim (Bool-cases m.native_available) [
    | inl e ↦
        rw (e, create_native)
          (refl, refl, refl, listens-mode o.mode, refl, port_given o.tcp_port, refl, refl)
    | inr e ↦ rw (e, create_native) (refl, refl)
  ]

  pub listener_native :
      (d : Option DockerOptions) (s : Option SubprocessOptions) (o : NativeOptions)
      (mode : BackendMode)
      → listener_requested (some o) ≡ true
      → ListensOrRefused path json o
          (can_listen mode && m.native_available)
          (resolve_backend m path json mode d s (some o))
  unfolding resolve_backend
  listener_native d s o auto r = rw r (native_listens o)
  listener_native d s o native r = native_listens o
  listener_native d s o docker r = rw r (refl, refl)
  listener_native d s o subprocess r = rw r (refl, refl)

module _ (m : Machine) (path json : Option String) (d : Option DockerOptions)
    (s : Option SubprocessOptions) (n : Option NativeOptions) where
  -- Without a listener, auto mode takes the subprocess backend exactly where a binary is found; else
  -- the native one where its bindings are there, but not on Windows; else Docker.
  pub auto_order :
      listener_requested n ≡ false
      → resolve_backend m path json auto d s n
        ≡ (elim (resolve_binary m (binary_path s)) as (λ o. Chosen) [
          | some b ↦ subprocess_backend path json s
          | none ↦
              if m.native_available && not (m.system == "windows")
              then native_backend path json (native_arguments n)
              else create_docker m path json d
        ])
  unfolding resolve_backend search_backends create_native
  auto_order r = elim (Option-cases (resolve_binary m (binary_path s))) [
    | inr (b, e) ↦ rw r (rw (e, search_backends))
    | inl e ↦ rw r (
        rw (e, search_backends)
          (elim (Bool-cases (m.system == "windows")) [
            | inl w ↦ ground arith
            | inr w ↦ ground arith
          ]))
  ]
