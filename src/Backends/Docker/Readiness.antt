-- ===== src/Backends/Docker/Readiness.antt =====
-- The start of a container in stdiobus/backends/docker.py: when the wait ends, and what a failure leaves.
use stdiobus_python.Base.{
  ℕ, zero, suc, ◌+◌, ◌<◌, ◌≤◌, String, ◌≡◌, refl, sym, ap, ◌∙◌, true, false, Option, none, some,
  List, [], ◌∷◌, ◌++◌, ◌==◌, string-Eq, arith, inl, inr, ◌⊎◌, Bool-cases, All, if-true, ltb, nat-Eq,
  nat_eq_iff,
}
use mathlib.Core.List.{append_assoc, append-nil}
use stdiobus_python.Backends.Subprocess.{is_created}
use stdiobus_python.Backends.Text.{Text}
use stdiobus_python.Errors.{Exception}
use stdiobus_python.Types.Enums.{created, stopped}
use stdiobus_python.Types.Options.{DockerOptions}
use stdiobus_python.Backends.Docker
use stdiobus_python.Backends.Docker.{Docker, Launch, launch, start, never_ready, connects}
use stdiobus_python.Backends.Docker.Engine
use stdiobus_python.Backends.Docker.Engine.{
  Log, Rounds, Ready, ready, timed_out, unfinished, wait_for_ready, pull_image, pull, pull_command,
  inspect_command, start_docker, launch_container, succeeds, Container, container, start_container,
  connect, not_ready, finish,
}

module _ (r : Rounds) where
  -- A round that does not connect sleeps, and the clock goes on.
  abbrev pub IsTicking : Type 0
  IsTicking = (i : ℕ) → r.accepts i ≡ false → r.time i < r.time (suc i)

  -- The rounds from `i` up to `k` do not connect, and begin before the deadline.
  abbrev pub Fruitless : (limit i k : ℕ) → Type 0
  Fruitless limit i k = (j : ℕ) → i ≤ j → j < k → (r.time j < limit) × (r.accepts j ≡ false)

  -- How the wait from the round `i` ends, and after which rounds.
  abbrev pub Ends : (limit i : ℕ) → Ready → Type 0
  Ends limit i w =
      (k : ℕ) × (i ≤ k)
      × Fruitless limit i k
      × (((w ≡ ready) × (r.accepts k ≡ true) × (r.time k < limit))
          ⊎ ((w ≡ timed_out) × (limit ≤ r.time k)))

  later :
      (limit i : ℕ) (w : Ready)
      → r.time i < limit
      → r.accepts i ≡ false
      → Ends limit (suc i) w
      → Ends limit i w
  later limit i w early fails (k, low, before, how) = (
    k,
    omega arith,
    (λ j from to. elim (Bool-cases (j == i)) [
      | inl same ↦ rw ((nat_eq_iff j i).0 same) (early, fails)
      | inr other ↦ before j (ground arith) to
    ]),
    how,
  )

  wait_ends :
      (timeout start n i : ℕ)
      → IsTicking
      → 1 ≤ n
      → start + timeout < r.time i + n
      → Ends (start + timeout) i (wait_for_ready r timeout start n i)
  unfolding wait_for_ready
  wait_ends timeout start zero i t l h = absurd (omega arith)
  wait_ends timeout start (suc n) i t l h = elim (Bool-cases (ltb (r.time i) (start + timeout))) [
    | inr late ↦
        rw late (i, omega arith, (λ j low high. absurd (omega arith)), inr (refl, ground arith))
    | inl early ↦ elim (Bool-cases (r.accepts i)) [
      | inl ok ↦
          rw (early, ok)
            (i, omega arith, (λ j low high. absurd (omega arith)), inl (refl, ok, ground arith))
      | inr fails ↦
          rw (early, fails)
            (later (start + timeout) i _ (ground arith) fails (
              wait_ends timeout start n (suc i) t (ground (arith, t i fails))
                (ground (arith, t i fails))))
    ]
  ]

  -- The loop ends within as many rounds as the time-out has milliseconds, and one: at the first round
  -- that connects, if that round begins before the deadline, or at the first that begins at the deadline
  -- or later, if no earlier one connects. It never runs out of fuel.
  pub wait_for_ready_ends :
      (timeout start : ℕ)
      → IsTicking
      → start ≤ r.time 0
      → Ends (start + timeout) 0 (wait_for_ready r timeout start (suc timeout) 0)
  wait_for_ready_ends timeout start t h =
      wait_ends timeout start (suc timeout) 0 t (omega arith) (omega arith)

module _ (e : Engine.Engine) (o : DockerOptions) (r : Rounds) (path shown : String)
    (timeout began : ℕ) where
  -- A command about the image, which starts no container.
  abbrev pub IsImageCommand : List String → Type 0
  IsImageCommand c = (c ≡ pull_command e o) ⊎ (c ≡ inspect_command e o)

  pull_image-log :
      (log : Log) → (cs : Log) × ((pull_image e o log).0 ≡ log ++ cs) × All IsImageCommand cs
  unfolding pull_image pull
  pull_image-log log = elim (Bool-cases (o.pull_policy == "never")) [
    | inl never ↦ rw never ([], sym (append-nil log), tt)
    | inr other ↦ elim (Bool-cases (o.pull_policy == "if-missing")) [
      | inr always ↦ rw (other, always) (pull_command e o ∷ [], refl, (inl refl, tt))
      | inl missing ↦ elim (Bool-cases (succeeds e o log (inspect_command e o))) [
        | inl there ↦ rw (other, missing, there) (inspect_command e o ∷ [], refl, (inr refl, tt))
        | inr absent ↦
            rw (other, missing, absent)
              (
                inspect_command e o ∷ pull_command e o ∷ [],
                append_assoc log (inspect_command e o ∷ []) (pull_command e o ∷ []),
                (inr refl, (inl refl, tt)),
              )
      ]
    ]
  ]

  starts_as :
      (b : Docker) (log log' : Log) (l : Launch)
      → b.state ≡ created
      → launch_container e o r path shown timeout began (pull_image e o log) ≡ (log', l)
      → start_docker e o r path shown timeout began b log ≡ ((start b l).0, log', (start b l).1)
  unfolding start_docker
  starts_as b log log' l c h =
      if-true _ _ _ (ap is_created c) ∙ ap (finish e o r path shown timeout began b) h

  launch_pulled :
      (p : Log × Option Exception) (x : Option Exception)
      → p.1 ≡ x
      → launch_container e o r path shown timeout began p
        ≡ launch_container e o r path shown timeout began (p.0, x)
  launch_pulled (log, y) x h = rw h refl

  -- When the image cannot be pulled, the start raises that error, the backend is stopped, and no command
  -- but those about the image was run: no container is started.
  pub start_docker_pull_failed :
      (b : Docker) (log : Log) (x : Exception)
      → b.state ≡ created
      → (pull_image e o log).1 ≡ some x
      → let (b', log', raised) = start_docker e o r path shown timeout began b log in
        (b'.state ≡ stopped)
        × (raised ≡ some x)
        × ((cs : Log) × (log' ≡ log ++ cs) × All IsImageCommand cs)
  unfolding start_docker launch_container start launch
  start_docker_pull_failed b log x c p =
      let (cs, l, a) = pull_image-log log in
      rw (starts_as b log _ _ c (launch_pulled _ (some x) p ∙ refl))
        (ground arith, ground arith, (cs, l, a))

  connect_late :
      (log : Log) (id : Text)
      → wait_for_ready r timeout began (suc timeout) 0 ≡ timed_out
      → connect e o r path shown timeout began (log, container id)
        ≡ (log, never_ready (not_ready e o r path shown timeout began))
  unfolding connect
  connect_late log id w =
      ap
        (λ h. elim h [
          | ready ↦ (log, connects)
          | _ ↦ (log, never_ready (not_ready e o r path shown timeout began))
        ])
        w

  -- A container that starts and does not answer in time: the backend is stopped and keeps it, and `stop`
  -- does not touch it.
  pub start_docker_abandons :
      (b : Docker) (log log' : Log) (id : Text)
      → b.state ≡ created
      → (pull_image e o log).1 ≡ none
      → start_container e o (pull_image e o log).0 path ≡ (log', container id)
      → wait_for_ready r timeout began (suc timeout) 0 ≡ timed_out
      → let (b', commands, raised) = start_docker e o r path shown timeout began b log in
        (b'.state ≡ stopped)
        × (b'.has_container ≡ true)
        × (Docker.stop b' ≡ b')
        × (raised ≡ some (not_ready e o r path shown timeout began))
  unfolding start_docker launch_container connect start launch Docker.stop
  start_docker_abandons b log log' id c p s w =
      rw
        (starts_as b log _ _ c (
          launch_pulled _ none p
          ∙ ap (connect e o r path shown timeout began) s
          ∙ connect_late log' id w))
        (ground arith, ground arith, ground arith, ground arith)
