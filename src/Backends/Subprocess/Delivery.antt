-- ===== src/Backends/Subprocess/Delivery.antt =====
-- The delivery of the configuration in `_spawn_process` of stdiobus/backends/subprocess.py.
use stdiobus_python.Base.{
  ℕ, zero, suc, ◌-◌, ◌≤◌, String, ◌≡◌, refl, ap, ◌∙◌, false, Option, none, some, List, [], ◌∷◌,
  ◌++◌, length, ◌==◌, string-Eq, arith, inl, inr, ◌⊎◌, Option-cases,
}
use mathlib.Core.List.{append_assoc}
use stdiobus_python.Errors.{Exception}
use stdiobus_python.Types.Options.{SubprocessOptions}
use stdiobus_python.Client.Resolve.{Machine, resolve_binary}
use stdiobus_python.Backends.Subprocess.Spawning.{
  Os, Parent, Command, close_fd, take, drop, Written, whole, broken_pipe, prepend, write_loop,
  deliver, close_read, spawn_piped, spawn_process,
}

-- `os.write` on a pipe that blocks takes a byte at least, and no more than it is given.
abbrev pub IsBlocking : Os → Type 0
IsBlocking os = (i n k : ℕ) → 1 ≤ n → os.takes i n ≡ some k → (1 ≤ k) × (k ≤ n)

take-drop : (k : ℕ) (l : List ℕ) → take k l ++ drop k l ≡ l
take-drop zero l = refl
take-drop (suc k) [] = refl
take-drop (suc k) (x ∷ l) = ap (◌∷◌ x) (take-drop k l)

length-drop : (k : ℕ) (l : List ℕ) → 1 ≤ k → length (drop k l) ≤ length l - 1
length-drop zero l h = absurd (omega arith)
length-drop (suc k) [] h = omega arith
length-drop (suc zero) (x ∷ l) h = omega arith
length-drop (suc (suc k)) (x ∷ l) h = omega (arith, length-drop (suc k) l (omega arith))

-- What a write loop has put into the pipe: all of it, or a part from its beginning before the pipe broke.
abbrev pub Delivers : List ℕ → List ℕ × Written → Type 0
Delivers l (sent, w) =
    ((w ≡ whole) × (sent ≡ l)) ⊎ ((w ≡ broken_pipe) × ((rest : List ℕ) × (sent ++ rest ≡ l)))

Delivers-prepend :
    (k : ℕ) (l : List ℕ) (r : List ℕ × Written)
    → Delivers (drop k l) r
    → Delivers l (prepend (take k l) r)
Delivers-prepend k l (sent, w) (inl (e, s)) = inl (e, ap (λ m. take k l ++ m) s ∙ take-drop k l)
Delivers-prepend k l (sent, w) (inr (e, (rest, s))) =
    inr (e, (rest, append_assoc (take k l) sent rest ∙ ap (λ m. take k l ++ m) s ∙ take-drop k l))

-- With as much fuel as there are bytes the loop ends: it has sent all of the bytes in order, or the
-- pipe broke after a part from their beginning.
pub write_loop_ends :
    (os : Os) (n i : ℕ) (l : List ℕ)
    → IsBlocking os
    → length l ≤ n
    → Delivers l (write_loop os n i l)
unfolding write_loop
write_loop_ends os n i [] v h = inl (refl, refl)
write_loop_ends os zero i (x ∷ l) v h = absurd (omega arith)
write_loop_ends os (suc n) i (x ∷ l) v h = elim (Option-cases (os.takes i (length (x ∷ l)))) [
  | inl e ↦ rw (e, write_loop) (inr (refl, (x ∷ l, refl)))
  | inr (k, e) ↦
      rw (e, write_loop)
        (Delivers-prepend k (x ∷ l) _ (
          write_loop_ends os n (suc i) (drop k (x ∷ l)) v
            (omega (arith, length-drop k (x ∷ l) (v i (length (x ∷ l)) k (omega arith) e).0))))
]

-- The child reads its configuration to the end: no write finds the pipe broken.
abbrev pub IsReading : Os → Type 0
IsReading os = (i n : ℕ) → 1 ≤ n → (k : ℕ) × (os.takes i n ≡ some k) × (1 ≤ k) × (k ≤ n)

write_loop-whole :
    (os : Os) (n i : ℕ) (l : List ℕ) → IsReading os → length l ≤ n → (write_loop os n i l).0 ≡ l
unfolding write_loop
write_loop-whole os n i [] v h = refl
write_loop-whole os zero i (x ∷ l) v h = absurd (omega arith)
write_loop-whole os (suc n) i (x ∷ l) v h =
    let (k, e, low, high) = v i (length (x ∷ l)) (omega arith) in
    rw (e, write_loop)
      (ap (λ m. take k (x ∷ l) ++ m)
          (write_loop-whole os n (suc i) (drop k (x ∷ l)) v
            (omega (arith, length-drop k (x ∷ l) low)))
        ∙ take-drop k (x ∷ l))

close_head : (fd : ℕ) (l : List ℕ) → close_fd fd (fd ∷ l) ≡ l
unfolding close_fd
close_head fd l = ground arith

module _ (os : Os) (m : Machine) (path : Option String) (json : String) (o : SubprocessOptions)
    (p : Parent) (binary : String) where
  abbrev pub fd_command : Command
  fd_command = record {
    binary = binary;
    args = "--config-fd" ∷ os.decimal os.pipe.0 ∷ "--stdio" ∷ [];
    pass_fds = os.pipe.0 ∷ [];
  }

  piped_eq :
      m.system == "windows" ≡ false
      → resolve_binary m o.binary_path ≡ some binary
      → spawn_process os m path (some json) o p ≡ spawn_piped os p binary json
  unfolding spawn_process
  piped_eq s e = rw (e, spawn_process) (rw s)

  abbrev with_pipe : Parent
  with_pipe = record p { descriptors = os.pipe.0 ∷ os.pipe.1 ∷ p.descriptors }

  popen_ends :
      (x : Option Exception)
      → os.popen fd_command ≡ x
      → spawn_piped os p binary json
        ≡ deliver os os.pipe.1 json (
            close_read os (elim x [
              | none ↦ (record with_pipe { spawned = some fd_command }, none)
              | some e ↦ (with_pipe, some e)
            ]))
  unfolding spawn_piped
  popen_ends x o =
      ap
        (λ y. deliver os os.pipe.1 json (
          close_read os (elim y [
            | none ↦ (record with_pipe { spawned = some fd_command }, none)
            | some e ↦ (with_pipe, some e)
          ])))
        o

  -- Where the system is not Windows, the binary is found, `Popen` returns and the child reads: the spawn
  -- returns, the child is told the number of the descriptor that it is passed, the parent has put the
  -- whole text into the pipe, and it holds the descriptors that it held before.
  pub config_piped :
      m.system == "windows" ≡ false
      → resolve_binary m o.binary_path ≡ some binary
      → os.popen fd_command ≡ none
      → IsReading os
      → let r = spawn_process os m path (some json) o p in
        (r.1 ≡ none)
        × (r.0.spawned ≡ some fd_command)
        × (r.0.piped ≡ p.piped ++ os.utf8 json)
        × (r.0.descriptors ≡ p.descriptors)
  unfolding spawn_process spawn_piped deliver
  config_piped s e o v = rw (piped_eq s e) (
      rw (popen_ends none o) (
        refl,
        refl,
        ap (λ l. p.piped ++ l) (write_loop-whole os _ 0 (os.utf8 json) v (omega arith)),
        ap (close_fd os.pipe.1) (close_head os.pipe.0 _) ∙ close_head os.pipe.1 p.descriptors,
      ))

  -- Where the system is not Windows, the binary is found and `Popen` raises: that is what the spawn raises, nothing is written,
  -- and the end of the pipe to write stays open in the parent.
  pub config_piped_raises :
      (x : Exception)
      → m.system == "windows" ≡ false
      → resolve_binary m o.binary_path ≡ some binary
      → os.popen fd_command ≡ some x
      → let r = spawn_process os m path (some json) o p in
        (r.1 ≡ some x) × (r.0.piped ≡ p.piped) × (r.0.descriptors ≡ os.pipe.1 ∷ p.descriptors)
  unfolding spawn_process spawn_piped deliver
  config_piped_raises x s e o =
      rw (piped_eq s e) (rw (popen_ends (some x) o) (refl, refl, close_head os.pipe.0 _))
