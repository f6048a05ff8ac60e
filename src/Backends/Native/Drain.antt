-- ===== src/Backends/Native/Drain.antt =====
-- The drain loop of `NativeBackend.stop` in stdiobus/backends/native.py ends, and ends in the library's
-- stopped state where the library gets there in time.
use Prim.Native.Nat.{◌/◌}
use stdiobus_python.Base.{
  ℕ, zero, suc, ◌+◌, ◌*◌, ◌≤◌, ◌<◌, ◌≡◌, ◌≢◌, refl, ap, ◌∙◌, false, List, [], ◌∷◌, arith, length,
  ◌==◌, nat-Eq, nat_eq_iff, Bool-cases, inl, inr,
}
use stdiobus_python.Types.Enums.{stopped}
use stdiobus_python.Backends.Native.State.{
  Library, Native, live, uses, Callback, message, worker_event, call_back, call_back_all,
}
use stdiobus_python.Backends.Native.Operations.{step_library, drain, begin_stop, stop}
use stdiobus_python.Backends.Native.Questions.{get_state}
use stdiobus_python.Backends.Native.Driven.{used, step_library-live, drain-stopped, drain-steps}

module _ {H : Type 0} where
  call_back_frame :
      (b : Native H) (c : Callback) → ((call_back b c).bus ≡ b.bus) × ((call_back b c).log ≡ b.log)
  unfolding call_back
  call_back_frame b (message m) = ground arith
  call_back_frame b (worker_event m) = ground arith

  call_back_all_frame :
      (b : Native H) (cs : List Callback)
      → ((call_back_all b cs).bus ≡ b.bus) × ((call_back_all b cs).log ≡ b.log)
  unfolding call_back_all
  call_back_all_frame b [] = (refl, refl)
  call_back_all_frame b (c ∷ cs) =
      let (p, l) = call_back_frame b c in
      let (p', l') = call_back_all_frame (call_back b c) cs in (p' ∙ p, l' ∙ l)

  module _ (lib : Library H) where
    -- The handle after so many steps of the drain.
    abbrev pub after : ℕ → H → H
    after zero h = h
    after (suc k) h = after k (lib.step h 1).0

    module _ (th : ℕ) where
      step_frame :
          (b : Native H) (h : H)
          → b.bus ≡ live h
          → ((step_library lib b th 1).bus ≡ live (lib.step h 1).0)
            × ((step_library lib b th 1).log ≡ uses th ∷ b.log)
      step_frame b h e =
          rw (step_library-live th lib b 1 h e)
            (call_back_all_frame (used th lib b (lib.step h 1).0) (lib.step h 1).1)

      -- The object has a handle whose state is `STDIO_BUS_STATE_STOPPED`.
      abbrev Ends : Native H → Type 0
      Ends b = (h' : H) × (b.bus ≡ live h') × (lib.get_state h' ≡ 4)

      drain_stops :
          (n k : ℕ) (b : Native H) (h : H)
          → b.bus ≡ live h
          → k ≤ n
          → lib.get_state (after k h) ≡ 4
          → Ends (drain lib n th b)
      drain_stops zero zero b h e le s = (h, unfold drain in e, s)
      drain_stops zero (suc k) b h e le s = absurd (omega arith)
      drain_stops (suc n) k b h e le s = elim (Bool-cases (lib.get_state h == 4)) [
        | inl d ↦ rw (drain-stopped th lib n b h e d) (h, e, (nat_eq_iff _ 4).0 d)
        | inr d ↦ rw (drain-steps th lib n b h e d) (
            later k le s d (λ j l t.
              drain_stops n j (step_library lib (record b { log = uses th ∷ b.log }) th 1) _
                (step_frame (record b { log = uses th ∷ b.log }) h e).0 l t))
      ]
        where
          later :
              (k : ℕ)
              → k ≤ suc n
              → lib.get_state (after k h) ≡ 4
              → (lib.get_state h == 4) ≡ false
              → ((j : ℕ)
                  → j ≤ n
                  → lib.get_state (after j (lib.step h 1).0) ≡ 4
                  → Ends
                      (drain lib n th (step_library lib (record b { log = uses th ∷ b.log }) th 1)))
              → Ends (drain lib n th (step_library lib (record b { log = uses th ∷ b.log }) th 1))
          later zero l t d rest = absurd (ground arith)
          later (suc j) l t d rest = rest j (omega arith) t

      answer : (b : Native H) → Ends b → (get_state lib b th).1 ≡ stopped
      unfolding get_state
      answer b (h, l, d) = ground (arith, l, d)

      drain_cost :
          (n : ℕ) (b : Native H) (h : H)
          → b.bus ≡ live h
          → length (drain lib n th b).log ≤ length b.log + 2 * n
      drain_cost zero b h e = unfold drain in omega arith
      drain_cost (suc n) b h e = elim (Bool-cases (lib.get_state h == 4)) [
        | inl d ↦ rw (drain-stopped th lib n b h e d) (omega arith)
        | inr d ↦
            let (e', l) = step_frame (record b { log = uses th ∷ b.log }) h e in
            rw (drain-steps th lib n b h e d) (
              omega (
                arith,
                drain_cost n (step_library lib (record b { log = uses th ∷ b.log }) th 1) _ e',
                ap length l,
              ))
      ]

      stop-live :
          (b : Native H) (h : H) (t : ℕ)
          → b.bus ≡ live h
          → stop lib b th t ≡ drain lib t th (begin_stop lib b h th t)
      unfolding stop
      stop-live b h t e =
          ap
            (λ p. elim p as (λ x. Native H) [
              | live h' ↦ drain lib t th (begin_stop lib b h' th t)
              | _ ↦ b
            ])
            e

      -- Where the library comes to its stopped state within as many steps as the time-out has milliseconds,
      -- the backend's state after `stop` is `STOPPED`, and there was at most one round of the drain for each
      -- of them, which asks the library for its state and steps it.
      pub stop_drains :
          (b : Native H) (h : H) (t k : ℕ)
          → b.bus ≡ live h
          → k ≤ t
          → lib.get_state (after k (lib.stop h (t / 1000)).0) ≡ 4
          → ((get_state lib (stop lib b th t) th).1 ≡ stopped)
            × (length (stop lib b th t).log ≤ length b.log + 1 + 2 * t)
      unfolding get_state begin_stop
      stop_drains b h t k e le s =
          let (h', l, d) =
            drain_stops t k (begin_stop lib b h th t) (lib.stop h (t / 1000)).0 refl le s in
          let cost = drain_cost t (begin_stop lib b h th t) (lib.stop h (t / 1000)).0 refl in
          rw (stop-live b h t e)
            (answer (drain lib t th (begin_stop lib b h th t)) (h', l, d), omega (arith, cost))

      -- A library that is not stopped in any round.
      abbrev pub IsStuck : ℕ → H → Type 0
      IsStuck t h = (j : ℕ) → j < t → lib.get_state (after j h) ≢ 4

      drain_exhausts :
          (n : ℕ) (b : Native H) (h : H)
          → b.bus ≡ live h
          → IsStuck n h
          → ((drain lib n th b).bus ≡ live (after n h))
            × (length (drain lib n th b).log ≡ length b.log + 2 * n)
      drain_exhausts zero b h e s = (unfold drain in e, unfold drain in omega arith)
      drain_exhausts (suc n) b h e s = elim (Bool-cases (lib.get_state h == 4)) [
        | inl d ↦ absurd (s 0 (omega arith) ((nat_eq_iff _ 4).0 d))
        | inr d ↦
            let asked : Native H = record b { log = uses th ∷ b.log } in
            let (e', l) = step_frame asked h e in
            let (live_on, cost) =
              drain_exhausts n (step_library lib asked th 1) (lib.step h 1).0 e'
                (λ j k. s (suc j) (omega (arith, k))) in
            rw (drain-steps th lib n b h e d) (live_on, omega (arith, cost, ap length l))
      ]

      -- Where the library is stuck, `stop` gives up after exactly as many rounds as its time-out has
      -- milliseconds, each of which asks the library for its state and steps it once, and returns with the
      -- handle where the last step has left it.
      pub stop_gives_up :
          (b : Native H) (h : H) (t : ℕ)
          → b.bus ≡ live h
          → IsStuck t (lib.stop h (t / 1000)).0
          → ((stop lib b th t).bus ≡ live (after t (lib.stop h (t / 1000)).0))
            × (length (stop lib b th t).log ≡ length b.log + 1 + 2 * t)
      unfolding begin_stop
      stop_gives_up b h t e stuck =
          let (live_on, cost) =
            drain_exhausts t (begin_stop lib b h th t) (lib.stop h (t / 1000)).0 refl stuck in
          rw (stop-live b h t e) (live_on, omega (arith, cost))
