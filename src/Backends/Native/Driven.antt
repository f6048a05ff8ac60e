-- ===== src/Backends/Native/Driven.antt =====
-- The steps of the library by `NativeBackend` in stdiobus/backends/native.py keep to its contract: those
-- that the loop drives, and those of the drain.
use stdiobus_python.Base.{
  ℕ, zero, suc, ◌<◌, ◌≡◌, refl, sym, ap, ◌∙◌, Bool, true, false, ◌||◌, ◌∷◌, arith, ◌==◌, nat-Eq,
  Bool-cases, if-true, if-false, inl, inr, ◌⊎◌,
}
use stdiobus_python.Backends.Native.State.{
  Library, Native, Pointer, absent, null, live, uses, call_back_all,
}
use stdiobus_python.Backends.Native.Starting.{schedule_poll_timer}
use stdiobus_python.Backends.Native.Operations.{
  step_library, step_nonblocking, on_poll_timer, on_poll_ready, drain, run_soon, pred,
}
use stdiobus_python.Backends.Native.Contract.{
  is_live, Holds, IsSound, call_back_all-Same, Same-Holds,
}

pub Pointer-cases : {H : Type 0} (p : Pointer H) → ((h : H) × (p ≡ live h)) ⊎ (is_live p ≡ false)
Pointer-cases (live h) = inl (h, refl)
Pointer-cases absent = inr refl
Pointer-cases null = inr refl

module _ {H : Type 0} (th : ℕ) (lib : Library H) where
  abbrev pub used : Native H → H → Native H
  used b h = record b { bus = live h; log = uses th ∷ b.log }

  used-Holds :
      (d : ℕ) (b : Native H) (h h' : H) → b.bus ≡ live h → Holds th d b → Holds th d (used b h')
  used-Holds d b h h' e v = ground arith

  pub step_library-live :
      (b : Native H) (ms : ℕ) (h : H)
      → b.bus ≡ live h
      → step_library lib b th ms ≡ call_back_all (used b (lib.step h ms).0) (lib.step h ms).1
  unfolding step_library
  step_library-live b ms h e = rw (e, step_library)

  -- A step leaves the handle live, and the object as it was but for the callbacks.
  pub step_library-Holds :
      (d : ℕ) (b : Native H) (ms : ℕ) (h : H)
      → b.bus ≡ live h
      → Holds th d b
      → Holds th d (step_library lib b th ms)
        × (is_live (step_library lib b th ms).bus ≡ true)
        × ((step_library lib b th ms).is_stepping ≡ b.is_stepping)
        × ((step_library lib b th ms).is_stopping ≡ b.is_stopping)
  step_library-Holds d b ms h e v =
      let s = call_back_all-Same (used b (lib.step h ms).0) (lib.step h ms).1 in
      rw (step_library-live b ms h e) (
        Same-Holds th d (used b (lib.step h ms).0) _ s (used-Holds d b h _ e v),
        s.bus,
        s.stepping,
        s.stopping,
      )

  stepping-Holds :
      (d : ℕ) (b : Native H) (s : Bool) → Holds th d b → Holds th d (record b { is_stepping = s })
  stepping-Holds d b s v = ground arith

  pub step_nonblocking-live :
      (b : Native H) (h : H)
      → (b.is_stepping || b.is_stopping) ≡ false
      → b.bus ≡ live h
      → step_nonblocking lib b th
        ≡ record (step_library lib (record b { is_stepping = true }) th 0) { is_stepping = false }
  unfolding step_nonblocking
  step_nonblocking-live b h off e = ground arith

  step_nonblocking-idle :
      (b : Native H)
      → ((b.is_stepping || b.is_stopping) ≡ true) ⊎ (is_live b.bus ≡ false)
      → step_nonblocking lib b th ≡ b
  unfolding step_nonblocking
  step_nonblocking-idle b h = ground arith

  step_nonblocking-IsSound :
      (d : ℕ) (b : Native H)
      → IsSound th d b
      → IsSound th d (step_nonblocking lib b th)
        × (is_live (step_nonblocking lib b th).bus ≡ is_live b.bus)
        × ((step_nonblocking lib b th).is_stopping ≡ b.is_stopping)
  step_nonblocking-IsSound d b v = elim (Bool-cases (b.is_stepping || b.is_stopping)) [
    | inl on ↦ rw (step_nonblocking-idle b (inl on)) (v, refl, refl)
    | inr off ↦ elim (Pointer-cases b.bus) [
      | inr dead ↦ rw (step_nonblocking-idle b (inr dead)) (v, refl, refl)
      | inl (h, e) ↦
          let (k, l, s, t) =
            step_library-Holds d (record b { is_stepping = true }) 0 h e
              (stepping-Holds d b true v.0) in
          rw (step_nonblocking-live b h off e)
            ((stepping-Holds d _ false k, refl), l ∙ sym (ap is_live e), t)
    ]
  ]

  -- A timer takes the place of the one that has fired.
  schedule-IsSound :
      (b : Native H)
      → is_live b.bus ≡ true
      → b.is_stopping ≡ false
      → IsSound th 1 b
      → IsSound th 0 (schedule_poll_timer b)
  unfolding schedule_poll_timer
  schedule-IsSound b l o v = ground arith

  pub on_poll_timer-IsSound :
      (b : Native H) → 0 < b.timers → IsSound th 0 b → IsSound th 0 (on_poll_timer lib b th)
  unfolding on_poll_timer
  on_poll_timer-IsSound b f v = elim (Bool-cases b.is_stopping) [
    | inl on ↦ absurd (ground arith)
    | inr off ↦
        let under_way : IsSound th 1 (record b { has_timer = false; timers = pred b.timers }) =
          ground arith in
        let (k, l, o) = step_nonblocking-IsSound 1 _ under_way in
        rw (if-false b.is_stopping _ _ off) (schedule-IsSound _ (l ∙ (ground arith)) (o ∙ off) k)
  ]

  pub on_poll_ready-IsSound :
      (d : ℕ) (b : Native H) → IsSound th d b → IsSound th d (on_poll_ready lib b th)
  unfolding on_poll_ready
  on_poll_ready-IsSound d b v = elim (Bool-cases b.is_stopping) [
    | inl on ↦ rw (if-true b.is_stopping b (step_nonblocking lib b th) on) v
    | inr off ↦
        rw (if-false b.is_stopping b (step_nonblocking lib b th) off)
          (step_nonblocking-IsSound d b v).0
  ]

  pub run_soon-IsSound : (d : ℕ) (b : Native H) → IsSound th d b → IsSound th d (run_soon lib b th)
  unfolding run_soon
  run_soon-IsSound d b v =
      (step_nonblocking-IsSound d (record b { soon = pred b.soon }) (ground arith)).0

  pub drain-stopped :
      (n : ℕ) (b : Native H) (h : H)
      → b.bus ≡ live h
      → (lib.get_state h == 4) ≡ true
      → drain lib (suc n) th b ≡ record b { log = uses th ∷ b.log }
  unfolding drain
  drain-stopped n b h e s = ground arith

  pub drain-steps :
      (n : ℕ) (b : Native H) (h : H)
      → b.bus ≡ live h
      → (lib.get_state h == 4) ≡ false
      → drain lib (suc n) th b
        ≡ drain lib n th (step_library lib (record b { log = uses th ∷ b.log }) th 1)
  unfolding drain
  drain-steps n b h e s = ground arith

  pub drain-IsSound : (d n : ℕ) (b : Native H) → IsSound th d b → IsSound th d (drain lib n th b)
  unfolding drain
  drain-IsSound d zero b v = v
  drain-IsSound d (suc n) b v = elim (Pointer-cases b.bus) [
    | inr dead ↦ ground arith
    | inl (h, e) ↦ elim (Bool-cases (lib.get_state h == 4)) [
      | inl s ↦ rw (drain-stopped n b h e s) (ground arith)
      | inr s ↦ rw (drain-steps n b h e s) (
          let asked : IsSound th d (record b { log = uses th ∷ b.log }) = ground arith in
          let (k, l, i, t) =
            step_library-Holds d (record b { log = uses th ∷ b.log }) 1 h e asked.0 in
          drain-IsSound d n _ (k, i ∙ asked.1))
    ]
  ]
