-- ===== src/System/Carriers/Callbacks.antt =====
-- What the C library's callbacks of stdiobus/backends/native.py give the client's handler.
use stdiobus_python.Base.{
  ℕ, zero, suc, String, ◌≡◌, refl, sym, ap, ◌∙◌, Bool, true, false, ◌||◌, not, Option, none, some,
  List, [], ◌∷◌, ◌++◌, ◌==◌, nat-Eq, Bool-cases, Option-cases, inl, inr, ◌⊎◌, arith, if-false,
}
use mathlib.Core.List.{append_assoc, append-nil}
use stdiobus_python.Backends.Text.{Text, Handled, handled_all}
use stdiobus_python.Backends.Utf8.{decode}
use stdiobus_python.Backends.Native.State.{
  Library, Native, live, Callback, message, worker_event, c_string, call_back, call_back_all,
}
use stdiobus_python.Backends.Native.Starting.{is_some, schedule_poll_timer}
use stdiobus_python.Backends.Native.Operations.{
  pred, on_poll_timer, on_poll_ready, run_soon, step_nonblocking,
}
use stdiobus_python.Backends.Native.Driven.{used, step_nonblocking-live, step_library-live}
use stdiobus_python.System.{client_handler}
use stdiobus_python.System.Carriers.Embedded.{heard}

module _ {H : Type 0} where
  -- What the callbacks leave alone.
  abbrev Like : Native H → Native H → Type 0
  Like b b' =
      (b'.bus ≡ b.bus)
      × (b'.message_handlers ≡ b.message_handlers)
      × (b'.is_stopping ≡ b.is_stopping)
      × (b'.is_stepping ≡ b.is_stepping)
      × (b'.loop ≡ b.loop)
      × (b'.reader ≡ b.reader)
      × (b'.timers ≡ b.timers)
      × (b'.soon ≡ b.soon)

  Like-trans : (a b c : Native H) → Like a b → Like b c → Like a c
  Like-trans a b c x y = ground arith

  call_back-Like : (b : Native H) (c : Callback) → Like b (call_back b c)
  unfolding call_back
  call_back-Like b (message m) = ground arith
  call_back-Like b (worker_event m) = ground arith

  call_back_all-Like : (b : Native H) (cs : List Callback) → Like b (call_back_all b cs)
  unfolding call_back_all
  call_back_all-Like b [] = (refl, refl, refl, refl, refl, refl, refl, refl)
  call_back_all-Like b (c ∷ cs) =
      Like-trans b (call_back b c) (call_back_all (call_back b c) cs) (call_back-Like b c)
        (call_back_all-Like (call_back b c) cs)

module _ (to_text : Text → String) where
  -- The text of a callback's message, up to a first NUL, where it decodes.
  abbrev pub said : Callback → List String
  said (worker_event m) = []
  said (message m) = elim (decode (c_string m)) [ none ↦ [] | some t ↦ to_text t ∷ [] ]

  said_at :
      (m : List ℕ) (o : Option Text)
      → decode (c_string m) ≡ o
      → said (message m) ≡ (elim o [ none ↦ [] | some t ↦ to_text t ∷ [] ])
  said_at m o e = ap (λ x. elim x as (λ y. List String) [ none ↦ [] | some t ↦ to_text t ∷ [] ]) e

  abbrev pub spoken : List Callback → List String
  spoken [] = []
  spoken (c ∷ cs) = said c ++ spoken cs

module _ {H : Type 0} (lib : Library H) (th l timeout_ms : ℕ) (can_watch : Bool)
    (to_text : Text → String) (of_text : String → Text) where
  abbrev pub hears : List Handled → List String
  hears cs = heard lib th l timeout_ms can_watch to_text of_text cs

  hears-append : (cs ds : List Handled) → hears (cs ++ ds) ≡ hears cs ++ hears ds
  hears-append [] ds = refl
  hears-append (c ∷ cs) ds = elim (Bool-cases (c.handler == client_handler)) [
    | inl mine ↦ rw mine (ap (◌∷◌ (to_text c.line)) (hears-append cs ds))
    | inr other ↦ rw other (hears-append cs ds)
  ]

  hears-call_back :
      (b : Native H) (c : Callback)
      → b.message_handlers ≡ client_handler ∷ []
      → hears (call_back b c).calls ≡ hears b.calls ++ said to_text c
  unfolding call_back
  hears-call_back b (worker_event m) h = ap hears (events b m) ∙ sym (append-nil (hears b.calls))
    where
      events : (b : Native H) (m : List ℕ) → (call_back b (worker_event m)).calls ≡ b.calls
      events b m = ground arith
  hears-call_back b (message m) h = elim (Option-cases (decode (c_string m))) [
    | inl e ↦
        rw (e, call_back)
          (sym
            (ap (λ x. hears b.calls ++ x) (said_at to_text m none e) ∙ append-nil (hears b.calls)))
    | inr (t, e) ↦
        rw (e, call_back)
          (ap (λ hs. hears (b.calls ++ handled_all hs t)) h
            ∙ hears-append b.calls (handled_all (client_handler ∷ []) t)
            ∙ ap (λ x. hears b.calls ++ x) (sym (said_at to_text m (some t) e)))
  ]

  hears-call_back_all :
      (b : Native H) (cs : List Callback)
      → b.message_handlers ≡ client_handler ∷ []
      → hears (call_back_all b cs).calls ≡ hears b.calls ++ spoken to_text cs
  unfolding call_back_all
  hears-call_back_all b [] h = sym (append-nil (hears b.calls))
  hears-call_back_all b (c ∷ cs) h =
      hears-call_back_all (call_back b c) cs ((call_back-Like b c).1 ∙ h)
      ∙ ap (λ x. x ++ spoken to_text cs) (hears-call_back b c h)
      ∙ append_assoc (hears b.calls) (said to_text c) (spoken to_text cs)

  -- The handle after so many steps of its polling, and what these say.
  abbrev pub stepped : ℕ → H → H
  stepped zero h = h
  stepped (suc n) h = stepped n (lib.step h 0).0

  abbrev pub produced : ℕ → H → List String
  produced zero h = []
  produced (suc n) h = spoken to_text (lib.step h 0).1 ++ produced n (lib.step h 0).0

  -- A handle that can be stepped, with the client as its only listener, and so many callbacks in the
  -- loop; and what polls it.
  abbrev pub IsAwake : H → ℕ → Native H → Type 0
  IsAwake h n k =
      (k.bus ≡ live h)
      × (k.message_handlers ≡ client_handler ∷ [])
      × (k.is_stopping ≡ false)
      × (k.is_stepping ≡ false)
      × (is_some k.loop ≡ true)
      × (k.soon ≡ n)

  abbrev pub IsPolled : Native H → Type 0
  IsPolled k = (is_some k.reader ≡ true) ⊎ ((k.reader ≡ none) × (k.timers ≡ 1))

  -- A step, and what it adds to the handlers' calls.
  abbrev pub Steps : H → ℕ → Native H → Native H → Type 0
  Steps h n k k' =
      IsAwake (lib.step h 0).0 n k'
      × (k'.reader ≡ k.reader)
      × (k'.timers ≡ k.timers)
      × (hears k'.calls ≡ hears k.calls ++ spoken to_text (lib.step h 0).1)

  steps : (k : Native H) (h : H) (n : ℕ) → IsAwake h n k → Steps h n k (step_nonblocking lib k th)
  steps k h n (e, hs, st, sp, lo, so) =
      let busy : Native H = record k { is_stepping = true } in
      let l = call_back_all-Like (used th lib busy (lib.step h 0).0) (lib.step h 0).1 in
      let said_all = hears-call_back_all (used th lib busy (lib.step h 0).0) (lib.step h 0).1 hs in
      rw
        (
          step_nonblocking-live th lib k h (ap (λ x. x || k.is_stopping) sp ∙ st) e,
          step_library-live th lib busy 0 h e,
        )
        ((l.0, l.1 ∙ hs, l.2 ∙ st, refl, ap is_some l.4 ∙ lo, l.7 ∙ so), l.5, l.6, said_all)

  pub by_reader :
      (k : Native H) (h : H) (n : ℕ) → IsAwake h n k → Steps h n k (on_poll_ready lib k th)
  unfolding on_poll_ready
  by_reader k h n v = rw (if-false k.is_stopping k (step_nonblocking lib k th) v.2) (steps k h n v)

  schedule_on :
      (b : Native H)
      → b.is_stopping ≡ false
      → is_some b.loop ≡ true
      → schedule_poll_timer b ≡ record b { has_timer = true; timers = suc b.timers }
  unfolding schedule_poll_timer
  schedule_on b s lo = if-false _ _ _ (ap (λ x. x || not (is_some b.loop)) s ∙ ap not lo)

  pub by_timer :
      (k : Native H) (h : H) (n : ℕ)
      → IsAwake h n k
      → k.timers ≡ 1
      → Steps h n k (on_poll_timer lib k th)
  unfolding on_poll_timer
  by_timer k h n v t =
      let fired : Native H = record k { has_timer = false; timers = pred k.timers } in
      let ((e, hs, st, sp, lo, so), r, tm, says) = steps fired h n v in
      rw (if-false k.is_stopping fired (schedule_poll_timer (step_nonblocking lib fired th)) v.2) (
        rw (schedule_on (step_nonblocking lib fired th) st lo)
          ((e, hs, st, sp, lo, so), r, ap suc tm ∙ ap (λ x. suc (pred x)) t ∙ sym t, says))

  pub by_callback :
      (k : Native H) (h : H) (n : ℕ) → IsAwake h (suc n) k → Steps h n k (run_soon lib k th)
  unfolding run_soon
  by_callback k h n (e, hs, st, sp, lo, so) =
      steps (record k { soon = pred k.soon }) h n (e, hs, st, sp, lo, ap pred so)
