-- ===== src/System/Carriers/Wakes.antt =====
-- What wakes the object of stdiobus/backends/native.py, and what the wakes give the client's handler.
use stdiobus_python.Base.{
  ℕ, zero, suc, String, ◌≡◌, refl, ap, ◌∙◌, Bool, none, some, List, [], ◌∷◌, ◌++◌, nat-Eq,
  Option-cases, inl, inr, arith,
}
use stdiobus_python.Backends.Text.{Text}
use stdiobus_python.Backends.Native.State.{Library, Native}
use stdiobus_python.Backends.Native.Starting.{is_some}
use stdiobus_python.Backends.Native.Operations.{on_poll_timer, on_poll_ready, run_soon}
use stdiobus_python.Backends.Native.Events.{step, timer_fires, reader_wakes}
use stdiobus_python.System.Carrier.{Carrier, delivered}
use stdiobus_python.System.Carriers.Embedded.{Wake, by_poll, by_turn, wake, read, heard, embedded}
use stdiobus_python.System.Carriers.Callbacks
use stdiobus_python.System.Carriers.Callbacks.{spoken}

module _ {H : Type 0} (lib : Library H) (th l timeout_ms : ℕ) (can_watch : Bool)
    (to_text : Text → String) (of_text : String → Text) where
  abbrev pub IsAwake : H → ℕ → Native H → Type 0
  IsAwake h n k = Callbacks.IsAwake lib th l timeout_ms can_watch to_text of_text h n k

  abbrev pub IsPolled : Native H → Type 0
  IsPolled k = Callbacks.IsPolled lib th l timeout_ms can_watch to_text of_text k

  abbrev Steps : H → ℕ → Native H → Native H → Type 0
  Steps h n k k' = Callbacks.Steps lib th l timeout_ms can_watch to_text of_text h n k k'

  -- What so many steps of the handle's polling say.
  abbrev pub produced : ℕ → H → List String
  produced n h = Callbacks.produced lib th l timeout_ms can_watch to_text of_text n h

  -- How many of the wakes step the library: each of the polling, and one for each callback in the loop.
  abbrev pub step_count : ℕ → List Wake → ℕ
  step_count n [] = 0
  step_count n (by_poll ∷ ws) = suc (step_count n ws)
  step_count zero (by_turn ∷ ws) = step_count zero ws
  step_count (suc n) (by_turn ∷ ws) = suc (step_count n ws)

  abbrev carried : Carrier
  carried = embedded lib th l timeout_ms can_watch to_text of_text

  abbrev reads : Native H → Wake → Native H × List String
  reads k w = read lib th l timeout_ms can_watch to_text of_text k w

  IsPolled-same :
      (k k' : Native H) → k'.reader ≡ k.reader → k'.timers ≡ k.timers → IsPolled k → IsPolled k'
  IsPolled-same k k' r t (inl s) = inl (ap is_some r ∙ s)
  IsPolled-same k k' r t (inr (n, o)) = inr (r ∙ n, t ∙ o)

  polled_by_reader :
      (k : Native H) (fd : ℕ)
      → k.reader ≡ some fd
      → wake lib th l timeout_ms can_watch to_text of_text k by_poll ≡ on_poll_ready lib k th
  unfolding wake step
  polled_by_reader k fd e =
      ap
        (λ r. elim r as (λ x. Native H) [
          | some f ↦ step lib k (reader_wakes th)
          | none ↦ step lib k (timer_fires th)
        ])
        e
      ∙ ap (λ r. elim r as (λ x. Native H) [ none ↦ k | some f ↦ on_poll_ready lib k th ]) e

  polled_by_timer :
      (k : Native H)
      → k.reader ≡ none
      → k.timers ≡ 1
      → wake lib th l timeout_ms can_watch to_text of_text k by_poll ≡ on_poll_timer lib k th
  unfolding wake step
  polled_by_timer k e one =
      ap
        (λ r. elim r as (λ x. Native H) [
          | some f ↦ step lib k (reader_wakes th)
          | none ↦ step lib k (timer_fires th)
        ])
        e
      ∙ ap (λ n. elim n as (λ x. Native H) [ zero ↦ k | suc m ↦ on_poll_timer lib k th ]) one

  turned :
      (k : Native H) (n : ℕ)
      → k.soon ≡ suc n
      → wake lib th l timeout_ms can_watch to_text of_text k by_turn ≡ run_soon lib k th
  unfolding wake step
  turned k n e = ap (λ m. elim m as (λ x. Native H) [ zero ↦ k | suc m ↦ run_soon lib k th ]) e

  still :
      (k : Native H) → k.soon ≡ 0 → wake lib th l timeout_ms can_watch to_text of_text k by_turn ≡ k
  unfolding wake step
  still k e = ap (λ m. elim m as (λ x. Native H) [ zero ↦ k | suc m ↦ run_soon lib k th ]) e

  -- What a read of one wake does to a handle that is awake and polled.
  abbrev Reads : H → ℕ → Native H × List String → List String → Type 0
  Reads h n (k', ms) said_now = IsAwake h n k' × IsPolled k' × (ms ≡ said_now)

  read-Steps :
      (k k' : Native H) (h : H) (n : ℕ)
      → IsPolled k
      → Steps h n (record k { calls = [] }) k'
      → Reads
          (lib.step h 0).0
          n
          (record k' { calls = [] }, heard lib th l timeout_ms can_watch to_text of_text k'.calls)
          (spoken to_text (lib.step h 0).1)
  read-Steps k k' h n p (v, r, t, says) = (v, IsPolled-same k k' r t p, says)

  reads_poll :
      (k : Native H) (h : H) (n : ℕ)
      → IsAwake h n k
      → IsPolled k
      → Reads (lib.step h 0).0 n (reads k by_poll) (spoken to_text (lib.step h 0).1)
  unfolding read
  reads_poll k h n v p =
      let quiet : Native H = record k { calls = [] } in
      elim (Option-cases k.reader) [
        | inr (fd, e) ↦ rw (polled_by_reader quiet fd e) (
            read-Steps k (on_poll_ready lib quiet th) h n p
              (Callbacks.by_reader lib th l timeout_ms can_watch to_text of_text quiet h n v))
        | inl e ↦
            let one : k.timers ≡ 1 = ground arith in
            rw (polled_by_timer quiet e one) (
              read-Steps k (on_poll_timer lib quiet th) h n p
                (Callbacks.by_timer lib th l timeout_ms can_watch to_text of_text quiet h n v one))
      ]

  reads_turn :
      (k : Native H) (h : H) (n : ℕ)
      → IsAwake h (suc n) k
      → IsPolled k
      → Reads (lib.step h 0).0 n (reads k by_turn) (spoken to_text (lib.step h 0).1)
  unfolding read
  reads_turn k h n v p =
      let quiet : Native H = record k { calls = [] } in
      rw (turned quiet n v.5) (
        read-Steps k (run_soon lib quiet th) h n p
          (Callbacks.by_callback lib th l timeout_ms can_watch to_text of_text quiet h n v))

  reads_still :
      (k : Native H) (h : H) → IsAwake h zero k → IsPolled k → Reads h zero (reads k by_turn) []
  unfolding read
  reads_still k h v p = rw (still (record k { calls = [] }) v.5) (v, p, refl)

  -- Every wake that steps the library gives the client's handler what that step said.
  pub delivered-embedded :
      (ws : List Wake) (k : Native H) (h : H) (n : ℕ)
      → IsAwake h n k
      → IsPolled k
      → delivered carried k ws ≡ produced (step_count n ws) h
  delivered-embedded [] k h n v p = refl
  delivered-embedded (by_poll ∷ ws) k h n v p =
      let (v', p', says) = reads_poll k h n v p in
      ap (λ ms. ms ++ delivered carried (reads k by_poll).0 ws) says
      ∙ ap (λ ms. spoken to_text (lib.step h 0).1 ++ ms)
          (delivered-embedded ws (reads k by_poll).0 (lib.step h 0).0 n v' p')
  delivered-embedded (by_turn ∷ ws) k h zero v p =
      let (v', p', says) = reads_still k h v p in
      ap (λ ms. ms ++ delivered carried (reads k by_turn).0 ws) says
      ∙ delivered-embedded ws (reads k by_turn).0 h zero v' p'
  delivered-embedded (by_turn ∷ ws) k h (suc n) v p =
      let (v', p', says) = reads_turn k h n v p in
      ap (λ ms. ms ++ delivered carried (reads k by_turn).0 ws) says
      ∙ ap (λ ms. spoken to_text (lib.step h 0).1 ++ ms)
          (delivered-embedded ws (reads k by_turn).0 (lib.step h 0).0 n v' p')
