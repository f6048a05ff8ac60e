-- ===== src/Backends/Native/Kept.antt =====
-- The start, the end, `send` and the queries of `NativeBackend` in stdiobus/backends/native.py keep to the
-- library's contract.
use stdiobus_python.Base.{
  ℕ, ◌≡◌, refl, ◌∙◌, Bool, false, arith, nat-Eq, Bool-cases, Option-cases, inl, inr,
}
use stdiobus_python.Backends.Text.{Text}
use stdiobus_python.Backends.Native.State.{Library, Native, live, Source, listener}
use stdiobus_python.Backends.Native.Starting.{is_ok, attach, keeps, launch, start}
use stdiobus_python.Backends.Native.Operations.{
  begin_stop, ingest, send, destroy, on_loop_thread, on_message,
}
use stdiobus_python.Backends.Native.Questions.{
  get_state, get_stats, get_worker_count, get_client_count,
}
use stdiobus_python.Backends.Native.Contract.{is_live, IsSound, attach-Holds}

module _ {H : Type 0} (th : ℕ) (lib : Library H) where
  attach-stepping :
      (b : Native H) (h : H) (l : ℕ) (w : Bool)
      → (attach lib b h l th w).is_stepping ≡ b.is_stepping
  unfolding attach
  attach-stepping b h l w = ground arith

  launch-IsSound :
      (b : Native H) (s : Source) (l : ℕ) (w : Bool)
      → is_live b.bus ≡ false
      → IsSound th 0 b
      → IsSound th 0 (launch lib b s l th w).0
  unfolding launch
  launch-IsSound b s l w dead v = elim (Option-cases (lib.create s (listener b))) [
    | inl e ↦ rw (e, launch) (ground arith)
    | inr (h, e) ↦ elim (Bool-cases (is_ok (lib.start h).1)) [
      | inl ok ↦
          rw (e, launch)
            (simp ok (
              attach-Holds th 0 lib (keeps lib b s th) (lib.start h).0 l w (ground arith)
                  (ground arith) (ground arith) (ground arith) refl,
              attach-stepping (keeps lib b s th) (lib.start h).0 l w ∙ v.1,
            ))
      | inr bad ↦ rw (e, launch) (simp bad (ground arith))
    ]
  ]

  pub start-IsSound :
      (b : Native H) (l : ℕ) (w : Bool) → IsSound th 0 b → IsSound th 0 (start lib b l th w).0
  unfolding start
  start-IsSound b l w v = ground (arith)

  pub begin_stop-IsSound :
      (b : Native H) (h : H) (t : ℕ)
      → b.bus ≡ live h
      → IsSound th 0 b
      → IsSound th 0 (begin_stop lib b h th t)
  unfolding begin_stop
  begin_stop-IsSound b h t e v = ground arith

  pub destroy-IsSound : (b : Native H) → IsSound th 0 b → IsSound th 0 (destroy b th)
  unfolding destroy
  destroy-IsSound b v = ground arith

  pub send-IsSound :
      (b : Native H) (t : ℕ) (m : Text) → IsSound th 0 b → IsSound th 0 (send lib b t m).0
  unfolding send ingest on_loop_thread
  send-IsSound b t m v = ground arith

  pub get_state-IsSound : (b : Native H) → IsSound th 0 b → IsSound th 0 (get_state lib b th).0
  unfolding get_state
  get_state-IsSound b v = ground arith

  pub get_stats-IsSound : (b : Native H) → IsSound th 0 b → IsSound th 0 (get_stats lib b th).0
  unfolding get_stats
  get_stats-IsSound b v = ground arith

  pub get_worker_count-IsSound :
      (b : Native H) → IsSound th 0 b → IsSound th 0 (get_worker_count lib b th).0
  unfolding get_worker_count
  get_worker_count-IsSound b v = ground arith

  pub on_message-IsSound : (b : Native H) (n : ℕ) → IsSound th 0 b → IsSound th 0 (on_message b n)
  unfolding on_message
  on_message-IsSound b n v = ground arith

  pub get_client_count-IsSound :
      (b : Native H) → IsSound th 0 b → IsSound th 0 (get_client_count lib b th).0
  unfolding get_client_count
  get_client_count-IsSound b v = ground arith
