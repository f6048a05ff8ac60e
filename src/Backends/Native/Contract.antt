-- ===== src/Backends/Native/Contract.antt =====
-- The contract of the C library behind stdiobus/backends/native.py, as an automaton over its calls, and
-- that `NativeBackend` keeps to it.
use stdiobus_python.Base.{
  ℕ, ◌+◌, ◌≡◌, Bool, true, false, ◌&&◌, not, Option, none, some, List, [], ◌∷◌, arith, ◌==◌, nat-Eq,
  if◌then◌else◌,
}
use stdiobus_python.Backends.Native.State.{
  Library, Native, Pointer, live, LibraryCall, creates, launches, uses, destroys, Callback, message,
  worker_event, call_back, call_back_all,
}
use stdiobus_python.Backends.Native.Starting.{is_some, attach}

-- No handle, one that was created on a thread, or one that was started there.
pub data Phase : Type 0 where
  no_handle : Phase
  made : ℕ → Phase
  launched : ℕ → Phase

-- A handle is created, started, used and destroyed by one thread; one that did not start is only
-- destroyed, and one that is destroyed is not used again.
abbrev pub allow : Phase → LibraryCall → Option Phase
allow no_handle (creates t true) = some (made t)
allow no_handle (creates t false) = some no_handle
allow (made o) (launches t true) = if t == o then some (launched o) else none
allow (made o) (launches t false) = if t == o then some (made o) else none
allow (made o) (destroys t) = if t == o then some no_handle else none
allow (launched o) (uses t) = if t == o then some (launched o) else none
allow (launched o) (destroys t) = if t == o then some no_handle else none
allow _ _ = none

-- The calls, the newest first.
abbrev pub replay : List LibraryCall → Option Phase
replay [] = some no_handle
replay (c ∷ log) = elim (replay log) [ none ↦ none | some p ↦ allow p c ]

abbrev pub is_live : {H : Type 0} → Pointer H → Bool
is_live (live h) = true
is_live _ = false

abbrev pub phase_of : {H : Type 0} → ℕ → Pointer H → Phase
phase_of th p = if is_live p then launched th else no_handle

abbrev pub count_of : Option ℕ → ℕ
count_of none = 0
count_of (some n) = 1

module _ {H : Type 0} where
  -- What the callbacks do is of no concern here.
  pub record Same (b b' : Native H) : Type 0 where
    pub bus : is_live b'.bus ≡ is_live b.bus
    pub log : b'.log ≡ b.log
    pub stopping : b'.is_stopping ≡ b.is_stopping
    pub stepping : b'.is_stepping ≡ b.is_stepping
    pub reader : b'.reader ≡ b.reader
    pub timers : b'.timers ≡ b.timers
    pub poll_fd : b'.poll_fd ≡ b.poll_fd
    pub has_timer : b'.has_timer ≡ b.has_timer
    pub loop : b'.loop ≡ b.loop
    pub thread : b'.thread ≡ b.thread

  call_back-Same : (b : Native H) (c : Callback) → Same b (call_back b c)
  unfolding call_back
  call_back-Same b (message m) = ground arith
  call_back-Same b (worker_event m) = ground arith

  Same-trans : (a b c : Native H) → Same a b → Same b c → Same a c
  Same-trans a b c x y = ground arith

  pub call_back_all-Same : (b : Native H) (cs : List Callback) → Same b (call_back_all b cs)
  unfolding call_back_all
  call_back_all-Same b [] = ground arith
  call_back_all-Same b (c ∷ cs) =
      Same-trans b (call_back b c) (call_back_all (call_back b c) cs) (call_back-Same b c)
        (call_back_all-Same (call_back b c) cs)

module _ {H : Type 0} (th d : ℕ) where
  -- The calls so far keep to the contract, and their end is the handle that the object has; a handle
  -- that is not stopping is driven by a reader or by a timer, and not by both, and nothing else has one.
  -- While a timer's callback runs, that is the `d`.
  pub record Holds (b : Native H) : Type 0 where
    pub accepted : replay b.log ≡ some (phase_of th b.bus)
    pub driven :
        d + count_of b.reader + b.timers ≡ (if is_live b.bus && not b.is_stopping then 1 else 0)
    pub watched : b.reader ≡ b.poll_fd
    pub timed : b.timers ≡ (if b.has_timer then 1 else 0)
    pub looped : is_live b.bus ≡ true → is_some b.loop ≡ true
    pub homed : is_live b.bus ≡ true → b.thread ≡ some th

  abbrev pub IsSound : Native H → Type 0
  IsSound b = Holds b × (b.is_stepping ≡ false)

  pub Same-Holds : (b b' : Native H) → Same b b' → Holds b → Holds b'
  Same-Holds b b' s v = ground arith

  pub attach-Holds :
      (lib : Library H) (b : Native H) (h : H) (l : ℕ) (w : Bool)
      → replay b.log ≡ some (launched th)
      → b.reader ≡ none
      → b.timers ≡ 0
      → b.has_timer ≡ false
      → d ≡ 0
      → Holds (attach lib b h l th w)
  unfolding attach
  attach-Holds lib b h l w a r t n z = ground arith
