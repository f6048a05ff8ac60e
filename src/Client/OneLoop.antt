-- ===== src/Client/OneLoop.antt =====
-- `StdioBus` of stdiobus/client.py keeps to one loop.
use stdiobus_python.Base.{
  ℕ, String, ◌≡◌, refl, sym, ap, ◌∙◌, false, Option, none, some, List, [], ◌∷◌, Option-cases, inl,
  inr, ◌⊎◌, Bool-cases,
}
use mathlib.Core.Path.{subst}
use stdiobus_python.Base.Int.{ℤ}
use stdiobus_python.Json.{Fields}
use stdiobus_python.Errors.{Exception}
use stdiobus_python.Types.Protocol.{RequestOptions, HelloParams}
use stdiobus_python.Client.State.{Runtime}
use stdiobus_python.Client.Bus
use stdiobus_python.Client.Bus.{Bus, BackendOps, Sent, returned, raised, ready}
use stdiobus_python.Client.Requests.{Wake, notify}
use stdiobus_python.Client.Lifecycle
use stdiobus_python.Client.Run
use stdiobus_python.Client.Run.{stops, destroys, requests, opens_stream, notifies}
use stdiobus_python.Client.Session
use stdiobus_python.Client.Owning.{Stays, send-Stays, stop-Stays, request-Stays, hello-Stays}
use stdiobus_python.Client.Sync
use stdiobus_python.Client.Sync.{StdioBus, Loop, Outcome, done, loop_runs}

-- The bus has no backend, no owning loop, or the loop `l`.
abbrev pub Owned : {B : Type 0} → ℕ → Bus B → Type 0
Owned l b = (b.backend ≡ none) ⊎ ((b.loop ≡ none) ⊎ (b.loop ≡ some l))

-- While the bus has a backend, the loop that owns it, if it has one, is the private loop, and that
-- loop is open.
abbrev pub OnOneLoop : {B : Type 0} → StdioBus B → Type 0
OnOneLoop s =
    (s.bus.backend ≡ none)
    ⊎ ((s.bus.loop ≡ none) ⊎ ((l : ℕ) × (s.bus.loop ≡ some l) × (s.loop ≡ some (Sync.open_loop l))))

Owned-Stays : {B : Type 0} (l : ℕ) (b b' : Bus B) → Stays b b' → Owned l b → Owned l b'
Owned-Stays l b b' (e, n) (inl x) = inl (n x)
Owned-Stays l b b' (e, n) (inr (inl x)) = inr (inl (e ∙ x))
Owned-Stays l b b' (e, n) (inr (inr x)) = inr (inr (e ∙ x))

module _ {B : Type 0} (rt : Runtime) (ops : BackendOps B) where
  start-Owned : (l : ℕ) (b : Bus B) → Owned l (Lifecycle.start ops b l).0
  unfolding Lifecycle.start
  start-Owned l b = elim (Option-cases b.backend) [
    | inl e ↦ rw (e, Lifecycle.start) (inl e)
    | inr (k, e) ↦ rw (e, Lifecycle.start) (inr (inr refl))
  ]

  connect-Owned :
      (l : ℕ) (b : Bus B) (id : String) (params : Option HelloParams) (during : List Run.Event)
      (w : Wake)
      → Owned l (Session.connect rt ops b l id params during w).0
  unfolding Session.connect Session.after_start
  connect-Owned l b id params during w = chosen (Lifecycle.start ops b l) params (start-Owned l b)
    where
      after : (r : Bus B × Session.Greeted) → Owned l r.0 → Owned l (Session.after_hello rt ops r).0
      after (c, Session.greeted h) o = o
      after (c, Session.not_greeted r) o = o

      chosen :
          (r : Bus B × Option Exception) (ps : Option HelloParams)
          → Owned l r.0
          → Owned l (Session.after_start rt ops r id ps during w).0
      chosen (c, some x) ps o = o
      chosen (c, none) none o = o
      chosen (c, none) (some p) o = after (Session.hello rt ops c id p during w) (
          Owned-Stays l c (Session.hello rt ops c id p during w).0
            (hello-Stays rt ops c id p during w) o)

-- The calls of a user whose thread runs no loop.
pub data Call : Type 0 where
  calls_start calls_stop calls_destroy : Call
  calls_connect : String → Option HelloParams → List Run.Event → Wake → Call
  calls_hello : String → HelloParams → List Run.Event → Wake → Call
  calls_request :
      (msg_id method : String)
      → Option Fields
      → Option ℤ
      → Option String
      → RequestOptions
      → List Run.Event
      → Wake
      → Call
  calls_notify : String → Option Fields → RequestOptions → Call
  calls_send : String → Call

module _ {B : Type 0} (rt : Runtime) (ops : BackendOps B) where
  unfoldable pub call : StdioBus B → Call → StdioBus B
  call s calls_start = (Sync.start rt ops s none).0
  call s calls_stop = (Sync.stop rt ops s none).0
  call s calls_destroy = (Sync.destroy rt ops s none).0
  call s (calls_connect id params during w) = (Sync.connect rt ops s none id params during w).0
  call s (calls_hello id p during w) = (Sync.hello rt ops s none id p during w).0
  call s (calls_request id method params timeout session opts during w) =
      (Sync.request rt ops s none id method params timeout session opts during w).0
  call s (calls_notify method params opts) = (Sync.notify rt ops s none method params opts).0
  call s (calls_send m) = (Sync.send rt ops s none m).0

  unfoldable pub call_all : StdioBus B → List Call → StdioBus B
  unfolding call
  call_all s [] = s
  call_all s (c ∷ cs) = call_all (call s c) cs

  Owned-OnOneLoop :
      (s : StdioBus B) (l : ℕ) → s.loop ≡ some (Sync.open_loop l) → Owned l s.bus → OnOneLoop s
  Owned-OnOneLoop s l at (inl e) = inl e
  Owned-OnOneLoop s l at (inr (inl e)) = inr (inl e)
  Owned-OnOneLoop s l at (inr (inr e)) = inr (inr (l, e, at))

  sent-OnOneLoop :
      (s : StdioBus B) (b : Bus B) → Stays s.bus b → OnOneLoop s → OnOneLoop (record s { bus = b })
  sent-OnOneLoop s b (e, n) (inl x) = inl (n x)
  sent-OnOneLoop s b (e, n) (inr (inl x)) = inr (inl (e ∙ x))
  sent-OnOneLoop s b (e, n) (inr (inr (l, x, at))) = inr (inr (l, e ∙ x, at))

  get_loop-found :
      (s : StdioBus B)
      → ((Sync.get_loop s none).0.bus ≡ s.bus)
        × ((Sync.get_loop s none).0.loop ≡ some (Sync.open_loop (Sync.get_loop s none).1))
  unfolding Sync.get_loop
  get_loop-found s = elim (Option-cases s.loop) [
    | inl e ↦ rw (e, Sync.get_loop) (refl, refl)
    | inr (l, e) ↦ elim (Bool-cases l.is_closed) [
      | inl c ↦ rw (e, Sync.get_loop) (rw c (refl, refl))
      | inr c ↦ rw (e, Sync.get_loop) (rw c (refl, e ∙ ap some (same_loop l c)))
    ]
  ]
    where
      same_loop : (l : Loop) → l.is_closed ≡ false → l ≡ Sync.open_loop l.number
      same_loop l c = ap (λ c. record l { is_closed = c }) c

  get_loop-Owned : (s : StdioBus B) → OnOneLoop s → Owned (Sync.get_loop s none).1 s.bus
  unfolding Sync.get_loop
  get_loop-Owned s (inl e) = inl e
  get_loop-Owned s (inr (inl e)) = inr (inl e)
  get_loop-Owned s (inr (inr (l, e, at))) = inr (inr (rw (at, Sync.get_loop) e))

  run-OnOneLoop :
      {A : Type 0} (s : StdioBus B) (coro : ℕ → Bus B → Bus B × A)
      → ((l : ℕ) (b : Bus B) → Owned l b → Owned l (coro l b).0)
      → OnOneLoop s
      → OnOneLoop (Sync.run s none coro).0
  unfolding Sync.run
  run-OnOneLoop s coro keeps v =
      let (same, found) = get_loop-found s in
      let l = (Sync.get_loop s none).1 in
      let b = (coro l (Sync.get_loop s none).0.bus).0 in
      Owned-OnOneLoop (record (Sync.get_loop s none).0 { bus = b }) l found
        (keeps l (Sync.get_loop s none).0.bus (subst (Owned l) (sym same) (get_loop-Owned s v)))

  destroy-OnOneLoop : (s : StdioBus B) → OnOneLoop (Sync.destroy rt ops s none).0
  unfolding Sync.destroy Lifecycle.destroy
  destroy-OnOneLoop s = elim (Option-cases s.loop) [
    | inl e ↦ rw (e, Sync.destroy) (inl refl)
    | inr (l, e) ↦ elim (Bool-cases l.is_closed) [
      | inl c ↦ rw (e, Sync.destroy) (rw c (inl refl))
      | inr c ↦ rw (e, Sync.destroy) (rw c (inl refl))
    ]
  ]

  call-OnOneLoop : (s : StdioBus B) (c : Call) → OnOneLoop s → OnOneLoop (call s c)
  unfolding call Sync.start Sync.stop Sync.connect Sync.hello Sync.request Sync.notify Sync.send
      notify
  call-OnOneLoop s calls_start v =
      run-OnOneLoop s (λ l b. Lifecycle.start ops b l) (λ l b o. start-Owned rt ops l b) v
  call-OnOneLoop s calls_stop v =
      run-OnOneLoop s (λ l b. (Lifecycle.stop ops b, tt))
        (λ l b o. Owned-Stays l b (Lifecycle.stop ops b) (stop-Stays rt ops b) o) v
  call-OnOneLoop s calls_destroy v = destroy-OnOneLoop s
  call-OnOneLoop s (calls_connect id params during w) v =
      run-OnOneLoop s (λ l b. Session.connect rt ops b l id params during w)
        (λ l b o. connect-Owned rt ops l b id params during w) v
  call-OnOneLoop s (calls_hello id p during w) v =
      run-OnOneLoop s (λ l b. Session.hello rt ops b id p during w)
        (λ l b o.
          Owned-Stays l b (Session.hello rt ops b id p during w).0
            (hello-Stays rt ops b id p during w) o)
        v
  call-OnOneLoop s (calls_request id method params timeout session opts during w) v =
      run-OnOneLoop s
        (λ l b. Session.request rt ops b id method params timeout session opts during w)
        (λ l b o.
          Owned-Stays l b
            (Session.request rt ops b id method params timeout session opts during w).0
            (request-Stays rt ops b id method params timeout session opts during w) o)
        v
  call-OnOneLoop s (calls_notify method params opts) v =
      run-OnOneLoop s (λ l b. notify rt ops b method params opts)
        (λ l b o. Owned-Stays l b (notify rt ops b method params opts).0 (send-Stays rt ops b _) o)
        v
  call-OnOneLoop s (calls_send m) v =
      sent-OnOneLoop s (Bus.send ops s.bus m).0 (send-Stays rt ops s.bus m) v

  -- Whatever a user does in a thread without a running loop, from a state in which it holds, as in the
  -- beginning: while the bus has a backend, the loop that owns it, if it has one, is the wrapper's
  -- private loop, and that loop is open.
  pub call_all-OnOneLoop :
      (s : StdioBus B) (cs : List Call) → OnOneLoop s → OnOneLoop (call_all s cs)
  unfolding call_all
  call_all-OnOneLoop s [] v = v
  call_all-OnOneLoop s (c ∷ cs) v = call_all-OnOneLoop (call s c) cs (call-OnOneLoop s c v)
