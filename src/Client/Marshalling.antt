-- ===== src/Client/Marshalling.antt =====
-- The thread shim `_handle_message` of stdiobus/client.py: messages from another thread are handled
-- on the owning loop, none lost and in the order of arrival.
use mathlib.Core.List.{append_assoc, append-nil}
use stdiobus_python.Base.{
  ℕ, String, ◌≡◌, ◌≢◌, refl, ◌∙◌, Option, none, some, List, [], ◌∷◌, ◌++◌, ◌==◌, nat-Eq, nat_eq_iff,
  Bool-cases, inl, inr,
}
use stdiobus_python.Client.State.{Client, Runtime}
use stdiobus_python.Client.Loop.{
  Shim, handle_message, handle_message_on_loop, handle_all, run_scheduled,
}

module _ (rt : Runtime) where
  -- The backend's thread, whose running loop is not the owning one, hands over its messages.
  unfoldable pub post_all : Shim → Option ℕ → List String → Shim
  post_all s running [] = s
  post_all s running (m ∷ ms) = post_all (handle_message rt s running m).0 running ms

  abbrev pub IsForeign : ℕ → Option ℕ → Type 0
  IsForeign l none = Unit {0}
  IsForeign l (some r) = r ≢ l

  -- The client `c` with the owning loop `l`, where `q` waits.
  abbrev pub owned : Client → ℕ → List String → Shim
  owned c l q = record { client = c; loop = some l; scheduled = q }

  post_one :
      (c : Client) (l : ℕ) (q : List String) (running : Option ℕ) (m : String)
      → IsForeign l running
      → handle_message rt (owned c l q) running m ≡ (owned c l (q ++ m ∷ []), none)
  unfolding handle_message
  post_one c l q none m f = refl
  post_one c l q (some r) m f = elim (Bool-cases (r == l)) [
    | inl same ↦ absurd (f ((nat_eq_iff r l).0 same))
    | inr other ↦ rw other
  ]

  post_many :
      (ms : List String) (c : Client) (l : ℕ) (q : List String) (running : Option ℕ)
      → IsForeign l running
      → post_all (owned c l q) running ms ≡ owned c l (q ++ ms)
  unfolding post_all
  post_many [] c l q running f = simp append-nil
  post_many (m ∷ ms) c l q running f =
      rw (post_one c l q running m f) (post_many ms c l (q ++ m ∷ []) running f ∙ simp append_assoc)

  -- Messages from another thread change nothing until the owning loop runs; then the client is what
  -- it would be if each had been handled on the loop, in the order in which they came.
  pub marshalled :
      (c : Client) (l : ℕ) (running : Option ℕ) (ms : List String)
      → IsForeign l running
      → ((post_all (owned c l []) running ms).client ≡ c)
        × (run_scheduled rt (post_all (owned c l []) running ms) ≡ owned (handle_all rt c ms) l [])
  unfolding run_scheduled
  marshalled c l running ms f = rw (post_many ms c l [] running f) (refl, refl)

  -- On the owning loop each message is handled at once, and nothing is scheduled.
  pub handled_inline :
      (ms : List String) (c : Client) (l : ℕ)
      → post_all (owned c l []) (some l) ms ≡ owned (handle_all rt c ms) l []
  unfolding post_all handle_message handle_all
  handled_inline [] c l = refl
  handled_inline (m ∷ ms) c l =
      rw ((nat_eq_iff l l).1 refl) (handled_inline ms (handle_message_on_loop rt c m).0 l)
