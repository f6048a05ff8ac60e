-- ===== src/Base/Heap.antt =====
-- Objects by address: changing each object that a list of addresses names, and the addresses that a
-- dictionary holds.
use stdiobus_python.Base.Lists.{In, Distinct, update, update_self, update_ne}
use stdiobus_python.Base.Dict.{Dict, get, put, remove, values, get-remove}
use stdiobus_python.Base.Tests.{◌==◌, nat-Eq, string-Eq, Bool-cases}
use text.Mathlib.TextEquality.{eq_iff}
use Prim.Native.Nat.{ℕ}
use Prim.Native.String.{String}
use mathlib.Core.Path.{◌≡◌, refl, sym, ap, subst, ◌∙◌}
use mathlib.Core.Logic.{◌≢◌, ◌⊎◌, inl, inr}
use mathlib.Core.List.{List, [], ◌∷◌}
use mathlib.Core.Option.{some}
use native.Mathlib.Omega.{arith}

-- `for p in ps: f(p)`, where `f` changes the object at `p` alone.
unfoldable pub for_each {ℓ} : {A : Type ℓ} → (A → A) → List ℕ → (ℕ → A) → ℕ → A
for_each f [] h = h
for_each f (p ∷ ps) h = for_each f ps (update h p (f (h p)))

module _ {ℓ} {A : Type ℓ} (f : A → A) where
  pub for_each-not_In : (ps : List ℕ) (h : ℕ → A) (q : ℕ) → ¬ In q ps → for_each f ps h q ≡ h q
  unfolding for_each
  for_each-not_In [] h q out = refl
  for_each-not_In (p ∷ ps) h q out =
      for_each-not_In ps (update h p (f (h p))) q (λ i. out (inr i))
      ∙ update_ne h p q (f (h p)) (λ e. out (inl e))

  pub for_each-In :
      (ps : List ℕ) (h : ℕ → A) (q : ℕ) → Distinct ps → In q ps → for_each f ps h q ≡ f (h q)
  unfolding for_each
  for_each-In [] h q d i = elim i [ ]
  for_each-In (p ∷ ps) h q d (inl e) =
      for_each-not_In ps (update h p (f (h p))) q (λ i. d.0 (subst (λ x. In x ps) e i))
      ∙ rw e (update_self h p (f (h p)))
  for_each-In (p ∷ ps) h q d (inr i) =
      for_each-In ps (update h p (f (h p))) q d.1 i
      ∙ ap f (update_ne h p q (f (h p)) (λ e. d.0 (subst (λ x. In x ps) e i)))

pub get-In : (d : Dict ℕ) (k : String) (p : ℕ) → get d k ≡ some p → In p (values d)
unfolding get
get-In [] k p e = cc
get-In ((j, v) ∷ d) k p e = elim (Bool-cases (j == k)) [
  | inl same ↦ inl (ground arith)
  | inr other ↦ inr (get-In d k p (ground arith))
]

pub In-remove : (d : Dict ℕ) (k : String) (p : ℕ) → In p (values (remove d k)) → In p (values d)
unfolding remove
In-remove [] k p i = i
In-remove ((j, v) ∷ d) k p i = elim (Bool-cases (j == k)) [
  | inl same ↦ inr (In-remove d k p (rw same at i))
  | inr other ↦ elim (rw other at i) [ inl e ↦ inl e | inr r ↦ inr (In-remove d k p r) ]
]

pub remove-Distinct :
    (d : Dict ℕ) (k : String) → Distinct (values d) → Distinct (values (remove d k))
unfolding remove
remove-Distinct [] k h = tt
remove-Distinct ((j, v) ∷ d) k h = elim (Bool-cases (j == k)) [
  | inl same ↦ rw same (remove-Distinct d k h.1)
  | inr other ↦ rw other ((λ i. h.0 (In-remove d k v i)), remove-Distinct d k h.1)
]

-- The object under a key that is removed is in the table no more.
pub remove_out :
    (d : Dict ℕ) (k : String) (p : ℕ)
    → Distinct (values d)
    → get d k ≡ some p
    → ¬ In p (values (remove d k))
unfolding get remove
remove_out [] k p h e i = i
remove_out ((j, v) ∷ d) k p h e i = elim (Bool-cases (j == k)) [
  | inl same ↦ h.0 (subst (λ x. In x (values d)) (ground arith) (In-remove d k p (rw same at i)))
  | inr other ↦ elim (rw other at i) [
    | inl here ↦ h.0 (subst (λ x. In x (values d)) here (get-In d k p (ground arith)))
    | inr there ↦ remove_out d k p h.1 (ground arith) there
  ]
]

-- Another object stays.
pub In-remove_other :
    (d : Dict ℕ) (k : String) (p q : ℕ)
    → get d k ≡ some p
    → Distinct (values d)
    → q ≢ p
    → (j : String) → get d j ≡ some q
    → get (remove d k) j ≡ some q
In-remove_other d k p q e h ne j g = rw get-remove (ground (arith, eq_iff k j))

pub In-put :
    (d : Dict ℕ) (k : String) (v p : ℕ) → In p (values (put d k v)) → In p (values d) ⊎ (p ≡ v)
unfolding put
In-put [] k v p (inl e) = inr e
In-put [] k v p (inr i) = elim i [ ]
In-put ((j, w) ∷ d) k v p i = elim (Bool-cases (j == k)) [
  | inl same ↦ elim (rw same at i) [ inl e ↦ inr e | inr r ↦ inl (inr r) ]
  | inr other ↦ elim (rw other at i) [
    | inl e ↦ inl (inl e)
    | inr r ↦ elim (In-put d k v p r) [ inl s ↦ inl (inr s) | inr e ↦ inr e ]
  ]
]

pub put-Distinct :
    (d : Dict ℕ) (k : String) (v : ℕ)
    → Distinct (values d)
    → ¬ In v (values d)
    → Distinct (values (put d k v))
unfolding put
put-Distinct [] k v h out = ((λ i. i), tt)
put-Distinct ((j, w) ∷ d) k v h out = elim (Bool-cases (j == k)) [
  | inl same ↦ rw same ((λ i. out (inr i)), h.1)
  | inr other ↦ rw other (
    (λ i. elim (In-put d k v w i) [ inl s ↦ h.0 s | inr e ↦ out (inl (sym e)) ]),
    put-Distinct d k v h.1 (λ i. out (inr i)),
  )
]
