-- ===== src/Base/Dict.antt =====
-- Python's `dict` with text keys: an association list in the order of insertion.
use Prim.Native.String.{String}
use mathlib.Core.Path.{◌≡◌, refl}
use mathlib.Core.List.{List, [], ◌∷◌}
use mathlib.Core.Option.{Option, none, some}
use native.Mathlib.Omega.{arith}
use text.Mathlib.TextEquality.{eq_iff}
use stdiobus_python.Base.Tests.{◌==◌, string-Eq, if◌then◌else◌}

abbrev pub Dict {ℓ} : Type ℓ → Type ℓ
Dict V = List (String × V)

module _ {ℓ} {V : Type ℓ} where
  -- d.get(k)
  unfoldable pub get : Dict V → String → Option V
  get [] k = none
  get ((j, v) ∷ d) k = if j == k then some v else get d k

  -- d[k] = v: a key that is there keeps its place, a new one goes to the end.
  unfoldable pub put : Dict V → String → V → Dict V
  put [] k v = (k, v) ∷ []
  put ((j, w) ∷ d) k v = if j == k then (j, v) ∷ d else (j, w) ∷ put d k v

  -- d.pop(k, None)
  unfoldable pub remove : Dict V → String → Dict V
  remove [] k = []
  remove ((j, w) ∷ d) k = let rest = remove d k in if j == k then rest else (j, w) ∷ rest

  -- d.values()
  abbrev pub values : Dict V → List V
  values [] = []
  values ((k, v) ∷ d) = v ∷ values d

  -- What a look-up of `i` gives after a write, and after a removal.
  pub get-put :
      (t : Dict V) (w i : String) (x : V) → get (put t w x) i ≡ (if w == i then some x else get t i)
  unfolding get put
  get-put [] w i x = refl
  get-put ((n, y) ∷ t) w i x = ground (arith, eq_iff w i, eq_iff n w, eq_iff n i, get-put t w i x)

  pub get-remove :
      (t : Dict V) (w i : String) → get (remove t w) i ≡ (if w == i then none else get t i)
  unfolding get remove
  get-remove [] w i = ground arith
  get-remove ((n, y) ∷ t) w i = ground (arith, eq_iff w i, eq_iff n w, eq_iff n i, get-remove t w i)
