-- ===== src/Json.antt =====
-- The values that the program exchanges: what `json.loads` returns and the dictionaries that it
-- builds (stdiobus/client.py, stdiobus/types.py), and Python's operations on them.
use stdiobus_python.Base.{
  String, ◌≡◌, refl, Bool, true, false, Option, none, some, List, [], ◌∷◌, arith, eq_iff, ◌==◌,
  string-Eq, if◌then◌else◌, is_empty,
}
use stdiobus_python.Base.Int.{ℤ}

-- A float is the integer that it equals, if there is one, and its text.
mutual
  pub data Json : Type 0 where
    null : Json
    bool : Bool → Json
    int : ℤ → Json
    float : Option ℤ → String → Json
    str : String → Json
    arr : Items → Json
    obj : Fields → Json

  pub data Items : Type 0 where
    nil : Items
    cons : Json → Items → Items

  -- In the order of insertion.
  pub data Fields : Type 0 where
    end : Fields
    field : String → Json → Fields → Fields

-- d.get(k) of a dictionary
unfoldable pub get : Fields → String → Option Json
get end k = none
get (field j v d) k = if j == k then some v else get d k

-- d[k] = v
unfoldable pub put : Fields → String → Json → Fields
put end k v = field k v end
put (field j w d) k v = if j == k then field j v d else field j w (put d k v)

pub get-put :
    (t : Fields) (w i : String) (x : Json)
    → get (put t w x) i ≡ (if w == i then some x else get t i)
unfolding get put
get-put end w i x = refl
get-put (field n y t) w i x = ground (arith, eq_iff w i, eq_iff n w, eq_iff n i, get-put t w i x)

-- d.get(k, default)
abbrev pub get_or : Fields → String → Json → Json
get_or d k v = elim (get d k) [ none ↦ v | some w ↦ w ]

-- `if params:` for an optional dictionary
abbrev pub is_end : Fields → Bool
is_end end = true
is_end (field k v d) = false

-- `d[k] = v` under `if v:`, for an optional text
abbrev pub put_text : Fields → String → Option String → Fields
put_text d k none = d
put_text d k (some s) = if is_empty s then d else put d k (str s)

-- `k in l` for a list of values
pub mem_str : Items → String → Bool
mem_str nil k = false
mem_str (cons (str s) l) k = if s == k then true else mem_str l k
mem_str (cons x l) k = mem_str l k

abbrev pub items : List String → Items
items [] = nil
items (s ∷ l) = cons (str s) (items l)
