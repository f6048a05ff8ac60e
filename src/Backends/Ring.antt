-- ===== src/Backends/Ring.antt =====
-- `StderrRingBuffer` of stdiobus/backends/subprocess.py.
use mathlib.Core.List.{append_assoc, append-nil}
use stdiobus_python.Base.{
  ℕ, zero, suc, ◌+◌, ◌-◌, ◌≤◌, String, ◌<>◌, ◌≡◌, refl, sym, ap, ◌∙◌, true, false, List, [], ◌∷◌,
  ◌++◌, length, length-append, leb, if◌then◌else◌, arith, Bool-cases, inl, inr, ◌⊎◌,
}

-- The `deque(maxlen=…)`.
pub record StderrRingBuffer : Type 0 where
  pub lines : List String
  pub maxlen : ℕ

abbrev pub drop : ℕ → List String → List String
drop zero l = l
drop (suc n) [] = []
drop (suc n) (x ∷ l) = drop n l

unfoldable pub append : StderrRingBuffer → String → StderrRingBuffer
append b line =
    let l = b.lines ++ line ∷ [] in
    record b { lines = if leb (length l) b.maxlen then l else drop 1 l }

-- lines[-n:], which for `n = 0` is `lines[0:]`
unfoldable pub last_slice : ℕ → List String → List String
last_slice zero l = l
last_slice (suc n) l = drop (length l - suc n) l

unfoldable pub join_lines : List String → String
join_lines [] = ""
join_lines (x ∷ []) = x
join_lines (x ∷ y ∷ l) = x <> ("\n" <> join_lines (y ∷ l))

-- `tail`, and `get_stderr_tail` of the backend
unfoldable pub tail : StderrRingBuffer → ℕ → String
unfolding last_slice join_lines
tail b n = join_lines (last_slice n b.lines)

unfoldable pub append_all : StderrRingBuffer → List String → StderrRingBuffer
append_all b [] = b
append_all b (x ∷ l) = append_all (append b x) l

length-drop : (n : ℕ) (l : List String) → length (drop n l) ≡ length l - n
length-drop zero l = omega arith
length-drop (suc n) [] = omega arith
length-drop (suc n) (x ∷ l) = omega (arith, length-drop n l)

drop-append : (n : ℕ) (l m : List String) → n ≤ length l → drop n (l ++ m) ≡ drop n l ++ m
drop-append zero l m h = refl
drop-append (suc n) [] m h = absurd (omega arith)
drop-append (suc n) (x ∷ l) m h = drop-append n l m (omega arith)

drop-nil : (k : ℕ) → drop k [] ≡ []
drop-nil zero = refl
drop-nil (suc k) = refl

drop-suc : (k : ℕ) (l : List String) → drop 1 (drop k l) ≡ drop (suc k) l
drop-suc zero l = refl
drop-suc (suc k) [] = refl
drop-suc (suc k) (x ∷ l) = drop-suc k l

-- The lines after `h`, of which the buffer has the last `k`, and one more.
append_lem :
    (h : List String) (k : ℕ) (x : String)
    → append (record { lines = drop (length h - k) h; maxlen = k }) x
      ≡ record { lines = drop (length (h ++ x ∷ []) - k) (h ++ x ∷ []); maxlen = k }
unfolding append
append_lem h k x =
    ap (λ l. record { lines = l; maxlen = k }) (kept (Bool-cases (leb (length room) k)))
  where
    n : ℕ
    n = length h - k

    room : List String
    room = drop n h ++ x ∷ []

    size : length room ≡ length h - n + 1
    size = length-append (drop n h) (x ∷ []) ∙ ap (λ (m : ℕ). m + 1) (length-drop n h)

    whole : room ≡ drop n (h ++ x ∷ [])
    whole = sym (drop-append n h (x ∷ []) (omega arith))

    all : length (h ++ x ∷ []) ≡ length h + 1
    all = length-append h (x ∷ [])

    kept :
        (leb (length room) k ≡ true) ⊎ (leb (length room) k ≡ false)
        → (if leb (length room) k then room else drop 1 room)
          ≡ drop (length (h ++ x ∷ []) - k) (h ++ x ∷ [])
    kept (inl fits) =
        let eq : n ≡ length (h ++ x ∷ []) - k = ground (arith, size, all) in
        rw fits (whole ∙ ap (λ m. drop m (h ++ x ∷ [])) eq)
    kept (inr over) =
        let eq : suc n ≡ length (h ++ x ∷ []) - k = ground (arith, size, all) in
        rw over (ap (drop 1) whole ∙ drop-suc n (h ++ x ∷ []) ∙ ap (λ m. drop m (h ++ x ∷ [])) eq)

append_all-history :
    (l h : List String) (k : ℕ)
    → append_all (record { lines = drop (length h - k) h; maxlen = k }) l
      ≡ record { lines = drop (length (h ++ l) - k) (h ++ l); maxlen = k }
unfolding append_all
append_all-history [] h k = simp append-nil
append_all-history (x ∷ l) h k =
    rw (append_lem h k x) (append_all-history l (h ++ x ∷ []) k ∙ simp append_assoc)

-- After any lines, the buffer of size `k` holds exactly the last `k` of them, in order, or all of them
-- while there are no more.
pub append_all-last :
    (l : List String) (k : ℕ)
    → append_all (record { lines = []; maxlen = k }) l
      ≡ record { lines = drop (length l - k) l; maxlen = k }
append_all-last l k =
    ap (λ e. append_all (record { lines = e; maxlen = k }) l) (sym (drop-nil (0 - k)))
    ∙ append_all-history l [] k
