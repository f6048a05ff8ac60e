-- ===== src/Backends/Native/Echo.antt =====
-- A message of stdiobus/backends/native.py that the C library gives back as it got it.
use mathlib.Core.Path.{subst}
use stdiobus_python.Base.{
  if◌then◌else◌, sym, ℕ, ◌≤◌, ◌≡◌, refl, ap, ◌∙◌, true, false, ◌&&◌, ◌==◌, nat-Eq, none, some, List,
  [], ◌∷◌, ◌++◌, All, leb, ltb, arith, if-true, if-false, nat_eq_iff, Bool-cases, Option-cases, inl,
  inr,
}
use stdiobus_python.Base.Int.{pos}
use stdiobus_python.Client.Bus.{returned}
use stdiobus_python.Backends.Text.{Text, handled_all}
use stdiobus_python.Backends.Utf8.{decode, encode_char, encode}
use stdiobus_python.Backends.Utf8.Roundtrip.{IsCodePoint, encode_cons, decode-encode}
use stdiobus_python.Backends.Native.State.{Library, Native, live, message, c_string, call_back}
use stdiobus_python.Backends.Native.Operations.{on_loop_thread, ingest, send}

abbrev IsByte : ℕ → Type 0
IsByte b = 1 ≤ b

char_bytes : (c : ℕ) (bs : List ℕ) → 1 ≤ c → encode_char c ≡ some bs → All IsByte bs
unfolding encode_char
char_bytes c bs h e = elim (Bool-cases (ltb c 0x80)) [
  | inl t ↦ bytes_are (c ∷ []) (if-true _ _ _ t) (h, tt)
  | inr f ↦ elim (Bool-cases (ltb c 0x800)) [
    | inl t ↦ bytes_are _ (if-false _ _ _ f ∙ if-true _ _ _ t) (omega arith, (omega arith, tt))
    | inr f' ↦ elim (Bool-cases (leb 0xd800 c && ltb c 0xe000)) [
      | inl t ↦
          let lone : encode_char c ≡ none =
            if-false _ _ _ f ∙ if-false _ _ _ f' ∙ if-true _ _ _ t in
          absurd (cc (e, lone))
      | inr g ↦ elim (Bool-cases (ltb c 0x10000)) [
        | inl t ↦
            bytes_are _ (if-false _ _ _ f ∙ if-false _ _ _ f' ∙ if-false _ _ _ g ∙ if-true _ _ _ t)
              (omega arith, (omega arith, (omega arith, tt)))
        | inr f'' ↦
            bytes_are _
              (if-false _ _ _ f ∙ if-false _ _ _ f' ∙ if-false _ _ _ g ∙ if-false _ _ _ f'')
              (omega arith, (omega arith, (omega arith, (omega arith, tt))))
      ]
    ]
  ]
]
  where
    bytes_are : (ds : List ℕ) → encode_char c ≡ some ds → All IsByte ds → All IsByte bs
    bytes_are ds f v = let same : ds ≡ bs = cc (e, f) in subst (λ l. All IsByte l) same v

append-All : (l k : List ℕ) → All IsByte l → All IsByte k → All IsByte (l ++ k)
append-All [] k v w = w
append-All (x ∷ l) k v w = (v.0, append-All l k v.1 w)

-- A text up to its first NUL.
abbrev pub before_nul : Text → Text
before_nul [] = []
before_nul (c ∷ t) = if c == 0 then [] else c ∷ before_nul t

before_nul-points : (t : Text) → All IsCodePoint t → All IsCodePoint (before_nul t)
before_nul-points [] v = tt
before_nul-points (c ∷ t) v = elim (Bool-cases (c == 0)) [
  | inl e ↦ rw e tt
  | inr e ↦ rw e (v.0, before_nul-points t v.1)
]

c_string-append : (l k : List ℕ) → All IsByte l → c_string (l ++ k) ≡ l ++ c_string k
unfolding c_string
c_string-append [] k v = refl
c_string-append (b ∷ l) k v =
    let more : (b == 0) ≡ false = ground (arith, v.0) in
    if-false _ _ _ more ∙ ap (◌∷◌ b) (c_string-append l k v.1)

encode_nul : (ds : List ℕ) → encode_char 0 ≡ some ds → ds ≡ 0 ∷ []
unfolding encode_char
encode_nul ds e = cc e

-- What the C side reads of a text's bytes are the bytes of the text up to its first NUL.
encode-before_nul :
    (t bs : List ℕ) → encode t ≡ some bs → encode (before_nul t) ≡ some (c_string bs)
unfolding encode c_string
encode-before_nul [] bs e = let same : [] ≡ bs = cc e in ap (λ l. some (c_string l)) same
encode-before_nul (c ∷ t) bs e = elim (Option-cases (encode_char c)) [
  | inl p ↦
      let lost : encode (c ∷ t) ≡ none = encode_cons c t none (encode t) p refl in
      absurd (cc (e, lost))
  | inr (ds, p) ↦ elim (Option-cases (encode t)) [
    | inl q ↦
        let lost : encode (c ∷ t) ≡ none = encode_cons c t (some ds) none p q in
        absurd (cc (e, lost))
    | inr (cs, q) ↦
        let whole : encode (c ∷ t) ≡ some (ds ++ cs) = encode_cons c t (some ds) (some cs) p q in
        let same : ds ++ cs ≡ bs = cc (e, whole) in
        subst (λ l. encode (before_nul (c ∷ t)) ≡ some (c_string l)) same
          (cut ds cs p q (encode-before_nul t cs q))
  ]
]
  where
    cut :
        (ds cs : List ℕ)
        → encode_char c ≡ some ds
        → encode t ≡ some cs
        → encode (before_nul t) ≡ some (c_string cs)
        → encode (before_nul (c ∷ t)) ≡ some (c_string (ds ++ cs))
    cut ds cs p q r = elim (Bool-cases (c == 0)) [
      | inl z ↦
          let zero_bytes : ds ≡ 0 ∷ [] =
            encode_nul ds (ap encode_char (sym ((nat_eq_iff c 0).0 z)) ∙ p) in
          rw z (sym (ap (λ l. some (c_string (l ++ cs))) zero_bytes))
      | inr f ↦ rw f (
          encode_cons c (before_nul t) (some ds) (some (c_string cs)) p r
          ∙ ap some (sym (c_string-append ds cs (char_bytes c ds (ground (arith, f)) p))))
    ]

heard_back :
    {H : Type 0} (b : Native H) (m : List ℕ) (t : Text)
    → decode (c_string m) ≡ some t
    → (call_back b (message m)).calls ≡ b.calls ++ handled_all b.message_handlers t
unfolding call_back
heard_back b m t e = rw (e, call_back) refl

module _ {H : Type 0} (lib : Library H) (b : Native H) (h : H) (th : ℕ) (t : Text)
    (bytes : List ℕ) where
  -- On its own thread, and where the library takes the message, `send` hands over the bytes of any text
  -- that can be encoded, all of them, and returns `True`; and where the library gives the same bytes back
  -- as a message, every handler is called with the text that was sent, up to its first NUL.
  pub echoed :
      b.bus ≡ live h
      → on_loop_thread b th ≡ true
      → encode t ≡ some bytes
      → All IsCodePoint t
      → (lib.ingest h bytes).1 ≡ pos 0
      → ((send lib b th t).1 ≡ returned true)
        × ((send lib b th t).0.bus ≡ live (lib.ingest h bytes).0)
        × ((call_back (send lib b th t).0 (message bytes)).calls
            ≡ b.calls ++ handled_all b.message_handlers (before_nul t))
  unfolding send ingest
  echoed e m n points ok =
      let back : decode (c_string bytes) ≡ some (before_nul t) =
        decode-encode (before_nul t) (c_string bytes) (before_nul-points t points)
          (encode-before_nul t bytes n) in
      rw (e, m, n, ok) (refl, refl, heard_back _ bytes (before_nul t) back)
