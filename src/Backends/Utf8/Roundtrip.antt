-- ===== src/Backends/Utf8/Roundtrip.antt =====
-- What `encode` of stdiobus/backends/native.py writes, `decode` reads back.
use Prim.Native.Nat.{◌/◌, ◌%◌}
use stdiobus_python.Base.{
  ℕ, ◌+◌, ◌<◌, ◌≤◌, ◌≡◌, refl, ap, ◌∙◌, sym, Option, none, some, ◌&&◌, List, [], ◌∷◌, ◌++◌, ◌⊎◌,
  All, leb, ltb, arith, if-true, if-false, Bool-cases, Option-cases, inl, inr,
}
use stdiobus_python.Backends.Utf8.{between, decode_from, decode, encode_char, encode}
use stdiobus_python.Backends.Utf8.Steps.{
  then_emit, decode_one, decode_two, decode_three, decode_four,
}

at_value :
    (rest : List ℕ) (u v : ℕ)
    → u ≡ v
    → then_emit (some u) (decode_from between rest) ≡ then_emit (some v) (decode_from between rest)
at_value rest u v e = ap (λ x. then_emit (some x) (decode_from between rest)) e

module _ (c : ℕ) (rest : List ℕ) where
  two :
      0x80 ≤ c
      → c < 0x800
      → decode_from between ((0xc0 + c / 64) ∷ (0x80 + c % 64) ∷ rest)
        ≡ then_emit (some c) (decode_from between rest)
  two h k =
      decode_two rest (c / 64) (c % 64) (omega arith) (omega arith) (omega arith)
      ∙ at_value rest _ c (omega arith)

  three :
      0x800 ≤ c
      → c < 0x10000
      → (c < 0xd800) ⊎ (0xe000 ≤ c)
      → decode_from between ((0xe0 + c / 4096) ∷ (0x80 + c / 64 % 64) ∷ (0x80 + c % 64) ∷ rest)
        ≡ then_emit (some c) (decode_from between rest)
  three h k s =
      decode_three rest (c / 4096) (c / 64 % 64) (c % 64) (omega arith) (omega arith) (omega arith)
        (λ e. omega (arith, e)) (λ e. ground (arith, e, s))
      ∙ at_value rest _ c (omega arith)

  four :
      0x10000 ≤ c
      → c ≤ 0x10ffff
      → decode_from between (
          (0xf0 + c / 262144)
          ∷ (0x80 + c / 4096 % 64)
          ∷ (0x80 + c / 64 % 64)
          ∷ (0x80 + c % 64)
          ∷ rest)
        ≡ then_emit (some c) (decode_from between rest)
  four h k =
      decode_four rest (c / 262144) (c / 4096 % 64) (c / 64 % 64) (c % 64) (omega arith)
        (omega arith) (omega arith) (omega arith) (λ e. omega (arith, e)) (λ e. omega (arith, e))
      ∙ at_value rest _ c (omega arith)

  -- Where the bytes of the character are `ds`.
  known_bytes :
      (bs ds : List ℕ)
      → encode_char c ≡ some bs
      → encode_char c ≡ some ds
      → decode_from between (ds ++ rest) ≡ then_emit (some c) (decode_from between rest)
      → decode_from between (bs ++ rest) ≡ then_emit (some c) (decode_from between rest)
  known_bytes bs ds e f d =
      let both : some bs ≡ some ds = sym e ∙ f in
      let same : bs ≡ ds = cc both in ap (λ x. decode_from between (x ++ rest)) same ∙ d

  -- The bytes of a character, with others behind them.
  char_back :
      (bs : List ℕ)
      → c ≤ 0x10ffff
      → encode_char c ≡ some bs
      → decode_from between (bs ++ rest) ≡ then_emit (some c) (decode_from between rest)
  unfolding encode_char
  char_back bs k e = elim (Bool-cases (ltb c 0x80)) [
    | inl t ↦ known_bytes bs (c ∷ []) e (if-true _ _ _ t) (decode_one rest c (ground arith))
    | inr f ↦ elim (Bool-cases (ltb c 0x800)) [
      | inl t ↦
          known_bytes bs _ e (if-false _ _ _ f ∙ if-true _ _ _ t)
            (two (ground arith) (ground arith))
      | inr f' ↦ elim (Bool-cases (leb 0xd800 c && ltb c 0xe000)) [
        | inl t ↦
            let lone : encode_char c ≡ none =
              if-false _ _ _ f ∙ if-false _ _ _ f' ∙ if-true _ _ _ t in
            absurd (cc (e, lone))
        | inr g ↦ elim (Bool-cases (ltb c 0x10000)) [
          | inl t ↦
              known_bytes bs _ e
                (if-false _ _ _ f ∙ if-false _ _ _ f' ∙ if-false _ _ _ g ∙ if-true _ _ _ t)
                (three (ground arith) (ground arith) (ground arith))
          | inr f'' ↦
              known_bytes bs _ e
                (if-false _ _ _ f ∙ if-false _ _ _ f' ∙ if-false _ _ _ g ∙ if-false _ _ _ f'')
                (four (ground arith) k)
        ]
      ]
    ]
  ]

-- A code point of Unicode.
abbrev pub IsCodePoint : ℕ → Type 0
IsCodePoint c = c ≤ 0x10ffff

abbrev pub joined : Option (List ℕ) → Option (List ℕ) → Option (List ℕ)
joined a b = elim a [ none ↦ none | some bs ↦ elim b [ none ↦ none | some cs ↦ some (bs ++ cs) ] ]

pub encode_cons :
    (c : ℕ) (t : List ℕ) (a b : Option (List ℕ))
    → encode_char c ≡ a
    → encode t ≡ b
    → encode (c ∷ t) ≡ joined a b
unfolding encode
encode_cons c t a b p q = ap (λ a. joined a (encode t)) p ∙ ap (λ b. joined a b) q

decode_from-encode :
    (t bs : List ℕ) → All IsCodePoint t → encode t ≡ some bs → decode_from between bs ≡ some t
unfolding encode decode_from
decode_from-encode [] bs v e = let same : bs ≡ [] = cc e in ap (λ x. decode_from between x) same
decode_from-encode (c ∷ t) bs v e = elim (Option-cases (encode_char c)) [
  | inl p ↦
      let lost : encode (c ∷ t) ≡ none = encode_cons c t none (encode t) p refl in
      absurd (cc (e, lost))
  | inr (ds, p) ↦ elim (Option-cases (encode t)) [
    | inl q ↦
        let lost : encode (c ∷ t) ≡ none = encode_cons c t (some ds) none p q in
        absurd (cc (e, lost))
    | inr (cs, q) ↦
        let whole : encode (c ∷ t) ≡ some (ds ++ cs) = encode_cons c t (some ds) (some cs) p q in
        let same : bs ≡ ds ++ cs = cc (e, whole) in
        ap (λ x. decode_from between x) same
        ∙ char_back c cs ds v.0 p
        ∙ ap (λ r. then_emit (some c) r) (decode_from-encode t cs v.1 q)
  ]
]

-- A text of code points that can be encoded is what its bytes decode to.
pub decode-encode : (t bs : List ℕ) → All IsCodePoint t → encode t ≡ some bs → decode bs ≡ some t
unfolding decode
decode-encode t bs v e = decode_from-encode t bs v e
