-- ===== src/Backends/Utf8/Steps.antt =====
-- The steps of the decoder that stdiobus/backends/docker.py and native.py call, on the bytes of a character.
use stdiobus_python.Base.{
  ℕ, suc, ◌+◌, ◌*◌, ◌<◌, ◌≤◌, ◌≡◌, refl, ap, ◌∙◌, Option, none, some, List, ◌∷◌, ◌==◌, nat-Eq,
  if◌then◌else◌, arith, if-false, false,
}
use stdiobus_python.Backends.Utf8.{
  Partial, between, first_byte, next_byte, decode_byte, decode_from, emit,
}

abbrev reads : ℕ → ℕ → ℕ → ℕ → Option (Partial × Option ℕ)
reads n v l h = some (record { need = n; value = v; low = l; high = h }, none)

first_one : (c : ℕ) → c < 0x80 → first_byte c ≡ some (between, some c)
unfolding first_byte
first_one c h = ground arith

first_two : (x : ℕ) → 2 ≤ x → x < 32 → first_byte (0xc0 + x) ≡ reads 1 x 0x80 0xbf
unfolding first_byte
first_two x h k = ground arith

first_three :
    (x : ℕ)
    → x < 16
    → first_byte (0xe0 + x)
      ≡ reads 2 x (if x == 0 then 0xa0 else 0x80) (if x == 13 then 0x9f else 0xbf)
unfolding first_byte
first_three x h = ground arith

first_four :
    (x : ℕ)
    → x < 5
    → first_byte (0xf0 + x)
      ≡ reads 3 x (if x == 0 then 0x90 else 0x80) (if x == 4 then 0x8f else 0xbf)
unfolding first_byte
first_four x h = ground arith

next_last :
    (v l h y : ℕ)
    → l ≤ 0x80 + y
    → 0x80 + y ≤ h
    → next_byte (record { need = 1; value = v; low = l; high = h }) (0x80 + y)
      ≡ some (between, some (v * 64 + y))
unfolding next_byte
next_last v l h y a b = ground arith

next_more :
    (n v l h y : ℕ)
    → l ≤ 0x80 + y
    → 0x80 + y ≤ h
    → next_byte (record { need = suc (suc n); value = v; low = l; high = h }) (0x80 + y)
      ≡ reads (suc n) (v * 64 + y) 0x80 0xbf
unfolding next_byte
next_more n v l h y a b = ground arith

is_inside : (n : ℕ) → (suc (suc n) == 0) ≡ false
is_inside n = ground arith

-- What is left of a decoding after a step.
abbrev pub then_emit : Option ℕ → Option (List ℕ) → Option (List ℕ)
then_emit o r = elim r [ none ↦ none | some l ↦ some (emit o l) ]

pub decode_step :
    (p q : Partial) (o : Option ℕ) (b : ℕ) (bs : List ℕ)
    → decode_byte p b ≡ some (q, o)
    → decode_from p (b ∷ bs) ≡ then_emit o (decode_from q bs)
unfolding decode_from
decode_step p q o b bs e =
    ap
      (λ r. elim r as (λ x. Option (List ℕ)) [
        | none ↦ none
        | some (q, c) ↦ elim (decode_from q bs) [ none ↦ none | some l ↦ some (emit c l) ]
      ])
      e

-- A step inside a character emits nothing.
silent : (r : Option (List ℕ)) → then_emit none r ≡ r
silent none = refl
silent (some l) = refl

module _ (bs : List ℕ) where
  pub decode_one :
      (c : ℕ)
      → c < 0x80
      → decode_from between (c ∷ bs) ≡ then_emit (some c) (decode_from between bs)
  unfolding decode_byte
  decode_one c h = decode_step between between (some c) c bs (first_one c h)

  last_step :
      (v l h y : ℕ)
      → l ≤ 0x80 + y
      → 0x80 + y ≤ h
      → decode_from (record { need = 1; value = v; low = l; high = h }) ((0x80 + y) ∷ bs)
        ≡ then_emit (some (v * 64 + y)) (decode_from between bs)
  unfolding decode_byte
  last_step v l h y a b =
      decode_step _ between (some (v * 64 + y)) (0x80 + y) bs (next_last v l h y a b)

  more_step :
      (n v l h y : ℕ) (rest : List ℕ)
      → l ≤ 0x80 + y
      → 0x80 + y ≤ h
      → decode_from
          (record { need = suc (suc n); value = v; low = l; high = h })
          ((0x80 + y) ∷ rest)
        ≡ decode_from (record { need = suc n; value = v * 64 + y; low = 0x80; high = 0xbf }) rest
  unfolding decode_byte
  more_step n v l h y rest a b =
      decode_step _ (record { need = suc n; value = v * 64 + y; low = 0x80; high = 0xbf }) none
        (0x80 + y) rest (if-false _ _ _ (is_inside n) ∙ next_more n v l h y a b)
      ∙ silent _

  pub decode_two :
      (x y : ℕ)
      → 2 ≤ x
      → x < 32
      → y < 64
      → decode_from between ((0xc0 + x) ∷ (0x80 + y) ∷ bs)
        ≡ then_emit (some (x * 64 + y)) (decode_from between bs)
  unfolding decode_byte
  decode_two x y h k j =
      decode_step between (record { need = 1; value = x; low = 0x80; high = 0xbf }) none (0xc0 + x)
        ((0x80 + y) ∷ bs) (first_two x h k)
      ∙ silent _
      ∙ last_step x 0x80 0xbf y (omega arith) (omega arith)

  pub decode_three :
      (x y z : ℕ)
      → x < 16
      → y < 64
      → z < 64
      → (x ≡ 0 → 32 ≤ y)
      → (x ≡ 13 → y < 32)
      → decode_from between ((0xe0 + x) ∷ (0x80 + y) ∷ (0x80 + z) ∷ bs)
        ≡ then_emit (some ((x * 64 + y) * 64 + z)) (decode_from between bs)
  unfolding decode_byte
  decode_three x y z h j k low high =
      let l = if x == 0 then 0xa0 else 0x80 in
      let u = if x == 13 then 0x9f else 0xbf in
      decode_step between (record { need = 2; value = x; low = l; high = u }) none (0xe0 + x)
        ((0x80 + y) ∷ (0x80 + z) ∷ bs) (first_three x h)
      ∙ silent _
      ∙ more_step 0 x l u y ((0x80 + z) ∷ bs) (ground arith) (ground arith)
      ∙ last_step (x * 64 + y) 0x80 0xbf z (omega arith) (omega arith)

  pub decode_four :
      (x y z w : ℕ)
      → x < 5
      → y < 64
      → z < 64
      → w < 64
      → (x ≡ 0 → 16 ≤ y)
      → (x ≡ 4 → y < 16)
      → decode_from between ((0xf0 + x) ∷ (0x80 + y) ∷ (0x80 + z) ∷ (0x80 + w) ∷ bs)
        ≡ then_emit (some (((x * 64 + y) * 64 + z) * 64 + w)) (decode_from between bs)
  unfolding decode_byte
  decode_four x y z w h j k i low high =
      let l = if x == 0 then 0x90 else 0x80 in
      let u = if x == 4 then 0x8f else 0xbf in
      decode_step between (record { need = 3; value = x; low = l; high = u }) none (0xf0 + x)
        ((0x80 + y) ∷ (0x80 + z) ∷ (0x80 + w) ∷ bs) (first_four x h)
      ∙ silent _
      ∙ more_step 1 x l u y ((0x80 + z) ∷ (0x80 + w) ∷ bs) (ground arith) (ground arith)
      ∙ more_step 0 (x * 64 + y) 0x80 0xbf z ((0x80 + w) ∷ bs) (omega arith) (omega arith)
      ∙ last_step ((x * 64 + y) * 64 + z) 0x80 0xbf w (omega arith) (omega arith)
