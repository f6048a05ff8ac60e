-- ===== src/Backends/Utf8.antt =====
-- Python's strict `bytes.decode()`, which the read loop of stdiobus/backends/docker.py calls on each
-- block of data that it reads.
pub mod Steps
pub mod Roundtrip
use Prim.Native.Nat.{◌/◌, ◌%◌}
use stdiobus_python.Base.{
  ℕ, ◌+◌, ◌-◌, ◌*◌, ◌&&◌, Option, none, some, List, [], ◌∷◌, ◌++◌, ◌==◌, nat-Eq, leb, ltb,
  if◌then◌else◌,
}

-- Inside a character: how many bytes it still needs, the value so far, and the range of the next byte.
pub record Partial : Type 0 where
  pub need : ℕ
  pub value : ℕ
  pub low : ℕ
  pub high : ℕ

abbrev pub between : Partial
between = record { need = 0; value = 0; low = 0x80; high = 0xbf }

abbrev lead : ℕ → ℕ → ℕ → ℕ → Option (Partial × Option ℕ)
lead n v l h = some (record { need = n; value = v; low = l; high = h }, none)

-- The first byte of a character.
unfoldable pub first_byte : ℕ → Option (Partial × Option ℕ)
first_byte b =
    if ltb b 0x80
    then some (between, some b)
    else if ltb b 0xc2
    then none
    else if ltb b 0xe0
    then lead 1 (b - 0xc0) 0x80 0xbf
    else if b == 0xe0
    then lead 2 0 0xa0 0xbf
    else if b == 0xed
    then lead 2 (b - 0xe0) 0x80 0x9f
    else if ltb b 0xf0
    then lead 2 (b - 0xe0) 0x80 0xbf
    else if b == 0xf0
    then lead 3 0 0x90 0xbf
    else if ltb b 0xf4
    then lead 3 (b - 0xf0) 0x80 0xbf
    else if b == 0xf4
    then lead 3 (b - 0xf0) 0x80 0x8f
    else none

unfoldable pub next_byte : Partial → ℕ → Option (Partial × Option ℕ)
next_byte p b =
    let v = p.value * 64 + (b - 0x80) in
    if leb p.low b && leb b p.high
    then (if p.need == 1 then some (between, some v) else lead (p.need - 1) v 0x80 0xbf)
    else none

unfoldable pub decode_byte : Partial → ℕ → Option (Partial × Option ℕ)
unfolding first_byte next_byte
decode_byte p b = if p.need == 0 then first_byte b else next_byte p b

abbrev pub emit : Option ℕ → List ℕ → List ℕ
emit none l = l
emit (some c) l = c ∷ l

unfoldable pub decode_from : Partial → List ℕ → Option (List ℕ)
unfolding decode_byte
decode_from p [] = if p.need == 0 then some [] else none
decode_from p (b ∷ bs) = elim (decode_byte p b) [
  | none ↦ none
  | some (q, c) ↦ elim (decode_from q bs) [ none ↦ none | some l ↦ some (emit c l) ]
]

-- `data.decode()`: the code points, or `none` for a `UnicodeDecodeError`.
unfoldable pub decode : List ℕ → Option (List ℕ)
unfolding decode_from
decode bs = decode_from between bs

-- The bytes of one code point; a lone surrogate has none.
unfoldable pub encode_char : ℕ → Option (List ℕ)
encode_char c =
    if ltb c 0x80
    then some (c ∷ [])
    else if ltb c 0x800
    then some ((0xc0 + c / 64) ∷ (0x80 + c % 64) ∷ [])
    else if leb 0xd800 c && ltb c 0xe000
    then none
    else if ltb c 0x10000
    then some ((0xe0 + c / 4096) ∷ (0x80 + c / 64 % 64) ∷ (0x80 + c % 64) ∷ [])
    else some
        ((0xf0 + c / 262144) ∷ (0x80 + c / 4096 % 64) ∷ (0x80 + c / 64 % 64) ∷ (0x80 + c % 64) ∷ [])

-- `text.encode()`: the bytes, or `none` for a `UnicodeEncodeError`.
unfoldable pub encode : List ℕ → Option (List ℕ)
unfolding encode_char
encode [] = some []
encode (c ∷ l) = elim (encode_char c) [
  | none ↦ none
  | some bs ↦ elim (encode l) [ none ↦ none | some cs ↦ some (bs ++ cs) ]
]
