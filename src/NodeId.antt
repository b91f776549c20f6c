-- ===== src/NodeId.antt =====
-- A node's id in hex: `hex` and `key_of` of node/src/transport.rs.
use glade.Prelude.{
  ℕ, ◌+◌, ◌-◌, ◌*◌, ◌/◌, ◌%◌, ◌<◌, ◌≡◌, refl, ◌&&◌, Option, none, some, [], ◌∷◌, arith, Bytes, Text,
  length, ltb, leb, ◌==◌, nat_eq, if◌then◌else◌, All, Bool-cases, inl, inr,
}

-- One digit, of a value below 16.
unfoldable pub hex_digit : ℕ → ℕ
hex_digit n = if ltb n 10 then b'0' + n else b'a' + (n - 10)

-- Each byte as two lower-case digits.
unfoldable pub hex : Bytes → Text
hex [] = []
hex (b ∷ raw) = hex_digit (b / 16) ∷ hex_digit (b % 16) ∷ hex raw

unfoldable pub digit : ℕ → Option ℕ
digit c =
    if leb b'0' c && leb c b'9'
    then some (c - b'0')
    else if leb b'a' c && leb c b'f'
    then some (c - b'a' + 10)
    else none

-- One byte of two digits, in front of the others.
unfoldable pub pair : Option ℕ → Option ℕ → Option Bytes → Option Bytes
pair (some h) (some l) (some raw) = some ((h * 16 + l) ∷ raw)
pair _ _ _ = none

unfoldable pub pairs : Text → Option Bytes
unfolding pair
pairs [] = some []
pairs (c ∷ []) = none
pairs (c ∷ d ∷ rest) = pair (digit c) (digit d) (pairs rest)

-- The key that a text writes, if it is exactly 64 lower-case hex digits.
unfoldable pub key_of : Text → Option Bytes
key_of text = if length text == 64 then pairs text else none

pub digit-hex_digit : (n : ℕ) → n < 16 → digit (hex_digit n) ≡ some n
unfolding digit hex_digit
digit-hex_digit n h = ground arith

abbrev pub IsByte : ℕ → Type 0
IsByte b = b < 256

pub pairs-hex : (raw : Bytes) → All IsByte raw → pairs (hex raw) ≡ some raw
unfolding pairs hex
pairs-hex [] h = refl
pairs-hex (b ∷ raw) h =
    ground (arith, digit-hex_digit (b / 16), digit-hex_digit (b % 16), pairs-hex raw h.1)

pub length-hex : (raw : Bytes) → length (hex raw) ≡ 2 * length raw
unfolding hex
length-hex [] = refl
length-hex (b ∷ raw) = omega (arith, length-hex raw)

-- A 32-byte key is read back from its hex, so two nodes never share a name.
pub key_of-hex : (key : Bytes) → length key ≡ 32 → All IsByte key → key_of (hex key) ≡ some key
unfolding key_of
key_of-hex key n h = elim (Bool-cases (length (hex key) == 64)) [
  | inl e ↦ rw e (pairs-hex key h)
  | inr e ↦ absurd (ground (arith, length-hex key))
]
