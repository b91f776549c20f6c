-- ===== src/Grants/Names.antt =====
-- A node's name and a principal's (node/src/grants.rs).
use glade.Prelude.{
  ℕ, zero, suc, ◌+◌, ◌*◌, ◌≡◌, ◌≢◌, refl, true, some, [], ◌∷◌, arith, Text, Bytes, nat_eq, length,
  All, inl, inr, ◌↔◌, Option-cases,
}
use glade.NodeId.{hex, hex_digit, digit, pair, pairs, key_of, IsByte, length-hex}
use glade.Grants.{Holder, is_hex_digit, all_hex, names_a_node, grant_name}

digit-all_hex : (c : ℕ) → is_hex_digit c ≡ true → (n : ℕ) × (digit c ≡ some n)
unfolding digit
digit-all_hex c h = elim (Option-cases (digit c)) [
  | inl e ↦ absurd (ground arith)
  | inr (n, e) ↦ (n, e)
]

pairs-all_hex :
    (text : Text) (n : ℕ)
    → length text ≡ n + n
    → all_hex text ≡ true
    → (raw : Bytes) × (pairs text ≡ some raw)
unfolding pairs pair all_hex
pairs-all_hex [] n l h = ([], refl)
pairs-all_hex (c ∷ []) n l h = absurd (omega arith)
pairs-all_hex (c ∷ d ∷ text) zero l h = absurd (omega arith)
pairs-all_hex (c ∷ d ∷ text) (suc n) l h =
    let (raw, e) = pairs-all_hex text n (omega arith) (ground arith) in
    let (i, p) = digit-all_hex c (ground arith) in
    let (j, q) = digit-all_hex d (ground arith) in ((i * 16 + j) ∷ raw, ground (arith, e, p, q))

all_hex-pairs : (text : Text) (raw : Bytes) → pairs text ≡ some raw → all_hex text ≡ true
unfolding pairs pair all_hex digit
all_hex-pairs [] raw e = refl
all_hex-pairs (c ∷ []) raw e = cc
all_hex-pairs (c ∷ d ∷ text) raw e = elim (Option-cases (pairs text)) [
  | inl p ↦ absurd (ground arith)
  | inr (rest, p) ↦ ground (arith, all_hex-pairs text rest p)
]

key_of-all_hex : (name : Text) → names_a_node name ≡ true → (key : Bytes) × (key_of name ≡ some key)
unfolding names_a_node key_of
key_of-all_hex name h =
    let (raw, e) = pairs-all_hex name 32 (ground arith) (ground arith) in (raw, ground (arith, e))

names_a_node-of-key :
    (name : Text) (key : Bytes) → key_of name ≡ some key → names_a_node name ≡ true
unfolding names_a_node key_of
names_a_node-of-key name key e = ground (arith, all_hex-pairs name key)

-- The names that the grants read as a node's are the texts that write a key.
pub names_a_node-key_of :
    (name : Text) → (names_a_node name ≡ true) ↔ ((key : Bytes) × (key_of name ≡ some key))
names_a_node-key_of name = (key_of-all_hex name, λ p. names_a_node-of-key name p.0 p.1)

all_hex-hex : (raw : Bytes) → All IsByte raw → all_hex (hex raw) ≡ true
unfolding all_hex hex hex_digit
all_hex-hex [] h = refl
all_hex-hex (b ∷ raw) h = ground (arith, all_hex-hex raw h.1)

-- A node of a 32-byte id and a principal have no grant name in common.
pub grant_name-disjoint :
    (id : Bytes) (name a b : Text)
    → length id ≡ 32
    → All IsByte id
    → grant_name (Holder.node id) ≡ some a
    → grant_name (Holder.principal name) ≡ some b
    → a ≢ b
unfolding grant_name names_a_node
grant_name-disjoint id name a b n h p q e = ground (arith, all_hex-hex id h, length-hex id)
