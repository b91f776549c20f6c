-- ===== src/Envelope/Parser.antt =====
-- The bounded reader of a record's CBOR (`head`, `item` and `parse` of node/src/envelope.rs). A
-- position in the buffer is the bytes that are left from it.
use glade.Prelude.{
  ℕ, zero, suc, ◌+◌, ◌-◌, ◌*◌, ◌/◌, ◌%◌, ◌^◌, Option, none, some, [], ◌∷◌, ltb, leb, ◌==◌, nat_eq,
  if◌then◌else◌, pos, negsuc, length, Bytes,
}
use glade.External.{External}
use glade.Wire.Cbor.{Cbor, Items, Entries, int, bytes, text, array, map, nil, cons, end, entry}

-- `?` on an `Option`
infixl 5 ◌>>=◌
abbrev pub ◌>>=◌ {ℓ κ} : {A : Type ℓ} {B : Type κ} → Option A → (A → Option B) → Option B
none >>= f = none
some a >>= f = f a

-- `bytes.get(at..at + n)`, with the position moved past it
unfoldable pub split : ℕ → Bytes → Option (Bytes × Bytes)
split zero rest = some ([], rest)
split (suc n) [] = none
split (suc n) (b ∷ rest) = do (raw, left) ← split n rest; some (b ∷ raw, left)

-- The bytes of an argument, the most significant first.
unfoldable pub big_endian : ℕ → Bytes → ℕ
big_endian n [] = n
big_endian n (b ∷ raw) = big_endian (n * 256 + b) raw

-- The argument that the low five bits of the head's byte announce.
unfoldable pub argument : ℕ → Bytes → Option (ℕ × Bytes)
unfolding split big_endian
argument info rest =
    if ltb info 24
    then some (info, rest)
    else if ltb info 28
    then (do (raw, left) ← split (2 ^ (info - 24)) rest; some (big_endian 0 raw, left))
    else none

-- The major type, the argument and what is left.
unfoldable pub head : Bytes → Option (ℕ × ℕ × Bytes)
unfolding argument
head [] = none
head (first ∷ rest) = do (n, left) ← argument (first % 32) rest; some (first / 32, n, left)

-- `n` items, or entries, one after the other
unfoldable pub items_of : (Bytes → Option (Cbor × Bytes)) → ℕ → Bytes → Option (Items × Bytes)
items_of one zero rest = some (nil, rest)
items_of one (suc n) rest = do
  (v, left) ← one rest
  (vs, left') ← items_of one n left
  some (cons v vs, left')

module _ (x : External) where
  -- An item of no elements: `item` at depth 0 refuses an array or a map.
  unfoldable pub scalar : ℕ → ℕ → Bytes → Option (Cbor × Bytes)
  unfolding split
  scalar major n rest =
      if major == 0
      then (if ltb n (2 ^ 63) then some (int (pos n), rest) else none)
      else if major == 1
      then (if ltb n (2 ^ 63) then some (int (negsuc n), rest) else none)
      else if major == 2
      then (do (raw, left) ← split n rest; some (bytes raw, left))
      else if major == 3
      then (do (raw, left) ← split n rest; if x.is_utf8 raw then some (text raw, left) else none)
      else none

  unfoldable pub scalar_item : Bytes → Option (Cbor × Bytes)
  unfolding head scalar
  scalar_item rest = do (major, n, left) ← head rest; scalar major n left

  unfoldable pub entries_of : (Bytes → Option (Cbor × Bytes)) → ℕ → Bytes → Option (Entries × Bytes)
  unfolding scalar_item
  entries_of one zero rest = some (end, rest)
  entries_of one (suc n) rest = do
    (key, left) ← scalar_item rest
    (v, left') ← elim key [ int k ↦ one left | _ ↦ none ]
    (vs, left'') ← entries_of one n left'
    elim key [ int k ↦ some (entry k v vs, left'') | _ ↦ none ]

  -- A container of `n` elements, each read by `one`; a count past the bytes left is refused first.
  unfoldable pub container : (Bytes → Option (Cbor × Bytes)) → ℕ → ℕ → Bytes → Option (Cbor × Bytes)
  unfolding items_of entries_of
  container one major n rest =
      if leb n (length rest)
      then (if major == 4
          then (do (vs, left) ← items_of one n rest; some (array vs, left))
          else (do (vs, left) ← entries_of one n rest; some (map vs, left)))
      else none

  unfoldable pub item : ℕ → Bytes → Option (Cbor × Bytes)
  unfolding head scalar container
  item zero rest = do (major, n, left) ← head rest; scalar major n left
  item (suc depth) rest = do
    (major, n, left) ← head rest
    if major == 4
        then container (item depth) 4 n left
        else if major == 5
        then container (item depth) 5 n left
        else scalar major n left

  -- One item of at most two levels of containers, and nothing after it.
  unfoldable pub parse : Bytes → Option Cbor
  unfolding item
  parse raw = do (v, left) ← item 2 raw; if length left == 0 then some v else none
