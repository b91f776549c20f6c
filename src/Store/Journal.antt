-- ===== src/Store/Journal.antt =====
-- The bytes of a journal (`framed` and `read_records` of node/src/store.rs): each record is an op's
-- encoding behind its length, and a tail that is too short for its record is cut.
use glade.Prelude.{
  ℕ, zero, suc, ◌+◌, ◌*◌, ◌/◌, ◌%◌, Option, none, some, List, [], ◌∷◌, ◌++◌, Bytes, length, Result,
  ok, err,
}
use glade.External.{External}
use glade.Envelope.Parser.{split}
use glade.Wire.{Op}
use glade.Wire.Decode.{DecodeError}

-- (n as u32).to_le_bytes()
unfoldable pub u32_le : ℕ → Bytes
u32_le n = n % 256 ∷ (n / 256) % 256 ∷ (n / 65536) % 256 ∷ (n / 16777216) % 256 ∷ []

unfoldable pub framed : External → Op → Bytes
framed x op = u32_le (length (x.encode_op op)) ++ x.encode_op op

unfoldable pub frames : External → List Op → Bytes
frames x [] = []
frames x (op ∷ ops) = framed x op ++ frames x ops

-- What a write that fails leaves of its bytes: the first of them, and never all.
unfoldable pub part : ℕ → Bytes → Bytes
part n [] = []
part n (b ∷ []) = []
part zero (b ∷ c ∷ bytes) = []
part (suc n) (b ∷ c ∷ bytes) = b ∷ part n (c ∷ bytes)

-- A whole record, and what stands behind it.
unfoldable pub read_frame : Bytes → Option (Bytes × Bytes)
read_frame (a ∷ b ∷ c ∷ d ∷ rest) = split (a + 256 * b + 65536 * c + 16777216 * d) rest
read_frame _ = none

unfoldable pub op_read : Result DecodeError Op → List Op
op_read (ok op) = op ∷ []
op_read (err why) = []

module _ (x : External) where
  -- The ops of the records that can be read, and the length that the journal keeps: a torn
  -- tail is cut.
  unfoldable pub read_from : ℕ → Bytes → List Op × ℕ
  read_from zero bytes = ([], 0)
  read_from (suc fuel) bytes = elim (read_frame bytes) [
    | none ↦ ([], 0)
    | some (raw, rest) ↦
        let later = read_from fuel rest in
        (op_read (x.decode_op raw) ++ later.0, 4 + length raw + later.1)
  ]

  unfoldable pub read_log : Bytes → List Op × ℕ
  read_log bytes = read_from (suc (length bytes)) bytes
