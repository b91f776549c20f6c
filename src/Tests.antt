-- ===== src/Tests.antt =====
-- Concrete values for the examples: two applications' ops of one chain, a home op that verifies, and
-- an instance of what the node calls, with an encoder of small values.
pub mod Stores
pub mod Serving
pub mod Access
pub mod Records
pub mod Links
pub mod Claims
pub mod Doors
pub mod Replays
pub mod Journals
use glade.Prelude.{
  ℕ, zero, suc, ◌+◌, ◌*◌, ◌/◌, ◌%◌, ◌≡◌, refl, ℤ, pos, negsuc, pos_part, neg_part, Bool, true,
  false, Option, none, some, List, [], ◌∷◌, ◌++◌, Bytes, Text, codes, length, if◌then◌else◌, ltb,
  ◌<◌, All, Result, err,
}
use glade.External.{External}
use glade.Directory
use glade.NodeId.{IsByte}
use glade.Wire
use glade.Wire.{Op, Shape}
use glade.Wire.Cbor.{
  Cbor, Items, Entries, int, float, bytes, text, array, map, bool, null, nil, cons, end, entry,
}
use glade.Wire.Decode.{DecodeError}
use glade.Store.Types.{Store}

abbrev pub repeat : ℕ → ℕ → Bytes
repeat zero b = []
repeat (suc n) b = b ∷ repeat n b

-- A head with its argument, below 256.
abbrev pub small_head : ℕ → ℕ → Bytes
small_head major n = if ltb n 24 then (major * 32 + n) ∷ [] else (major * 32 + 24) ∷ n ∷ []

abbrev pub small_int : ℤ → Bytes
small_int (pos n) = small_head 0 n
small_int (negsuc n) = small_head 1 n

abbrev mutual
  pub small : Cbor → Bytes
  small (int n) = small_int n
  small (float b) = []
  small (bytes b) = small_head 2 (length b) ++ b
  small (text t) = small_head 3 (length t) ++ t
  small (array items) = small_head 4 (count items) ++ small_items items
  small (map entries) = small_head 5 (size entries) ++ small_entries entries
  small (bool b) = []
  small null = []

  pub count : Items → ℕ
  count nil = 0
  count (cons v items) = suc (count items)

  pub small_items : Items → Bytes
  small_items nil = []
  small_items (cons v items) = small v ++ small_items items

  pub size : Entries → ℕ
  size end = 0
  size (entry k v entries) = suc (size entries)

  pub small_entries : Entries → Bytes
  small_entries end = []
  small_entries (entry k v entries) = small_int k ++ small v ++ small_entries entries

-- The seq and the payload stand for the op in its encoding, and a digest is its argument.
abbrev pub toy : External
toy = record {
  encode = small;
  encode_op = λ op. pos_part op.seq ∷ neg_part op.seq ∷ op.payload;
  digest = λ b. b;
  verify_strict = λ key message signature. true;
  is_utf8 = λ b. true;
  try_decode = λ b. err DecodeError.truncated;
  decode_op = λ b. err DecodeError.truncated;
  public_key = λ seed. seed;
  sign = λ seed message. repeat 64 0;
}

abbrev pub op_at : ℤ → Option Bytes → Bytes → Op
op_at n before body = record {
  share = codes "sh";
  glade_id = codes "g";
  key = [];
  origin = codes "a";
  seq = n;
  prev = before;
  lamport = n;
  refs = [];
  shape = Wire.log;
  payload = body;
}

abbrev pub op_0 : Op
op_0 = op_at (pos 0) none (codes "x")

-- The second op names the first by its hash.
abbrev pub op_1 : Op
op_1 = op_at (pos 1) (some (0 ∷ 0 ∷ codes "x")) (codes "y")

abbrev pub no_ops : Store
no_ops = record { logs = []; register = []; proofs = []; journals = []; proof_journal = [] }

-- A principal's record, in its envelope, under the key whose bytes are all 17.
abbrev pub principal_op : Op
principal_op = record {
  share = Directory.home;
  glade_id = Directory.g_principals;
  key = [];
  origin = repeat 64 b'1';
  seq = pos 0;
  prev = none;
  lamport = pos 0;
  refs = [];
  shape = Wire.log;
  payload = 162 ∷ 1 ∷ 70 ∷ 161 ∷ 1 ∷ 99 ∷ codes "ann" ++ 2 ∷ 88 ∷ 64 ∷ repeat 64 0;
}

pub repeat-bytes : (n b : ℕ) → b < 256 → All IsByte (repeat n b)
repeat-bytes zero b h = tt
repeat-bytes (suc n) b h = (h, repeat-bytes n b h)
