-- ===== src/Wire.antt =====
-- The wire's data (wire-rs/src/generated.rs): an op, its causal heads and its shape. The bytes that
-- they encode to are the codec's, which a generator writes: they enter as parameters.
pub mod Cbor
pub mod Swmr
pub mod Limit
pub mod Decode
use glade.Prelude.{
  ℕ, ℤ, ◌≡◌, Option, none, some, List, Bytes, Text, DecEq, ℕ_discrete, ℤ_discrete, bytes_discrete,
  maybe_bytes_discrete,
}
use glade.Prelude.Order.{dec_pair, bytes_ord, pair_ord}

pub data Shape : Type 0 where
  value log stream swmr crdt : Shape

pub data Priority : Type 0 where
  control interactive bulk : Priority

pub data ErrorCode : Type 0 where
  ok equivocation unknown_share unauthorized protocol retention internal : ErrorCode

pub record Head : Type 0 where
  pub origin : Text
  pub seq : ℤ
  pub hash : Option Bytes

pub record StreamHeads : Type 0 where
  pub share : Text
  pub glade_id : Text
  pub key : Bytes
  pub heads : List Head

pub record Op : Type 0 where
  pub share : Text
  pub glade_id : Text
  pub key : Bytes
  pub origin : Text
  pub seq : ℤ
  pub prev : Option Bytes
  pub lamport : ℤ
  pub refs : List Head
  pub shape : Shape
  pub payload : Bytes

unfoldable pub shape_discrete : Discrete Shape
shape_discrete = hlevel

instance abbrev pub shape_eq : DecEq Shape
shape_eq = record { dec = shape_discrete }

-- A zone-surface (node/src/router.rs), and a chain of one origin in it (node/src/store.rs). The
-- tuples are nested so that they are ordered by the first component that differs.
abbrev pub Zone : Type 0
Zone = Text × (Text × Bytes)

abbrev pub ChainId : Type 0
ChainId = Zone × Text

abbrev pub zone_of : Op → Zone
zone_of op = (op.share, (op.glade_id, op.key))

unfoldable pub chain_of : Op → ChainId
chain_of op = (zone_of op, op.origin)

instance abbrev pub zone_eq : DecEq Zone
zone_eq = record { dec = dec_pair }

-- `==` on ops: field by field.
unfoldable pub head_discrete : Discrete Head
head_discrete = hlevel ℕ_discrete

unfoldable pub op_discrete : Discrete Op
op_discrete = hlevel ℕ_discrete

instance abbrev pub op_eq : DecEq Op
op_eq = record { dec = op_discrete }
