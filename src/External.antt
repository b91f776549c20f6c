-- ===== src/External.antt =====
-- What the node calls and does not implement: the wire codec, SHA-256, Ed25519 and UTF-8. Nothing
-- is assumed of them here; a theorem that needs a law of one takes it as a hypothesis.
use glade.Prelude.{Bool, Bytes, Result}
use glade.Wire.{Op}
use glade.Wire.Cbor.{Cbor}
use glade.Wire.Decode.{DecodeError}

pub record External : Type 0 where
  -- `cbor::encode`, and the encoding of an op's `to_cbor`
  pub encode : Cbor → Bytes
  pub encode_op : Op → Bytes
  -- `cbor::try_decode`, and `Op::from_cbor` of what it reads
  pub try_decode : Bytes → Result DecodeError Cbor
  pub decode_op : Bytes → Result DecodeError Op
  -- `Sha256::digest`
  pub digest : Bytes → Bytes
  -- `VerifyingKey::verify_strict` of a key, a message and a signature; false where the key or the
  -- signature cannot be read
  pub verify_strict : Bytes → Bytes → Bytes → Bool
  -- the public key of a seed, and the signature of the seed's key on a message
  pub public_key : Bytes → Bytes
  pub sign : Bytes → Bytes → Bytes
  -- `String::from_utf8(raw).is_ok()`
  pub is_utf8 : Bytes → Bool

-- The op's identity hash (node/src/chain.rs).
unfoldable pub op_hash : External → Op → Bytes
op_hash x op = x.digest (x.encode_op op)
