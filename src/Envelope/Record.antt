-- ===== src/Envelope/Record.antt =====
-- The envelope of a home record (`open` and `record_bytes` of node/src/envelope.rs).
use glade.Prelude.{
  ◌&&◌, Option, none, some, ◌==◌, nat_eq, bytes_eq, if◌then◌else◌, pos, length, Bytes,
}
use glade.External.{External}
use glade.Wire.Cbor.{Cbor, bytes, map, end, entry}
use glade.Envelope.Parser.{parse}

-- The map `{1: record, 2: sig}`.
abbrev pub envelope_of : Bytes → Bytes → Cbor
envelope_of record_ sig = map (entry (pos 1) (bytes record_) (entry (pos 2) (bytes sig) end))

-- The record and the signature of a map `{1: bytes, 2: bytes}`.
unfoldable pub signed_record : Option Cbor → Option (Bytes × Bytes)
signed_record (some (map (entry (pos k) (bytes record_) (entry (pos l) (bytes sig) end)))) =
    if k == 1 && l == 2 then some (record_, sig) else none
signed_record _ = none

module _ (x : External) where
  -- Exactly `{1: bytes, 2: 64 bytes}`, canonically encoded.
  unfoldable pub open_envelope : Bytes → Option (Bytes × Bytes)
  unfolding signed_record
  open_envelope payload = elim (signed_record (parse x payload)) [
    | none ↦ none
    | some (record_, sig) ↦
        if length sig == 64 && x.encode (envelope_of record_ sig) == payload
        then some (record_, sig)
        else none
  ]

  -- The record that a payload carries: the envelope's, or the payload itself.
  unfoldable pub record_bytes : Bytes → Bytes
  unfolding open_envelope
  record_bytes payload = elim (open_envelope payload) [
    | none ↦ payload
    | some (record_, sig) ↦ record_
  ]
