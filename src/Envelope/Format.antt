-- ===== src/Envelope/Format.antt =====
-- The format of a home record's payload (`format` of node/src/envelope.rs), which a start that meets
-- an unknown one refuses.
use glade.Prelude.{
  pos, ◌≡◌, Bool, true, false, ◌&&◌, Option, none, some, Bytes, ◌==◌, bytes_eq, int_eq,
  if◌then◌else◌, ok, arith, Bool-cases, inl, inr,
}
use glade.External.{External}
use glade.Directory
use glade.Checkpoint
use glade.Checkpoint.{compacts}
use glade.Envelope.{kind_fields, is_kind}
use glade.Envelope
use glade.Envelope.Parser.{parse}
use glade.Envelope.Record.{open_envelope}
use glade.Wire.{Op}
use glade.Wire.Cbor.{Cbor, Entries, text, map, end, entry}

pub data Format : Type 0 where
  sealed unsigned unknown : Format

-- The first field numbered 1.
unfoldable pub field_one : Entries → Option Cbor
field_one end = none
field_one (entry k v rest) = let later = field_one rest in if k == pos 1 then some v else later

-- A record written before the envelope is a map whose field 1 is text.
unfoldable pub legacy_format : Option Cbor → Format
legacy_format (some (map entries)) = elim (field_one entries) [
  | some (text t) ↦ Format.unsigned
  | _ ↦ Format.unknown
]
legacy_format v = Format.unknown

module _ (x : External) where
  unfoldable pub known_kind : Op → Bytes → Bool
  known_kind op record_ = elim (kind_fields op.glade_id) [
    | none ↦ false
    | some fields ↦ is_kind x record_ fields
  ]

  -- A checkpoint is this build's only of a stream that it compacts.
  unfoldable pub compacted : Op → Bytes → Bool
  compacted op record_ =
      if op.glade_id == Directory.g_checkpoints
      then (elim (Checkpoint.read x record_) [ none ↦ false | some r ↦ compacts r.stream ])
      else true

  unfoldable pub format : Op → Format
  format op = elim (open_envelope x op.payload) [
    | some (record_, sig) ↦
        if known_kind op record_ && compacted op record_ then Format.sealed else Format.unknown
    | none ↦ legacy_format (parse x op.payload)
  ]

  compacted-check :
      (op : Op) (record_ sig : Bytes) (c : Checkpoint.Checkpoint)
      → open_envelope x op.payload ≡ some (record_, sig)
      → op.glade_id ≡ Directory.g_checkpoints
      → Checkpoint.check x op ≡ ok c
      → compacted op record_ ≡ true
  unfolding compacted Checkpoint.check Checkpoint.read Envelope.Record.record_bytes
  compacted-check op record_ sig c o g h = ground (arith, o, g, h)

  not_checkpoint :
      (op : Op) (record_ : Bytes)
      → (op.glade_id == Directory.g_checkpoints) ≡ false
      → compacted op record_ ≡ true
  unfolding compacted
  not_checkpoint op record_ g = ground (arith, g)

  -- An op that verifies is in this build's format, so a start does not refuse its journal for
  -- it.
  pub format-verify : (op : Op) → Envelope.verify x op ≡ ok tt → format op ≡ Format.sealed
  unfolding format known_kind
  format-verify op h =
      let v = Envelope.verify-IsVerified x op h in
      elim (Bool-cases (op.glade_id == Directory.g_checkpoints)) [
        | inl g ↦
            let e : op.glade_id ≡ Directory.g_checkpoints = ground (arith, g) in
            let (c, k) = v.own_check e in
            ground (
              arith,
              v.opened,
              v.of_stream,
              v.of_kind,
              compacted-check op v.record_ v.sig c v.opened e k,
            )
        | inr g ↦ ground (arith, v.opened, v.of_stream, v.of_kind, not_checkpoint op v.record_ g)
      ]
