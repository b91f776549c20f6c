-- ===== src/Envelope.antt =====
-- Home records signed (node/src/envelope.rs): the check that every home ingest makes.
pub mod Parser
pub mod Record
pub mod Format
use glade.Prelude.{
  ℕ, zero, suc, ◌+◌, ◌≡◌, ◌≢◌, refl, Bool, true, false, not, ◌&&◌, ◌||◌, Option, none, some, List,
  [], ◌∷◌, arith, ◌==◌, bytes_eq, int_eq, nat_eq, if◌then◌else◌, ℤ, pos, negsuc, length, Bytes,
  Text, ltb_ℤ, leb_ℤ, ◌<ℤ◌, ◌≤ℤ◌, Result, ok, err, ◌>>=◌, ◌>>◌, ok_or, Option-cases, Result-cases,
  inl, inr,
}
use glade.External.{External}
use glade.Directory
use glade.NodeId.{key_of}
use glade.Checkpoint
use glade.Checkpoint.{Refused, unsigned, form, prev, kind, origin, signature}
use glade.Envelope.Parser.{parse}
use glade.Envelope.Record.{open_envelope}
use glade.Signing
use glade.Signing.{Purpose, SignatureStatus, valid, invalid}
use glade.Wire.{Op, shape_eq}
use glade.Wire
use glade.Wire.Cbor.{Cbor, Items, Entries, array, map, nil, cons, end, entry}

-- A record field's type.
pub data Field : Type 0 where
  text bytes int texts : Field

-- The fields of each directory stream's kind, numbered from 1.
unfoldable pub kind_fields : Text → Option (List Field)
kind_fields g =
    if g == Directory.g_nodes
      || g == Directory.g_revocations
      || g == Directory.g_binding_retractions
      || g == Directory.g_recovery_keys
    then some (Field.text ∷ Field.text ∷ [])
    else if g == Directory.g_workspaces || g == Directory.g_grants
    then some (Field.text ∷ Field.text ∷ Field.texts ∷ [])
    else if g == Directory.g_claims
    then some (Field.text ∷ Field.text ∷ Field.int ∷ Field.int ∷ [])
    else if g == Directory.g_bindings
    then some (Field.text ∷ Field.text ∷ Field.text ∷ Field.text ∷ Field.text ∷ Field.text ∷ [])
    else if g == Directory.g_services
    then some (Field.text ∷ Field.text ∷ Field.text ∷ [])
    else if g == Directory.g_principals
    then some (Field.text ∷ [])
    else if g == Directory.g_transport_bindings || g == Directory.g_checkpoints
    then some (Field.text ∷ Field.text ∷ Field.int ∷ Field.bytes ∷ [])
    else if g == Directory.g_transport_revocations
    then some (Field.text ∷ Field.text ∷ Field.bytes ∷ [])
    else none

unfoldable pub all_text : Items → Bool
all_text nil = true
all_text (cons (Cbor.text s) rest) = all_text rest
all_text (cons v rest) = false

unfoldable pub has_type : Field → Cbor → Bool
unfolding all_text
has_type Field.text (Cbor.text s) = true
has_type Field.int (Cbor.int n) = true
has_type Field.bytes (Cbor.bytes b) = true
has_type Field.texts (Cbor.array items) = all_text items
has_type f v = false

-- Keys from `i` up, one entry to a field.
unfoldable pub typed : ℕ → Entries → List Field → Bool
unfolding has_type
typed i end [] = true
typed i end (f ∷ fields) = false
typed i (entry k v rest) [] = false
typed i (entry k v rest) (f ∷ fields) = (k == pos i) && has_type f v && typed (suc i) rest fields

-- The value that was read, if it is a map of the fields and the record is its canonical encoding.
unfoldable pub is_kind_value : External → Bytes → List Field → Option Cbor → Bool
is_kind_value x record_ fields (some (map entries)) =
    typed 1 entries fields && x.encode (map entries) == record_
is_kind_value x record_ fields v = false

unfoldable pub is_kind : External → Bytes → List Field → Bool
unfolding is_kind_value
is_kind x record_ fields = is_kind_value x record_ fields (parse x record_)

-- Any refusal that a test makes.
abbrev pub refuse_if : Bool → Refused → Result Refused (Unit {0})
refuse_if true why = err why
refuse_if false why = ok tt

-- The op with its record in place of the envelope, which its origin's signature covers.
abbrev pub signed_op : Op → Bytes → Op
signed_op op record_ = record op { payload = record_ }

-- `op.prev.is_some() != after_first`
unfoldable pub prev_disagrees : Option Bytes → Bool → Bool
prev_disagrees none after_first = after_first
prev_disagrees (some h) after_first = not after_first

module _ (x : External) where
  unfoldable pub signature_holds : Bytes → Op → Bytes → Bytes → Bool
  signature_holds signer op record_ sig =
      elim (Signing.verify x signer Signing.origin_op (x.encode_op (signed_op op record_)) sig) [
        | valid ↦ true
        | invalid ↦ false
      ]

  -- The rules that follow the envelope's, in their order.
  unfoldable pub verify_record : Op → Bytes → Bytes → Result Refused (Unit {0})
  unfolding prev_disagrees
  verify_record op record_ sig = do
    refuse_if
        (not (
          op.share == Directory.home
          && length op.key == 0
          && op.shape == Wire.log
          && length op.refs == 0))
        form
    refuse_if (ltb_ℤ op.seq (pos 0) || prev_disagrees op.prev (ltb_ℤ (pos 0) op.seq)) prev
    fields ← ok_or (kind_fields op.glade_id) Refused.stream
    refuse_if (not (is_kind x record_ fields)) kind
    signer ← ok_or (key_of op.origin) origin
    refuse_if (not (signature_holds signer op record_ sig)) signature
    if op.glade_id == Directory.g_checkpoints then (Checkpoint.check x op >>= λ _. ok tt) else ok tt

  unfoldable pub verify : Op → Result Refused (Unit {0})
  verify op = do
    (record_, sig) ← ok_or (open_envelope x op.payload) unsigned
    verify_record op record_ sig

  -- What an op that verifies is: the directory's form, a record of its stream's kind, and a
  -- signature of the record's op that holds under the key that its origin writes.
  pub record IsVerified (op : Op) : Type 0 where
    pub record_ : Bytes
    pub sig : Bytes
    pub fields : List Field
    pub signer : Bytes
    pub opened : open_envelope x op.payload ≡ some (record_, sig)
    pub in_home : op.share ≡ Directory.home
    pub no_key : op.key ≡ []
    pub is_log : op.shape ≡ Wire.log
    pub no_refs : op.refs ≡ []
    pub seq_natural : pos 0 ≤ℤ op.seq
    pub first : op.seq ≡ pos 0 → op.prev ≡ none
    pub later : pos 0 <ℤ op.seq → op.prev ≢ none
    pub of_stream : kind_fields op.glade_id ≡ some fields
    pub of_kind : is_kind x record_ fields ≡ true
    pub of_origin : key_of op.origin ≡ some signer
    pub signed : signature_holds signer op record_ sig ≡ true
    pub own_check :
        op.glade_id ≡ Directory.g_checkpoints
        → (c : Checkpoint.Checkpoint) × (Checkpoint.check x op ≡ ok c)

  empty_of_length : {A : Type 0} (xs : List A) → length xs ≡ 0 → xs ≡ []
  empty_of_length [] h = refl
  empty_of_length (a ∷ xs) h = absurd (omega arith)

  module _ (op : Op) (record_ sig : Bytes) (fields : List Field) (signer : Bytes) where
    IsVerified-by_parts :
        open_envelope x op.payload ≡ some (record_, sig)
        → verify_record op record_ sig ≡ ok tt
        → kind_fields op.glade_id ≡ some fields
        → key_of op.origin ≡ some signer
        → IsVerified op
    unfolding verify_record
    IsVerified-by_parts opened h f s = record {
      record_ = record_;
      sig = sig;
      fields = fields;
      signer = signer;
      opened = opened;
      in_home = ground arith;
      no_key = ground (arith, empty_of_length op.key);
      is_log = ground arith;
      no_refs = ground (arith, empty_of_length op.refs);
      seq_natural = ground arith;
      first = λ e. ground arith;
      later = λ e n. ground arith;
      of_stream = f;
      of_kind = ground arith;
      of_origin = s;
      signed = ground arith;
      own_check = λ e. elim (Result-cases (Checkpoint.check x op)) [
        | inl passed ↦ passed
        | inr (why, refused) ↦ absurd (ground arith)
      ];
    }

  kind_known :
      (op : Op) (record_ sig : Bytes)
      → verify_record op record_ sig ≡ ok tt
      → (fields : List Field) × (kind_fields op.glade_id ≡ some fields)
  unfolding verify_record
  kind_known op record_ sig h = ground arith

  origin_known :
      (op : Op) (record_ sig : Bytes)
      → verify_record op record_ sig ≡ ok tt
      → (signer : Bytes) × (key_of op.origin ≡ some signer)
  unfolding verify_record
  origin_known op record_ sig h = ground arith

  -- An op that verifies is an envelope that opens, in the directory's form, of its stream's
  -- kind, and signed under the key that its origin writes; a first op names no predecessor, a
  -- later one names one, and a checkpoint passes its own check.
  pub verify-IsVerified : (op : Op) → verify op ≡ ok tt → IsVerified op
  unfolding verify
  verify-IsVerified op h = elim (Option-cases (open_envelope x op.payload)) [
    | inl e ↦ absurd (ground arith)
    | inr ((record_, sig), e) ↦
        let v : verify_record op record_ sig ≡ ok tt = ground arith in
        let (fields, f) = kind_known op record_ sig v in
        let (signer, s) = origin_known op record_ sig v in
        IsVerified-by_parts op record_ sig fields signer e v f s
  ]
