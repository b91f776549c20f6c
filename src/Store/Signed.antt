-- ===== src/Store/Signed.antt =====
-- Every op of the home share that a store holds is signed by the node that its origin names
-- (node/src/store.rs and node/src/envelope.rs).
use glade.Prelude.{
  ◌≡◌, ◌≢◌, ◌⊎◌, bytes_discrete, refl, inl, inr, true, Option, some, List, [], ◌∷◌, ◌++◌, arith,
  codes, Bytes, bytes_eq, ok, All, Option-cases, Result-cases, Bool-cases, pos,
}
use glade.Prelude.BTreeMap.{}
use glade.Prelude.Order.{bytes_ord, pair_ord}
use glade.External.{External}
use glade.Directory
use glade.Checkpoint.{Floor}
use glade.Envelope
use glade.Envelope.{IsVerified, Field, is_kind, is_kind_value, signature_holds}
use glade.Envelope.Parser.{parse}
use glade.Envelope.Record.{open_envelope}
use glade.NodeId.{key_of}
use glade.Signing
use glade.Signing.{verify_in, tag}
use glade.Wire.{Op, ChainId}
use glade.Wire.Cbor.{Cbor, Entries, bytes, map, end, entry}
use glade.Store.Types.{EquivProof, StoreError, Store, Disk, Verdict}
use glade.Store.Kept.{AllLogs, AllRegister, held_of-All, push-All, place-All}
use glade.Store.Classify.{held_of, needs_check}
use glade.Store.Append.{
  append, judge, commit, convict, keep_op, keep_checkpoint, rewrite_journal, append_proof,
  record_equivocation,
}
use glade.Store.Invariant.{judged-checked, checked-verify}

-- The payload is the encoding of a record and a signature, the record itself an encoding of a map, and
-- the signature holds, under the key that the origin writes, of the domain and the op with the record
-- in the envelope's place.
pub record IsSigned (x : External) (op : Op) : Type 0 where
  pub record_ : Bytes
  pub sig : Bytes
  pub key : Bytes
  pub fields : Entries
  pub sealed :
      op.payload ≡ x.encode (map (entry (pos 1) (bytes record_) (entry (pos 2) (bytes sig) end)))
  pub canonical : record_ ≡ x.encode (map fields)
  pub named : key_of op.origin ≡ some key
  pub signed :
      x.verify_strict key
        ((codes "glade/v1/origin-op" ++ 0 ∷ []) ++ x.encode_op (record op { payload = record_ }))
        sig
      ≡ true

module _ (x : External) where
  opened-sealed :
      (payload record_ sig : Bytes)
      → open_envelope x payload ≡ some (record_, sig)
      → payload ≡ x.encode (map (entry (pos 1) (bytes record_) (entry (pos 2) (bytes sig) end)))
  unfolding open_envelope
  opened-sealed payload record_ sig h = ground arith

  kind_value-canonical :
      (record_ : Bytes) (fields : List Field) (v : Option Cbor)
      → is_kind_value x record_ fields v ≡ true
      → (entries : Entries) × (record_ ≡ x.encode (map entries))
  unfolding is_kind_value
  kind_value-canonical record_ fields (some (map entries)) h = (entries, ground arith)
  kind_value-canonical record_ fields _ h = absurd (cc h)

  signature-signed :
      (signer : Bytes) (op : Op) (record_ sig : Bytes)
      → signature_holds x signer op record_ sig ≡ true
      → x.verify_strict signer
          ((codes "glade/v1/origin-op" ++ 0 ∷ []) ++ x.encode_op (record op { payload = record_ }))
          sig
        ≡ true
  unfolding signature_holds Signing.verify verify_in tag
  signature-signed signer op record_ sig h = ground arith

  IsVerified-IsSigned : (op : Op) → IsVerified x op → IsSigned x op
  unfolding is_kind
  IsVerified-IsSigned op v =
      let (entries, e) = kind_value-canonical v.record_ v.fields (parse x v.record_) v.of_kind in
      record {
        record_ = v.record_;
        sig = v.sig;
        key = v.signer;
        fields = entries;
        sealed = opened-sealed op.payload v.record_ v.sig v.opened;
        canonical = e;
        named = v.of_origin;
        signed = signature-signed v.signer op v.record_ v.sig v.signed;
      }

  -- Of another share, or signed.
  abbrev pub HomeSigned : Op → Type 0
  HomeSigned op = (op.share ≢ Directory.home) ⊎ IsSigned x op

  abbrev Keeps : Store → Type 0
  Keeps s = AllLogs HomeSigned s.logs × AllRegister HomeSigned s.register

  judged-HomeSigned :
      (d : Disk) (s : Store) (op : Op) (v : Verdict)
      → judge x d s op ≡ ok v
      → needs_check x v ≡ true
      → HomeSigned op
  judged-HomeSigned d s op v h n = elim (bytes_discrete op.share Directory.home) [
    | no m ↦ inl m
    | yes e ↦ inr (
        IsVerified-IsSigned op (
          Envelope.verify-IsVerified x op
            (checked-verify x op v n (judged-checked x d s op v h e))))
  ]

  convict-Keeps :
      (d : Disk) (p : EquivProof) (why : StoreError) (s : Store)
      → Keeps s
      → Keeps (convict x d p why s).1
  unfolding convict append_proof record_equivocation
  convict-Keeps d p why s k = elim (Option-cases d.write) [
    | inl e ↦ rw (convict, e) k
    | inr (io, e) ↦ rw (convict, e) k
  ]

  keep_op-Keeps :
      (d : Disk) (s : Store) (op : Op) → HomeSigned op → Keeps s → Keeps (keep_op x d op s).1
  unfolding keep_op
  keep_op-Keeps d s op p k = elim (Option-cases d.write) [
    | inl e ↦ rw (keep_op, e) (push-All HomeSigned op s.logs p k.0, k.1)
    | inr (io, e) ↦ rw (keep_op, e) k
  ]

  keep_checkpoint-Keeps :
      (d : Disk) (s : Store) (op : Op) (folded : ChainId) (floor : Floor)
      → HomeSigned op
      → Keeps s
      → Keeps (keep_checkpoint x d op folded floor s).1
  unfolding keep_checkpoint rewrite_journal
  keep_checkpoint-Keeps d s op folded floor p k =
      let placed = place-All HomeSigned op folded floor s p k.0 k.1 in
      elim (Option-cases d.write) [
        | inl e ↦ rw (keep_checkpoint, e) placed
        | inr (io, e) ↦ elim (Bool-cases d.renamed) [
          | inl r ↦ rw (keep_checkpoint, e, r) placed
          | inr r ↦ rw (keep_checkpoint, e, r) placed
        ]
      ]

  commit-Keeps :
      (d : Disk) (s : Store) (op : Op) (v : Verdict)
      → judge x d s op ≡ ok v
      → Keeps s
      → Keeps (commit x d op v s).1
  unfolding commit needs_check
  commit-Keeps d s op Verdict.duplicate h k = k
  commit-Keeps d s op Verdict.below_retained h k = k
  commit-Keeps d s op (Verdict.gap e g) h k = k
  commit-Keeps d s op Verdict.chain_break h k = k
  commit-Keeps d s op (Verdict.equivocation o) h k = convict-Keeps d _ _ s k
  commit-Keeps d s op (Verdict.rewrite o) h k = convict-Keeps d _ _ s k
  commit-Keeps d s op Verdict.appended h k =
      keep_op-Keeps d s op (judged-HomeSigned d s op Verdict.appended h refl) k
  commit-Keeps d s op (Verdict.placed folded floor) h k =
      keep_checkpoint-Keeps d s op folded floor
        (judged-HomeSigned d s op (Verdict.placed folded floor) h refl) k

  append-Keeps : (d : Disk) (op : Op) (s : Store) → Keeps s → Keeps (append x d op s).1
  unfolding append
  append-Keeps d op s k = elim (Result-cases (judge x d s op)) [
    | inl (v, e) ↦ rw (append, e) (commit-Keeps d s op v e k)
    | inr (why, e) ↦ rw (append, e) k
  ]

  -- Appends one after the other, each with what the disk answers it.
  unfoldable pub append_each : List (Disk × Op) → Store → Store
  append_each [] s = s
  append_each ((d, op) ∷ calls) s = append_each calls (append x d op s).1

  append_each-Keeps : (calls : List (Disk × Op)) (s : Store) → Keeps s → Keeps (append_each calls s)
  unfolding append_each
  append_each-Keeps [] s k = k
  append_each-Keeps ((d, op) ∷ calls) s k =
      append_each-Keeps calls (append x d op s).1 (append-Keeps d op s k)

  -- After any appends to a store that holds nothing, of any ops and whatever the disk answers
  -- each: every op of the home share that a chain holds is a sealed canonical record, and its
  -- signature holds, under the origin-op domain, of the key that the op's origin writes.
  pub append_each-HomeSigned :
      (calls : List (Disk × Op)) (s : Store) (c : ChainId)
      → s.logs ≡ []
      → s.register ≡ []
      → All HomeSigned (held_of (append_each calls s).logs c)
  append_each-HomeSigned calls s c e r =
      held_of-All HomeSigned (append_each calls s).logs c
        (append_each-Keeps calls s (rw e tt, rw r tt)).0
