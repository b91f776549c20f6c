-- ===== src/Transport.antt =====
-- The transport fold (node/src/transport.rs): which endpoint keys a node has bound, and which it has
-- revoked.
pub mod Revocation
pub mod Door
pub mod Admitted
pub mod Withdrawn
pub mod Served
use glade.Prelude.{
  ℕ, ℤ, pos, ◌≡◌, Bool, true, false, not, ◌&&◌, ◌||◌, Option, none, some, List, [], ◌∷◌, ◌++◌, Text,
  Bytes, codes, ◌==◌, bytes_eq, nat_eq, if◌then◌else◌, ltb_ℤ, leb_ℤ, suc, ◌+◌,
}
use glade.Prelude.BTreeMap.{BTreeMap, get, insert}
use glade.Prelude.Order.{bytes_ord, pair_ord}
use glade.External.{External}
use glade.Directory
use glade.Envelope.Parser.{parse}
use glade.Envelope.Record.{record_bytes}
use glade.NodeId.{key_of}
use glade.Signing
use glade.Signing.{SignatureStatus, valid, invalid, verify_in}
use glade.Wire.{Op}
use glade.Wire.Cbor.{Cbor, Entries, int, bytes, text, map, end, entry}

abbrev pub transport_binding : Bytes
transport_binding = codes "glade/v1/transport-binding" ++ 0 ∷ []

abbrev pub transport_revocation : Bytes
transport_revocation = codes "glade/v1/transport-revocation" ++ 0 ∷ []

-- An endpoint key and a node key.
abbrev pub Pair : Type 0
Pair = Bytes × Bytes

pub data Bound : Type 0 where
  live revoked unbound clock_uncertain : Bound
  not_yet : ℤ → Bound

pub record TransportFold : Type 0 where
  pub bindings : BTreeMap Pair ℤ
  pub revocations : BTreeMap Pair (Unit {0})
  pub ignored : ℕ

abbrev pub no_records : TransportFold
no_records = record { bindings = []; revocations = []; ignored = 0 }

-- The fields of a record on one of the two streams.
pub record Fields : Type 0 where
  pub node : Text
  pub endpoint_id : Text
  pub valid_from : Option ℤ
  pub sig : Bytes
  pub domain : Bytes

unfoldable pub binding_fields : Option Cbor → Option Fields
binding_fields
      (some (
        map (
          entry
            (pos a)
            (text n)
            (entry (pos b) (text e) (entry (pos c) (int at) (entry (pos d) (bytes s) end)))))) =
    if a == 1 && b == 2 && c == 3 && d == 4
    then some (record {
      node = n;
      endpoint_id = e;
      valid_from = some at;
      sig = s;
      domain = transport_binding;
    })
    else none
binding_fields _ = none

unfoldable pub revocation_fields : Option Cbor → Option Fields
revocation_fields
      (some (map (entry (pos a) (text n) (entry (pos b) (text e) (entry (pos c) (bytes s) end))))) =
    if a == 1 && b == 2 && c == 3
    then some (record {
      node = n;
      endpoint_id = e;
      valid_from = none;
      sig = s;
      domain = transport_revocation;
    })
    else none
revocation_fields _ = none

unfoldable pub fields_of : Text → Option Cbor → Option Fields
fields_of stream value =
    if stream == Directory.g_transport_bindings
    then binding_fields value
    else if stream == Directory.g_transport_revocations
    then revocation_fields value
    else none

unfoldable pub dated : Option ℤ → Entries
dated none = end
dated (some at) = entry (pos 3) (int at) end

module _ (x : External) where
  -- What a record's signature covers: its fields before the signature.
  unfoldable pub message : Text → Text → Option ℤ → Bytes
  message node endpoint_id valid_from =
      x.encode
        (map (entry (pos 1) (text node) (entry (pos 2) (text endpoint_id) (dated valid_from))))

  -- Whether the record that was read is canonical.
  unfoldable pub is_canonical : Bytes → Option Cbor → Bool
  is_canonical raw none = false
  is_canonical raw (some value) = x.encode value == raw

  unfoldable pub is_signed : Fields → Bytes → Bool
  is_signed f signer =
      elim (verify_in x signer f.domain (message f.node f.endpoint_id f.valid_from) f.sig) [
        | valid ↦ true
        | invalid ↦ false
      ]

  unfoldable pub proven_fields : Op → Bytes → Fields → Option (Pair × Option ℤ)
  proven_fields op raw f = elim (key_of f.endpoint_id) [
    | none ↦ none
    | some endpoint ↦ elim (key_of f.node) [
      | none ↦ none
      | some node ↦
          if is_canonical raw (parse x raw)
            && is_signed f node
            && op.share == Directory.home
            && op.origin == f.node
          then some ((endpoint, node), f.valid_from)
          else none
    ]
  ]

  -- The pair that a transport record proves, and a binding's date.
  unfoldable pub proven : Op → Option (Pair × Option ℤ)
  proven op =
      let raw = record_bytes x op.payload in
      elim (fields_of op.glade_id (parse x raw)) [ none ↦ none | some f ↦ proven_fields op raw f ]

  unfoldable pub note_proven : Option (Pair × Option ℤ) → TransportFold → TransportFold
  note_proven none fold = record fold { ignored = fold.ignored + 1 }
  note_proven (some (pair, none)) fold = record fold {
    revocations = insert pair tt fold.revocations;
  }
  note_proven (some (pair, some at)) fold = record fold {
    bindings =
        insert pair
          (elim (get pair fold.bindings) [
            | none ↦ at
            | some earliest ↦ if ltb_ℤ at earliest then at else earliest
          ])
          fold.bindings;
  }

  unfoldable pub note : Op → TransportFold → TransportFold
  note op fold =
      if op.glade_id == Directory.g_transport_bindings
        || op.glade_id == Directory.g_transport_revocations
      then note_proven (proven op) fold
      else fold

  unfoldable pub over : List Op → TransportFold → TransportFold
  over [] fold = fold
  over (op ∷ ops) fold = over ops (note op fold)

-- Where a node's binding of an endpoint stands at the reader's clock.
unfoldable pub binds : TransportFold → Bytes → Bytes → ℤ → Bound
binds fold node endpoint now = elim (get (endpoint, node) fold.revocations) [
  | some u ↦ Bound.revoked
  | none ↦
      if leb_ℤ now (pos 0)
      then Bound.clock_uncertain
      else (elim (get (endpoint, node) fold.bindings) [
        | none ↦ Bound.unbound
        | some valid_from ↦ if leb_ℤ valid_from now then Bound.live else Bound.not_yet valid_from
      ])
]

-- The pair that an op newly revokes, which the caller of `note` is told.
unfoldable pub newly_revoked : External → Op → TransportFold → Option Pair
newly_revoked x op fold =
    if op.glade_id == Directory.g_transport_bindings
      || op.glade_id == Directory.g_transport_revocations
    then (elim (proven x op) [
      | none ↦ none
      | some (pair, date) ↦ elim date [
        | some at ↦ none
        | none ↦ elim (get pair fold.revocations) [ none ↦ some pair | some u ↦ none ]
      ]
    ])
    else none
