-- ===== src/Tests/Claims.antt =====
-- Runs of the registry and of the exchange: two nodes' claims of one share, a grant, two calls, and the
-- engine that keeps a snapshot in memory.
use glade.Prelude.{
  ℕ, ◌+◌, ◌≤◌, ◌<◌, ℤ, pos, ◌≡◌, ◌⊎◌, inl, inr, refl, Bool, true, false, ◌&&◌, ◌||◌, Option, none,
  some, List, [], ◌∷◌, ◌++◌, Text, Bytes, codes, arith, any, All, keep, Bool-cases, Result, ok, err,
  ok_or, ◌==◌, bytes_eq, if◌then◌else◌,
}
use glade.Prelude.BTreeMap.{get}
use glade.Grants.{Policy, no_policy, grant}
use glade.External.{External, op_hash}
use glade.Directory
use glade.Envelope.Parser.{parse}
use glade.SystemData.{
  ServeClaim, CapabilityGrant, BindingDecl, BindingRetraction, claim_to_cbor, grant_to_cbor,
  binding_to_cbor, retraction_to_cbor, claim_from_cbor,
}
use glade.Store.Types.{IoError}
use glade.Wire
use glade.Wire.{Op}
use glade.Wire.Cbor.{Cbor}
use glade.Wire.Decode.{DecodeError}
use glade.Registry.{Registry, RegistryError, Ingested, new_registry, ingest, take}
use glade.Registry.Valid.{IsValid}
use glade.Registry.Invariant.{new_registry-IsValid, ingest-IsValid}
use glade.Registry.Folds.{policy, who_serves, holder_of, folded, is_live}
use glade.Registry.Holder.{who_serves-same}
use glade.Registry.Load.{SystemSnapshot, StoreApi, load, decoded}
use glade.Registry.Persist.{Record, next_op_of, append_returning, stream_of}
use glade.Registry.Appends.{append_returning-take}
use glade.Registry.Tick.{due}
use glade.Registry.Superseded.{due-holder}
use glade.Registry.Quarantine.{policy-load, AllIn, IsDecoded}
use glade.Registry.Standing.{over-newest, Holding, newest_in}
use glade.Registry.Bindings.{bindings_over}
use glade.Exchange.{no_calls}
use glade.Exchange.Takes.{Event, IsDistinct, told_by}
use glade.Exchange.Once.{told_by-IsDistinct}
use glade.Store.Paths.{candidate, exists, unused_path, unused_path_ends}
use glade.Tests.{toy, small}

abbrev pub home_op : Text → Text → ℤ → Option Bytes → Cbor → Op
home_op g origin n before body = record {
  share = Directory.home;
  glade_id = g;
  key = [];
  origin = origin;
  seq = n;
  prev = before;
  lamport = n;
  refs = [];
  shape = Wire.log;
  payload = small body;
}

abbrev claim : Text → ℕ → ℕ → ServeClaim
claim node lease epoch = record {
  node = node;
  share = codes "s";
  lease_expiry_ms = pos lease;
  epoch = pos epoch;
}

abbrev grant_op : Op
grant_op =
    home_op Directory.g_grants (codes "a") (pos 0) none
      (grant_to_cbor (record { principal = codes "p"; share = codes "s"; verbs = codes "r" ∷ [] }))

-- The decoder of the small encoder, and of the one op that the snapshot holds.
abbrev reading : External
reading = record toy {
  try_decode = λ b. ok_or (parse toy b) DecodeError.truncated;
  decode_op = λ b. if b == toy.encode_op grant_op then ok grant_op else err DecodeError.truncated;
}

abbrev claim_a : Op
claim_a =
    home_op Directory.g_claims (codes "a") (pos 0) none (claim_to_cbor (claim (codes "a") 10 1))

abbrev claim_b : Op
claim_b =
    home_op Directory.g_claims (codes "b") (pos 0) none (claim_to_cbor (claim (codes "b") 10 1))

abbrev renewed_a : Op
renewed_a =
    home_op Directory.g_claims (codes "a") (pos 1) (some (op_hash reading claim_a))
      (claim_to_cbor (claim (codes "a") 20 1))

abbrev holding : List Op → Registry
holding ops = record (new_registry none) { ops = ops }

-- a claim is ingested, and its renewal after it
ingest-IsValid_example : IsValid reading (ingest reading claim_a (new_registry none)).1
ingest-IsValid_example =
    ingest-IsValid reading claim_a (new_registry none)
      (record { above = omega arith; below = omega arith }) (new_registry-IsValid reading none)

swapped : (p : Op → Bool) → any p (claim_a ∷ claim_b ∷ []) ≡ any p (claim_b ∷ claim_a ∷ [])
swapped p = ground arith

-- equal epochs: the lower node serves
who_serves-same_example :
    who_serves reading (holding (claim_a ∷ claim_b ∷ [])) (codes "s") (pos 5)
    ≡ who_serves reading (holding (claim_b ∷ claim_a ∷ [])) (codes "s") (pos 5)
who_serves-same_example =
    who_serves-same reading (holding (claim_a ∷ claim_b ∷ [])) (holding (claim_b ∷ claim_a ∷ []))
      (codes "s") (pos 5) swapped

-- the renewal supersedes the claim, and the fold is due
due-holder_example :
    let d = due reading (claim_a ∷ renewed_a ∷ []) [] 1 in
    holder_of (keep (is_live (codes "s") (pos 5)) ([] ++ (d.carried ++ [])))
    ≡ holder_of (
        keep
          (is_live (codes "s") (pos 5))
          ([] ++ (folded reading claim_from_cbor (claim_a ∷ renewed_a ∷ []) ++ [])))
unfolding due folded parse glade.Envelope.Record.record_bytes claim_to_cbor glade.Prelude.ℕ_discrete
    claim_from_cbor glade.Wire.Decode.try_get glade.Prelude.ℤ_discrete glade.Wire.Decode.try_text
    glade.Wire.Decode.try_int glade.Prelude.bytes_discrete
due-holder_example =
    due-holder reading (claim_a ∷ renewed_a ∷ []) [] [] 1 (pos 1, op_hash reading renewed_a)
      (codes "s") (pos 5) refl

append_returning-take_example :
    append_returning reading (Record.serve (claim (codes "a") 10 1)) (codes "a") (new_registry none)
    ≡ (
      ok (
          next_op_of reading
            (Record.serve (claim (codes "a") 10 1))
            (codes "a")
            (new_registry none)),
      (take reading
          (next_op_of reading
            (Record.serve (claim (codes "a") 10 1))
            (codes "a")
            (new_registry none))
          (new_registry none)).1,
    )
unfolding stream_of glade.Registry.Persist.not_ours new_registry get
append_returning-take_example =
    append_returning-take reading (Record.serve (claim (codes "a") 10 1)) (codes "a")
      (new_registry none) (new_registry-IsValid reading none) (λ e. cc e) refl tt

abbrev memory : StoreApi
memory = record { State = SystemSnapshot; load = λ d. d; save = λ snap d. (ok tt, snap) }

abbrev io_failed : IoError → RegistryError
io_failed e = RegistryError.not_ours []

abbrev granted : SystemSnapshot
granted = record { records = toy.encode_op grant_op ∷ []; heads = [] }

abbrev granted_policy : Policy
granted_policy = grant (codes "p") (codes "s") (codes "r" ∷ []) no_policy

policy-load_example :
    IsDecoded reading granted.records
    × AllIn reading (decoded reading granted.records) (load reading granted (new_registry none)).0
unfolding policy load decoded glade.Prelude.bytes_discrete glade.Prelude.ℕ_discrete grant_to_cbor
    get ingest new_registry parse glade.Envelope.Record.record_bytes glade.Prelude.ℤ_discrete
    glade.Prelude.sort_by glade.Registry.Folds.record_of glade.SystemData.grant_from_cbor
    glade.Wire.Decode.try_get glade.Wire.Decode.try_array glade.Wire.Decode.try_text grant
    glade.SystemData.texts_of glade.Registry.Folds.grant_all glade.Registry.Folds.revoke_all
policy-load_example = policy-load reading granted none granted_policy refl

abbrev declaration : Op
declaration = home_op Directory.g_bindings (codes "a") (pos 0) none (
    binding_to_cbor (record {
      app = codes "p";
      glade_id = codes "g";
      shape = [];
      authority = [];
      zone = [];
      retention = [];
    }))

abbrev retraction : Op
retraction =
    home_op Directory.g_binding_retractions (codes "b") (pos 1) none
      (retraction_to_cbor (record { app = codes "p"; glade_id = codes "g" }))

-- another node's retraction does not take the declaration down
over-newest_example :
    Holding reading
      (codes "p", codes "g")
      (codes "a")
      (declaration ∷ retraction ∷ [])
      (newest_in
        (codes "p", codes "g")
        (codes "a")
        (bindings_over reading (declaration ∷ retraction ∷ []) []))
over-newest_example =
    over-newest reading (codes "p", codes "g") (codes "a") (declaration ∷ retraction ∷ [])

-- a call is answered by its provider alone, once, and its provider's end answers the other
abbrev calls : List Event
calls =
    Event.filed 1 (codes "c1") 7
    ∷ Event.filed 2 (codes "c1") 7
    ∷ Event.answer 8 (codes "n1")
    ∷ Event.answer 7 (codes "n1")
    ∷ Event.answer 7 (codes "n1")
    ∷ Event.end 7
    ∷ Event.expire (codes "n2")
    ∷ []

told_by-IsDistinct_example : IsDistinct (told_by calls no_calls)
told_by-IsDistinct_example = told_by-IsDistinct calls (omega arith)

abbrev legacy_names : List Text
legacy_names = codes "old" ∷ codes "old-2" ∷ []

unused_path_ends_example :
    (k : ℕ) × (unused_path legacy_names (codes "old") [] ≡ some (candidate (codes "old") [] k))
    × (1 ≤ k)
    × (k ≤ 3)
    × (exists legacy_names (candidate (codes "old") [] k) ≡ false)
    × ((i : ℕ) → 1 ≤ i → i < k → exists legacy_names (candidate (codes "old") [] i) ≡ true)
unused_path_ends_example = unused_path_ends (codes "old") [] legacy_names (omega arith)
