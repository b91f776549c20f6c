-- ===== src/Registry.antt =====
-- The registry (node/src/registry.rs): the home share's ops as a node holds them, and the checks that an
-- op passes to be held.
pub mod Valid
pub mod Persist
pub mod Stamps
pub mod Standing
pub mod Bindings
pub mod Durable
pub mod Keeps
pub mod Covered
pub mod Quarantine
pub mod Appends
pub mod Superseded
pub mod Tick
pub mod Holder
pub mod Folds
pub mod Load
pub mod Folded
pub mod Invariant
use glade.Prelude.{
  ℕ, ℤ, pos, ◌+◌, ◌%◌, ◌^◌, Bool, true, false, not, ◌&&◌, ◌||◌, Option, none, some, List, [], ◌∷◌,
  ◌++◌, Text, Bytes, ◌==◌, bytes_eq, int_eq, if◌then◌else◌, leb_ℤ, ltb_ℤ, suc_i64, find?, keep,
  Result, ok, err,
}
use glade.Prelude.BTreeMap.{BTreeMap, get, insert}
use glade.Prelude.Order.{bytes_ord, pair_ord}
use glade.External.{External, op_hash}
use glade.Directory
use glade.Checkpoint
use glade.Checkpoint.{Floor, Refused, Placement, Against, against}
use glade.Envelope
use glade.Envelope.Record.{record_bytes}
use glade.Signing.{NodeIdentity}
use glade.Wire.{Op}
use glade.Wire.Decode.{DecodeError}

pub data RegistryError : Type 0 where
  gap : ℤ → ℤ → RegistryError
  chain_break equivocation rewrite : Text → ℤ → RegistryError
  unverified : Text → Refused → RegistryError
  not_ours : Text → RegistryError
  malformed : Text → DecodeError → RegistryError

pub data Ingested : Type 0 where
  appended duplicate covered : Ingested

-- A stream and an origin.
abbrev pub Chain : Type 0
Chain = Text × Text

pub record Registry : Type 0 where
  pub ops : List Op
  pub tips : BTreeMap Chain Floor
  pub checkpoints : BTreeMap Chain (Op × Floor)
  pub changes : ℕ
  pub policy_quarantined : Bool
  pub seal : Option NodeIdentity

-- An empty registry, sealed or not.
unfoldable pub new_registry : Option NodeIdentity → Registry
new_registry seal = record {
  ops = [];
  tips = [];
  checkpoints = [];
  changes = 0;
  policy_quarantined = false;
  seal = seal;
}

unfoldable pub is_policy : Text → Bool
is_policy g = g == Directory.g_grants || g == Directory.g_revocations

unfoldable pub is_binding_family : Text → Bool
is_binding_family g = g == Directory.g_bindings || g == Directory.g_binding_retractions

abbrev pub own_chain : Op → Chain
own_chain op = (op.glade_id, op.origin)

abbrev pub named : Chain → Op → Bool
named chain o = o.glade_id == chain.0 && o.origin == chain.1

-- The ops of a chain at one seq.
abbrev pub named_at : Chain → ℤ → Op → Bool
named_at chain n o = named chain o && o.seq == n

-- `changes` is a u64.
abbrev pub next_change : ℕ → ℕ
next_change n = (n + 1) % 2 ^ 64

unfoldable pub folded_tip : Floor → Option Floor → Floor
folded_tip floor none = floor
folded_tip floor (some tip) = if leb_ℤ tip.0 floor.0 then floor else tip

module _ (x : External) where
  unfoldable pub same_hash : Op → Option Op → Bool
  same_hash op none = false
  same_hash op (some held) = op_hash x held == op_hash x op

  -- Whether the registry holds the op at its place, by its hash.
  unfoldable pub holds : Registry → Op → Bool
  unfolding same_hash
  holds r op = same_hash op (find? (named_at (own_chain op) op.seq) r.ops)

  unfoldable pub take : Op → Registry → Result RegistryError Ingested × Registry
  take op r = (
    ok Ingested.appended,
    record r {
      tips = insert (own_chain op) (op.seq, op_hash x op) r.tips;
      ops = r.ops ++ op ∷ [];
      changes = next_change r.changes;
    },
  )

  -- `prev` may be absent; where it is given it is the tip's hash.
  unfoldable pub breaks : Option Bytes → Bytes → Bool
  breaks none hash = false
  breaks (some prev) hash = not (prev == hash)

  unfoldable pub link_after : Floor → Op → Registry → Result RegistryError Ingested × Registry
  unfolding take breaks holds
  link_after (last_seq, last_hash) op r =
      if leb_ℤ op.seq last_seq
      then if holds r op
        then (ok Ingested.duplicate, r)
        else (err (RegistryError.equivocation op.origin op.seq), r)
      else if not (op.seq == suc_i64 last_seq)
      then (err (RegistryError.gap (suc_i64 last_seq) op.seq), r)
      else if breaks op.prev last_hash
      then (err (RegistryError.chain_break op.origin op.seq), r)
      else take op r

  unfoldable pub link_tip : Op → Registry → Result RegistryError Ingested × Registry
  unfolding link_after
  link_tip op r = elim (get (own_chain op) r.tips) [
    | some tip ↦ link_after tip op r
    | none ↦ if op.seq == pos 0 then take op r else (err (RegistryError.gap (pos 0) op.seq), r)
  ]

  -- A checkpoint that is placed: its chain keeps what is above the base, and its tip is the floor
  -- while nothing above it is held.
  unfoldable pub fold_at : Op → Chain → Floor → Registry → Registry
  unfolding folded_tip
  fold_at op chain floor r =
      let tip = folded_tip floor (get chain r.tips) in
      record r {
        ops = keep (λ o. not (named chain o) || ltb_ℤ floor.0 o.seq) r.ops;
        tips =
            insert (Directory.g_checkpoints, op.origin) (op.seq, op_hash x op)
              (insert chain tip r.tips);
        checkpoints = insert chain (op, floor) r.checkpoints;
        changes = next_change r.changes;
      }

  unfoldable pub forks_base : Floor → Option Op → Bool
  forks_base floor none = false
  forks_base floor (some held) = elim (against x floor held) [ Against.fork ↦ true | _ ↦ false ]

  unfoldable pub place_at : Op → Chain → Floor → Registry → Result RegistryError Ingested × Registry
  unfolding forks_base fold_at
  place_at op chain floor r =
      if forks_base floor (find? (named_at chain floor.0) r.ops)
      then (err (RegistryError.equivocation op.origin floor.0), r)
      else (ok Ingested.appended, fold_at op chain floor r)

  unfoldable pub place_verdict :
      Op → Chain → Floor → Registry → Placement → Result RegistryError Ingested × Registry
  unfolding place_at
  place_verdict op chain floor r Placement.placed = place_at op chain floor r
  place_verdict op chain floor r Placement.duplicate = (ok Ingested.duplicate, r)
  place_verdict op chain floor r Placement.seen = (ok Ingested.covered, r)
  place_verdict op chain floor r Placement.fork =
      (err (RegistryError.equivocation op.origin op.seq), r)
  place_verdict op chain floor r Placement.chain_break =
      (err (RegistryError.chain_break op.origin op.seq), r)
  place_verdict op chain floor r Placement.rewrite =
      (err (RegistryError.rewrite op.origin op.seq), r)

  unfoldable pub place : Op → Registry → Result RegistryError Ingested × Registry
  unfolding place_verdict
  place op r = elim (Checkpoint.check x op) [
    | err why ↦ (err (RegistryError.unverified op.origin why), r)
    | ok c ↦
        let chain : Chain = (c.stream, op.origin) in
        place_verdict op chain c.floor r (Checkpoint.place x op c.floor (get chain r.checkpoints))
  ]

  unfoldable pub link_floor :
      Option (Op × Floor) → Op → Registry → Result RegistryError Ingested × Registry
  unfolding link_tip
  link_floor none op r = link_tip op r
  link_floor (some (held, floor)) op r = elim (against x floor op) [
    | Against.above ↦ link_tip op r
    | Against.covered ↦ (ok Ingested.covered, r)
    | Against.fork ↦ (err (RegistryError.equivocation op.origin op.seq), r)
  ]

  -- The chain checks of an op that is verified, or built here.
  unfoldable pub link : Op → Registry → Result RegistryError Ingested × Registry
  unfolding link_floor place
  link op r =
      if op.glade_id == Directory.g_checkpoints
      then place op r
      else link_floor (get (own_chain op) r.checkpoints) op r

  -- A sealed registry takes what verifies, an unsealed one what its folds can read.
  unfoldable pub ingest : Op → Registry → Result RegistryError Ingested × Registry
  unfolding link
  ingest op r = elim r.seal [
    | some me ↦ elim (Envelope.verify x op) [
      | err why ↦ (err (RegistryError.unverified op.origin why), r)
      | ok u ↦ link op r
    ]
    | none ↦ elim (x.try_decode (record_bytes x op.payload)) [
      | err why ↦ (err (RegistryError.malformed op.origin why), r)
      | ok v ↦ link op r
    ]
  ]
