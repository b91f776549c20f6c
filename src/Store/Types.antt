-- ===== src/Store/Types.antt =====
-- The store's state and outcomes (node/src/store.rs). A journal is its bytes.
use glade.Prelude.{ℕ, ℤ, Option, none, List, Text, Bytes, Bool, false}
use glade.Prelude.BTreeMap.{BTreeMap}
use glade.Wire
use glade.Wire.{Op, Shape, ChainId}
use glade.Wire.Swmr.{SwmrPayloadError}
use glade.Checkpoint.{Floor, Refused}

pub data Append : Type 0 where
  appended duplicate below_retained : Append

pub record EquivProof : Type 0 where
  pub a : Op
  pub b : Op

-- The forked slot: the chain, and the seq.
unfoldable pub slot : EquivProof → ChainId × ℤ
unfolding Wire.chain_of
slot p = (Wire.chain_of p.a, p.a.seq)

-- An I/O failure, by its number.
abbrev pub IoError : Type 0
IoError = ℕ

pub data StoreError : Type 0 where
  gap : ℤ → ℤ → StoreError
  equivocation chain_break rewrite : Text → ℤ → StoreError
  invalid_swmr_payload : SwmrPayloadError → StoreError
  swmr_writer_conflict : Text → Text → StoreError
  shape_conflict : Shape → Shape → StoreError
  unverified : Text → ℤ → Refused → StoreError
  io : IoError → StoreError

abbrev pub Logs : Type 0
Logs = BTreeMap ChainId (List Op)

-- The newest checkpoint held for each chain that one folds, and the floor that it gives the chain.
abbrev pub Register : Type 0
Register = BTreeMap ChainId (Op × Floor)

-- The journals, one for a share and an origin.
abbrev pub Journals : Type 0
Journals = BTreeMap (Text × Text) Bytes

pub record Store : Type 0 where
  pub logs : Logs
  pub register : Register
  pub proofs : List EquivProof
  pub journals : Journals
  pub proof_journal : Bytes

-- What the disk answers to one call: to the check of the seal, and to the call's one write. Of a
-- write that fails, how many bytes may have reached the file; of a rewrite that fails, whether the
-- new file had already taken the journal's name.
pub record Disk : Type 0 where
  pub unsealed : Option IoError
  pub write : Option IoError
  pub wrote : ℕ
  pub renamed : Bool

abbrev pub healthy : Disk
healthy = record { unsealed = none; write = none; wrote = 0; renamed = false }

-- `Gap` names the seq expected and the one got.
pub data Verdict : Type 0 where
  appended duplicate below_retained chain_break : Verdict
  gap : ℤ → ℤ → Verdict
  equivocation rewrite : Op → Verdict
  placed : ChainId → Floor → Verdict
