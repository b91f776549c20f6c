-- ===== src/Store/Classify.antt =====
-- The append verdict of an op against its chain (node/src/store.rs: `follows`, `classify`,
-- `classify_home`, `classify_checkpoint` and `checked`).
use glade.Prelude.{
  ℤ, pos, Bool, true, false, Option, none, some, List, [], ◌∷◌, Text, Bytes, ◌==◌, bytes_eq, int_eq,
  if◌then◌else◌, leb_ℤ, suc_i64, Result, ok, err, map_err, last?, find?,
}
use glade.Prelude.BTreeMap.{get}
use glade.Prelude.Order.{bytes_ord, pair_ord}
use glade.External.{External, op_hash}
use glade.Directory
use glade.Checkpoint
use glade.Checkpoint.{Floor, Placement, Against, against}
use glade.Envelope
use glade.Wire.{Op, ChainId, chain_of}
use glade.Store.Types.{Logs, Register, Verdict, StoreError}

-- A seq that a held op is found by.
abbrev pub at_seq : ℤ → Op → Bool
at_seq n o = o.seq == n

-- The ops held of a chain: none for a chain that is not there.
unfoldable pub held_of : Logs → ChainId → List Op
held_of logs chain = elim (get chain logs) [ none ↦ [] | some ops ↦ ops ]

abbrev pub folded_chain : Text → Op → ChainId
folded_chain stream op = ((Directory.home, (stream, [])), op.origin)

module _ (x : External) where
  -- Whether an op follows its chain's tip.
  unfoldable pub follows : ℤ → Bytes → Op → Verdict
  follows seq hash op =
      if op.seq == suc_i64 seq
      then (elim op.prev [
        | none ↦ Verdict.appended
        | some h ↦ if h == hash then Verdict.appended else Verdict.chain_break
      ])
      else Verdict.gap (suc_i64 seq) op.seq

  -- An op at or below its chain's last, against the one held at its seq.
  unfoldable pub classify_held : Op → Option Op → Verdict
  classify_held op none = Verdict.below_retained
  classify_held op (some stored) =
      if op_hash x stored == op_hash x op then Verdict.duplicate else Verdict.equivocation stored

  unfoldable pub classify : List Op → Op → Verdict
  classify held op = elim (last? held) [
    | none ↦ Verdict.appended
    | some last ↦
        if leb_ℤ op.seq last.seq
        then classify_held op (find? (at_seq op.seq) held)
        else follows last.seq (op_hash x last) op
  ]

  -- Where a checkpoint lands against the op that is held at its base.
  unfoldable pub classify_base : ChainId → Floor → Option Op → Verdict
  classify_base folded floor none = Verdict.placed folded floor
  classify_base folded floor (some held) = elim (against x floor held) [
    | Against.fork ↦ Verdict.equivocation held
    | _ ↦ Verdict.placed folded floor
  ]

  unfoldable pub classify_placement : Verdict → Op → Placement → Verdict
  classify_placement rest held Placement.placed = rest
  classify_placement rest held Placement.duplicate = Verdict.duplicate
  classify_placement rest held Placement.seen = Verdict.below_retained
  classify_placement rest held Placement.fork = Verdict.equivocation held
  classify_placement rest held Placement.chain_break = Verdict.chain_break
  classify_placement rest held Placement.rewrite = Verdict.rewrite held

  unfoldable pub classify_checkpoint : Logs → Register → Op → Verdict
  classify_checkpoint logs register op = elim (Checkpoint.check x op) [
    | err why ↦ Verdict.appended
    | ok c ↦
        let folded = folded_chain c.stream op in
        let rest = classify_base folded c.floor (find? (at_seq c.floor.0) (held_of logs folded)) in
        elim (get folded register) [
          | none ↦ rest
          | some (held, at) ↦
              classify_placement rest held (Checkpoint.place x op c.floor (some (held, at)))
        ]
  ]

  -- A home chain with no floor starts at seq 0.
  unfoldable pub classify_unfloored : List Op → Op → Verdict
  classify_unfloored [] op =
      if op.seq == pos 0 then Verdict.appended else Verdict.gap (pos 0) op.seq
  classify_unfloored (o ∷ held) op = classify (o ∷ held) op

  -- Above its floor an empty chain goes on from the base.
  unfoldable pub classify_above : Floor → List Op → Op → Verdict
  classify_above floor [] op = follows floor.0 floor.1 op
  classify_above floor (o ∷ held) op = classify (o ∷ held) op

  unfoldable pub classify_floored : Op → Floor → List Op → Op → Verdict
  classify_floored checkpoint floor held op = elim (against x floor op) [
    | Against.covered ↦ Verdict.below_retained
    | Against.fork ↦ Verdict.equivocation checkpoint
    | Against.above ↦ classify_above floor held op
  ]

  unfoldable pub classify_home : Logs → Register → Op → Verdict
  classify_home logs register op =
      if op.glade_id == Directory.g_checkpoints
      then classify_checkpoint logs register op
      else (elim (get (chain_of op) register) [
        | none ↦ classify_unfloored (held_of logs (chain_of op)) op
        | some (checkpoint, floor) ↦
            classify_floored checkpoint floor (held_of logs (chain_of op)) op
      ])

  unfoldable pub needs_check : Verdict → Bool
  needs_check Verdict.appended = true
  needs_check (Verdict.placed folded floor) = true
  needs_check (Verdict.equivocation o) = true
  needs_check (Verdict.rewrite o) = true
  needs_check v = false

  -- A home op that would be kept, or would convict its origin, must verify.
  unfoldable pub checked : Verdict → Op → Result StoreError (Unit {0})
  checked v op =
      if needs_check v
      then map_err (StoreError.unverified op.origin op.seq) (Envelope.verify x op)
      else ok tt
