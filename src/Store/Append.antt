-- ===== src/Store/Append.antt =====
-- The store's append (node/src/store.rs): the surface's contract, the verdict, and what each verdict
-- writes, to the journals and to memory.
pub mod Surface
use glade.Prelude.{
  ℕ, ℤ, pos, ◌≡◌, Bool, true, false, not, ◌&&◌, ◌||◌, Option, none, some, List, [], ◌∷◌, ◌++◌, Text,
  Bytes, ◌==◌, bytes_eq, int_eq, if◌then◌else◌, ltb_ℤ, leb_ℤ, Result, ok, err, ◌>>=◌, ◌>>◌, keep,
}
use glade.Prelude.BTreeMap.{get, insert}
use glade.Prelude.Order.{bytes_ord, pair_ord}
use glade.External.{External}
use glade.Directory
use glade.Checkpoint.{Floor}
use glade.Wire.{Op, ChainId, chain_of}
use glade.Store.Types.{
  Append, EquivProof, StoreError, Logs, Register, Journals, Store, Disk, Verdict, IoError,
}
use glade.Store.Journal.{framed, frames, part}
use glade.Store.Classify.{held_of, classify, classify_home, checked}
use Surface.{check_surface}

-- A fault of the disk ends the call.
abbrev pub io_check : Option IoError → Result StoreError (Unit {0})
io_check none = ok tt
io_check (some e) = err (StoreError.io e)

-- logs.entry(chain).or_default().push(op)
unfoldable pub push : Op → Logs → Logs
push op logs = insert (chain_of op) (held_of logs (chain_of op) ++ op ∷ []) logs

abbrev pub journal_key : Op → Text × Text
journal_key op = (op.share, op.origin)

unfoldable pub journal_of : Journals → Text × Text → Bytes
journal_of journals key = elim (get key journals) [ none ↦ [] | some bytes ↦ bytes ]

-- What a call's write leaves of its bytes in the file: all of them, or where it fails the first.
unfoldable pub written : Disk → Bytes → Bytes
written d bytes = elim d.write [ none ↦ bytes | some e ↦ part d.wrote bytes ]

-- One more record in the journal of the op's share and origin, whole or torn.
unfoldable pub append_to_log : External → Disk → Op → Journals → Journals
unfolding written
append_to_log x d op journals =
    insert (journal_key op) (journal_of journals (journal_key op) ++ written d (framed x op))
      journals

-- A stable insertion by seq: after every op whose seq is no higher.
unfoldable pub insert_by_seq : Op → List Op → List Op
insert_by_seq op [] = op ∷ []
insert_by_seq op (o ∷ ops) = if ltb_ℤ op.seq o.seq then op ∷ o ∷ ops else o ∷ insert_by_seq op ops

unfoldable pub sort_by_seq : List Op → List Op → List Op
unfolding insert_by_seq
sort_by_seq sorted [] = sorted
sort_by_seq sorted (op ∷ ops) = sort_by_seq (insert_by_seq op sorted) ops

-- The checkpoints that the register holds of one origin, in the register's order.
unfoldable pub checkpoints_of : Text → Register → List Op
checkpoints_of origin [] = []
checkpoints_of origin ((chain, (op, floor)) ∷ register) =
    if chain.1 == origin
    then op ∷ checkpoints_of origin register
    else checkpoints_of origin register

abbrev pub above_base : Floor → Op → Bool
above_base floor o = ltb_ℤ floor.0 o.seq

-- `op` is placed as the checkpoint that folds a chain: the chain keeps what is above the base, and
-- the checkpoint's own chain the newest checkpoints of its origin.
unfoldable pub place : Op → ChainId → Floor → Store → Store
unfolding sort_by_seq checkpoints_of
place op folded floor s =
    let folds = insert folded (keep (above_base floor) (held_of s.logs folded)) s.logs in
    let register = insert folded (op, floor) s.register in
    let newest = sort_by_seq [] (checkpoints_of op.origin register) in
    record s { logs = insert (chain_of op) newest folds; register = register }

-- The ops of one origin's home chains whose stream passes a test, in the order of the chains.
unfoldable pub home_ops : (Text → Bool) → Text → Logs → List Op
home_ops stream origin [] = []
home_ops stream origin ((((share, (glade_id, key)), of), ops) ∷ logs) =
    let rest = home_ops stream origin logs in
    if share == Directory.home && of == origin && stream glade_id then ops ++ rest else rest

-- The journal of one origin's home share, written anew from memory, checkpoints first.
unfoldable pub rewrite_journal : External → Text → Store → Store
unfolding home_ops
rewrite_journal x origin s = record s {
  journals =
      insert (Directory.home, origin)
        (frames x (
          home_ops (λ g. g == Directory.g_checkpoints) origin s.logs
          ++ home_ops (λ g. not (g == Directory.g_checkpoints)) origin s.logs))
        s.journals;
}

unfoldable pub append_proof : External → Disk → EquivProof → Store → Store
unfolding written
append_proof x d proof s = record s {
  proof_journal = s.proof_journal ++ written d (framed x proof.a ++ framed x proof.b);
}

unfoldable pub record_equivocation : EquivProof → Store → Store
record_equivocation proof s = record s { proofs = s.proofs ++ proof ∷ [] }

-- A call that refuses with evidence: an I/O fault comes first.
unfoldable pub convict :
    External → Disk → EquivProof → StoreError → Store → Result StoreError Append × Store
unfolding record_equivocation append_proof
convict x d proof why s =
    let told = append_proof x d proof s in
    elim d.write [
      | some e ↦ (err (StoreError.io e), told)
      | none ↦ (err why, record_equivocation proof told)
    ]

unfoldable pub keep_op : External → Disk → Op → Store → Result StoreError Append × Store
unfolding append_to_log push
keep_op x d op s =
    let journals = append_to_log x d op s.journals in
    elim d.write [
      | some e ↦ (err (StoreError.io e), record s { journals = journals })
      | none ↦ (ok Append.appended, record s { journals = journals; logs = push op s.logs })
    ]

-- The checkpoint is placed in memory before the journal is rewritten, into a file that takes the
-- journal's name once it is whole; what fails after that leaves it rewritten.
unfoldable pub keep_checkpoint :
    External → Disk → Op → ChainId → Floor → Store → Result StoreError Append × Store
unfolding place rewrite_journal
keep_checkpoint x d op folded floor s =
    let placed = place op folded floor s in
    let rewritten = rewrite_journal x op.origin placed in
    elim d.write [
      | some e ↦ (err (StoreError.io e), if d.renamed then rewritten else placed)
      | none ↦ (ok Append.appended, rewritten)
    ]

unfoldable pub commit : External → Disk → Op → Verdict → Store → Result StoreError Append × Store
commit x d op Verdict.duplicate s = (ok Append.duplicate, s)
commit x d op Verdict.below_retained s = (ok Append.below_retained, s)
commit x d op (Verdict.gap expected got) s = (err (StoreError.gap expected got), s)
commit x d op Verdict.chain_break s = (err (StoreError.chain_break op.origin op.seq), s)
commit x d op (Verdict.equivocation stored) s =
    convict x d (record { a = stored; b = op }) (StoreError.equivocation op.origin op.seq) s
commit x d op (Verdict.rewrite stored) s =
    convict x d (record { a = stored; b = op }) (StoreError.rewrite op.origin op.seq) s
commit x d op Verdict.appended s = keep_op x d op s
commit x d op (Verdict.placed folded floor) s = keep_checkpoint x d op folded floor s

module _ (x : External) where
  unfoldable pub verdict_of : Store → Op → Verdict
  verdict_of s op =
      if op.share == Directory.home
      then classify_home x s.logs s.register op
      else classify x (held_of s.logs (chain_of op)) op

  -- Everything that a call checks before it writes.
  unfoldable pub judge : Disk → Store → Op → Result StoreError Verdict
  judge d s op = do
    io_check d.unsealed
    check_surface op s.logs
    let v = verdict_of s op
    if op.share == Directory.home then checked x v op else ok tt
    ok v

  unfoldable pub append : Disk → Op → Store → Result StoreError Append × Store
  append d op s = elim (judge d s op) [ err e ↦ (err e, s) | ok v ↦ commit x d op v s ]
