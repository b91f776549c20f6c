-- ===== src/Store/Kept.antt =====
-- What holds of every op that a store keeps, by what it does with one more (node/src/store.rs).
use glade.Prelude.{
  inl, inr, List, [], ◌∷◌, arith, Text, bytes_eq, All, All-append, All-keep, Option-cases,
}
use glade.Prelude.BTreeMap.{insert, All-insert, All-get, get}
use glade.Prelude.Order.{bytes_ord, pair_ord}
use glade.Checkpoint.{Floor}
use glade.Wire.{Op, ChainId, chain_of}
use glade.Store.Types.{Logs, Register, Store}
use glade.Store.Classify.{held_of}
use glade.Store.Append.{push, place, insert_by_seq, sort_by_seq, checkpoints_of}

module _ (P : Op → Type 0) where
  abbrev pub AllLogs : Logs → Type 0
  AllLogs logs = All (λ (e : ChainId × List Op). All P e.1) logs

  abbrev pub AllRegister : Register → Type 0
  AllRegister register = All (λ (e : ChainId × (Op × Floor)). P e.1.0) register

  pub held_of-All : (logs : Logs) (c : ChainId) → AllLogs logs → All P (held_of logs c)
  unfolding held_of
  held_of-All logs c h = elim (Option-cases (get c logs)) [
    | inl e ↦ rw (held_of, e) tt
    | inr (ops, e) ↦ rw (held_of, e) (All-get (λ (e : ChainId × List Op). All P e.1) logs c ops h e)
  ]

  pub push-All : (op : Op) (logs : Logs) → P op → AllLogs logs → AllLogs (push op logs)
  unfolding push
  push-All op logs p h =
      All-insert (λ (e : ChainId × List Op). All P e.1) logs (chain_of op) _
        (All-append _ _ _ (held_of-All logs (chain_of op) h) (p, tt)) h

  insert_by_seq-All : (op : Op) (ops : List Op) → P op → All P ops → All P (insert_by_seq op ops)
  unfolding insert_by_seq
  insert_by_seq-All op [] p h = (p, tt)
  insert_by_seq-All op (o ∷ ops) p h = ground (arith, insert_by_seq-All op ops p h.1)

  sort_by_seq-All :
      (sorted ops : List Op) → All P sorted → All P ops → All P (sort_by_seq sorted ops)
  unfolding sort_by_seq
  sort_by_seq-All sorted [] s h = s
  sort_by_seq-All sorted (o ∷ ops) s h =
      sort_by_seq-All (insert_by_seq o sorted) ops (insert_by_seq-All o sorted h.0 s) h.1

  checkpoints_of-All :
      (origin : Text) (r : Register) → AllRegister r → All P (checkpoints_of origin r)
  unfolding checkpoints_of
  checkpoints_of-All origin [] h = tt
  checkpoints_of-All origin ((chain, (op, floor)) ∷ r) h =
      ground (arith, checkpoints_of-All origin r h.1)

  pub place-All :
      (op : Op) (folded : ChainId) (floor : Floor) (s : Store)
      → P op
      → AllLogs s.logs
      → AllRegister s.register
      → AllLogs (place op folded floor s).logs × AllRegister (place op folded floor s).register
  unfolding place
  place-All op folded floor s p h r =
      let noted : AllRegister (insert folded (op, floor) s.register) =
        All-insert (λ (e : ChainId × (Op × Floor)). P e.1.0) s.register folded (op, floor) p r in
      (
        All-insert (λ (e : ChainId × List Op). All P e.1) _ (chain_of op) _
            (sort_by_seq-All [] _ tt (checkpoints_of-All op.origin _ noted))
            (All-insert (λ (e : ChainId × List Op). All P e.1) s.logs folded _
              (All-keep _ _ _ (held_of-All s.logs folded h)) h),
        noted,
      )
