-- ===== src/Store/Invariant.antt =====
-- Every append keeps a store valid (node/src/store.rs).
use glade.Prelude.{
  ◌≡◌, ◌≢◌, refl, sym, ap, ◌∙◌, subst, inl, inr, true, List, [], ◌∷◌, ◌++◌, arith, bytes_eq, int_eq,
  InI64, ok, All, All-append, All-keep, keep, Option-cases, Result-cases, Bool-cases,
}
use glade.Prelude.BTreeMap.{insert, All-insert, insert-IsSorted}
use glade.Prelude.Order.{bytes_ord, pair_ord}
use glade.External.{External}
use glade.Directory
use glade.Checkpoint.{Floor}
use glade.Envelope
use glade.Wire.{Op, ChainId, chain_of}
use glade.Store.Types.{EquivProof, StoreError, Store, Disk, Verdict}
use glade.Store.Classify.{held_of, checked, needs_check}
use glade.Store.Held.{held_of-insert}
use glade.Store.Append.{
  append, judge, verdict_of, commit, convict, keep_op, keep_checkpoint, push, append_proof,
  record_equivocation, place, above_base, sort_by_seq, checkpoints_of, rewrite_journal,
}
use glade.Store.Chains.{keep-IsChain}
use glade.Store.Verdicts.{verdict-placed, verdict-appended, verdict-ne-appended}
use glade.Store.Valid.{
  IsRegister, IsLog, Registered, IsValid, register_chain, chain_not-IsRegister, Newest,
  checkpoints_of-Newest, sort_by_seq-Newest, Newest-IsLog,
}

module _ (x : External) where
  -- What a home op that is kept or convicts has passed.
  judged :
      (d : Disk) (s : Store) (op : Op) (v : Verdict) → judge x d s op ≡ ok v → v ≡ verdict_of x s op
  unfolding judge
  judged d s op v h = ground arith

  pub judged-checked :
      (d : Disk) (s : Store) (op : Op) (v : Verdict)
      → judge x d s op ≡ ok v
      → op.share ≡ Directory.home
      → checked x v op ≡ ok tt
  unfolding judge
  judged-checked d s op v h e = ground arith

  pub checked-verify :
      (op : Op) (v : Verdict)
      → needs_check x v ≡ true
      → checked x v op ≡ ok tt
      → Envelope.verify x op ≡ ok tt
  unfolding checked
  checked-verify op v n h = ground arith

  -- The verdict of a store on an op, and its check where the op is of the home share.
  abbrev pub Passes : Store → Op → Verdict → Type 0
  Passes s op v = (v ≡ verdict_of x s op) × (op.share ≡ Directory.home → checked x v op ≡ ok tt)

  judged-Passes :
      (d : Disk) (s : Store) (op : Op) (v : Verdict) → judge x d s op ≡ ok v → Passes s op v
  judged-Passes d s op v h = (judged d s op v h, judged-checked d s op v h)

  -- An appended op that verifies is on no register's chain.
  not-IsRegister :
      (s : Store) (op : Op)
      → Passes s op Verdict.appended
      → op.share ≡ Directory.home
      → op.glade_id ≢ Directory.g_checkpoints
  unfolding needs_check
  not-IsRegister s op h e g =
      let verified =
        Envelope.verify-IsVerified x op (checked-verify op Verdict.appended refl (h.1 e)) in
      let (k, passed) = verified.own_check g in verdict-ne-appended x s op k e g passed (sym h.0)

  pub push-IsValid :
      (s : Store) (op : Op)
      → InI64 op.seq
      → Passes s op Verdict.appended
      → IsValid x s
      → (c : ChainId) → IsLog x c (held_of (push op s.logs) c)
  unfolding push
  push-IsValid s op range h v = held_of-insert (IsLog x) s.logs (chain_of op) _ grown v.logs
    where
      old : IsLog x (chain_of op) (held_of s.logs (chain_of op))
      old = v.logs (chain_of op)

      elsewhere : op.share ≡ Directory.home → op.glade_id ≢ Directory.g_checkpoints
      elsewhere = not-IsRegister s op h

      unregistered : ¬ IsRegister (chain_of op)
      unregistered = chain_not-IsRegister op elsewhere

      grown : IsLog x (chain_of op) (held_of s.logs (chain_of op) ++ op ∷ [])
      grown = record {
        keyed = All-append _ _ _ old.keyed (refl, tt);
        in_range = All-append _ _ _ old.in_range (range, tt);
        chained = λ _. verdict-appended x s op (old.chained unregistered) range (sym h.0) elsewhere;
      }

  pub place-IsValid :
      (s : Store) (op : Op) (folded : ChainId) (floor : Floor)
      → InI64 op.seq
      → chain_of op ≡ register_chain folded.1
      → folded.1 ≡ op.origin
      → IsValid x s
      → IsValid x (place op folded floor s)
  unfolding place
  place-IsValid s op folded floor range own origin v = record {
    logs =
        held_of-insert (IsLog x) _ (chain_of op) _
          (subst (λ c. IsLog x c newest) (sym (own ∙ ap register_chain origin))
            (Newest-IsLog x op.origin newest all_newest))
          (held_of-insert (IsLog x) s.logs folded _ kept v.logs);
    register = registered;
    sorted = insert-IsSorted (chain_of op) _ _ (insert-IsSorted folded _ s.logs v.sorted);
  }
    where
      registered : All (Registered x) (insert folded (op, floor) s.register)
      registered = All-insert (Registered x) s.register folded (op, floor) (own, range) v.register

      newest : List Op
      newest = sort_by_seq [] (checkpoints_of op.origin (insert folded (op, floor) s.register))

      all_newest : Newest x op.origin newest
      all_newest =
          sort_by_seq-Newest x op.origin [] _ tt (checkpoints_of-Newest x op.origin _ registered)

      old : IsLog x folded (held_of s.logs folded)
      old = v.logs folded

      kept : IsLog x folded (keep (above_base floor) (held_of s.logs folded))
      kept = record {
        keyed = All-keep _ _ _ old.keyed;
        in_range = All-keep _ _ _ old.in_range;
        chained = λ n. keep-IsChain x floor.0 _ (old.chained n);
      }

  -- A placed checkpoint is on its origin's register chain.
  pub placed-chain :
      (s : Store) (op : Op) (folded : ChainId) (floor : Floor)
      → Passes s op (Verdict.placed folded floor)
      → (chain_of op ≡ register_chain folded.1) × (folded.1 ≡ op.origin)
  unfolding needs_check chain_of
  placed-chain s op folded floor h =
      let (e, g, o, r) = verdict-placed x s op folded floor (sym h.0) in
      let verified =
        Envelope.verify-IsVerified x op
          (checked-verify op (Verdict.placed folded floor) refl (h.1 e)) in
      (cc (e, g, o, verified.no_key), o)

  convict-logs :
      (d : Disk) (p : EquivProof) (why : StoreError) (s : Store)
      → IsValid x s
      → IsValid x (convict x d p why s).1
  unfolding convict append_proof record_equivocation
  convict-logs d p why s v = elim (Option-cases d.write) [
    | inl e ↦ rw (convict, e) (record { logs = v.logs; register = v.register; sorted = v.sorted })
    | inr (io, e) ↦
        rw (convict, e) (record { logs = v.logs; register = v.register; sorted = v.sorted })
  ]

  keep_op-IsValid :
      (d : Disk) (s : Store) (op : Op)
      → InI64 op.seq
      → judge x d s op ≡ ok Verdict.appended
      → IsValid x s
      → IsValid x (keep_op x d op s).1
  unfolding keep_op push
  keep_op-IsValid d s op range h v = elim (Option-cases d.write) [
    | inl e ↦
        rw (keep_op, e)
          (record {
            logs = push-IsValid s op range (judged-Passes d s op Verdict.appended h) v;
            register = v.register;
            sorted = insert-IsSorted (chain_of op) _ s.logs v.sorted;
          })
    | inr (why, e) ↦
        rw (keep_op, e) (record { logs = v.logs; register = v.register; sorted = v.sorted })
  ]

  keep_checkpoint-IsValid :
      (d : Disk) (s : Store) (op : Op) (folded : ChainId) (floor : Floor)
      → IsValid x (place op folded floor s)
      → IsValid x (keep_checkpoint x d op folded floor s).1
  unfolding keep_checkpoint place rewrite_journal
  keep_checkpoint-IsValid d s op folded floor v = elim (Option-cases d.write) [
    | inl e ↦
        rw (keep_checkpoint, e) (record { logs = v.logs; register = v.register; sorted = v.sorted })
    | inr (why, e) ↦ elim (Bool-cases d.renamed) [
      | inl r ↦
          rw (keep_checkpoint, e, r)
            (record { logs = v.logs; register = v.register; sorted = v.sorted })
      | inr r ↦ rw (keep_checkpoint, e, r) v
    ]
  ]

  commit-IsValid :
      (d : Disk) (s : Store) (op : Op) (w : Verdict)
      → InI64 op.seq
      → judge x d s op ≡ ok w
      → IsValid x s
      → IsValid x (commit x d op w s).1
  unfolding commit
  commit-IsValid d s op Verdict.duplicate range h v = v
  commit-IsValid d s op Verdict.below_retained range h v = v
  commit-IsValid d s op (Verdict.gap e g) range h v = v
  commit-IsValid d s op Verdict.chain_break range h v = v
  commit-IsValid d s op (Verdict.equivocation o) range h v = convict-logs d _ _ s v
  commit-IsValid d s op (Verdict.rewrite o) range h v = convict-logs d _ _ s v
  commit-IsValid d s op Verdict.appended range h v = keep_op-IsValid d s op range h v
  commit-IsValid d s op (Verdict.placed folded floor) range h v =
      let (own, origin) = placed-chain s op folded floor (judged-Passes d s op _ h) in
      keep_checkpoint-IsValid d s op folded floor
        (place-IsValid s op folded floor range own origin v)

  -- Every append of an op whose seq is an i64 to a valid store, whatever its outcome and
  -- whatever the disk answers, leaves it valid: each log holds its own chain's ops in range, the
  -- chains are listed in order, every chain but a register's is contiguous and hash-linked, and
  -- the register holds checkpoints on their origin's register chain.
  pub append-IsValid :
      (d : Disk) (op : Op) (s : Store) → InI64 op.seq → IsValid x s → IsValid x (append x d op s).1
  unfolding append
  append-IsValid d op s range v = elim (Result-cases (judge x d s op)) [
    | inl (w, e) ↦ rw (append, e) (commit-IsValid d s op w range e v)
    | inr (why, e) ↦ rw (append, e) v
  ]
