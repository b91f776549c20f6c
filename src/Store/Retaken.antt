-- ===== src/Store/Retaken.antt =====
-- A replay of a home journal against the appends that it stands for (node/src/store.rs).
use glade.Prelude.{
  ◌≡◌, inl, inr, refl, sym, ap, ◌∙◌, subst, true, not, some, List, [], ◌∷◌, ◌++◌, arith, ◌==◌,
  bytes_eq, keep, ok, All, All-append, All-keep, InI64, int_eq, Option-cases, Result-cases,
}
use glade.Prelude.Order.{bytes_ord, pair_ord}
use glade.External.{External}
use glade.Directory
use glade.Checkpoint.{Floor}
use glade.Envelope
use glade.Envelope.{IsVerified}
use glade.Wire
use glade.Wire.{Op, ChainId, shape_eq, zone_eq, zone_of}
use glade.Store.Types.{Logs, Store, Verdict, healthy}
use glade.Store.Kept.{AllLogs}
use glade.Store.Classify.{classify_home, checked, needs_check}
use glade.Store.Append.{
  append, judge, commit, keep_op, keep_checkpoint, place, push, rewrite_journal, verdict_of,
}
use glade.Store.Append.Surface.{
  check_surface, check_payload, surface_entries, surface_entry, is_exclusive,
}
use glade.Store.Invariant.{checked-verify}
use glade.Store.Replay.{
  Replayed, nothing_replayed, store_of, replay_one, replay_ops, replayed, place_replayed,
}
use glade.Store.Trusted.{IsTrusted, replay_one-Took, replay_one-IsTrusted, nothing-IsTrusted}

-- The appends of ops one after the other, on a disk that answers.
unfoldable pub append_all : External → List Op → Store → Store
append_all x [] s = s
append_all x (op ∷ ops) s = append_all x ops (append x healthy op s).1

-- The chains and the register of a store are what was replayed.
abbrev pub Holds : Replayed → Store → Type 0
Holds r s = (s.logs ≡ r.logs) × (s.register ≡ r.register)

module _ (x : External) where
  surface_entries-logs :
      (op : Op) (logs : Logs)
      → op.shape ≡ Wire.log
      → AllLogs (IsVerified x) logs
      → surface_entries op logs ≡ ok tt
  unfolding surface_entries surface_entry is_exclusive
  surface_entries-logs op [] e h = refl
  surface_entries-logs op (((zone, origin), []) ∷ logs) e h =
      ground (arith, surface_entries-logs op logs e h.1)
  surface_entries-logs op (((zone, origin), first ∷ ops) ∷ logs) e h =
      ground (arith, e, h.0.0.is_log, surface_entries-logs op logs e h.1)

  check_surface-logs :
      (op : Op) (logs : Logs)
      → op.shape ≡ Wire.log
      → AllLogs (IsVerified x) logs
      → check_surface op logs ≡ ok tt
  unfolding check_surface check_payload
  check_surface-logs op logs e h = ground (arith, e, surface_entries-logs op logs e h)

  append-below :
      (op : Op) (s : Store)
      → verdict_of x s op ≡ Verdict.below_retained
      → (append x healthy op s).1 ≡ s
  unfolding append judge commit
  append-below op s v = elim (Result-cases (judge x healthy s op)) [
    | inl (w, e) ↦ ground (arith, e, v)
    | inr (why, e) ↦ ground (arith, e)
  ]

  verdict_of-home :
      (op : Op) (r : Replayed) (s : Store)
      → op.share ≡ Directory.home
      → Holds r s
      → verdict_of x s op ≡ classify_home x r.logs r.register op
  unfolding verdict_of
  verdict_of-home op r s e h =
      let same : classify_home x s.logs s.register op ≡ classify_home x r.logs r.register op =
        λ i. classify_home x (h.0 i) (h.1 i) op in
      ground (arith, e, same)

  append-taken :
      (op : Op) (s : Store) (v : Verdict)
      → op.shape ≡ Wire.log
      → AllLogs (IsVerified x) s.logs
      → verdict_of x s op ≡ v
      → checked x v op ≡ ok tt
      → append x healthy op s ≡ commit x healthy op v s
  unfolding append judge
  append-taken op s v l h e c =
      ground (arith, check_surface-logs op s.logs l h, e, c, ap (λ w. checked x w op) e)

  place-Holds :
      (op : Op) (folded : ChainId) (floor : Floor) (r : Replayed) (s : Store)
      → Holds r s
      → Holds
          (place_replayed (place op folded floor (store_of r)) r.covered)
          (place op folded floor s)
  unfolding place place_replayed
  place-Holds op folded floor r s h = (cc, cc)

  -- An op that verifies passes the surface's contract of a store of ops that verify.
  checked-append :
      (op : Op) (r : Replayed) (s : Store) (v : Verdict)
      → needs_check x v ≡ true
      → IsTrusted x r
      → op.share ≡ Directory.home
      → Holds r s
      → classify_home x r.logs r.register op ≡ v
      → checked x v op ≡ ok tt
      → append x healthy op s ≡ commit x healthy op v s
  checked-append op r s v n t e h w c =
      append-taken op s v (Envelope.verify-IsVerified x op (checked-verify x op v n c)).is_log
        (subst (AllLogs (IsVerified x)) (sym h.0) t.logs) (verdict_of-home op r s e h ∙ w) c

  keep_op-Holds :
      (op : Op) (r : Replayed) (s : Store)
      → Holds r s
      → Holds (record r { logs = push op r.logs }) (keep_op x healthy op s).1
  unfolding keep_op
  keep_op-Holds op r s h = (ap (push op) h.0, h.1)

  keep_checkpoint-Holds :
      (op : Op) (folded : ChainId) (floor : Floor) (r : Replayed) (s : Store)
      → Holds r s
      → Holds
          (place_replayed (place op folded floor (store_of r)) r.covered)
          (keep_checkpoint x healthy op folded floor s).1
  unfolding keep_checkpoint rewrite_journal
  keep_checkpoint-Holds op folded floor r s h = place-Holds op folded floor r s h

  append-Holds :
      (op : Op) (r next : Replayed) (s : Store)
      → IsTrusted x r
      → op.share ≡ Directory.home
      → Holds r s
      → replay_one x op r ≡ some next
      → Holds next (append x healthy op s).1
  unfolding needs_check commit
  append-Holds op r next s t e h q = elim (replay_one-Took x op r next q) [
    | inl (v, n) ↦
        subst (λ m. Holds m (append x healthy op s).1) (sym n)
          (subst (Holds (record r { covered = true }))
            (sym (append-below op s (verdict_of-home op r s e h ∙ v))) h)
    | inr (inl (v, c, n)) ↦
        subst (λ m. Holds m (append x healthy op s).1) (sym n)
          (subst (λ p. Holds (record r { logs = push op r.logs }) p.1)
            (sym (
              checked-append op r s Verdict.appended refl t e h v
                (ap (λ w. checked x w op) (sym v) ∙ c)))
            (keep_op-Holds op r s h))
    | inr (inr (p, v, c, n)) ↦
        subst (λ m. Holds m (append x healthy op s).1) (sym n)
          (subst (λ q. Holds (place_replayed (place op p.0 p.1 (store_of r)) r.covered) q.1)
            (sym (
              checked-append op r s (Verdict.placed p.0 p.1) refl t e h v
                (ap (λ w. checked x w op) (sym v) ∙ c)))
            (keep_checkpoint-Holds op p.0 p.1 r s h))
  ]

  replay_ops-Holds :
      (ops : List Op) (r last : Replayed) (s : Store)
      → IsTrusted x r
      → All (λ o. (o.share ≡ Directory.home) × InI64 o.seq) ops
      → Holds r s
      → replay_ops x ops r ≡ some last
      → Holds last (append_all x ops s)
  unfolding replay_ops append_all
  replay_ops-Holds [] r last s t a h q =
      let same : r ≡ last = ground (arith, q) in subst (λ m. Holds m s) same h
  replay_ops-Holds (op ∷ ops) r last s t a h q = elim (Option-cases (replay_one x op r)) [
    | inl e ↦ absurd (ground (arith, e, q))
    | inr (next, e) ↦
        replay_ops-Holds ops next last (append x healthy op s).1
          (replay_one-IsTrusted x op r next a.0.1 e t) a.1 (append-Holds op r next s t a.0.0 h e)
          (ground (arith, e, q))
  ]

  -- A journal whose ops are of the home share, their seqs i64s: where a replay takes it, the
  -- chains and the register are those that appends of its checkpoints and then of its other ops,
  -- in the file's order, leave in an empty store on a disk that answers. The replay skips the
  -- test of the surface's contract, which no op that verifies fails.
  pub replayed-append_all :
      (ops : List Op) (last : Replayed)
      → All (λ o. (o.share ≡ Directory.home) × InI64 o.seq) ops
      → replayed x ops ≡ some last
      → Holds last (
          append_all x
            (keep (λ o. o.glade_id == Directory.g_checkpoints) ops
              ++ keep (λ o. not (o.glade_id == Directory.g_checkpoints)) ops)
            (store_of nothing_replayed))
  unfolding replayed
  replayed-append_all ops last a q =
      replay_ops-Holds _ nothing_replayed last (store_of nothing_replayed) (nothing-IsTrusted x)
        (All-append _ _ _ (All-keep _ _ _ a) (All-keep _ _ _ a)) (refl, refl) q
