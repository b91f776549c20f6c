-- ===== src/Store/Trusted.antt =====
-- What a replay of a home journal may hold, whatever stands in the file (node/src/store.rs).
use glade.Prelude.{
  ◌≡◌, ◌⊎◌, inl, inr, refl, sym, ap, subst, ◌∙◌, true, false, some, List, [], ◌∷◌, arith, bytes_eq,
  ok, All, All-append, All-keep, Option-cases, Result-cases, Bool-cases, InI64, int_eq,
}
use glade.Prelude.BTreeMap.{get, insert-IsSorted}
use glade.Prelude.Order.{bytes_ord, pair_ord}
use glade.External.{External}
use glade.Checkpoint.{Floor}
use glade.Envelope
use glade.Envelope.{IsVerified}
use glade.Wire.{Op, ChainId, chain_of}
use glade.Store.Kept.{AllLogs, AllRegister, push-All, place-All}
use glade.Store.Types.{Verdict}
use glade.Store.Classify.{held_of, classify_home, checked, needs_check}
use glade.Store.Append.{push, place, verdict_of}
use glade.Store.Valid.{IsValid, empty-IsLog}
use glade.Store.Invariant.{push-IsValid, place-IsValid, placed-chain, checked-verify}
use glade.Store.Replay.{
  Replayed, nothing_replayed, store_of, replay_verdict, replay_one, replay_ops, replayed, is_taken,
  place_replayed,
}

-- What a replay took an op for.
abbrev pub Took : External → Verdict → Op → Replayed → Replayed → Type 0
Took x v op r next =
    ((v ≡ Verdict.below_retained) × (next ≡ record r { covered = true }))
    ⊎ (((v ≡ Verdict.appended)
          × (checked x v op ≡ ok tt)
          × (next ≡ record r { logs = push op r.logs }))
        ⊎ ((t : ChainId × Floor) × (v ≡ Verdict.placed t.0 t.1)
            × (checked x v op ≡ ok tt)
            × (next ≡ place_replayed (place op t.0 t.1 (store_of r)) r.covered)))

module _ (x : External) where
  passed : (v : Verdict) (op : Op) → is_taken (checked x v op) ≡ true → checked x v op ≡ ok tt
  unfolding is_taken
  passed v op h = elim (Result-cases (checked x v op)) [
    | inl (u, e) ↦ e
    | inr (why, e) ↦ absurd (ground (arith, e, h))
  ]

  taken-Took :
      (v : Verdict) (op : Op) (r next : Replayed)
      → checked x v op ≡ ok tt
      → replay_verdict v true op r ≡ some next
      → Took x v op r next
  unfolding replay_verdict
  taken-Took Verdict.below_retained op r next c h = inl (refl, ground arith)
  taken-Took Verdict.appended op r next c h = inr (inl (refl, c, ground arith))
  taken-Took (Verdict.placed folded floor) op r next c h =
      inr (inr ((folded, floor), refl, c, ground arith))
  taken-Took Verdict.duplicate op r next c h = absurd (cc h)
  taken-Took Verdict.chain_break op r next c h = absurd (cc h)
  taken-Took (Verdict.gap e g) op r next c h = absurd (cc h)
  taken-Took (Verdict.equivocation o) op r next c h = absurd (cc h)
  taken-Took (Verdict.rewrite o) op r next c h = absurd (cc h)

  refused-Took :
      (v : Verdict) (op : Op) (r next : Replayed)
      → replay_verdict v false op r ≡ some next
      → Took x v op r next
  unfolding replay_verdict
  refused-Took Verdict.below_retained op r next h = inl (refl, ground arith)
  refused-Took Verdict.appended op r next h = absurd (cc h)
  refused-Took (Verdict.placed folded floor) op r next h = absurd (cc h)
  refused-Took Verdict.duplicate op r next h = absurd (cc h)
  refused-Took Verdict.chain_break op r next h = absurd (cc h)
  refused-Took (Verdict.gap e g) op r next h = absurd (cc h)
  refused-Took (Verdict.equivocation o) op r next h = absurd (cc h)
  refused-Took (Verdict.rewrite o) op r next h = absurd (cc h)

  replay_verdict-Took :
      (v : Verdict) (op : Op) (r next : Replayed)
      → replay_verdict v (is_taken (checked x v op)) op r ≡ some next
      → Took x v op r next
  replay_verdict-Took v op r next h = elim (Bool-cases (is_taken (checked x v op))) [
    | inl e ↦ taken-Took v op r next (passed v op e) (ap (λ b. replay_verdict v b op r) (sym e) ∙ h)
    | inr e ↦ refused-Took v op r next (ap (λ b. replay_verdict v b op r) (sym e) ∙ h)
  ]

  pub replay_one-Took :
      (op : Op) (r next : Replayed)
      → replay_one x op r ≡ some next
      → Took x (classify_home x r.logs r.register op) op r next
  unfolding replay_one
  replay_one-Took op r next h =
      replay_verdict-Took (classify_home x r.logs r.register op) op r next h

  -- A valid store, of ops that verify.
  pub record IsTrusted (r : Replayed) : Type 0 where
    pub valid : IsValid x (store_of r)
    pub logs : AllLogs (IsVerified x) r.logs
    pub register : AllRegister (IsVerified x) r.register

  appended-IsTrusted :
      (op : Op) (r : Replayed)
      → InI64 op.seq
      → classify_home x r.logs r.register op ≡ Verdict.appended
      → checked x Verdict.appended op ≡ ok tt
      → IsTrusted r
      → IsTrusted (record r { logs = push op r.logs })
  unfolding needs_check verdict_of push
  appended-IsTrusted op r range v c h =
      let verified : IsVerified x op =
        Envelope.verify-IsVerified x op (checked-verify x op Verdict.appended refl c) in
      record {
        valid = record {
          logs =
              push-IsValid x (store_of r) op range (ground (arith, v, verified.in_home), λ _. c)
                h.valid;
          register = h.valid.register;
          sorted = insert-IsSorted (chain_of op) _ r.logs h.valid.sorted;
        };
        logs = push-All (IsVerified x) op r.logs verified h.logs;
        register = h.register;
      }

  placed-IsTrusted :
      (op : Op) (r : Replayed) (folded : ChainId) (floor : Floor)
      → InI64 op.seq
      → classify_home x r.logs r.register op ≡ Verdict.placed folded floor
      → checked x (Verdict.placed folded floor) op ≡ ok tt
      → IsTrusted r
      → IsTrusted (place_replayed (place op folded floor (store_of r)) r.covered)
  unfolding needs_check verdict_of place_replayed place
  placed-IsTrusted op r folded floor range v c h =
      let verified : IsVerified x op =
        Envelope.verify-IsVerified x op
          (checked-verify x op (Verdict.placed folded floor) refl c) in
      let (own, origin) =
        placed-chain x (store_of r) op folded floor (ground (arith, v, verified.in_home), λ _. c) in
      let placed = place-IsValid x (store_of r) op folded floor range own origin h.valid in
      let held = place-All (IsVerified x) op folded floor (store_of r) verified h.logs h.register in
      record {
        valid = record { logs = placed.logs; register = placed.register; sorted = placed.sorted };
        logs = held.0;
        register = held.1;
      }

  pub replay_one-IsTrusted :
      (op : Op) (r next : Replayed)
      → InI64 op.seq
      → replay_one x op r ≡ some next
      → IsTrusted r
      → IsTrusted next
  replay_one-IsTrusted op r next range h t = elim (replay_one-Took op r next h) [
    | inl (v, e) ↦
        subst IsTrusted (sym e) (record { valid = t.valid; logs = t.logs; register = t.register })
    | inr (inl (v, c, e)) ↦
        subst IsTrusted (sym e)
          (appended-IsTrusted op r range v (ap (λ w. checked x w op) (sym v) ∙ c) t)
    | inr (inr (p, v, c, e)) ↦
        subst IsTrusted (sym e)
          (placed-IsTrusted op r p.0 p.1 range v (ap (λ w. checked x w op) (sym v) ∙ c) t)
  ]

  replay_ops-IsTrusted :
      (ops : List Op) (r last : Replayed)
      → All (λ o. InI64 o.seq) ops
      → replay_ops x ops r ≡ some last
      → IsTrusted r
      → IsTrusted last
  unfolding replay_ops
  replay_ops-IsTrusted [] r last range h t = subst IsTrusted (ground (arith, h)) t
  replay_ops-IsTrusted (op ∷ ops) r last range h t = elim (Option-cases (replay_one x op r)) [
    | inl e ↦ absurd (ground (arith, e, h))
    | inr (next, e) ↦
        replay_ops-IsTrusted ops next last range.1 (ground (arith, e, h))
          (replay_one-IsTrusted op r next range.0 e t)
  ]

  pub nothing-IsTrusted : IsTrusted nothing_replayed
  unfolding held_of get
  nothing-IsTrusted = record {
    valid = record { logs = λ c. empty-IsLog x c; register = tt; sorted = tt };
    logs = tt;
    register = tt;
  }

  -- Whatever stands in a home journal, its seqs being i64s: a replay that takes it leaves a
  -- valid store, whose chains but the registers' are contiguous and hash-linked, and every op
  -- that it holds, on a chain or in the register, verifies.
  pub replayed-IsTrusted :
      (ops : List Op) (last : Replayed)
      → All (λ o. InI64 o.seq) ops
      → replayed x ops ≡ some last
      → IsTrusted last
  unfolding replayed
  replayed-IsTrusted ops last range h =
      replay_ops-IsTrusted _ nothing_replayed last
        (All-append _ _ _ (All-keep _ _ _ range) (All-keep _ _ _ range)) h nothing-IsTrusted
