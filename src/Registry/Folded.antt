-- ===== src/Registry/Folded.antt =====
-- A checkpoint that is placed keeps a registry valid (`place` of node/src/registry.rs).
use glade.Prelude.{
  ℤ, pos, ◌≡◌, ◌≢◌, ◌⊎◌, inl, inr, refl, ap, subst, sym, ◌∙◌, false, Option, none, some, List, [],
  ◌∷◌, arith, ◌==◌, bytes_eq, int_eq, ltb_ℤ, ◌<ℤ◌, ◌≤ℤ◌, suc_ℤ_parts, All, All-keep, keep, last?,
  last?-keep, last?-eq-none, find?, find?-keep, find?_holds, Bool-cases, Option-cases, Result-cases,
  ok,
}
use glade.Prelude.BTreeMap.{get, insert, get-insert_self, get-insert_ne}
use glade.Prelude.Order.{bytes_ord, pair_ord, dec_pair}
use glade.External.{External, op_hash}
use glade.Directory
use glade.Checkpoint
use glade.Checkpoint.{Floor, Placement, Against, against, compacts, place_over-advances}
use glade.Wire.{Op}
use glade.Store.Chains.{IsChain, keep-IsChain}
use glade.Registry.{
  Registry, Chain, named, named_at, fold_at, folded_tip, forks_base, place_at, place_verdict, place,
}
use glade.Registry.Valid.{
  chain_ops, floor_of, tip_of, Begins, IsHeld, Holds, IsValid, Reaches, keep-Begins, keep-other,
  keep-own,
}

module _ (x : External) where
  -- No op of a chain is above its last.
  pub below_last :
      (ops : List Op) (last : Op)
      → IsChain x ops
      → last? ops ≡ some last
      → All (λ o. o.seq ≤ℤ last.seq) ops
  below_last [] last c e = tt
  below_last (o ∷ []) last c e = ground arith
  below_last (o ∷ p ∷ ops) last c e =
      let rest = below_last (p ∷ ops) last c.1 e in
      (ground (arith, rest.0, suc_ℤ_parts o.seq), rest)

  keep_none :
      (base : ℤ) (ops : List Op)
      → All (λ o. o.seq ≤ℤ base) ops
      → keep (λ o. ltb_ℤ base o.seq) ops ≡ []
  keep_none base [] h = refl
  keep_none base (o ∷ ops) h = ground (arith, keep_none base ops h.1)

  below_trans :
      (a b : ℤ) (ops : List Op) → a ≤ℤ b → All (λ o. o.seq ≤ℤ a) ops → All (λ o. o.seq ≤ℤ b) ops
  below_trans a b [] l h = tt
  below_trans a b (o ∷ ops) l h = (omega (arith, h.0), below_trans a b ops l h.1)

  -- A floor that moves up, or stays where it is.
  abbrev pub Advances : Option Floor → Floor → Type 0
  Advances none floor = Unit
  Advances (some at) floor = (at.0 <ℤ floor.0) ⊎ (floor ≡ at)

  Begins-Reaches :
      (old : Option Floor) (floor : Floor) (ops : List Op)
      → pos 0 ≤ℤ floor.0
      → Advances old floor
      → Begins x old ops
      → Reaches x floor.0 floor.1 ops
  Begins-Reaches old floor [] n a b = tt
  Begins-Reaches none floor (o ∷ ops) n a b = inl (ground arith)
  Begins-Reaches (some at) floor (o ∷ ops) n (inl a) b = inl (ground (arith, b.0, suc_ℤ_parts at.0))
  Begins-Reaches (some at) floor (o ∷ ops) n (inr a) b =
      inr (subst (λ f. Begins x (some f) (o ∷ ops)) (sym a) b)

  folded_tip_unheld :
      (old : Option Floor) (floor : Floor) → Advances old floor → folded_tip floor old ≡ floor
  unfolding folded_tip
  folded_tip_unheld none floor a = refl
  folded_tip_unheld (some at) floor (inl a) = ground arith
  folded_tip_unheld (some at) floor (inr a) = ground (arith, a)

  -- The tip of a folded chain is in step with what it keeps.
  folded_in_step :
      (ops : List Op) (tip old : Option Floor) (floor : Floor)
      → IsChain x ops
      → Advances old floor
      → tip ≡ tip_of x ops old
      → some (folded_tip floor tip) ≡ tip_of x (keep (λ o. ltb_ℤ floor.0 o.seq) ops) (some floor)
  unfolding tip_of folded_tip
  folded_in_step [] tip old floor c a e = ground (arith, e, folded_tip_unheld old floor a)
  folded_in_step (o ∷ rest) tip old floor c a e =
      let ops = o ∷ rest in
      elim (Option-cases (last? ops)) [
        | inl n ↦ absurd (cc (last?-eq-none ops n))
        | inr (last, l) ↦ elim (Bool-cases (ltb_ℤ floor.0 last.seq)) [
          | inl h ↦ ground (arith, e, l, last?-keep (λ o. ltb_ℤ floor.0 o.seq) ops last l h)
          | inr h ↦ ground (
            arith,
            e,
            l,
            keep_none floor.0 ops
                (below_trans last.seq floor.0 ops (ground arith) (below_last ops last c l)),
          )
        ]
      ]

  fold-IsHeld :
      (ops : List Op) (tip old : Option Floor) (floor : Floor)
      → pos 0 ≤ℤ floor.0
      → Advances old floor
      → ((o : Op) → find? (λ o. o.seq == floor.0) ops ≡ some o → op_hash x o ≡ floor.1)
      → IsHeld x ops tip old
      → IsHeld x (keep (λ o. ltb_ℤ floor.0 o.seq) ops) (some (folded_tip floor tip)) (some floor)
  fold-IsHeld ops tip old floor n a at h = record {
    chained = keep-IsChain x floor.0 ops h.chained;
    in_range = All-keep _ _ ops h.in_range;
    begins =
        keep-Begins x floor.0 floor.1 ops h.chained at (Begins-Reaches old floor ops n a h.begins);
    in_step = folded_in_step ops tip old floor h.chained a h.in_step;
  }

  module _ (op : Op) (chain : Chain) (floor : Floor) (r : Registry) where
    at_base :
        (o : Op)
        → forks_base x floor (find? (named_at chain floor.0) r.ops) ≡ false
        → find? (λ o. o.seq == floor.0) (chain_ops r chain) ≡ some o
        → op_hash x o ≡ floor.1
    unfolding forks_base against chain_ops
    at_base o h e =
        let found : find? (named_at chain floor.0) r.ops ≡ some o =
          sym (find?-keep (λ o. o.seq == floor.0) (named chain) r.ops) ∙ e in
        ground (arith, h, found, find?_holds (λ o. o.seq == floor.0) (chain_ops r chain) o e)

    fold_at-IsValid :
        op.origin ≡ chain.1
        → chain.0 ≢ Directory.g_checkpoints
        → pos 0 ≤ℤ floor.0
        → Advances (floor_of (get chain r.checkpoints)) floor
        → forks_base x floor (find? (named_at chain floor.0) r.ops) ≡ false
        → IsValid x r
        → IsValid x (fold_at x op chain floor r)
    unfolding fold_at chain_ops
    fold_at-IsValid same elsewhere n a f v = record { chains = kept }
      where
        after : Registry
        after = fold_at x op chain floor r

        elsewhere_ne :
            (c : Chain) → c.0 ≢ Directory.g_checkpoints → (Directory.g_checkpoints, op.origin) ≢ c
        elsewhere_ne c m e = m (sym (ap (λ (c : Chain). c.0) e))

        own : Holds x after chain
        own =
            rw
              (
                keep-own chain floor.0 r.ops,
                get-insert_ne (Directory.g_checkpoints, op.origin) chain (op.seq, op_hash x op)
                    (insert chain (folded_tip floor (get chain r.tips)) r.tips)
                    (elsewhere_ne chain elsewhere),
                get-insert_self chain (folded_tip floor (get chain r.tips)) r.tips,
                get-insert_self chain (op, floor) r.checkpoints,
              )
              (fold-IsHeld (chain_ops r chain) (get chain r.tips)
                (floor_of (get chain r.checkpoints)) floor n a (λ o e. at_base o f e)
                (v.chains chain elsewhere))

        other : (c : Chain) → c.0 ≢ Directory.g_checkpoints → chain ≢ c → Holds x after c
        other c m d =
            rw
              (
                keep-other c chain floor.0 r.ops (λ e. d (sym e)),
                get-insert_ne (Directory.g_checkpoints, op.origin) c (op.seq, op_hash x op)
                    (insert chain (folded_tip floor (get chain r.tips)) r.tips) (elsewhere_ne c m),
                get-insert_ne chain c (folded_tip floor (get chain r.tips)) r.tips d,
                get-insert_ne chain c (op, floor) r.checkpoints d,
              )
              (v.chains c m)

        kept : (c : Chain) → c.0 ≢ Directory.g_checkpoints → Holds x after c
        kept c m = elim (dec_pair chain c) [
          | yes e ↦ subst (Holds x after) e own
          | no d ↦ other c m d
        ]

  pub check-stream :
      (op : Op) (c : Checkpoint.Checkpoint)
      → Checkpoint.check x op ≡ ok c
      → (c.stream ≡ Directory.g_claims) × (pos 0 ≤ℤ c.floor.0)
  unfolding Checkpoint.check compacts
  check-stream op c h = ground arith

  claims_ne : Directory.g_claims ≢ Directory.g_checkpoints
  claims_ne e = cc e

  place-Advances :
      (op : Op) (floor : Floor) (held : Option (Op × Floor))
      → Checkpoint.place x op floor held ≡ Placement.placed
      → Advances (floor_of held) floor
  unfolding Checkpoint.place
  place-Advances op floor none h = tt
  place-Advances op floor (some (held, at)) h = (place_over-advances x op held floor at h).1

  place_at-IsValid :
      (op : Op) (chain : Chain) (floor : Floor) (r : Registry)
      → op.origin ≡ chain.1
      → chain.0 ≢ Directory.g_checkpoints
      → pos 0 ≤ℤ floor.0
      → Advances (floor_of (get chain r.checkpoints)) floor
      → IsValid x r
      → IsValid x (place_at x op chain floor r).1
  unfolding place_at
  place_at-IsValid op chain floor r same elsewhere n a v =
      elim (Bool-cases (forks_base x floor (find? (named_at chain floor.0) r.ops))) [
        | inl e ↦ ground (arith, e, v)
        | inr e ↦ ground (arith, e, fold_at-IsValid op chain floor r same elsewhere n a e v)
      ]

  pub place_verdict-IsValid :
      (op : Op) (chain : Chain) (floor : Floor) (r : Registry) (p : Placement)
      → op.origin ≡ chain.1
      → chain.0 ≢ Directory.g_checkpoints
      → pos 0 ≤ℤ floor.0
      → Checkpoint.place x op floor (get chain r.checkpoints) ≡ p
      → IsValid x r
      → IsValid x (place_verdict x op chain floor r p).1
  unfolding place_verdict
  place_verdict-IsValid op chain floor r Placement.placed same elsewhere n e v =
      place_at-IsValid op chain floor r same elsewhere n (place-Advances op floor _ e) v
  place_verdict-IsValid op chain floor r p same elsewhere n e v = v

  pub place-IsValid : (op : Op) (r : Registry) → IsValid x r → IsValid x (place x op r).1
  unfolding place
  place-IsValid op r v = elim (Result-cases (Checkpoint.check x op)) [
    | inr (why, e) ↦ ground (arith, e, v)
    | inl (c, e) ↦
        let (stream, n) = check-stream op c e in
        rw (place, e)
          (place_verdict-IsValid op (c.stream, op.origin) c.floor r _ refl
            (λ g. claims_ne (sym stream ∙ g)) n refl v)
  ]
