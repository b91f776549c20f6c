-- ===== src/Sync/Receipt.antt =====
-- What a peer holds that appends what it is sent (node/src/session.rs, and `append`
-- of node/src/store.rs).
use glade.Prelude.{
  ◌≡◌, ◌≢◌, refl, sym, ap, ◌∙◌, subst, inl, inr, false, none, some, List, [], ◌∷◌, ◌++◌, arith,
  Text, bytes_eq, int_eq, i64_min, ◌<ℤ◌, suc_ℤ_parts, suc_i64_of_lt, InI64, keep, All, All-append,
  last?, Option-cases, ok, err, Result,
}
use mathlib.Core.List.{append-nil, append_assoc}
use glade.Prelude.BTreeMap.{get, IsSorted, All-of-get}
use glade.Prelude.Order.{bytes_ord, pair_ord, dec_pair}
use glade.External.{External}
use glade.Directory
use glade.Wire.{Op, Zone, ChainId, chain_of, zone_of, zone_eq, shape_eq}
use glade.Store.Types.{Append, StoreError, Store, Logs, Verdict, healthy}
use glade.Store.Classify.{held_of, classify, follows}
use glade.Store.Held.{held_of-some}
use glade.Store.Append.{append, judge, commit, keep_op, verdict_of}
use glade.Store.Append.Surface.{
  check_surface, check_payload, surface_entries, surface_entry, is_exclusive,
}
use glade.Store.Chains.{IsChain, Links}
use glade.Store.Effects.{added, append-Adds}
use glade.Store.Invariant.{append-IsValid}
use glade.Store.Open.{on_chain, keep_cons}
use glade.Store.Retaken.{append_all}
use glade.Store.Valid.{IsValid}
use glade.Sync.{heads_map, missing_for}
use glade.Sync.Gap.{missing_for-gap}
use glade.Sync.Isolation.{missing_for-zone, missing_for-All}

-- A shape that any other but a writer's or a text's may share a surface with.
abbrev pub IsPlain : Op → Type 0
IsPlain o = is_exclusive o.shape o.shape ≡ false

-- Every op that a store holds of a zone is of such a shape.
abbrev pub IsPlainZone : Zone → Store → Type 0
IsPlainZone z s = (origin : Text) → All IsPlain (held_of s.logs (z, origin))

surface_entry-plain :
    (op : Op) (origin : Text) (ops : List Op)
    → IsPlain op
    → All IsPlain ops
    → surface_entry op origin ops ≡ ok tt
unfolding surface_entry is_exclusive
surface_entry-plain op origin [] p h = refl
surface_entry-plain op origin (first ∷ ops) p h = ground (arith, p, h.0)

surface_entries-plain :
    (op : Op) (logs : Logs)
    → IsPlain op
    → All (λ (e : ChainId × List Op). e.0.0 ≡ zone_of op → All IsPlain e.1) logs
    → surface_entries op logs ≡ ok tt
unfolding surface_entries
surface_entries-plain op [] p h = refl
surface_entries-plain op (((zone, origin), ops) ∷ logs) p h = elim (dec_pair zone (zone_of op)) [
  | yes e ↦
      ground
        (arith, surface_entry-plain op origin ops p (h.0 e), surface_entries-plain op logs p h.1)
  | no n ↦ ground (arith, surface_entries-plain op logs p h.1)
]

module _ (x : External) (z : Zone) where
  check_surface-plain :
      (op : Op) (t : Store)
      → zone_of op ≡ z
      → IsPlain op
      → IsPlainZone z t
      → IsSorted t.logs
      → check_surface op t.logs ≡ ok tt
  unfolding check_surface check_payload is_exclusive
  check_surface-plain op t e p h sorted = ground (
    arith,
    p,
    surface_entries-plain op t.logs p (
        All-of-get (λ (e : ChainId × List Op). e.0.0 ≡ zone_of op → All IsPlain e.1) t.logs sorted
          (λ k ops g q.
            subst (All IsPlain)
              (ap (λ (w : Zone). held_of t.logs (w, k.1)) (sym (q ∙ e))
                ∙ held_of-some t.logs k ops g)
              (h k.1))),
  )

  -- What a chain's last op is followed by.
  last-Links :
      (xs : List Op) (a op : Op) (ys : List Op)
      → IsChain x (xs ++ op ∷ ys)
      → last? xs ≡ some a
      → Links x a op
  last-Links [] a op ys c e = absurd (cc e)
  last-Links (o ∷ []) a op ys c e =
      let same : o ≡ a = ground (arith, e) in subst (λ b. Links x b op) same c.0
  last-Links (o ∷ p ∷ xs) a op ys c e = last-Links (p ∷ xs) a op ys c.1 e

  classify-next :
      (xs ys : List Op) (op : Op)
      → IsChain x (xs ++ op ∷ ys)
      → InI64 op.seq
      → classify x xs op ≡ Verdict.appended
  unfolding classify follows
  classify-next xs ys op c range = elim (Option-cases (last? xs)) [
    | inl e ↦ ground (arith, e)
    | inr (a, e) ↦
        let l : Links x a op = last-Links xs a op ys c e in
        let above : a.seq <ℤ op.seq = ground (arith, l.0, suc_ℤ_parts a.seq) in
        ground (arith, e, l, above, suc_i64_of_lt a.seq op.seq above range)
  ]

  -- The op that is next on its chain is taken.
  append-next :
      (op : Op) (ys : List Op) (t : Store)
      → z.0 ≢ Directory.home
      → zone_of op ≡ z
      → IsPlain op
      → InI64 op.seq
      → IsPlainZone z t
      → IsSorted t.logs
      → IsChain x (held_of t.logs (chain_of op) ++ op ∷ ys)
      → (append x healthy op t).0 ≡ ok Append.appended
  unfolding append judge verdict_of commit keep_op
  append-next op ys t n e p range h sorted c = ground (
    arith,
    λ (q : op.share ≡ Directory.home). n (sym (ap (λ (w : Zone). w.0) e) ∙ q),
    check_surface-plain op t e p h sorted,
    classify-next (held_of t.logs (chain_of op)) ys op c range,
  )

  outside :
      (op : Op)
      → z.0 ≢ Directory.home
      → zone_of op ≡ z
      → op.share ≡ Directory.home
      → op.glade_id ≢ Directory.g_checkpoints
  outside op n e q = absurd (n (sym (ap (λ (w : Zone). w.0) e) ∙ q))

  added-IsPlain :
      (op : Op) (r : Result StoreError Append) (c : ChainId)
      → IsPlain op
      → All IsPlain (added op r c)
  added-IsPlain op (ok Append.appended) c p = elim (dec_pair (chain_of op) c) [
    | yes _ ↦ ground (arith, p)
    | no _ ↦ ground arith
  ]
  added-IsPlain op (ok Append.duplicate) c p = tt
  added-IsPlain op (ok Append.below_retained) c p = tt
  added-IsPlain op (err e) c p = tt

  added-other :
      (op : Op) (r : Result StoreError Append) (c : ChainId) → chain_of op ≢ c → added op r c ≡ []
  added-other op (ok Append.appended) c n = ground arith
  added-other op (ok Append.duplicate) c n = refl
  added-other op (ok Append.below_retained) c n = refl
  added-other op (err e) c n = refl

  added-own : (op : Op) (c : ChainId) → chain_of op ≡ c → added op (ok Append.appended) c ≡ op ∷ []
  added-own op c e = ground arith

  -- An op that may be received.
  pub record IsSent (o : Op) : Type 0 where
    pub of_zone : zone_of o ≡ z
    pub plain : IsPlain o
    pub in_range : InI64 o.seq

  module _ (op : Op) (t : Store) (n : z.0 ≢ Directory.home) (s : IsSent op) where
    abbrev pub next : Store
    next = (append x healthy op t).1

    pub next-IsPlainZone : IsPlainZone z t → IsPlainZone z next
    next-IsPlainZone p origin =
        subst (All IsPlain)
          (sym ((append-Adds x healthy op t (outside op n s.of_zone)).1 (z, origin)))
          (All-append _ _ _ (p origin)
            (added-IsPlain op (append x healthy op t).0 (z, origin) s.plain))

    -- The op is added to its own chain, where it is next, and to no other.
    added-next :
        (c : ChainId) (ops : List Op)
        → IsPlainZone z t
        → IsSorted t.logs
        → IsChain x (held_of t.logs c ++ keep (on_chain c) (op ∷ ops))
        → added op (append x healthy op t).0 c ≡ keep (on_chain c) (op ∷ [])
    unfolding on_chain
    added-next c ops p sorted chain = elim (dec_pair (chain_of op) c) [
      | no m ↦ added-other op (append x healthy op t).0 c m ∙ ground (arith, m)
      | yes e ↦
          let follows : keep (on_chain c) (op ∷ ops) ≡ op ∷ keep (on_chain c) ops =
            ground (arith, e) in
          let own : IsChain x (held_of t.logs (chain_of op) ++ op ∷ keep (on_chain c) ops) =
            subst (IsChain x)
              (ap (◌++◌ (held_of t.logs c)) follows
                ∙ ap (λ d. held_of t.logs d ++ op ∷ keep (on_chain c) ops) (sym e))
              chain in
          ap (λ r. added op r c)
            (append-next op (keep (on_chain c) ops) t n s.of_zone s.plain s.in_range p sorted own)
          ∙ added-own op c e
          ∙ ground (arith, e)
    ]

  -- Appends of what is sent, one after the other, leave a chain of the zone with all that is its own.
  append_all-chain :
      (ops : List Op) (t : Store) (origin : Text)
      → z.0 ≢ Directory.home
      → All IsSent ops
      → IsPlainZone z t
      → IsValid x t
      → IsChain x (held_of t.logs (z, origin) ++ keep (on_chain (z, origin)) ops)
      → held_of (append_all x ops t).logs (z, origin)
        ≡ held_of t.logs (z, origin) ++ keep (on_chain (z, origin)) ops
  unfolding append_all
  append_all-chain [] t origin n s p v c = sym (append-nil (held_of t.logs (z, origin)))
  append_all-chain (op ∷ ops) t origin n s p v c =
      append_all-chain ops (next op t n s.0) origin n s.1 (next-IsPlainZone op t n s.0 p)
        (append-IsValid x healthy op t s.0.in_range v) (subst (IsChain x) (sym (grown ∙ whole)) c)
      ∙ grown
      ∙ whole
    where
      chain : ChainId
      chain = (z, origin)

      grown :
          held_of (next op t n s.0).logs chain ++ keep (on_chain chain) ops
          ≡ (held_of t.logs chain ++ keep (on_chain chain) (op ∷ [])) ++ keep (on_chain chain) ops
      grown =
          ap (λ l. l ++ keep (on_chain chain) ops)
            ((append-Adds x healthy op t (outside op n s.0.of_zone)).1 chain
              ∙ ap (◌++◌ (held_of t.logs chain)) (added-next op t n s.0 chain ops p v.sorted c))

      whole :
          (held_of t.logs chain ++ keep (on_chain chain) (op ∷ [])) ++ keep (on_chain chain) ops
          ≡ held_of t.logs chain ++ keep (on_chain chain) (op ∷ ops)
      whole =
          append_assoc (held_of t.logs chain) (keep (on_chain chain) (op ∷ [])) _
          ∙ ap (◌++◌ (held_of t.logs chain)) (sym (keep_cons (on_chain chain) op ops))

-- Between valid stores, of a zone outside the home share whose ops are of plain shapes on both
-- sides: a receiver that appends what it is sent, in answer to the heads that it announced, on a
-- disk that answers, then holds the sender's chain, if it held the chain's beginning before, has
-- no floor for it, and no seq of the chain is the least i64: no op of the chain is refused or
-- left out, and none comes twice, whatever becomes of the zone's other chains.
pub missing_for-completes :
    (x : External) (s t : Store) (z : Zone) (origin : Text) (more : List Op)
    → z.0 ≢ Directory.home
    → IsValid x s
    → IsValid x t
    → IsPlainZone z s
    → IsPlainZone z t
    → get (z, origin) t.register ≡ none
    → All (λ o. i64_min <ℤ o.seq) (held_of s.logs (z, origin))
    → held_of s.logs (z, origin) ≡ held_of t.logs (z, origin) ++ more
    → held_of (append_all x (missing_for x s z (heads_map x t z)) t).logs (z, origin)
      ≡ held_of s.logs (z, origin)
missing_for-completes x s t z origin more n vs vt ps pt free low e =
    append_all-chain x z (missing_for x s z (heads_map x t z)) t origin n sent pt vt (
      subst (IsChain x) (e ∙ ap (◌++◌ (held_of t.logs (z, origin))) (sym gap))
        ((vs.logs (z, origin)).chained (λ r. n r.0)))
    ∙ ap (◌++◌ (held_of t.logs (z, origin))) gap
    ∙ sym e
  where
    gap : keep (on_chain (z, origin)) (missing_for x s z (heads_map x t z)) ≡ more
    gap = missing_for-gap x s t z origin more vs vt (λ r. n r.0) free low e

    all_sent :
        (ops : List Op)
        → All (λ o. zone_of o ≡ z) ops
        → All IsPlain ops
        → All (λ o. InI64 o.seq) ops
        → All (IsSent x z) ops
    all_sent [] a b c = tt
    all_sent (o ∷ ops) a b c =
        (record { of_zone = a.0; plain = b.0; in_range = c.0 }, all_sent ops a.1 b.1 c.1)

    sent : All (IsSent x z) (missing_for x s z (heads_map x t z))
    sent =
        all_sent _ (missing_for-zone x s vs z (heads_map x t z))
          (missing_for-All IsPlain x s z (heads_map x t z) ps)
          (missing_for-All (λ o. InI64 o.seq) x s z (heads_map x t z)
            (λ o. (vs.logs (z, o)).in_range))
