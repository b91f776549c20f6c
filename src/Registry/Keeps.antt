-- ===== src/Registry/Keeps.antt =====
-- What an ingest leaves as it was, and what it holds after (node/src/registry.rs).
use glade.Prelude.{
  ℤ, ◌≡◌, ◌≢◌, inl, inr, refl, sym, ap, ◌∙◌, Bool, true, not, ◌&&◌, ◌||◌, Option, none, some, List,
  [], ◌∷◌, ◌++◌, arith, Text, ◌==◌, bytes_eq, int_eq, ltb_ℤ, any, keep, find?, ok, Bool-cases,
  Option-cases, Result-cases,
}
use glade.Prelude.BTreeMap.{get, get-insert_ne}
use glade.Prelude.Order.{bytes_ord, pair_ord}
use glade.External.{External, op_hash}
use glade.Directory
use glade.Checkpoint
use glade.Checkpoint.{Floor, Placement, Against, against}
use glade.Wire.{Op}
use glade.Registry.{
  Registry, Ingested, Chain, own_chain, named, named_at, is_policy, same_hash, holds, take,
  link_after, link_tip, link_floor, fold_at, place_at, place_verdict, place, link, ingest,
}
use glade.Registry.Folded.{check-stream}

module _ (x : External) where
  -- An op at the same place of the same chain, with the same hash.
  abbrev pub is_same : Op → Op → Bool
  is_same op o = named_at (own_chain op) op.seq o && op_hash x o == op_hash x op

  abbrev pub IsIn : Op → Registry → Type 0
  IsIn op r = any (is_same op) r.ops ≡ true

  any-snoc : (p : Op → Bool) (ops : List Op) (o : Op) → any p (ops ++ o ∷ []) ≡ (any p ops || p o)
  any-snoc p [] o = ground arith
  any-snoc p (a ∷ ops) o = ground (arith, any-snoc p ops o)

  found-IsIn :
      (op held : Op) (ops : List Op)
      → find? (named_at (own_chain op) op.seq) ops ≡ some held
      → (op_hash x held == op_hash x op) ≡ true
      → any (is_same op) ops ≡ true
  found-IsIn op held [] e h = absurd (cc e)
  found-IsIn op held (o ∷ ops) e h = elim (Bool-cases (named_at (own_chain op) op.seq o)) [
    | inl t ↦ ground (arith, t, e, h)
    | inr f ↦ ground (arith, f, found-IsIn op held ops (ground (arith, f, e)) h)
  ]

  holds-IsIn : (op : Op) (r : Registry) → holds x r op ≡ true → IsIn op r
  unfolding holds same_hash
  holds-IsIn op r h = elim (Option-cases (find? (named_at (own_chain op) op.seq) r.ops)) [
    | inl e ↦ absurd (ground (arith, h, e))
    | inr (held, e) ↦ found-IsIn op held r.ops e (ground (arith, h, e))
  ]

  take-IsIn : (op : Op) (r : Registry) → IsIn op (take x op r).1
  unfolding take
  take-IsIn op r = ground (arith, any-snoc (is_same op) r.ops op)

  link_tip-IsIn :
      (op : Op) (r : Registry) (i : Ingested)
      → (link_tip x op r).0 ≡ ok i
      → IsIn op (link_tip x op r).1
  unfolding link_tip link_after
  link_tip-IsIn op r i h = ground (arith, h, holds-IsIn op r, take-IsIn op r)

  -- What is held of a policy stream stays held.
  link_tip-keeps : (o op : Op) (r : Registry) → IsIn o r → IsIn o (link_tip x op r).1
  unfolding link_tip link_after take
  link_tip-keeps o op r h = ground (arith, h, any-snoc (is_same o) r.ops op)

  fold-keeps :
      (o : Op) (chain : Chain) (base : ℤ) (ops : List Op)
      → chain.0 ≢ o.glade_id
      → any (is_same o) ops ≡ true
      → any (is_same o) (keep (λ a. not (named chain a) || ltb_ℤ base a.seq) ops) ≡ true
  fold-keeps o chain base [] n h = absurd (cc h)
  fold-keeps o chain base (a ∷ ops) n h = elim (Bool-cases (is_same o a)) [
    | inl t ↦ ground (arith, t, n)
    | inr f ↦ ground (arith, f, h, fold-keeps o chain base ops n)
  ]

  -- Only chains of claims have a floor.
  pub record IsFloored (r : Registry) : Type 0 where
    pub none_else : (c : Chain) → c.0 ≢ Directory.g_claims → get c r.checkpoints ≡ none

  -- What an ingest leaves as it was: the floors are of claims, what is held of a policy stream is
  -- still held, and nothing is quarantined.
  pub record Keeps (r after : Registry) : Type 0 where
    pub floored : IsFloored r → IsFloored after
    pub held : (o : Op) → o.glade_id ≢ Directory.g_claims → IsIn o r → IsIn o after
    pub same : after.policy_quarantined ≡ r.policy_quarantined

  Keeps-self : (r : Registry) → Keeps r r
  Keeps-self r = record { floored = λ f. f; held = λ o n h. h; same = refl }

  link_tip-rest :
      (op : Op) (r : Registry)
      → ((link_tip x op r).1.checkpoints ≡ r.checkpoints)
        × ((link_tip x op r).1.policy_quarantined ≡ r.policy_quarantined)
  unfolding link_tip link_after take
  link_tip-rest op r = ground arith

  link_tip-Keeps : (op : Op) (r : Registry) → Keeps r (link_tip x op r).1
  link_tip-Keeps op r = record {
    floored =
        λ f. record { none_else = λ c n. ap (get c) (link_tip-rest op r).0 ∙ f.none_else c n };
    held = λ o n h. link_tip-keeps o op r h;
    same = (link_tip-rest op r).1;
  }

  link_floor-Keeps :
      (floor : Option (Op × Floor)) (op : Op) (r : Registry) → Keeps r (link_floor x floor op r).1
  unfolding link_floor
  link_floor-Keeps none op r = link_tip-Keeps op r
  link_floor-Keeps (some (held, floor)) op r = ground (arith, link_tip-Keeps op r, Keeps-self r)

  fold_at-Keeps :
      (op : Op) (chain : Chain) (floor : Floor) (r : Registry)
      → chain.0 ≡ Directory.g_claims
      → Keeps r (fold_at x op chain floor r)
  unfolding fold_at
  fold_at-Keeps op chain floor r e = record {
    floored = λ f. record {
      none_else = λ c n.
          get-insert_ne chain c (op, floor) r.checkpoints
            (λ q. n (ap (λ (c : Chain). c.0) (sym q) ∙ e))
          ∙ f.none_else c n;
    };
    held = λ o n h. fold-keeps o chain floor.0 r.ops (λ q. n (sym q ∙ e)) h;
    same = refl;
  }

  place_verdict-Keeps :
      (op : Op) (chain : Chain) (floor : Floor) (r : Registry) (p : Placement)
      → chain.0 ≡ Directory.g_claims
      → Keeps r (place_verdict x op chain floor r p).1
  unfolding place_verdict place_at
  place_verdict-Keeps op chain floor r Placement.placed e =
      ground (arith, fold_at-Keeps op chain floor r e, Keeps-self r)
  place_verdict-Keeps op chain floor r p e = Keeps-self r

  place-Keeps : (op : Op) (r : Registry) → Keeps r (place x op r).1
  unfolding place
  place-Keeps op r = elim (Result-cases (Checkpoint.check x op)) [
    | inr (why, e) ↦ ground (arith, e, Keeps-self r)
    | inl (c, e) ↦
        rw (place, e)
          (place_verdict-Keeps op (c.stream, op.origin) c.floor r _ (check-stream x op c e).0)
  ]

  pub ingest-Keeps : (op : Op) (r : Registry) → Keeps r (ingest x op r).1
  unfolding ingest link
  ingest-Keeps op r = ground (
    arith,
    Keeps-self r,
    place-Keeps op r,
    link_floor-Keeps (get (own_chain op) r.checkpoints) op r,
  )

  -- An op of a policy stream that an ingest takes is then held.
  pub policy_elsewhere :
      (g : Text) → is_policy g ≡ true → (g ≢ Directory.g_claims) × (g ≢ Directory.g_checkpoints)
  unfolding is_policy
  policy_elsewhere g h = (λ e. ground (arith, h, e), λ e. ground (arith, h, e))

  pub ingest-IsIn :
      (op : Op) (r : Registry) (i : Ingested)
      → IsFloored r
      → is_policy op.glade_id ≡ true
      → (ingest x op r).0 ≡ ok i
      → IsIn op (ingest x op r).1
  unfolding ingest link link_floor
  ingest-IsIn op r i f p h =
      let (n, m) = policy_elsewhere op.glade_id p in
      ground (arith, h, m, f.none_else (own_chain op) n, link_tip-IsIn op r i)
