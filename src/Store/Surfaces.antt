-- ===== src/Store/Surfaces.antt =====
-- A surface's contract is kept by every append: a writer's surface has one writer, and a writer's or
-- a text's surface holds no other shape.
use glade.Prelude.{
  ◌≡◌, ◌≢◌, refl, sym, ap, ◌∙◌, ◌⊎◌, inl, inr, true, some, List, [], ◌∷◌, ◌++◌, arith, Text,
  bytes_eq, Result, ok, err, All, All-append, Option-cases,
}
use glade.Prelude.BTreeMap.{get}
use glade.Prelude.Order.{bytes_ord, pair_ord, dec_pair}
use glade.External.{External}
use glade.Directory
use glade.Wire
use glade.Wire.{Op, Zone, ChainId, Shape, chain_of, zone_of, shape_eq, shape_discrete, zone_eq}
use glade.Store.Types.{Append, StoreError, Logs, Store, Disk}
use glade.Store.Classify.{held_of}
use glade.Store.Held.{held_of-some, held_of-none}
use glade.Store.Append.{append, judge}
use glade.Store.Append.Surface.{is_exclusive, surface_entry, surface_entries, check_surface}
use glade.Store.Effects.{added, append-Adds}

-- Two ops, of the origins given, that one surface may hold.
pub record Agrees (o p : Op) : Type 0 where
  pub one_shape : is_exclusive o.shape p.shape ≡ true → o.shape ≡ p.shape
  pub one_writer : o.shape ≡ Wire.swmr → o.origin ≡ p.origin

Agrees-sym : (o p : Op) → Agrees o p → Agrees p o
unfolding is_exclusive
Agrees-sym o p a = record {
  one_shape = λ e. ground (arith, a.one_shape);
  one_writer = λ e. ground (arith, a.one_shape, a.one_writer);
}

Agrees-refl : (o : Op) → Agrees o o
Agrees-refl o = record { one_shape = λ e. refl; one_writer = λ e. refl }

-- What agrees with a chain's first op agrees with an op that the first agrees with.
Agrees-trans : (o p q : Op) → p.origin ≡ q.origin → Agrees o p → Agrees p q → Agrees o q
unfolding is_exclusive
Agrees-trans o p q e a b = record {
  one_shape = λ h. ground (arith, a.one_shape, b.one_shape);
  one_writer = λ h. ground (arith, a.one_writer);
}

unfoldable pub AllAgree : List Op → List Op → Type 0
AllAgree ops held = All (λ o. All (λ p. Agrees o p) held) ops

-- Every log is its chain's, and the logs of one zone agree.
pub record IsContracted (s : Store) : Type 0 where
  pub keyed : (c : ChainId) → All (λ o. chain_of o ≡ c) (held_of s.logs c)
  pub agree : (b c : ChainId) → b.0 ≡ c.0 → AllAgree (held_of s.logs b) (held_of s.logs c)

-- The check of an op passes each chain of its zone.
surface_entries-get :
    (op : Op) (logs : Logs) (c : ChainId) (ops : List Op)
    → surface_entries op logs ≡ ok tt
    → get c logs ≡ some ops
    → c.0 ≡ zone_of op
    → surface_entry op c.1 ops ≡ ok tt
unfolding surface_entries get
surface_entries-get op [] c ops h e z = cc
surface_entries-get op (((zone, origin), held) ∷ logs) c ops h e z =
    elim (dec_pair (zone, origin) c) [
      | yes y ↦ ground (arith, ap (λ (c : ChainId). c.0) y, ap (λ (c : ChainId). c.1) y)
      | no n ↦ ground (arith, surface_entries-get op logs c ops)
    ]

surface_entry-Agrees :
    (op first : Op) (origin : Text) (rest : List Op)
    → surface_entry op origin (first ∷ rest) ≡ ok tt
    → first.origin ≡ origin
    → Agrees op first
unfolding surface_entry
surface_entry-Agrees op first origin rest h e = record {
  one_shape = λ x. ground arith;
  one_writer = λ w. ground arith;
}

origin_of_chain : (o : Op) (c : ChainId) → chain_of o ≡ c → o.origin ≡ c.1
unfolding chain_of
origin_of_chain o c e = ap (λ (c : ChainId). c.1) e

All-Agrees :
    (op first : Op) (c : ChainId) (ops : List Op)
    → chain_of first ≡ c
    → Agrees op first
    → All (λ o. chain_of o ≡ c) ops
    → All (λ p. Agrees first p) ops
    → All (λ p. Agrees op p) ops
All-Agrees op first c [] e a k h = tt
All-Agrees op first c (p ∷ ops) e a k h = (
  Agrees-trans op first p (origin_of_chain first c e ∙ sym (origin_of_chain p c k.0)) a h.0,
  All-Agrees op first c ops e a k.1 h.1,
)

-- An op that passes the check agrees with every log of its zone.
log-Agrees :
    (op : Op) (c : ChainId) (ops : List Op)
    → surface_entry op c.1 ops ≡ ok tt
    → All (λ o. chain_of o ≡ c) ops
    → AllAgree ops ops
    → All (λ p. Agrees op p) ops
unfolding AllAgree
log-Agrees op c [] h k a = tt
log-Agrees op c (first ∷ ops) h k a =
    let a1 = surface_entry-Agrees op first c.1 ops h (origin_of_chain first c k.0) in
    All-Agrees op first c (first ∷ ops) k.0 a1 k a.0

passed_log :
    (op : Op) (s : Store) (c : ChainId)
    → IsContracted s
    → surface_entries op s.logs ≡ ok tt
    → c.0 ≡ zone_of op
    → All (λ p. Agrees op p) (held_of s.logs c)
passed_log op s c v h z = elim (Option-cases (get c s.logs)) [
  | inl e ↦ rw (held_of-none s.logs c e) tt
  | inr (ops, e) ↦
      let f = held_of-some s.logs c ops e in
      rw f (
        log-Agrees op c ops (surface_entries-get op s.logs c ops h e z) (rw f at (v.keyed c))
          (rw f at (v.agree c c refl)))
]

flip-All : (op : Op) (ops : List Op) → All (λ p. Agrees op p) ops → AllAgree ops (op ∷ [])
unfolding AllAgree
flip-All op [] h = tt
flip-All op (o ∷ ops) h = ((Agrees-sym op o h.0, tt), flip-All op ops h.1)

AllAgree-append :
    (ps qs ms ns : List Op)
    → AllAgree ps ms
    → AllAgree ps ns
    → AllAgree qs ms
    → AllAgree qs ns
    → AllAgree (ps ++ qs) (ms ++ ns)
unfolding AllAgree
AllAgree-append [] [] ms ns p q r s = tt
AllAgree-append [] (b ∷ qs) ms ns p q r s =
    (All-append _ ms ns r.0 s.0, AllAgree-append [] qs ms ns tt tt r.1 s.1)
AllAgree-append (a ∷ ps) qs ms ns p q r s =
    (All-append _ ms ns p.0 q.0, AllAgree-append ps qs ms ns p.1 q.1 r s)

AllAgree-nil : (ops : List Op) → AllAgree ops []
unfolding AllAgree
AllAgree-nil [] = tt
AllAgree-nil (o ∷ ops) = (tt, AllAgree-nil ops)

added-cases :
    (op : Op) (r : Result StoreError Append) (c : ChainId)
    → (added op r c ≡ [])
      ⊎ ((r ≡ ok Append.appended) × (chain_of op ≡ c) × (added op r c ≡ op ∷ []))
added-cases op (ok Append.appended) c = elim (dec_pair (chain_of op) c) [
  | yes e ↦ inr (refl, e, ground arith)
  | no n ↦ inl (ground arith)
]
added-cases op (ok Append.duplicate) c = inl refl
added-cases op (ok Append.below_retained) c = inl refl
added-cases op (err e) c = inl refl

module _ (x : External) (d : Disk) (op : Op) (s : Store) where
  appended-surface : (append x d op s).0 ≡ ok Append.appended → surface_entries op s.logs ≡ ok tt
  unfolding append judge check_surface
  appended-surface h = ground arith

  zone_of_chain : (c : ChainId) → chain_of op ≡ c → c.0 ≡ zone_of op
  unfolding chain_of
  zone_of_chain c e = sym (ap (λ (c : ChainId). c.0) e)

  abbrev result : Result StoreError Append
  result = (append x d op s).0

  added_held :
      (b c : ChainId) → IsContracted s → b.0 ≡ c.0 → AllAgree (added op result b) (held_of s.logs c)
  unfolding AllAgree
  added_held b c v z = elim (added-cases op result b) [
    | inl e ↦ rw e tt
    | inr (q, k, e) ↦
        rw e (passed_log op s c v (appended-surface q) (sym z ∙ zone_of_chain b k), tt)
  ]

  held_added :
      (b c : ChainId) → IsContracted s → b.0 ≡ c.0 → AllAgree (held_of s.logs b) (added op result c)
  held_added b c v z = elim (added-cases op result c) [
    | inl e ↦ rw e (AllAgree-nil (held_of s.logs b))
    | inr (q, k, e) ↦ rw e (
        flip-All op (held_of s.logs b)
          (passed_log op s b v (appended-surface q) (z ∙ zone_of_chain c k)))
  ]

  added-added : (b c : ChainId) → AllAgree (added op result b) (added op result c)
  unfolding AllAgree
  added-added b c = elim (added-cases op result b) [
    | inl e ↦ rw e tt
    | inr (q, k, e) ↦ elim (added-cases op result c) [
      | inl f ↦ rw (e, f) (tt, tt)
      | inr (r, l, f) ↦ rw (e, f) ((Agrees-refl op, tt), tt)
    ]
  ]

  added_keyed : (c : ChainId) → All (λ o. chain_of o ≡ c) (added op result c)
  added_keyed c = elim (added-cases op result c) [ inl e ↦ rw e tt | inr (q, k, e) ↦ rw e (k, tt) ]

  -- Every append of an op that is no checkpoint keeps every surface's contract, where it held
  -- before: where a zone holds a writer's op, all that it holds is that writer's, and where it
  -- holds a text's, all is a text's.
  pub append-IsContracted :
      (op.share ≡ Directory.home → op.glade_id ≢ Directory.g_checkpoints)
      → IsContracted s
      → IsContracted (append x d op s).1
  append-IsContracted n v =
      let adds = (append-Adds x d op s n).1 in
      record {
        keyed = λ c. rw (adds c) (All-append _ _ _ (v.keyed c) (added_keyed c));
        agree = λ b c z.
            rw (adds b, adds c)
              (AllAgree-append _ _ _ _ (v.agree b c z) (held_added b c v z) (added_held b c v z)
                (added-added b c));
      }
