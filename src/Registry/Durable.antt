-- ===== src/Registry/Durable.antt =====
-- A change is held once it is saved (`accept` of node/src/registry.rs).
use glade.Prelude.{
  ◌≡◌, ◌⊎◌, inl, inr, refl, Option, none, some, arith, nat_eq, bytes_eq, Result, ok, err,
  Result-cases,
}
use glade.Prelude.BTreeMap.{get}
use glade.Prelude.Order.{bytes_ord, pair_ord}
use glade.External.{External}
use glade.Checkpoint
use glade.Checkpoint.{Floor, Placement}
use glade.Store.Types.{IoError}
use glade.Wire.{Op}
use glade.Registry.{
  Registry, Chain, own_chain, take, link_after, link_tip, link_floor, link, ingest, fold_at,
  place_at, place_verdict, place, next_change,
}
use glade.Registry.Load.{SystemSnapshot, StoreApi, snapshot}

-- A registry after a change that counts what it takes: the same, or with its count moved on.
abbrev pub Counted : Registry → Registry → Type 0
Counted r after = (after ≡ r) ⊎ (after.changes ≡ next_change r.changes)

module _ (x : External) where
  link_tip-Counted : (op : Op) (r : Registry) → Counted r (link_tip x op r).1
  unfolding link_tip link_after take
  link_tip-Counted op r = ground arith

  link_floor-Counted :
      (floor : Option (Op × Floor)) (op : Op) (r : Registry) → Counted r (link_floor x floor op r).1
  unfolding link_floor
  link_floor-Counted none op r = link_tip-Counted op r
  link_floor-Counted (some (held, floor)) op r = ground (arith, link_tip-Counted op r)

  place_verdict-Counted :
      (op : Op) (chain : Chain) (floor : Floor) (r : Registry) (p : Placement)
      → Counted r (place_verdict x op chain floor r p).1
  unfolding place_verdict place_at fold_at
  place_verdict-Counted op chain floor r Placement.placed = ground arith
  place_verdict-Counted op chain floor r p = inl refl

  place-Counted : (op : Op) (r : Registry) → Counted r (place x op r).1
  unfolding place
  place-Counted op r = elim (Result-cases (Checkpoint.check x op)) [
    | inr (why, e) ↦ ground (arith, e)
    | inl (c, e) ↦ rw (place, e) (place_verdict-Counted op (c.stream, op.origin) c.floor r _)
  ]

  -- An ingest that changes the registry moves its count on.
  pub ingest-Counted : (op : Op) (r : Registry) → Counted r (ingest x op r).1
  unfolding ingest link
  ingest-Counted op r =
      ground (arith, place-Counted op r, link_floor-Counted (get (own_chain op) r.checkpoints) op r)

-- What a load reads after a save that answers.
abbrev pub IsDurable : StoreApi → Type 0
IsDurable api =
    (snap : SystemSnapshot) (d : api.State)
    → (api.save snap d).0 ≡ ok tt
    → api.load (api.save snap d).1 ≡ snap

module _ {T E : Type 0} (x : External) (api : StoreApi) (from : IoError → E) where
  -- A change that fails holds what was held, and one that succeeds what it made, which is stored.
  abbrev pub Outcome :
      Result E T × Registry → Registry → api.State → Result E T × (Registry × api.State) → Type 0
  Outcome change r d out =
      ((why : E) × (out.0 ≡ err why) × (out.1.0 ≡ r) × (change.0 ≡ err why → out.1.1 ≡ d))
      ⊎ ((t : T) × (out.0 ≡ ok t)
          × (change.0 ≡ ok t)
          × (out.1.0 ≡ change.1)
          × (api.load out.1.1 ≡ snapshot x out.1.0))
