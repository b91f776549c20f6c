-- ===== src/Registry/Appends.antt =====
-- What an append does (`append_returning` of node/src/registry.rs).
use glade.Prelude.{
  ◌≡◌, ◌≢◌, inl, inr, refl, sym, ap, subst, ◌∙◌, false, Option, none, some, List, [], ◌∷◌, arith,
  Text, bytes_eq, int_eq, ◌<ℤ◌, ◌≤ℤ◌, i64_max, suc_ℤ_parts, suc_i64, ok, last?, last?-eq-none,
  Option-cases,
}
use glade.Prelude.BTreeMap.{get}
use glade.Prelude.Order.{bytes_ord, pair_ord}
use glade.External.{External, op_hash}
use glade.Directory
use glade.Checkpoint.{Floor, Against, against}
use glade.Signing.{NodeIdentity}
use glade.Wire.{Op}
use glade.Registry.{
  Registry, Chain, own_chain, take, breaks, link_after, link_tip, link_floor, link,
}
use glade.Registry.Folded.{below_last}
use glade.Registry.Valid.{chain_ops, floor_of, tip_of, Begins, IsHeld, IsValid}
use glade.Registry.Persist.{
  Record, stream_of, next_place, next_op_of, built_op, sealed_op, not_ours, linked_op,
  append_returning,
}

module _ (x : External) where
  -- No tip is below its chain's floor.
  tip-floor :
      (ops : List Op) (tip floor : Option Floor) (t f : Floor)
      → IsHeld x ops tip floor
      → tip ≡ some t
      → floor ≡ some f
      → f.0 ≤ℤ t.0
  unfolding tip_of
  tip-floor [] tip floor t f h e g = ground (arith, h.in_step, e, g)
  tip-floor (o ∷ ops) tip floor t f h e g = elim (Option-cases (last? (o ∷ ops))) [
    | inl n ↦ absurd (cc (last?-eq-none (o ∷ ops) n))
    | inr (last, l) ↦
        let first : Begins x (some f) (o ∷ ops) =
          subst (λ (b : Option Floor). Begins x b (o ∷ ops)) g h.begins in
        let after = below_last x (o ∷ ops) last h.chained l in
        ground (arith, h.in_step, e, l, first.0, after.0, suc_ℤ_parts f.0)
  ]

  -- The seq that an append gives is one above the tip.
  abbrev pub HasRoom : Option Floor → Type 0
  HasRoom none = Unit
  HasRoom (some t) = t.0 <ℤ i64_max

  -- An op that goes on from a tip is taken by it.
  link_tip-take :
      (op : Op) (r : Registry) (tip : Option Floor)
      → get (own_chain op) r.tips ≡ tip
      → HasRoom tip
      → (op.seq ≡ (next_place tip).0)
      → (op.prev ≡ (next_place tip).1)
      → link_tip x op r ≡ take x op r
  unfolding link_tip link_after breaks next_place suc_i64
  link_tip-take op r none e room s p = ground (arith, e, s)
  link_tip-take op r (some (seq, hash)) e room s p = ground (arith, e, s, p, room, suc_ℤ_parts seq)

  -- With a floor there is a tip.
  tip-some :
      (ops : List Op) (tip floor : Option Floor) (f : Floor)
      → IsHeld x ops tip floor
      → floor ≡ some f
      → (t : Floor) × (tip ≡ some t)
  unfolding tip_of
  tip-some ops tip floor f h g = elim (Option-cases (last? ops)) [
    | inl n ↦ (f, ground (arith, h.in_step, n, g))
    | inr (last, l) ↦ ((last.seq, op_hash x last), ground (arith, h.in_step, l))
  ]

  next-above :
      (op : Op) (ops : List Op) (tip floor : Option Floor) (f : Floor)
      → IsHeld x ops tip floor
      → floor ≡ some f
      → HasRoom tip
      → op.seq ≡ (next_place tip).0
      → against x f op ≡ Against.above
  unfolding against next_place suc_i64
  next-above op ops tip floor f h g room s =
      let (t, e) = tip-some ops tip floor f h g in
      ground (arith, e, s, tip-floor ops tip floor t f h e g, suc_ℤ_parts t.0, subst HasRoom e room)

  link_floor-take :
      (op : Op) (r : Registry) (floor : Option (Op × Floor))
      → IsHeld x (chain_ops r (own_chain op)) (get (own_chain op) r.tips) (floor_of floor)
      → HasRoom (get (own_chain op) r.tips)
      → op.seq ≡ (next_place (get (own_chain op) r.tips)).0
      → op.prev ≡ (next_place (get (own_chain op) r.tips)).1
      → link_floor x floor op r ≡ take x op r
  unfolding link_floor
  link_floor-take op r none h room s p = link_tip-take op r _ refl room s p
  link_floor-take op r (some (held, f)) h room s p = ground (
    arith,
    next-above op _ _ _ f h refl room s,
    link_tip-take op r (get (own_chain op) r.tips) refl room s p,
  )

  -- An op that goes on from its chain's tip is taken.
  pub link-take :
      (op : Op) (r : Registry)
      → IsValid x r
      → op.glade_id ≢ Directory.g_checkpoints
      → HasRoom (get (own_chain op) r.tips)
      → op.seq ≡ (next_place (get (own_chain op) r.tips)).0
      → op.prev ≡ (next_place (get (own_chain op) r.tips)).1
      → link x op r ≡ take x op r
  unfolding link
  link-take op r v g room s p =
      ground (arith, g, link_floor-take op r _ (v.chains (own_chain op) g) room s p)

  sealed_op-keeps :
      (seal : Option NodeIdentity) (op : Op)
      → (own_chain (sealed_op x seal op) ≡ own_chain op)
        × ((sealed_op x seal op).seq ≡ op.seq)
        × ((sealed_op x seal op).prev ≡ op.prev)
  unfolding sealed_op
  sealed_op-keeps none op = (refl, refl, refl)
  sealed_op-keeps (some me) op = (refl, refl, refl)

  -- The op that an append builds goes on from its chain's tip.
  pub next_op_of-place :
      (rec : Record) (origin : Text) (r : Registry)
      → let op = next_op_of x rec origin r in
        let tip = get (stream_of rec, origin) r.tips in
        (own_chain op ≡ (stream_of rec, origin))
        × (op.seq ≡ (next_place tip).0)
        × (op.prev ≡ (next_place tip).1)
  unfolding next_op_of built_op
  next_op_of-place rec origin r = sealed_op-keeps r.seal (built_op x rec origin r)

  -- To a valid registry whose chain has room, an append of a record that is no checkpoint, under
  -- an origin that the registry may append as, succeeds: it takes the op that goes on from the
  -- chain's tip, which it hands back.
  pub append_returning-take :
      (rec : Record) (origin : Text) (r : Registry)
      → IsValid x r
      → stream_of rec ≢ Directory.g_checkpoints
      → not_ours x r.seal origin ≡ false
      → HasRoom (get (stream_of rec, origin) r.tips)
      → let op = next_op_of x rec origin r in
        append_returning x rec origin r ≡ (ok op, (take x op r).1)
  unfolding append_returning linked_op take
  append_returning-take rec origin r v g ours room =
      let op = next_op_of x rec origin r in
      let (c, s, p) = next_op_of-place rec origin r in
      let taken : link x op r ≡ take x op r =
        link-take op r v (λ e. g (sym (ap (λ (c : Chain). c.0) c) ∙ e))
          (subst (λ c. HasRoom (get c r.tips)) (sym c) room)
          (subst (λ c. op.seq ≡ (next_place (get c r.tips)).0) (sym c) s)
          (subst (λ c. op.prev ≡ (next_place (get c r.tips)).1) (sym c) p) in
      ground (arith, ours, taken)
