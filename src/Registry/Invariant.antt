-- ===== src/Registry/Invariant.antt =====
-- Every ingest keeps a registry valid (node/src/registry.rs).
use glade.Prelude.{
  pos, ◌≡◌, ◌≢◌, ◌⊎◌, inl, inr, refl, subst, sym, not, ◌&&◌, Option, none, some, List, [], ◌∷◌,
  ◌++◌, arith, ◌==◌, bytes_eq, int_eq, bytes_discrete, leb_ℤ, suc_ℤ, suc_i64, suc_i64_of_lt, InI64,
  All-append, keep, keep-append, keep-snoc_drop, last?, last?-snoc, last?-eq-none, Bool-cases,
  Option-cases,
}
use glade.Prelude.BTreeMap.{get, insert, get-insert_self, get-insert_ne}
use glade.Prelude.Order.{bytes_ord, pair_ord, dec_pair}
use glade.External.{External, op_hash}
use glade.Directory
use glade.Checkpoint.{Floor}
use glade.Registry.Folded.{place-IsValid}
use glade.Signing.{NodeIdentity}
use glade.Wire.{Op}
use glade.Store.Chains.{IsChain-snoc, Links}
use glade.Registry.{
  Registry, Chain, named, own_chain, take, breaks, link_after, link_tip, link_floor, link, ingest,
  new_registry,
}
use glade.Registry.Valid.{chain_ops, floor_of, tip_of, Begins, IsHeld, IsValid}

module _ (x : External) where
  -- What an op that a tip takes is.
  abbrev Follows : Option Floor → Op → Type 0
  Follows none op = op.seq ≡ pos 0
  Follows (some (seq, hash)) op = (op.seq ≡ suc_ℤ seq) × ((op.prev ≡ none) ⊎ (op.prev ≡ some hash))

  Begins-snoc :
      (floor : Option Floor) (o op : Op) (ops : List Op)
      → Begins x floor (o ∷ ops)
      → Begins x floor ((o ∷ ops) ++ op ∷ [])
  Begins-snoc none o op ops h = h
  Begins-snoc (some f) o op ops h = h

  Begins-one : (floor : Option Floor) (op : Op) → Follows floor op → Begins x floor (op ∷ [])
  Begins-one none op h = h
  Begins-one (some f) op h = h

  grow-IsHeld :
      (ops : List Op) (tip floor : Option Floor) (op : Op)
      → InI64 op.seq
      → Follows tip op
      → IsHeld x ops tip floor
      → IsHeld x (ops ++ op ∷ []) (some (op.seq, op_hash x op)) floor
  unfolding tip_of
  grow-IsHeld [] tip floor op range f h = record {
    chained = tt;
    in_range = (range, tt);
    begins = Begins-one floor op (subst (λ t. Follows t op) h.in_step f);
    in_step = refl;
  }
  grow-IsHeld (o ∷ ops) tip floor op range f h = elim (Option-cases (last? (o ∷ ops))) [
    | inl e ↦ absurd (cc (last?-eq-none (o ∷ ops) e))
    | inr (last, e) ↦
        let in_step : tip ≡ some (last.seq, op_hash x last) = ground (arith, h.in_step, e) in
        let links : Links x last op = subst (λ t. Follows t op) in_step f in
        record {
          chained = IsChain-snoc x (o ∷ ops) last op h.chained e links;
          in_range = All-append _ (o ∷ ops) (op ∷ []) h.in_range (range, tt);
          begins = Begins-snoc floor o op ops h.begins;
          in_step = ground (arith, last?-snoc (o ∷ ops) op);
        }
  ]

  chain_ops-snoc_self :
      (r : Registry) (op : Op)
      → keep (named (own_chain op)) (r.ops ++ op ∷ []) ≡ chain_ops r (own_chain op) ++ op ∷ []
  unfolding chain_ops
  chain_ops-snoc_self r op = ground (arith, keep-append (named (own_chain op)) r.ops (op ∷ []))

  chain_ops-snoc_ne :
      (r : Registry) (op : Op) (c : Chain)
      → own_chain op ≢ c
      → keep (named c) (r.ops ++ op ∷ []) ≡ chain_ops r c
  unfolding chain_ops
  chain_ops-snoc_ne r op c n = elim (Bool-cases (named c op)) [
    | inl e ↦ absurd (n (ground arith))
    | inr e ↦ keep-snoc_drop (named c) r.ops op e
  ]

  take-IsValid :
      (op : Op) (r : Registry)
      → InI64 op.seq
      → Follows (get (own_chain op) r.tips) op
      → op.glade_id ≢ Directory.g_checkpoints
      → IsValid x r
      → IsValid x (take x op r).1
  unfolding take chain_ops
  take-IsValid op r range f g v = record { chains = λ c n. grown c n }
    where
      moved : Chain → Type 0
      moved c =
          IsHeld x (keep (named c) (r.ops ++ op ∷ []))
            (get c (insert (own_chain op) (op.seq, op_hash x op) r.tips))
            (floor_of (get c r.checkpoints))

      grown : (c : Chain) → c.0 ≢ Directory.g_checkpoints → moved c
      grown c n = elim (dec_pair (own_chain op) c) [
        | yes e ↦ subst moved e (
            rw
              (
                chain_ops-snoc_self r op,
                get-insert_self (own_chain op) (op.seq, op_hash x op) r.tips,
              )
              (grow-IsHeld (chain_ops r (own_chain op)) (get (own_chain op) r.tips) _ op range f
                (v.chains (own_chain op) g)))
        | no m ↦
            rw
              (
                chain_ops-snoc_ne r op c m,
                get-insert_ne (own_chain op) c (op.seq, op_hash x op) r.tips m,
              )
              (v.chains c n)
      ]

  -- What an op's own chain makes of it: nothing, or its next op.
  abbrev Extends : Op → Registry → Registry → Type 0
  Extends op r after =
      (after ≡ r) ⊎ ((after ≡ (take x op r).1) × Follows (get (own_chain op) r.tips) op)

  link_after-Extends :
      (tip : Floor) (op : Op) (r : Registry)
      → InI64 op.seq
      → get (own_chain op) r.tips ≡ some tip
      → Extends op r (link_after x tip op r).1
  unfolding link_after breaks
  link_after-Extends (seq, hash) op r range e = elim (Bool-cases (leb_ℤ op.seq seq)) [
    | inl h ↦ inl (ground arith)
    | inr h ↦ elim (Bool-cases ((op.seq == suc_i64 seq) && not (breaks x op.prev hash))) [
      | inl k ↦ inr (
        ground arith,
        subst (λ t. Follows t op) (sym e) (ground (arith, suc_i64_of_lt seq op.seq)),
      )
      | inr k ↦ inl (ground arith)
    ]
  ]

  link_tip-Extends : (op : Op) (r : Registry) → InI64 op.seq → Extends op r (link_tip x op r).1
  unfolding link_tip
  link_tip-Extends op r range = elim (Option-cases (get (own_chain op) r.tips)) [
    | inl e ↦ ground arith
    | inr (tip, e) ↦ ground (arith, e, link_after-Extends tip op r range e)
  ]

  link_floor-Extends :
      (floor : Option (Op × Floor)) (op : Op) (r : Registry)
      → InI64 op.seq
      → Extends op r (link_floor x floor op r).1
  unfolding link_floor
  link_floor-Extends none op r range = link_tip-Extends op r range
  link_floor-Extends (some (held, floor)) op r range = ground (arith, link_tip-Extends op r range)

  Extends-IsValid :
      (op : Op) (r after : Registry)
      → InI64 op.seq
      → op.glade_id ≢ Directory.g_checkpoints
      → IsValid x r
      → Extends op r after
      → IsValid x after
  Extends-IsValid op r after range g v (inl e) = rw e v
  Extends-IsValid op r after range g v (inr (e, f)) = rw e (take-IsValid op r range f g v)

  link-IsValid : (op : Op) (r : Registry) → InI64 op.seq → IsValid x r → IsValid x (link x op r).1
  unfolding link
  link-IsValid op r range v = elim (bytes_discrete op.glade_id Directory.g_checkpoints) [
    | yes e ↦ ground (arith, e, place-IsValid x op r v)
    | no n ↦ ground (
      arith,
      n,
      Extends-IsValid op r _ range n v
          (link_floor-Extends (get (own_chain op) r.checkpoints) op r range),
    )
  ]

  -- An empty registry is valid.
  pub new_registry-IsValid : (seal : Option NodeIdentity) → IsValid x (new_registry seal)
  unfolding new_registry chain_ops tip_of get
  new_registry-IsValid seal = record {
    chains = λ c n. record { chained = tt; in_range = tt; begins = tt; in_step = refl };
  }

  -- Every ingest of an op whose seq is an i64 into a valid registry, whatever its outcome,
  -- leaves it valid: each chain but a checkpoints' one is contiguous and hash-linked, begins at
  -- its floor, or at seq 0 without one, and has its last op, or its floor while it holds none,
  -- as its tip.
  pub ingest-IsValid :
      (op : Op) (r : Registry) → InI64 op.seq → IsValid x r → IsValid x (ingest x op r).1
  unfolding ingest
  ingest-IsValid op r range v = ground (arith, v, link-IsValid op r range v)
