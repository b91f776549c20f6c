-- ===== src/Registry/Quarantine.antt =====
-- A policy that can be read is complete (`load` and `policy` of node/src/registry.rs).
use glade.Prelude.{
  ◌≡◌, ◌≢◌, ◌⊎◌, inl, inr, refl, ap, ◌∙◌, true, false, not, Option, some, List, [], ◌∷◌, arith,
  Bytes, bytes_eq, int_eq, All, keep, ok, Bool-cases, Result-cases, eq-of-==,
}
use glade.Prelude.BTreeMap.{get}
use glade.Prelude.Order.{bytes_ord, pair_ord}
use glade.External.{External}
use glade.Directory
use glade.Grants.{Policy}
use glade.Signing.{NodeIdentity}
use glade.Wire.{Op}
use glade.Registry.{Registry, is_policy, ingest, new_registry}
use glade.Registry.Folds.{policy}
use glade.Registry.Load.{
  SystemSnapshot, Loading, quarantine, reject, taken, is_checkpoint, decoded, set_aside, load_op,
  load_ops, load,
}
use glade.Registry.Keeps.{IsIn, IsFloored, ingest-Keeps, ingest-IsIn, policy_elsewhere}

module _ (x : External) where
  -- A load that has quarantined nothing has kept what it was handed of the policy streams.
  module _ (op : Op) (l : Loading) where
    abbrev next : Registry
    next = (load_op x op l).registry

    load_op-flag : next.policy_quarantined ≡ false → l.registry.policy_quarantined ≡ false
    unfolding load_op taken reject quarantine
    load_op-flag h = ground (arith, h, (ingest-Keeps x op l.registry).same)

    load_op-floors :
        (next.checkpoints ≡ l.registry.checkpoints)
        ⊎ (next.checkpoints ≡ (ingest x op l.registry).1.checkpoints)
    unfolding load_op taken reject quarantine
    load_op-floors = ground arith

    load_op-IsFloored : IsFloored x l.registry → IsFloored x next
    load_op-IsFloored f = elim load_op-floors [
      | inl e ↦ record { none_else = λ c n. ap (get c) e ∙ f.none_else c n }
      | inr e ↦ record {
        none_else = λ c n. ap (get c) e ∙ ((ingest-Keeps x op l.registry).floored f).none_else c n;
      }
    ]

    load_op-held : (o : Op) → o.glade_id ≢ Directory.g_claims → IsIn x o l.registry → IsIn x o next
    unfolding load_op taken reject quarantine
    load_op-held o n h = ground (arith, h, (ingest-Keeps x op l.registry).held o n)

    load_op-IsIn :
        IsFloored x l.registry
        → next.policy_quarantined ≡ false
        → is_policy op.glade_id ≡ true
        → IsIn x op next
    unfolding load_op taken reject quarantine
    load_op-IsIn f h p = elim (Result-cases (ingest x op l.registry).0) [
      | inl (i, e) ↦ ground (arith, h, p, e, ingest-IsIn x op l.registry i f p e)
      | inr (why, e) ↦ ground (arith, h, p, e)
    ]

  -- What every op of a list is.
  abbrev pub AllIn : List Op → Registry → Type 0
  AllIn ops r = All (λ o. is_policy o.glade_id ≡ true → IsIn x o r) ops

  -- A load that ends with nothing quarantined began so, keeps what was held, and holds what it was
  -- handed.
  module _ (o : Op) where
    load_ops-held :
        (ops : List Op) (l : Loading)
        → o.glade_id ≢ Directory.g_claims
        → IsIn x o l.registry
        → IsIn x o (load_ops x ops l).registry
    unfolding load_ops
    load_ops-held [] l n h = h
    load_ops-held (op ∷ ops) l n h = load_ops-held ops (load_op x op l) n (load_op-held op l o n h)

  load_ops-flag :
      (ops : List Op) (l : Loading)
      → (load_ops x ops l).registry.policy_quarantined ≡ false
      → l.registry.policy_quarantined ≡ false
  unfolding load_ops
  load_ops-flag [] l h = h
  load_ops-flag (op ∷ ops) l h = load_op-flag op l (load_ops-flag ops (load_op x op l) h)

  load_ops-IsFloored :
      (ops : List Op) (l : Loading)
      → IsFloored x l.registry
      → IsFloored x (load_ops x ops l).registry
  unfolding load_ops
  load_ops-IsFloored [] l f = f
  load_ops-IsFloored (op ∷ ops) l f =
      load_ops-IsFloored ops (load_op x op l) (load_op-IsFloored op l f)

  load_ops-AllIn :
      (ops : List Op) (l : Loading)
      → IsFloored x l.registry
      → (load_ops x ops l).registry.policy_quarantined ≡ false
      → AllIn ops (load_ops x ops l).registry
  unfolding load_ops
  load_ops-AllIn [] l f h = tt
  load_ops-AllIn (op ∷ ops) l f h = (
    λ p.
        load_ops-held op ops (load_op x op l) (policy_elsewhere x op.glade_id p).0
          (load_op-IsIn op l f (load_ops-flag ops (load_op x op l) h) p),
    load_ops-AllIn ops (load_op x op l) (load_op-IsFloored op l f) h,
  )

  -- The records that are ops, where nothing is set aside.
  abbrev pub IsDecoded : List Bytes → Type 0
  IsDecoded = All (λ b. (op : Op) × (x.decode_op b ≡ ok op))

  set_aside-flag :
      (records : List Bytes) (l : Loading)
      → (set_aside x records l).registry.policy_quarantined ≡ false
      → (l.registry.policy_quarantined ≡ false) × IsDecoded records
  unfolding set_aside reject quarantine
  set_aside-flag [] l h = (h, tt)
  set_aside-flag (b ∷ records) l h = elim (Result-cases (x.decode_op b)) [
    | inl (op, e) ↦
        let (flag, rest) = set_aside-flag records _ h in (ground (arith, flag, e), ((op, e), rest))
    | inr (why, e) ↦
        let (flag, rest) = set_aside-flag records _ h in absurd (ground (arith, flag, e))
  ]

  set_aside-floors :
      (records : List Bytes) (l : Loading)
      → (set_aside x records l).registry.checkpoints ≡ l.registry.checkpoints
  unfolding set_aside reject quarantine
  set_aside-floors [] l = refl
  set_aside-floors (b ∷ records) l = elim (Result-cases (x.decode_op b)) [
    | inl (op, e) ↦ ground (arith, e, set_aside-floors records l)
    | inr (why, e) ↦ ground (arith, e, set_aside-floors records (reject true l))
  ]

  rest-AllIn :
      (ops : List Op) (r : Registry) → AllIn (keep (λ o. not (is_checkpoint o)) ops) r → AllIn ops r
  rest-AllIn [] r h = tt
  rest-AllIn (o ∷ ops) r h = elim (Bool-cases (is_checkpoint o)) [
    | inl e ↦ (
      λ p.
          absurd
            ((policy_elsewhere x o.glade_id p).1 (eq-of-== o.glade_id Directory.g_checkpoints e)),
      rest-AllIn ops r (ground (arith, h, e)),
    )
    | inr e ↦
        let all : AllIn (o ∷ keep (λ o. not (is_checkpoint o)) ops) r = ground (arith, h, e) in
        (all.0, rest-AllIn ops r all.1)
  ]

  new_registry-IsFloored : (seal : Option NodeIdentity) → IsFloored x (new_registry seal)
  unfolding new_registry get
  new_registry-IsFloored seal = record { none_else = λ c n. refl }

  -- The policy of a registry that a snapshot is loaded into can be read only where every record
  -- of the snapshot is an op, and every grant and every revocation among them is held: none that
  -- the load set aside is left out of what the checks read.
  pub policy-load :
      (snap : SystemSnapshot) (seal : Option NodeIdentity) (p : Policy)
      → policy x (load x snap (new_registry seal)).0 ≡ some p
      → IsDecoded snap.records × AllIn (decoded x snap.records) (load x snap (new_registry seal)).0
  unfolding policy load new_registry
  policy-load snap seal p h =
      let r = (load x snap (new_registry seal)).0 in
      let ops = decoded x snap.records in
      let start : Loading =
        set_aside x snap.records
          (record { registry = new_registry seal; rejected = 0; poisoned = [] }) in
      let middle = load_ops x (keep is_checkpoint ops) start in
      let flag : r.policy_quarantined ≡ false = ground (arith, h) in
      let floored : IsFloored x start.registry = record {
        none_else = λ c n.
            ap (get c) (set_aside-floors snap.records _)
            ∙ (new_registry-IsFloored seal).none_else c n;
      } in
      let rest = keep (λ o. not (is_checkpoint o)) ops in
      (
        (set_aside-flag snap.records _
            (load_ops-flag (keep is_checkpoint ops) start (load_ops-flag rest middle flag))).1,
        rest-AllIn ops r (
            load_ops-AllIn rest middle (load_ops-IsFloored (keep is_checkpoint ops) start floored)
              flag),
      )
