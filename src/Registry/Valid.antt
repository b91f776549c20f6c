-- ===== src/Registry/Valid.antt =====
-- What is true of every registry (node/src/registry.rs): each chain that is no checkpoints' one is held
-- contiguous and hash-linked from its floor, and its tip is in step with it.
use glade.Prelude.{
  ℤ, pos, ◌≡◌, ◌≢◌, ◌⊎◌, inl, inr, refl, not, ◌&&◌, ◌||◌, Option, none, some, List, [], ◌∷◌, arith,
  ◌==◌, bytes_eq, int_eq, ltb_ℤ, ◌≤ℤ◌, suc_ℤ, suc_ℤ_parts, keep, last?, find?, Bool-cases, Bytes,
}
use glade.Prelude.BTreeMap.{get}
use glade.Prelude.Order.{bytes_ord, pair_ord}
use glade.External.{External, op_hash}
use glade.Directory
use glade.Checkpoint.{Floor}
use glade.Wire.{Op}
use glade.Store.Chains.{IsChain, InRange}
use glade.Registry.{Registry, Chain, named}

-- The ops that a registry holds of a chain.
unfoldable pub chain_ops : Registry → Chain → List Op
chain_ops r c = keep (named c) r.ops

abbrev pub floor_of : Option (Op × Floor) → Option Floor
floor_of none = none
floor_of (some (op, floor)) = some floor

module _ (x : External) where
  -- The last op's seq and hash, or the floor while none is held.
  unfoldable pub tip_of : List Op → Option Floor → Option Floor
  tip_of ops floor = elim (last? ops) [ none ↦ floor | some o ↦ some (o.seq, op_hash x o) ]

  -- A first op that goes on from the floor, and without one has seq 0.
  abbrev pub Begins : Option Floor → List Op → Type 0
  Begins floor [] = Unit
  Begins none (o ∷ ops) = o.seq ≡ pos 0
  Begins (some (base, hash)) (o ∷ ops) =
      (o.seq ≡ suc_ℤ base) × ((o.prev ≡ none) ⊎ (o.prev ≡ some hash))

  pub record IsHeld (ops : List Op) (tip : Option Floor) (floor : Option Floor) : Type 0 where
    pub chained : IsChain x ops
    pub in_range : InRange ops
    pub begins : Begins floor ops
    pub in_step : tip ≡ tip_of ops floor

  abbrev pub Holds : Registry → Chain → Type 0
  Holds r c = IsHeld (chain_ops r c) (get c r.tips) (floor_of (get c r.checkpoints))

  pub record IsValid (r : Registry) : Type 0 where
    pub chains : (c : Chain) → c.0 ≢ Directory.g_checkpoints → Holds r c

  -- A first op at or below the base, or the one above it.
  abbrev pub Reaches : ℤ → Bytes → List Op → Type 0
  Reaches base hash [] = Unit
  Reaches base hash (o ∷ ops) = (o.seq ≤ℤ base) ⊎ Begins (some (base, hash)) (o ∷ ops)

  -- Above a floor a chain begins at the floor, where it held the floor's op, or began there.
  pub keep-Begins :
      (base : ℤ) (hash : Bytes) (ops : List Op)
      → IsChain x ops
      → ((o : Op) → find? (λ o. o.seq == base) ops ≡ some o → op_hash x o ≡ hash)
      → Reaches base hash ops
      → Begins (some (base, hash)) (keep (λ o. ltb_ℤ base o.seq) ops)
  keep-Begins base hash [] c at h = tt
  keep-Begins base hash (o ∷ []) c at (inl h) = ground (arith, h)
  keep-Begins base hash (o ∷ ops) c at (inr h) = ground (arith, h, suc_ℤ_parts base)
  keep-Begins base hash (o ∷ p ∷ ops) c at (inl h) = elim (Bool-cases (o.seq == base)) [
    | inl e ↦ ground (arith, h, at o (ground (arith, e)), suc_ℤ_parts o.seq)
    | inr e ↦
        let before : p.seq ≤ℤ base = ground (arith, suc_ℤ_parts o.seq) in
        let rest =
          keep-Begins base hash (p ∷ ops) c.1 (λ q f. at q (ground (arith, f, e))) (inl before) in
        ground (arith, h, rest)
  ]

-- What a fold of one chain leaves of another, and of the chain itself.
pub keep-other :
    (c chain : Chain) (base : ℤ) (ops : List Op)
    → c ≢ chain
    → keep (named c) (keep (λ o. not (named chain o) || ltb_ℤ base o.seq) ops) ≡ keep (named c) ops
keep-other c chain base [] n = refl
keep-other c chain base (o ∷ ops) n = elim (Bool-cases (named c o && named chain o)) [
  | inl e ↦ absurd (n (ground arith))
  | inr e ↦ ground (arith, keep-other c chain base ops n)
]

pub keep-own :
    (chain : Chain) (base : ℤ) (ops : List Op)
    → keep (named chain) (keep (λ o. not (named chain o) || ltb_ℤ base o.seq) ops)
      ≡ keep (λ o. ltb_ℤ base o.seq) (keep (named chain) ops)
keep-own chain base [] = refl
keep-own chain base (o ∷ ops) = ground (arith, keep-own chain base ops)
