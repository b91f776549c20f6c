-- ===== src/Store/Chains.antt =====
-- Contiguous and hash-linked chains, and what extends them (node/src/store.rs).
use glade.Prelude.{
  ℤ, ◌≡◌, ◌≢◌, ◌⊎◌, inl, inr, Option, none, some, List, [], ◌∷◌, ◌++◌, arith, bytes_eq, int_eq,
  ltb_ℤ, ◌<ℤ◌, suc_ℤ, suc_ℤ_parts, suc_i64_of_lt, InI64, All, keep, last?, last?-eq-none, find?,
  Option-cases,
}
use glade.External.{External, op_hash}
use glade.Wire.{Op}
use glade.Store.Types.{Verdict}
use glade.Store.Classify.{follows, classify, classify_held, at_seq}

abbrev pub InRange : List Op → Type 0
InRange = All (λ o. InI64 o.seq)

-- An op that is judged against one held at its seq is not appended.
classify_held-ne :
    (x : External) (op : Op) (o : Option Op) → classify_held x op o ≢ Verdict.appended
unfolding classify_held
classify_held-ne x op none e = cc
classify_held-ne x op (some stored) e = ground arith

module _ (x : External) where
  -- `b` follows `a`: the next seq, and a `prev` that is absent or the hash of `a`.
  abbrev pub Links : Op → Op → Type 0
  Links a b = (b.seq ≡ suc_ℤ a.seq) × ((b.prev ≡ none) ⊎ (b.prev ≡ some (op_hash x a)))

  abbrev pub IsChain : List Op → Type 0
  IsChain [] = Unit
  IsChain (a ∷ []) = Unit
  IsChain (a ∷ b ∷ ops) = Links a b × IsChain (b ∷ ops)

  pub IsChain-snoc :
      (ops : List Op) (last op : Op)
      → IsChain ops
      → last? ops ≡ some last
      → Links last op
      → IsChain (ops ++ op ∷ [])
  IsChain-snoc [] last op c e l = tt
  IsChain-snoc (a ∷ []) last op c e l = ground arith
  IsChain-snoc (a ∷ b ∷ ops) last op c e l = (c.0, IsChain-snoc (b ∷ ops) last op c.1 e l)

  follows-Links :
      (last op : Op)
      → last.seq <ℤ op.seq
      → InI64 op.seq
      → follows x last.seq (op_hash x last) op ≡ Verdict.appended
      → Links last op
  unfolding follows
  follows-Links last op lt range h = ground (arith, suc_i64_of_lt last.seq op.seq)

  -- An op that its chain's own rules take extends the chain.
  pub classify-IsChain :
      (ops : List Op) (op : Op)
      → IsChain ops
      → InI64 op.seq
      → classify x ops op ≡ Verdict.appended
      → IsChain (ops ++ op ∷ [])
  unfolding classify
  classify-IsChain ops op c range h = elim (Option-cases (last? ops)) [
    | inl e ↦ rw (last?-eq-none ops e) tt
    | inr (last, e) ↦
        let later : last.seq <ℤ op.seq =
          ground (arith, classify_held-ne x op (find? (at_seq op.seq) ops)) in
        IsChain-snoc ops last op c e (follows-Links last op later range (ground arith))
  ]

  -- What a test keeps that, once true, stays true along the chain, is a chain.
  pub keep-IsChain : (b : ℤ) (ops : List Op) → IsChain ops → IsChain (keep (λ o. ltb_ℤ b o.seq) ops)
  keep-IsChain b [] c = tt
  keep-IsChain b (o ∷ []) c = ground arith
  keep-IsChain b (o ∷ p ∷ ops) c = ground (arith, suc_ℤ_parts o.seq, keep-IsChain b (p ∷ ops) c.1)
