-- ===== src/Store/Verdicts.antt =====
-- What a verdict says of the op and of its chain.
use glade.Prelude.{
  ℤ, ◌≡◌, ◌≢◌, refl, ap, ◌⊎◌, inl, inr, Option, none, some, List, [], ◌∷◌, ◌++◌, arith, Bytes,
  bytes_eq, bytes_discrete, InI64, ok, find?, last?, Option-cases, Result-cases,
}
use glade.Prelude.BTreeMap.{get}
use glade.Prelude.Order.{bytes_ord, pair_ord}
use glade.External.{External, op_hash}
use glade.Directory
use glade.Checkpoint
use glade.Checkpoint.{Floor, Placement, Against, against}
use glade.Wire.{Op, ChainId, chain_of}
use glade.Store.Types.{Logs, Register, Store, Verdict}
use glade.Store.Classify.{
  held_of, folded_chain, at_seq, follows, classify, classify_held, classify_home,
  classify_checkpoint, classify_base, classify_placement, classify_unfloored, classify_above,
  classify_floored,
}
use glade.Store.Append.{verdict_of}
use glade.Store.Chains.{IsChain, classify-IsChain}

module _ (x : External) where
  follows-ne-placed :
      (seq : ℤ) (hash : Bytes) (op : Op) (c : ChainId) (f : Floor)
      → follows x seq hash op ≢ Verdict.placed c f
  unfolding follows
  follows-ne-placed seq hash op c f h = ground arith

  classify_held-ne-placed :
      (op : Op) (o : Option Op) (c : ChainId) (f : Floor)
      → classify_held x op o ≢ Verdict.placed c f
  unfolding classify_held
  classify_held-ne-placed op none c f h = cc
  classify_held-ne-placed op (some o) c f h = ground arith

  classify-ne-placed :
      (ops : List Op) (op : Op) (c : ChainId) (f : Floor) → classify x ops op ≢ Verdict.placed c f
  unfolding classify
  classify-ne-placed ops op c f h = elim (Option-cases (last? ops)) [
    | inl e ↦ ground arith
    | inr (last, e) ↦ ground (
      arith,
      classify_held-ne-placed op (find? (at_seq op.seq) ops) c f,
      follows-ne-placed last.seq (op_hash x last) op c f,
    )
  ]

  unfloored-ne-placed :
      (ops : List Op) (op : Op) (c : ChainId) (f : Floor)
      → classify_unfloored x ops op ≢ Verdict.placed c f
  unfolding classify_unfloored
  unfloored-ne-placed [] op c f h = ground arith
  unfloored-ne-placed (o ∷ ops) op c f h = classify-ne-placed (o ∷ ops) op c f h

  above-ne-placed :
      (floor : Floor) (ops : List Op) (op : Op) (c : ChainId) (f : Floor)
      → classify_above x floor ops op ≢ Verdict.placed c f
  unfolding classify_above
  above-ne-placed floor [] op c f h = follows-ne-placed floor.0 floor.1 op c f h
  above-ne-placed floor (o ∷ ops) op c f h = classify-ne-placed (o ∷ ops) op c f h

  floored-ne-placed :
      (k : Op) (floor : Floor) (ops : List Op) (op : Op) (c : ChainId) (f : Floor)
      → classify_floored x k floor ops op ≢ Verdict.placed c f
  unfolding classify_floored
  floored-ne-placed k floor ops op c f h = ground (arith, above-ne-placed floor ops op c f)

  -- The chain that a placed checkpoint folds is its own origin's.
  base-placed :
      (folded c : ChainId) (floor f : Floor) (o : Option Op)
      → classify_base x folded floor o ≡ Verdict.placed c f
      → c ≡ folded
  unfolding classify_base
  base-placed folded c floor f none h = ground arith
  base-placed folded c floor f (some o) h = ground arith

  base-ne-appended :
      (folded : ChainId) (floor : Floor) (o : Option Op)
      → classify_base x folded floor o ≢ Verdict.appended
  unfolding classify_base
  base-ne-appended folded floor none h = cc
  base-ne-appended folded floor (some o) h = ground arith

  placement-rest :
      (rest v : Verdict) (held : Op) (p : Placement)
      → (v ≡ Verdict.appended) ⊎ ((c : ChainId) × (f : Floor) × (v ≡ Verdict.placed c f))
      → classify_placement x rest held p ≡ v
      → rest ≡ v
  unfolding classify_placement
  placement-rest rest v held p k h = ground arith

  -- A checkpoint that passes its own check is never simply appended, and is placed on a chain of
  -- its origin.
  checkpoint-verdict :
      (logs : Logs) (r : Register) (op : Op) (k : Checkpoint.Checkpoint) (v : Verdict)
      → Checkpoint.check x op ≡ ok k
      → (v ≡ Verdict.appended) ⊎ ((c : ChainId) × (f : Floor) × (v ≡ Verdict.placed c f))
      → classify_checkpoint x logs r op ≡ v
      → classify_base x
          (folded_chain k.stream op)
          k.floor
          (find? (at_seq k.floor.0) (held_of logs (folded_chain k.stream op)))
        ≡ v
  unfolding classify_checkpoint
  checkpoint-verdict logs r op k v e kind h =
      elim (Option-cases (get (folded_chain k.stream op) r)) [
        | inl none_held ↦ ground arith
        | inr ((held, at), found) ↦
            placement-rest _ v held (Checkpoint.place x op k.floor (some (held, at))) kind
              (ground arith)
      ]

  -- What a verdict of the home share that places a checkpoint says.
  home-placed :
      (logs : Logs) (r : Register) (op : Op) (c : ChainId) (f : Floor)
      → classify_home x logs r op ≡ Verdict.placed c f
      → (op.glade_id ≡ Directory.g_checkpoints) × (c.1 ≡ op.origin) × (c.0.0 ≡ Directory.home)
  unfolding classify_home
  home-placed logs r op c f h = elim (bytes_discrete op.glade_id Directory.g_checkpoints) [
    | no n ↦ absurd (elim (Option-cases (get (chain_of op) r)) [
      | inl e ↦ ground (arith, unfloored-ne-placed (held_of logs (chain_of op)) op c f)
      | inr ((k, floor), e) ↦
          ground (arith, floored-ne-placed k floor (held_of logs (chain_of op)) op c f)
    ])
    | yes y ↦ elim (Result-cases (Checkpoint.check x op)) [
      | inl (k, e) ↦
          let q = base-placed _ c k.floor f _ (
            checkpoint-verdict logs r op k (Verdict.placed c f) e (inr (c, f, refl))
              (ground arith)) in
          (y, ap (λ (c : ChainId). c.1) q, ap (λ (c : ChainId). c.0.0) q)
      | inr (why, e) ↦ absurd (unfold classify_checkpoint in ground arith)
    ]
  ]

  -- The verdict that places one is the home share's.
  pub verdict-placed :
      (s : Store) (op : Op) (c : ChainId) (f : Floor)
      → verdict_of x s op ≡ Verdict.placed c f
      → (op.share ≡ Directory.home)
        × (op.glade_id ≡ Directory.g_checkpoints)
        × (c.1 ≡ op.origin)
        × (c.0.0 ≡ Directory.home)
  unfolding verdict_of
  verdict-placed s op c f h = elim (bytes_discrete op.share Directory.home) [
    | yes e ↦ let (g, o, r) = home-placed s.logs s.register op c f (ground arith) in (e, g, o, r)
    | no n ↦ absurd (ground (arith, classify-ne-placed (held_of s.logs (chain_of op)) op c f))
  ]

  unfloored-IsChain :
      (ops : List Op) (op : Op)
      → IsChain x ops
      → InI64 op.seq
      → classify_unfloored x ops op ≡ Verdict.appended
      → IsChain x (ops ++ op ∷ [])
  unfolding classify_unfloored
  unfloored-IsChain [] op c r h = tt
  unfloored-IsChain (o ∷ ops) op c r h = classify-IsChain x (o ∷ ops) op c r h

  above-IsChain :
      (floor : Floor) (ops : List Op) (op : Op)
      → IsChain x ops
      → InI64 op.seq
      → classify_above x floor ops op ≡ Verdict.appended
      → IsChain x (ops ++ op ∷ [])
  unfolding classify_above
  above-IsChain floor [] op c r h = tt
  above-IsChain floor (o ∷ ops) op c r h = classify-IsChain x (o ∷ ops) op c r h

  floored-appended :
      (k : Op) (floor : Floor) (ops : List Op) (op : Op)
      → classify_floored x k floor ops op ≡ Verdict.appended
      → classify_above x floor ops op ≡ Verdict.appended
  unfolding classify_floored
  floored-appended k floor ops op h = ground arith

  home-IsChain :
      (logs : Logs) (r : Register) (op : Op)
      → IsChain x (held_of logs (chain_of op))
      → InI64 op.seq
      → op.glade_id ≢ Directory.g_checkpoints
      → classify_home x logs r op ≡ Verdict.appended
      → IsChain x (held_of logs (chain_of op) ++ op ∷ [])
  unfolding classify_home
  home-IsChain logs r op c range n h = elim (Option-cases (get (chain_of op) r)) [
    | inl e ↦ unfloored-IsChain _ op c range (ground arith)
    | inr ((k, floor), e) ↦
        above-IsChain floor _ op c range
          (floored-appended k floor (held_of logs (chain_of op)) op (ground arith))
  ]

  checkpoint-ne-appended :
      (logs : Logs) (r : Register) (op : Op) (k : Checkpoint.Checkpoint)
      → Checkpoint.check x op ≡ ok k
      → classify_checkpoint x logs r op ≢ Verdict.appended
  checkpoint-ne-appended logs r op k e h =
      base-ne-appended _ k.floor _ (checkpoint-verdict logs r op k Verdict.appended e (inl refl) h)

  -- An op that is appended extends its chain, and is no checkpoint that passes its check.
  pub verdict-appended :
      (s : Store) (op : Op)
      → IsChain x (held_of s.logs (chain_of op))
      → InI64 op.seq
      → verdict_of x s op ≡ Verdict.appended
      → (op.share ≡ Directory.home → op.glade_id ≢ Directory.g_checkpoints)
      → IsChain x (held_of s.logs (chain_of op) ++ op ∷ [])
  unfolding verdict_of
  verdict-appended s op c range h n = elim (bytes_discrete op.share Directory.home) [
    | yes e ↦ home-IsChain s.logs s.register op c range (n e) (ground arith)
    | no d ↦ classify-IsChain x _ op c range (ground arith)
  ]

  -- No home op that verifies is simply appended on the stream of the checkpoints.
  pub verdict-ne-appended :
      (s : Store) (op : Op) (k : Checkpoint.Checkpoint)
      → op.share ≡ Directory.home
      → op.glade_id ≡ Directory.g_checkpoints
      → Checkpoint.check x op ≡ ok k
      → verdict_of x s op ≢ Verdict.appended
  unfolding verdict_of classify_home
  verdict-ne-appended s op k e g c h =
      checkpoint-ne-appended s.logs s.register op k c (ground arith)
