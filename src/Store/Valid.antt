-- ===== src/Store/Valid.antt =====
-- What is true of every store: each log holds its own chain's ops, in range; every chain but a
-- register's is contiguous and hash-linked; the register holds checkpoints of its own chains.
use glade.Prelude.{◌≡◌, ◌≢◌, refl, List, [], ◌∷◌, arith, Text, bytes_eq, int_eq, InI64, All}
use glade.Prelude.BTreeMap.{IsSorted}
use glade.Prelude.Order.{bytes_ord, pair_ord}
use glade.External.{External}
use glade.Directory
use glade.Checkpoint.{Floor}
use glade.Wire.{Op, ChainId, chain_of}
use glade.Store.Types.{Register, Store}
use glade.Store.Classify.{held_of}
use glade.Store.Append.{insert_by_seq, sort_by_seq, checkpoints_of}
use glade.Store.Chains.{IsChain, InRange}

-- The chain of an origin that its checkpoints are kept on.
abbrev pub register_chain : Text → ChainId
register_chain origin = ((Directory.home, (Directory.g_checkpoints, [])), origin)

abbrev pub IsRegister : ChainId → Type 0
IsRegister c = (c.0.0 ≡ Directory.home) × (c.0.1.0 ≡ Directory.g_checkpoints)

pub chain_not-IsRegister :
    (op : Op)
    → (op.share ≡ Directory.home → op.glade_id ≢ Directory.g_checkpoints)
    → ¬ IsRegister (chain_of op)
unfolding chain_of
chain_not-IsRegister op h r = h r.0 r.1

module _ (x : External) where
  -- A log that its chain may hold.
  pub record IsLog (c : ChainId) (ops : List Op) : Type 0 where
    pub keyed : All (λ o. chain_of o ≡ c) ops
    pub in_range : InRange ops
    pub chained : ¬ IsRegister c → IsChain x ops

  abbrev pub Registered : ChainId × (Op × Floor) → Type 0
  Registered (folded, (op, floor)) = (chain_of op ≡ register_chain folded.1) × InI64 op.seq

  pub record IsValid (s : Store) : Type 0 where
    pub logs : (c : ChainId) → IsLog c (held_of s.logs c)
    pub register : All Registered s.register
    pub sorted : IsSorted s.logs

  pub empty-IsLog : (c : ChainId) → IsLog c []
  empty-IsLog c = record { keyed = tt; in_range = tt; chained = λ _. tt }

  -- The newest checkpoints of an origin are a log of its register's chain.
  abbrev pub Newest : Text → List Op → Type 0
  Newest origin = All (λ o. (chain_of o ≡ register_chain origin) × InI64 o.seq)

  pub checkpoints_of-Newest :
      (origin : Text) (r : Register) → All Registered r → Newest origin (checkpoints_of origin r)
  unfolding checkpoints_of
  checkpoints_of-Newest origin [] h = tt
  checkpoints_of-Newest origin ((chain, (op, floor)) ∷ r) h =
      ground (arith, checkpoints_of-Newest origin r h.1)

  insert_by_seq-Newest :
      (origin : Text) (op : Op) (ops : List Op)
      → (chain_of op ≡ register_chain origin) × InI64 op.seq
      → Newest origin ops
      → Newest origin (insert_by_seq op ops)
  unfolding insert_by_seq
  insert_by_seq-Newest origin op [] p h = (p, tt)
  insert_by_seq-Newest origin op (o ∷ ops) p h =
      ground (arith, insert_by_seq-Newest origin op ops p h.1)

  pub sort_by_seq-Newest :
      (origin : Text) (sorted ops : List Op)
      → Newest origin sorted
      → Newest origin ops
      → Newest origin (sort_by_seq sorted ops)
  unfolding sort_by_seq
  sort_by_seq-Newest origin sorted [] s h = s
  sort_by_seq-Newest origin sorted (o ∷ ops) s h =
      sort_by_seq-Newest origin (insert_by_seq o sorted) ops
        (insert_by_seq-Newest origin o sorted h.0 s) h.1

  pub Newest-IsLog :
      (origin : Text) (ops : List Op) → Newest origin ops → IsLog (register_chain origin) ops
  Newest-IsLog origin ops h = record {
    keyed = firsts ops h;
    in_range = seconds ops h;
    chained = λ n. absurd (n (refl, refl));
  }
    where
      firsts :
          (ops : List Op) → Newest origin ops → All (λ o. chain_of o ≡ register_chain origin) ops
      firsts [] h = tt
      firsts (o ∷ ops) h = (h.0.0, firsts ops h.1)

      seconds : (ops : List Op) → Newest origin ops → InRange ops
      seconds [] h = tt
      seconds (o ∷ ops) h = (h.0.1, seconds ops h.1)
