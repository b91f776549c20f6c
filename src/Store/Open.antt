-- ===== src/Store/Open.antt =====
-- The replay of the applications' journals when a store is opened (`Store::open` of
-- node/src/store.rs): each op goes back to the chain that its own fields name.
use glade.Prelude.{◌≡◌, Bool, true, false, List, [], ◌∷◌, ◌++◌, arith, bytes_eq, keep}
use mathlib.Core.List.{append-nil, append_assoc}
use glade.Prelude.BTreeMap.{}
use glade.Prelude.Order.{bytes_ord, pair_ord, dec_pair}
use glade.Wire.{Op, ChainId, chain_of}
use glade.Store.Types.{Logs}
use glade.Store.Classify.{held_of}
use glade.Store.Append.{push}
use glade.Store.Held.{held_of-insert_self, held_of-insert_ne}

unfoldable pub regroup : List Op → Logs → Logs
regroup [] logs = logs
regroup (op ∷ ops) logs = regroup ops (push op logs)

unfoldable pub on_chain : ChainId → Op → Bool
on_chain c op = elim (dec_pair (chain_of op) c) [ yes _ ↦ true | no _ ↦ false ]

pub held_of-push :
    (op : Op) (logs : Logs) (c : ChainId)
    → held_of (push op logs) c ≡ held_of logs c ++ keep (on_chain c) (op ∷ [])
unfolding push on_chain
held_of-push op logs c = elim (dec_pair (chain_of op) c) [
  | yes e ↦
      ground (arith, held_of-insert_self logs (chain_of op) (held_of logs (chain_of op) ++ op ∷ []))
  | no n ↦ ground (
    arith,
    held_of-insert_ne logs (chain_of op) c (held_of logs (chain_of op) ++ op ∷ []) n,
    append-nil (held_of logs c),
  )
]

pub keep_cons :
    (p : Op → Bool) (op : Op) (ops : List Op) → keep p (op ∷ ops) ≡ keep p (op ∷ []) ++ keep p ops
keep_cons p op ops = ground arith

-- A replay gives each chain the ops of the file that are its own, in the file's order.
pub held_of-regroup :
    (ops : List Op) (logs : Logs) (c : ChainId)
    → held_of (regroup ops logs) c ≡ held_of logs c ++ keep (on_chain c) ops
unfolding regroup
held_of-regroup [] logs c = ground (arith, append-nil (held_of logs c))
held_of-regroup (op ∷ ops) logs c =
    rw (held_of-regroup ops (push op logs) c, held_of-push op logs c, keep_cons (on_chain c) op ops)
      (append_assoc (held_of logs c) (keep (on_chain c) (op ∷ [])) (keep (on_chain c) ops))
