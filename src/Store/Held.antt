-- ===== src/Store/Held.antt =====
-- The log of a chain under an insert.
use glade.Prelude.{◌≡◌, ◌≢◌, arith, subst, sym, none, some, List, []}
use glade.Prelude.BTreeMap.{get, insert, get-insert_self, get-insert_ne}
use glade.Prelude.Order.{bytes_ord, pair_ord, dec_pair}
use glade.Wire.{Op, ChainId}
use glade.Store.Types.{Logs}
use glade.Store.Classify.{held_of}

pub held_of-insert_self :
    (m : Logs) (k : ChainId) (ops : List Op) → held_of (insert k ops m) k ≡ ops
unfolding held_of
held_of-insert_self m k ops = ground (arith, get-insert_self k ops m)

pub held_of-insert_ne :
    (m : Logs) (k c : ChainId) (ops : List Op) → k ≢ c → held_of (insert k ops m) c ≡ held_of m c
unfolding held_of
held_of-insert_ne m k c ops h = ground (arith, get-insert_ne k c ops m h)

-- A predicate on every chain's log, under an insert.
pub held_of-insert {ℓ} :
    (P : ChainId → List Op → Type ℓ) (m : Logs) (k : ChainId) (ops : List Op)
    → P k ops
    → ((c : ChainId) → P c (held_of m c))
    → (c : ChainId) → P c (held_of (insert k ops m) c)
held_of-insert P m k ops p h c = elim (dec_pair k c) [
  | yes e ↦
      subst (λ c. P c (held_of (insert k ops m) c)) e
        (subst (P k) (sym (held_of-insert_self m k ops)) p)
  | no n ↦ subst (P c) (sym (held_of-insert_ne m k c ops n)) (h c)
]

pub held_of-some : (m : Logs) (c : ChainId) (ops : List Op) → get c m ≡ some ops → held_of m c ≡ ops
unfolding held_of
held_of-some m c ops h = ground arith

pub held_of-none : (m : Logs) (c : ChainId) → get c m ≡ none → held_of m c ≡ []
unfolding held_of
held_of-none m c h = ground arith
