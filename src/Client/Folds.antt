-- ===== src/Client/Folds.antt =====
-- The folds over what a session has seen (client-rs/src/session.rs).
use glade.Prelude.{
  Bool, ◌&&◌, ◌||◌, Option, none, some, List, [], ◌∷◌, ◌++◌, map, Text, Bytes, ◌==◌, bytes_eq,
  int_eq, if◌then◌else◌, ltb_ℤ, keep, any, codes,
}
use glade.Prelude.Order.{bytes_ord, lt_bytes}
use glade.Wire
use glade.Wire.{Op, Shape, Zone, shape_eq}
use glade.Client.{Session, ops_for}

-- The shape that a name asks for; exchanges and streams are no shapes of ops.
unfoldable pub shape_of : Text → Option Shape
shape_of name =
    if name == codes "value"
    then some Wire.value
    else if name == codes "log"
    then some Wire.log
    else if name == codes "swmr"
    then some Wire.swmr
    else if name == codes "crdt"
    then some Wire.crdt
    else none

abbrev pub same_slot : Op → Op → Bool
same_slot a b = a.origin == b.origin && a.seq == b.seq

-- The first op seen of each origin and seq.
unfoldable pub dedup_from : List Op → List Op → List Op
dedup_from seen [] = seen
dedup_from seen (op ∷ ops) =
    if any (λ o. same_slot o op) seen then dedup_from seen ops else dedup_from (seen ++ op ∷ []) ops

unfoldable pub first_seen : List Op → List Op
first_seen ops = dedup_from [] ops

-- The order in which a `HashMap` gives its values, which the code reads: any order at all.
abbrev pub HashOrder : Type 0
HashOrder = List Op → List Op

unfoldable pub dedup : HashOrder → List Op → List Op
dedup into_values ops = into_values (first_seen ops)

-- Whether an op is later than another, by the clock and then by the origin.
unfoldable pub later : Op → Op → Bool
later o w = ltb_ℤ w.lamport o.lamport || (o.lamport == w.lamport && lt_bytes w.origin o.origin)

unfoldable pub winner : Option Op → List Op → Option Op
winner win [] = win
winner none (o ∷ ops) = winner (some o) ops
winner (some w) (o ∷ ops) = winner (some (if later o w then o else w)) ops

unfoldable pub fold_value : HashOrder → List Op → Option Bytes
fold_value into_values ops =
    elim (winner none (dedup into_values (keep (λ o. o.shape == Wire.value) ops))) [
      | none ↦ none
      | some op ↦ some op.payload
    ]

-- The order of the log fold: by the clock, then the origin, then the seq.
unfoldable pub comes_before : Op → Op → Bool
comes_before a b =
    ltb_ℤ a.lamport b.lamport
    || (a.lamport == b.lamport
        && (lt_bytes a.origin b.origin || (a.origin == b.origin && ltb_ℤ a.seq b.seq)))

-- A stable insertion: after every op that does not come after it.
unfoldable pub insert_op : Op → List Op → List Op
insert_op op [] = op ∷ []
insert_op op (o ∷ ops) =
    let rest = insert_op op ops in if comes_before op o then op ∷ o ∷ ops else o ∷ rest

unfoldable pub sort_ops : List Op → List Op → List Op
sort_ops sorted [] = sorted
sort_ops sorted (op ∷ ops) = sort_ops (insert_op op sorted) ops

unfoldable pub fold_log : HashOrder → List Op → List Bytes
fold_log into_values ops =
    map (λ o. o.payload) (sort_ops [] (dedup into_values (keep (λ o. o.shape == Wire.log) ops)))

unfoldable pub session_value : HashOrder → Session → Zone → Option Bytes
session_value into_values s z = fold_value into_values (ops_for s.logs z)

unfoldable pub session_log : HashOrder → Session → Zone → List Bytes
session_log into_values s z = fold_log into_values (ops_for s.logs z)
