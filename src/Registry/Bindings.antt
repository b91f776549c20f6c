-- ===== src/Registry/Bindings.antt =====
-- The fold of the binding declarations and their retractions (`BindingFold` of node/src/registry.rs).
use glade.Prelude.{
  ℤ, Bool, true, false, not, ◌&&◌, ◌||◌, Option, none, some, List, [], ◌∷◌, Text, Bytes, ◌==◌,
  bytes_eq, int_eq, if◌then◌else◌, ltb_ℤ, ok, err,
}
use glade.Prelude.BTreeMap.{BTreeMap, get, insert}
use glade.Prelude.Order.{bytes_ord, pair_ord, lt_bytes}
use glade.External.{External}
use glade.Directory
use glade.Envelope.Record.{record_bytes}
use glade.SystemData.{BindingDecl, binding_from_cbor, retraction_from_cbor}
use glade.Wire.{Op}
use glade.Registry.{Registry}
use glade.Registry.Folds.{record_of}

pub record Stamp : Type 0 where
  pub lamport : ℤ
  pub origin : Text
  pub retraction : Bool
  pub seq : ℤ

-- `b` is after `a`: the first field that differs decides, a retraction after a declaration.
unfoldable pub stamp_lt : Stamp → Stamp → Bool
stamp_lt a b =
    ltb_ℤ a.lamport b.lamport
    || (a.lamport == b.lamport
        && (lt_bytes a.origin b.origin
            || (a.origin == b.origin
                && ((not a.retraction && b.retraction)
                    || ((a.retraction && b.retraction || not a.retraction && not b.retraction)
                        && ltb_ℤ a.seq b.seq)))))

abbrev pub Declaration : Type 0
Declaration = BindingDecl × Bytes

-- A declaration with its record's bytes, or none for a retraction.
pub record Newest : Type 0 where
  pub stamp : Stamp
  pub decl : Option Declaration

abbrev pub Origins : Type 0
Origins = BTreeMap Text Newest

-- An application and a glade id.
abbrev pub AppId : Type 0
AppId = Text × Text

abbrev pub BindingFold : Type 0
BindingFold = BTreeMap AppId Origins

unfoldable pub is_retraction : Option Declaration → Bool
is_retraction none = true
is_retraction (some d) = false

unfoldable pub stamp_of : Op → Option Declaration → Stamp
unfolding is_retraction
stamp_of op decl = record {
  lamport = op.lamport;
  origin = op.origin;
  retraction = is_retraction decl;
  seq = op.seq;
}

abbrev pub newest_of_op : Op → Option Declaration → Newest
newest_of_op op decl = record { stamp = stamp_of op decl; decl = decl }

-- A candidate takes a slot that is empty, or whose stamp it is after.
unfoldable pub newer : Option Newest → Newest → Newest
newer none candidate = candidate
newer (some held) candidate = if stamp_lt held.stamp candidate.stamp then candidate else held

unfoldable pub origins_of : AppId → BindingFold → Origins
origins_of pair fold = elim (get pair fold) [ none ↦ [] | some origins ↦ origins ]

module _ (x : External) where
  -- The pair that an op of the binding family is about, and what it declares.
  unfoldable pub binding_op : Op → Option (AppId × Option Declaration)
  binding_op op =
      if op.glade_id == Directory.g_bindings
      then (elim (record_of x binding_from_cbor op) [
        | err why ↦ none
        | ok b ↦ some ((b.app, b.glade_id), some (b, record_bytes x op.payload))
      ])
      else if op.glade_id == Directory.g_binding_retractions
      then (elim (record_of x retraction_from_cbor op) [
        | err why ↦ none
        | ok r ↦ some ((r.app, r.glade_id), none)
      ])
      else none

  unfoldable pub note_binding : Op → Option (AppId × Option Declaration) → BindingFold → BindingFold
  unfolding newer origins_of stamp_of
  note_binding op none fold = fold
  note_binding op (some (pair, decl)) fold =
      let origins = origins_of pair fold in
      insert pair (insert op.origin (newer (get op.origin origins) (newest_of_op op decl)) origins)
        fold

  unfoldable pub bindings_over : List Op → BindingFold → BindingFold
  unfolding binding_op note_binding
  bindings_over [] fold = fold
  bindings_over (op ∷ ops) fold = bindings_over ops (note_binding op (binding_op op) fold)

-- The last of the highest declarations that the newest records of the origins make.
unfoldable pub standing_from : Option (Stamp × Declaration) → Origins → Option (Stamp × Declaration)
standing_from top [] = top
standing_from top ((origin, n) ∷ origins) =
    standing_from
      (elim n.decl [
        | none ↦ top
        | some d ↦ elim top [
          | none ↦ some (n.stamp, d)
          | some (stamp, e) ↦ if stamp_lt n.stamp stamp then some (stamp, e) else some (n.stamp, d)
        ]
      ])
      origins

unfoldable pub standing : Origins → Option (Stamp × Declaration)
unfolding standing_from
standing origins = standing_from none origins

unfoldable pub better : Option (Stamp × BindingDecl) → Stamp → Bool
better none stamp = true
better (some (top, d)) stamp = stamp_lt top stamp

unfoldable pub live_by_id :
    BindingFold → BTreeMap Text (Stamp × BindingDecl) → BTreeMap Text (Stamp × BindingDecl)
unfolding standing better
live_by_id [] by_id = by_id
live_by_id (((app, id), origins) ∷ fold) by_id = live_by_id fold (elim (standing origins) [
  | none ↦ by_id
  | some (stamp, (decl, bytes)) ↦
      if better (get id by_id) stamp then insert id (stamp, decl) by_id else by_id
])

unfoldable pub decls : BTreeMap Text (Stamp × BindingDecl) → List BindingDecl
decls [] = []
decls ((id, (stamp, decl)) ∷ by_id) = decl ∷ decls by_id

-- Per glade id the highest declaration that stands across the applications.
unfoldable pub live_bindings : BindingFold → List BindingDecl
unfolding live_by_id decls
live_bindings fold = decls (live_by_id fold [])

unfoldable pub declared_by : Text → BindingFold → BTreeMap Text Bytes
unfolding standing
declared_by app [] = []
declared_by app (((a, id), origins) ∷ fold) =
    let rest = declared_by app fold in
    if a == app
    then (elim (standing origins) [
      | none ↦ rest
      | some (stamp, (decl, bytes)) ↦ insert id bytes rest
    ])
    else rest

unfoldable pub retracted : BindingFold → List AppId
unfolding standing
retracted [] = []
retracted ((pair, origins) ∷ fold) =
    let rest = retracted fold in elim (standing origins) [ none ↦ pair ∷ rest | some s ↦ rest ]

unfoldable pub bindings_of : External → Registry → List BindingDecl
unfolding bindings_over live_bindings
bindings_of x r = live_bindings (bindings_over x r.ops [])
