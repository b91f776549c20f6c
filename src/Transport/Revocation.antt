-- ===== src/Transport/Revocation.antt =====
-- Where a pair stands, of the records that were folded (node/src/transport.rs).
use glade.Prelude.{
  ℤ, pos, ◌≡◌, refl, ap, ◌∙◌, Bool, true, false, ◌||◌, Option, none, some, List, [], ◌∷◌, arith,
  ◌==◌, bytes_eq, if◌then◌else◌, ltb_ℤ, leb_ℤ, any, Bytes, eq_of_parts,
}
use glade.Prelude.BTreeMap.{get, get-insert_self, get-insert_ne}
use glade.Prelude.Order.{bytes_ord, pair_ord, dec_pair}
use glade.External.{External}
use glade.Directory
use glade.Wire.{Op}
use glade.Transport.{Pair, Bound, TransportFold, no_records, proven, note_proven, note, over, binds}

-- What an op on a transport stream proves, and nothing of an op on another.
unfoldable pub record_of : External → Op → Option (Pair × Option ℤ)
record_of x op =
    if op.glade_id == Directory.g_transport_bindings
      || op.glade_id == Directory.g_transport_revocations
    then proven x op
    else none

abbrev pub earlier : Option ℤ → Option ℤ → Option ℤ
earlier none b = b
earlier (some a) none = some a
earlier (some a) (some b) = if ltb_ℤ a b then some a else some b

abbrev pub revokes_pair : Pair → Option (Pair × Option ℤ) → Bool
revokes_pair pair none = false
revokes_pair pair (some (p, some at)) = false
revokes_pair pair (some (p, none)) = elim (dec_pair p pair) [ yes _ ↦ true | no _ ↦ false ]

abbrev pub binds_from : Pair → Option (Pair × Option ℤ) → Option ℤ
binds_from pair none = none
binds_from pair (some (p, none)) = none
binds_from pair (some (p, some at)) = elim (dec_pair p pair) [ yes _ ↦ some at | no _ ↦ none ]

unfoldable pub earliest : External → Pair → List Op → Option ℤ
earliest x pair [] = none
earliest x pair (op ∷ ops) = earlier (binds_from pair (record_of x op)) (earliest x pair ops)

unfoldable is_revoked : TransportFold → Pair → Bool
is_revoked fold pair = elim (get pair fold.revocations) [ none ↦ false | some u ↦ true ]

earlier_assoc : (a b c : Option ℤ) → earlier b (earlier a c) ≡ earlier (earlier a b) c
earlier_assoc none b c = refl
earlier_assoc (some a) none c = refl
earlier_assoc (some a) (some b) none = ground (arith, eq_of_parts a b)
earlier_assoc (some a) (some b) (some c) =
    ground (arith, eq_of_parts a b, eq_of_parts b c, eq_of_parts a c)

module _ (x : External) (pair : Pair) where
  note_proven-revoked :
      (r : Option (Pair × Option ℤ)) (fold : TransportFold)
      → is_revoked (note_proven x r fold) pair ≡ (revokes_pair pair r || is_revoked fold pair)
  unfolding note_proven is_revoked
  note_proven-revoked none fold = refl
  note_proven-revoked (some (p, some at)) fold = refl
  note_proven-revoked (some (p, none)) fold = elim (dec_pair p pair) [
    | yes e ↦ ground (arith, get-insert_self p tt fold.revocations)
    | no n ↦ ground (arith, get-insert_ne p pair tt fold.revocations n)
  ]

  note_proven-bindings :
      (r : Option (Pair × Option ℤ)) (fold : TransportFold)
      → get pair (note_proven x r fold).bindings
        ≡ earlier (binds_from pair r) (get pair fold.bindings)
  unfolding note_proven
  note_proven-bindings none fold = refl
  note_proven-bindings (some (p, none)) fold = refl
  note_proven-bindings (some (p, some at)) fold = elim (dec_pair p pair) [
    | yes e ↦
        ground (arith, get-insert_self p (held at) fold.bindings, ap (λ p. get p fold.bindings) e)
    | no n ↦ ground (arith, get-insert_ne p pair (held at) fold.bindings n)
  ]
    where
      held : ℤ → ℤ
      held at = elim (get p fold.bindings) [
        | none ↦ at
        | some earliest ↦ if ltb_ℤ at earliest then at else earliest
      ]

  note-revoked :
      (op : Op) (fold : TransportFold)
      → is_revoked (note x op fold) pair
        ≡ (revokes_pair pair (record_of x op) || is_revoked fold pair)
  unfolding note record_of
  note-revoked op fold = ground (arith, note_proven-revoked (proven x op) fold)

  note-bindings :
      (op : Op) (fold : TransportFold)
      → get pair (note x op fold).bindings
        ≡ earlier (binds_from pair (record_of x op)) (get pair fold.bindings)
  unfolding note record_of
  note-bindings op fold = ground (arith, note_proven-bindings (proven x op) fold)

  over-revoked :
      (ops : List Op) (fold : TransportFold)
      → is_revoked (over x ops fold) pair
        ≡ (any (λ op. revokes_pair pair (record_of x op)) ops || is_revoked fold pair)
  unfolding over
  over-revoked [] fold = refl
  over-revoked (op ∷ ops) fold =
      ground (arith, over-revoked ops (note x op fold), note-revoked op fold)

  over-bindings :
      (ops : List Op) (fold : TransportFold)
      → get pair (over x ops fold).bindings ≡ earlier (earliest x pair ops) (get pair fold.bindings)
  unfolding over earliest
  over-bindings [] fold = refl
  over-bindings (op ∷ ops) fold =
      over-bindings ops (note x op fold)
      ∙ ap (earlier (earliest x pair ops)) (note-bindings op fold)
      ∙ earlier_assoc (binds_from pair (record_of x op)) (earliest x pair ops)
          (get pair fold.bindings)

-- Where the records themselves say a pair stands.
abbrev pub stands : Bool → Option ℤ → ℤ → Bound
stands gone from now =
    if gone
    then Bound.revoked
    else if leb_ℤ now (pos 0)
    then Bound.clock_uncertain
    else (elim from [
      | none ↦ Bound.unbound
      | some at ↦ if leb_ℤ at now then Bound.live else Bound.not_yet at
    ])

binds-stands :
    (fold : TransportFold) (node endpoint : Bytes) (now : ℤ)
    → binds fold node endpoint now
      ≡ stands (is_revoked fold (endpoint, node)) (get (endpoint, node) fold.bindings) now
unfolding binds is_revoked
binds-stands fold node endpoint now = ground arith

no_revocations : (pair : Pair) → is_revoked no_records pair ≡ false
unfolding is_revoked get
no_revocations pair = refl

no_bindings : (pair : Pair) → get pair no_records.bindings ≡ none
unfolding get
no_bindings pair = refl

earlier-none : (a : Option ℤ) → earlier a none ≡ a
earlier-none none = refl
earlier-none (some a) = refl

-- A fold of the transport records answers what the records decide: a pair that any record proves
-- revoked is revoked, whatever was bound and in whichever order and at any clock; then an
-- unreadable clock decides; and then the earliest date among the bindings that are proved of the
-- pair.
pub binds-over :
    (x : External) (ops : List Op) (node endpoint : Bytes) (now : ℤ)
    → binds (over x ops no_records) node endpoint now
      ≡ stands
          (any (λ op. revokes_pair (endpoint, node) (record_of x op)) ops)
          (earliest x (endpoint, node) ops)
          now
binds-over x ops node endpoint now =
    let pair : Pair = (endpoint, node) in
    binds-stands (over x ops no_records) node endpoint now
    ∙ ap (λ b. stands b (get pair (over x ops no_records).bindings) now)
        (over-revoked x pair ops no_records ∙ ground (arith, no_revocations pair))
    ∙ ap (λ o. stands (any (λ op. revokes_pair pair (record_of x op)) ops) o now)
        (over-bindings x pair ops no_records
          ∙ ap (earlier (earliest x pair ops)) (no_bindings pair)
          ∙ earlier-none (earliest x pair ops))
