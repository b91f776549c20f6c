-- ===== src/Registry/Standing.antt =====
-- What the binding fold holds of each origin (`BindingFold::over` of node/src/registry.rs).
use glade.Prelude.{
  ◌≡◌, ◌⊎◌, inl, inr, refl, sym, ◌∙◌, Bool, true, false, Option, none, some, List, [], ◌∷◌, arith,
  Text, ◌==◌, bytes_eq, int_eq, bytes_discrete, if◌then◌else◌, any, All, Bool-cases, Option-cases,
  maybe_bytes_eq,
}
use glade.Prelude.BTreeMap.{get, insert, get-insert_self, get-insert_ne}
use glade.Prelude.Order.{bytes_ord, pair_ord, dec_pair}
use glade.External.{External}
use glade.Wire.{Op}
use glade.Registry.Bindings.{
  Newest, AppId, BindingFold, stamp_lt, stamp_of, newest_of_op, newer, origins_of, binding_op,
  note_binding, bindings_over,
}
use glade.Registry.Stamps.{newest_eq, stamp_lt_self, stamp_lt_chain, stamp_lt_flip}

-- What one origin's newest record of a pair is, in a fold.
unfoldable pub newest_in : AppId → Text → BindingFold → Option Newest
newest_in pair origin fold = get origin (origins_of pair fold)

module _ (x : External) (pair : AppId) (origin : Text) where
  -- The record that an op of the origin makes of the pair.
  unfoldable pub about : Op → Option Newest
  about op = elim (binding_op x op) [
    | none ↦ none
    | some (p, decl) ↦ elim (dec_pair p pair) [
      | no n ↦ none
      | yes e ↦ if op.origin == origin then some (newest_of_op op decl) else none
    ]
  ]

  unfoldable after_note : Option Newest → Option Newest → Option Newest
  after_note held none = held
  after_note held (some m) = some (newer held m)

  note-newest_in :
      (op : Op) (fold : BindingFold)
      → newest_in pair origin (note_binding x op (binding_op x op) fold)
        ≡ after_note (newest_in pair origin fold) (about op)
  unfolding note_binding newest_in about after_note origins_of
  note-newest_in op fold = elim (Option-cases (binding_op x op)) [
    | inl e ↦ ground (arith, e)
    | inr ((p, decl), e) ↦
        let held = origins_of p fold in
        let m = newer (get op.origin held) (newest_of_op op decl) in
        let grown = insert op.origin m held in
        elim (dec_pair p pair) [
          | no n ↦ ground (arith, e, n, get-insert_ne p pair grown fold n)
          | yes q ↦ elim (bytes_discrete op.origin origin) [
            | yes o ↦
                ground
                  (arith, e, q, o, get-insert_self p grown fold, get-insert_self op.origin m held)
            | no o ↦ ground (
              arith,
              e,
              q,
              o,
              get-insert_self p grown fold,
              get-insert_ne op.origin origin m held o,
            )
          ]
        ]
  ]

  -- A record of the pair is the origin's own.
  about-origin : (op : Op) (m : Newest) → about op ≡ some m → m.stamp.origin ≡ origin
  unfolding about stamp_of
  about-origin op m h = ground (arith, h)

  abbrev IsOwn : Option Newest → Type 0
  IsOwn none = Unit
  IsOwn (some n) = n.stamp.origin ≡ origin

  -- No record of the pair that the ops make is after the one given.
  abbrev pub IsNewest : Newest → List Op → Type 0
  IsNewest n = All (λ o. (m : Newest) → about o ≡ some m → stamp_lt n.stamp m.stamp ≡ false)

  -- Some op makes the record given.
  abbrev pub makes : Newest → Op → Bool
  makes n o = elim (about o) [ none ↦ false | some m ↦ m == n ]

  -- What a fold that has started at a record ends at.
  record Ends (ops : List Op) (result : Option Newest) (s : Newest) : Type 0 where
    n : Newest
    is : result ≡ some n
    below : stamp_lt n.stamp s.stamp ≡ false
    own : n.stamp.origin ≡ origin
    made : (n ≡ s) ⊎ (any (makes n) ops ≡ true)
    top : IsNewest n ops

  module _ (op : Op) (ops : List Op) (result : Option Newest) (s : Newest) where
    later-made :
        (t n : Newest)
        → (n ≡ t) ⊎ (any (makes n) ops ≡ true)
        → (n ≡ t) ⊎ (any (makes n) (op ∷ ops) ≡ true)
    later-made t n (inl e) = inl e
    later-made t n (inr m) = inr (ground (arith, m))

    here-made :
        (t n : Newest)
        → about op ≡ some t
        → (n ≡ t) ⊎ (any (makes n) ops ≡ true)
        → any (makes n) (op ∷ ops) ≡ true
    here-made t n e (inl q) = ground (arith, e, q)
    here-made t n e (inr m) = ground (arith, m)

    skips : about op ≡ none → Ends ops result s → Ends (op ∷ ops) result s
    skips e h = record {
      n = h.n;
      is = h.is;
      below = h.below;
      own = h.own;
      made = later-made s h.n h.made;
      top = (λ m g. absurd (cc (g, e)), h.top);
    }

    keeps :
        (c : Newest)
        → about op ≡ some c
        → s.stamp.origin ≡ origin
        → stamp_lt s.stamp c.stamp ≡ false
        → Ends ops result s
        → Ends (op ∷ ops) result s
    keeps c e o l h = record {
      n = h.n;
      is = h.is;
      below = h.below;
      own = h.own;
      made = later-made s h.n h.made;
      top = (
        λ m g.
            stamp_lt_chain h.n.stamp s.stamp m.stamp (h.own ∙ sym o) (o ∙ sym (about-origin op m g))
              h.below (ground (arith, e, g, l)),
        h.top,
      );
    }

    takes :
        (c : Newest)
        → about op ≡ some c
        → s.stamp.origin ≡ origin
        → stamp_lt s.stamp c.stamp ≡ true
        → Ends ops result c
        → Ends (op ∷ ops) result s
    takes c e o l h = record {
      n = h.n;
      is = h.is;
      below =
          stamp_lt_chain h.n.stamp c.stamp s.stamp (h.own ∙ sym same) (same ∙ sym o) h.below
            (stamp_lt_flip s.stamp c.stamp (o ∙ sym same) l);
      own = h.own;
      made = inr (here-made c h.n e h.made);
      top = (λ m g. ground (arith, e, g, h.below), h.top);
    }
      where
        same : c.stamp.origin ≡ origin
        same = about-origin op c e

  over-from :
      (ops : List Op) (fold : BindingFold) (s : Newest)
      → newest_in pair origin fold ≡ some s
      → s.stamp.origin ≡ origin
      → Ends ops (newest_in pair origin (bindings_over x ops fold)) s
  unfolding bindings_over after_note newer
  over-from [] fold s h o = record {
    n = s;
    is = h;
    below = stamp_lt_self s.stamp;
    own = o;
    made = inl refl;
    top = tt;
  }
  over-from (op ∷ ops) fold s h o =
      let after = note_binding x op (binding_op x op) fold in
      elim (Option-cases (about op)) [
        | inl e ↦
            skips op ops _ s e
              (over-from ops after s (ground (arith, note-newest_in op fold, h, e)) o)
        | inr (c, e) ↦ elim (Bool-cases (stamp_lt s.stamp c.stamp)) [
          | inl l ↦ takes op ops _ s c e o l (
              over-from ops after c (ground (arith, note-newest_in op fold, h, e, l))
                (about-origin op c e))
          | inr l ↦
              keeps op ops _ s c e o l
                (over-from ops after s (ground (arith, note-newest_in op fold, h, e, l)) o)
        ]
      ]

  abbrev pub Holding : List Op → Option Newest → Type 0
  Holding ops result =
      ((result ≡ none) × All (λ o. about o ≡ none) ops)
      ⊎ ((n : Newest) × (result ≡ some n) × (any (makes n) ops ≡ true) × IsNewest n ops)

  over-none :
      (ops : List Op) (fold : BindingFold)
      → newest_in pair origin fold ≡ none
      → Holding ops (newest_in pair origin (bindings_over x ops fold))
  unfolding bindings_over after_note newer
  over-none [] fold h = inl (h, tt)
  over-none (op ∷ ops) fold h =
      let after = note_binding x op (binding_op x op) fold in
      elim (Option-cases (about op)) [
        | inl e ↦ elim (over-none ops after (ground (arith, note-newest_in op fold, h, e))) [
          | inl (r, all) ↦ inl (r, (e, all))
          | inr (n, r, m, top) ↦ inr (n, r, ground (arith, m), (λ m g. absurd (cc (g, e)), top))
        ]
        | inr (c, e) ↦
            let ends =
              over-from ops after c (ground (arith, note-newest_in op fold, h, e))
                (about-origin op c e) in
            inr (
              ends.n,
              ends.is,
              here-made op ops (some c) c c ends.n e ends.made,
              (λ m g. ground (arith, e, g, ends.below), ends.top),
            )
      ]

  nothing_newest : newest_in pair origin [] ≡ none
  unfolding newest_in origins_of get
  nothing_newest = refl

  -- The fold of a list of ops holds nothing of an origin's records of a pair exactly where no op
  -- makes one, and otherwise one that an op makes and that no record of the pair that the same
  -- origin makes is after.
  pub over-newest :
      (ops : List Op)
      → ((newest_in pair origin (bindings_over x ops []) ≡ none) × All (λ o. about o ≡ none) ops)
        ⊎ ((n : Newest) × (newest_in pair origin (bindings_over x ops []) ≡ some n)
            × (any (makes n) ops ≡ true)
            × IsNewest n ops)
  over-newest ops = over-none ops [] nothing_newest
