-- ===== src/Client/Latest.antt =====
-- What the value fold answers (client-rs/src/session.rs): an op that no other is later than.
use glade.Prelude.{
  any, ◌++◌, ◌⊎◌, refl, sym, ◌∙◌, ◌≡◌, Bool, ap, inl, inr, true, false, none, some, List, [], ◌∷◌,
  arith, bytes_discrete, ◌==◌, bytes_eq, int_eq, keep, All, Bool-cases,
}
use glade.Prelude.Order.{bytes_ord, lt_bytes, lt_bytes_irrefl, lt_bytes_trans, lt_bytes_total}
use glade.Wire
use glade.Wire.{Op, shape_eq, op_eq, op_discrete}
use glade.Client.Folds.{
  later, winner, HashOrder, dedup, first_seen, dedup_from, same_slot, fold_value,
}

later_trans : (a b c : Op) → later a b ≡ true → later b c ≡ true → later a c ≡ true
unfolding later
later_trans a b c h k = ground (arith, lt_bytes_trans c.origin b.origin a.origin)

-- What is not later than an op is not later than what that op is not later than.
later-chain : (a b c : Op) → later a b ≡ false → later b c ≡ false → later a c ≡ false
unfolding later
later-chain a b c h k = elim (bytes_discrete b.origin c.origin) [
  | yes e ↦ ground (arith, ap (λ t. lt_bytes t a.origin) e)
  | no n ↦ ground (
    arith,
    lt_bytes_total b.origin c.origin n,
    lt_bytes_trans b.origin c.origin a.origin,
    lt_bytes_trans c.origin b.origin a.origin,
  )
]

later_self : (a : Op) → later a a ≡ false
unfolding later
later_self a = ground (arith, lt_bytes_irrefl a.origin)

later-flip : (a b : Op) → later a b ≡ true → later b a ≡ false
later-flip a b h = elim (Bool-cases (later b a)) [
  | inr e ↦ e
  | inl e ↦ absurd (ground (arith, later_trans a b a h e, later_self a))
]

winner-latest :
    (w v : Op) (ops : List Op)
    → winner (some w) ops ≡ some v
    → (later w v ≡ false) × All (λ o. later o v ≡ false) ops
unfolding winner
winner-latest w v [] e = (ground (arith, later_self w), tt)
winner-latest w v (o ∷ ops) e = elim (Bool-cases (later o w)) [
  | inl h ↦
      let (first, rest) = winner-latest o v ops (ground arith) in
      (later-chain w o v (later-flip o w h) first, (first, rest))
  | inr h ↦
      let (first, rest) = winner-latest w v ops (ground arith) in
      (first, (later-chain o w v h first, rest))
]

-- A fold that has started answers, with the op it started from or with one of the list.
winner-some :
    (w : Op) (ops : List Op)
    → (v : Op) × (winner (some w) ops ≡ some v) × ((v ≡ w) ⊎ (any (λ o. o == v) ops ≡ true))
unfolding winner
winner-some w [] = (w, refl, inl refl)
winner-some w (o ∷ ops) = elim (Bool-cases (later o w)) [
  | inl h ↦ let (v, e, m) = winner-some o ops in (v, ground (arith, e), inr (taken o v ops m))
  | inr h ↦ let (v, e, m) = winner-some w ops in (v, ground (arith, e), kept o w v ops m)
]
  where
    taken :
        (o v : Op) (ops : List Op)
        → (v ≡ o) ⊎ (any (λ o. o == v) ops ≡ true)
        → any (λ o. o == v) (o ∷ ops) ≡ true
    taken o v ops (inl e) = ground (arith, e)
    taken o v ops (inr m) = ground (arith, m)

    kept :
        (o w v : Op) (ops : List Op)
        → (v ≡ w) ⊎ (any (λ o. o == v) ops ≡ true)
        → (v ≡ w) ⊎ (any (λ o. o == v) (o ∷ ops) ≡ true)
    kept o w v ops (inl e) = inl e
    kept o w v ops (inr m) = inr (ground (arith, m))

no_winner : winner none [] ≡ none
unfolding winner
no_winner = refl

-- What the fold answers of a list.
winner_lem :
    (ops : List Op)
    → (ops ≡ [])
      ⊎ ((v : Op) × (winner none ops ≡ some v)
          × (any (λ o. o == v) ops ≡ true)
          × All (λ o. later o v ≡ false) ops)
unfolding winner
winner_lem [] = inl refl
winner_lem (o ∷ ops) =
    let (v, e, m) = winner-some o ops in inr (v, e, first o v ops m, winner-latest o v ops e)
  where
    first :
        (o v : Op) (ops : List Op)
        → (v ≡ o) ⊎ (any (λ o. o == v) ops ≡ true)
        → any (λ o. o == v) (o ∷ ops) ≡ true
    first o v ops (inl e) = ground (arith, e)
    first o v ops (inr m) = ground (arith, m)

-- What has been seen is never dropped again.
dedup_from-cons :
    (s : Op) (seen ops : List Op) → (t : Op) × (ts : List Op) × (dedup_from (s ∷ seen) ops ≡ t ∷ ts)
unfolding dedup_from
dedup_from-cons s seen [] = (s, seen, refl)
dedup_from-cons s seen (op ∷ ops) = elim (Bool-cases (any (λ o. same_slot o op) (s ∷ seen))) [
  | inl h ↦ let (t, ts, e) = dedup_from-cons s seen ops in (t, ts, ground (arith, e))
  | inr h ↦ let (t, ts, e) = dedup_from-cons s (seen ++ op ∷ []) ops in (t, ts, ground (arith, e))
]

first_seen-empty : (ops : List Op) → first_seen ops ≡ [] → ops ≡ []
unfolding first_seen dedup_from
first_seen-empty [] e = refl
first_seen-empty (op ∷ ops) e = let (t, ts, q) = dedup_from-cons op [] ops in absurd (cc (e, q))

-- An order of a map's values: it holds what the map does.
abbrev pub IsOrder : HashOrder → Type 0
IsOrder into_values = (ops : List Op) (p : Op → Bool) → any p (into_values ops) ≡ any p ops

ordered-empty :
    (into_values : HashOrder) (ops : List Op)
    → IsOrder into_values
    → into_values ops ≡ []
    → ops ≡ []
ordered-empty into_values [] h e = refl
ordered-empty into_values (o ∷ ops) h e =
    absurd (cc (h (o ∷ ops) (λ o. true), ap (λ (l : List Op). any (λ o. true) l) e))

any-none : (p : Op → Bool) (ops : List Op) → All (λ o. p o ≡ false) ops → any p ops ≡ false
any-none p [] h = refl
any-none p (o ∷ ops) h = ground (arith, h.0, any-none p ops h.1)

none-All : (p : Op → Bool) (ops : List Op) → any p ops ≡ false → All (λ o. p o ≡ false) ops
none-All p [] h = tt
none-All p (o ∷ ops) h = (ground (arith, h), none-All p ops (ground (arith, h)))

abbrev pub value_ops : List Op → List Op
value_ops ops = keep (λ o. o.shape == Wire.value) ops

-- In whatever order the map gives what it holds: the value fold answers nothing exactly where
-- its input holds no value op, and otherwise the payload of one of the value ops, the first seen
-- of each origin and seq, that none of them is later than by the clock and then by the origin.
pub fold_value-later :
    (into_values : HashOrder) (ops : List Op)
    → IsOrder into_values
    → ((value_ops ops ≡ []) × (fold_value into_values ops ≡ none))
      ⊎ ((w : Op) × (fold_value into_values ops ≡ some w.payload)
          × (any (λ o. o == w) (first_seen (value_ops ops)) ≡ true)
          × All (λ o. later o w ≡ false) (first_seen (value_ops ops)))
unfolding fold_value dedup
fold_value-later into_values ops h =
    let seen : List Op = first_seen (value_ops ops) in
    elim (winner_lem (into_values seen)) [
      | inl e ↦ inl (
        first_seen-empty (value_ops ops) (ordered-empty into_values seen h e),
        ground (arith, ap (winner none) e, no_winner),
      )
      | inr (w, e, m, l) ↦ inr (
        w,
        ground (arith, e),
        sym (h seen (λ o. o == w)) ∙ m,
        none-All (λ o. later o w) seen
            (sym (h seen (λ o. later o w)) ∙ any-none (λ o. later o w) (into_values seen) l),
      )
    ]
