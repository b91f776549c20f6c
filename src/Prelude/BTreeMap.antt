-- ===== src/Prelude/BTreeMap.antt =====
-- `BTreeMap`: an association list in the order of its keys.
use mathlib.Core.Path.{◌≡◌, refl}
use mathlib.Core.Logic.{◌≢◌}
use mathlib.Core.Bool.{Bool, true, false}
use mathlib.Core.Option.{Option, none, some}
use mathlib.Core.List.{List, [], ◌∷◌}
use native.Mathlib.Omega.{arith}
use glade.Prelude.Tests.{DecEq, bytes_eq, nat_eq, if◌then◌else◌}
use glade.Prelude.Lists.{All}

-- The strict order of a type of keys.
pub record Ord {ℓ} (K : Type ℓ) : Type ℓ where
  pub deceq : DecEq K
  pub lt : K → K → Bool
  pub lt_irrefl : (a : K) → lt a a ≡ false
  pub lt_trans : (a b c : K) → lt a b ≡ true → lt b c ≡ true → lt a c ≡ true
  pub lt_total : (a b : K) → a ≢ b → lt a b ≡ false → lt b a ≡ true

abbrev pub BTreeMap {ℓ κ} : Type ℓ → Type κ → Type (ℓ ⊔ κ)
BTreeMap K V = List (K × V)

module _ {ℓ κ} {K : Type ℓ} {V : Type κ} ⦃o : Ord K⦄ where
  -- m.get(k)
  unfoldable pub get : K → BTreeMap K V → Option V
  get k [] = none
  get k ((j, v) ∷ m) = elim (o.deceq.dec j k) [ yes _ ↦ some v | no _ ↦ get k m ]

  -- m.insert(k, v)
  unfoldable pub insert : K → V → BTreeMap K V → BTreeMap K V
  insert k v [] = (k, v) ∷ []
  insert k v ((j, w) ∷ m) =
      let rest = insert k v m in
      elim (o.deceq.dec j k) [
        | yes _ ↦ (k, v) ∷ m
        | no _ ↦ if o.lt k j then (k, v) ∷ (j, w) ∷ m else (j, w) ∷ rest
      ]

  -- m.remove(k)
  unfoldable pub remove : K → BTreeMap K V → BTreeMap K V
  remove k [] = []
  remove k ((j, w) ∷ m) =
      let rest = remove k m in elim (o.deceq.dec j k) [ yes _ ↦ rest | no _ ↦ (j, w) ∷ rest ]

  pub get-empty : (k : K) → get k [] ≡ none
  unfolding get
  get-empty k = refl

  pub get-insert_self : (k : K) (v : V) (m : BTreeMap K V) → get k (insert k v m) ≡ some v
  unfolding get insert
  get-insert_self k v [] = ground arith
  get-insert_self k v ((j, w) ∷ m) = ground (arith, get-insert_self k v m)

  pub get-insert_ne : (k j : K) (v : V) (m : BTreeMap K V) → k ≢ j → get j (insert k v m) ≡ get j m
  unfolding get insert
  get-insert_ne k j v [] h = ground arith
  get-insert_ne k j v ((i, w) ∷ m) h = ground (arith, get-insert_ne k j v m h)

  pub get-remove_self : (k : K) (m : BTreeMap K V) → get k (remove k m) ≡ none
  unfolding get remove
  get-remove_self k [] = refl
  get-remove_self k ((j, w) ∷ m) = ground (arith, get-remove_self k m)

  pub get-remove_ne : (k j : K) (m : BTreeMap K V) → k ≢ j → get j (remove k m) ≡ get j m
  unfolding get remove
  get-remove_ne k j [] h = refl
  get-remove_ne k j ((i, w) ∷ m) h = ground (arith, get-remove_ne k j m h)

  -- What holds of every entry holds of the one that is found.
  pub All-get {μ} :
      (P : K × V → Type μ) (m : BTreeMap K V) (k : K) (v : V)
      → All P m
      → get k m ≡ some v
      → P (k, v)
  unfolding get
  All-get P [] k v h e = cc
  All-get P ((j, w) ∷ m) k v h e = elim (o.deceq.dec j k) [
    | yes p ↦ ground (arith, h.0)
    | no p ↦ All-get P m k v h.1 (ground arith)
  ]

  pub All-insert {μ} :
      (P : K × V → Type μ) (m : BTreeMap K V) (k : K) (v : V)
      → P (k, v)
      → All P m
      → All P (insert k v m)
  unfolding insert
  All-insert P [] k v p h = (p, tt)
  All-insert P ((j, w) ∷ m) k v p h = ground (arith, All-insert P m k v p h.1)

-- Keys in order, over a small type of keys.
module _ {κ} {K : Type 0} {V : Type κ} ⦃o : Ord K⦄ where
  -- Every key is above `k`.
  abbrev pub Above : K → BTreeMap K V → Type 0
  Above k m = All (λ e. o.lt k e.0 ≡ true) m

  abbrev pub IsSorted : BTreeMap K V → Type 0
  IsSorted [] = Unit
  IsSorted ((k, v) ∷ m) = Above k m × IsSorted m

  pub Above-trans : (j k : K) (m : BTreeMap K V) → o.lt j k ≡ true → Above k m → Above j m
  Above-trans j k [] h a = tt
  Above-trans j k ((i, w) ∷ m) h a = (o.lt_trans j k i h a.0, Above-trans j k m h a.1)

  -- An insert keeps the keys in order.
  pub insert-IsSorted : (k : K) (v : V) (m : BTreeMap K V) → IsSorted m → IsSorted (insert k v m)
  unfolding insert
  insert-IsSorted k v [] h = (tt, tt)
  insert-IsSorted k v ((j, w) ∷ m) h = ground (
    arith,
    Above-trans k j m,
    o.lt_total k j,
    All-insert (λ x. o.lt j x.0 ≡ true) m k v,
    insert-IsSorted k v m h.1,
  )

  remove-Above : (j k : K) (m : BTreeMap K V) → Above j m → Above j (remove k m)
  unfolding remove
  remove-Above j k [] a = tt
  remove-Above j k ((i, w) ∷ m) a = ground (arith, remove-Above j k m a.1)

  pub remove-IsSorted : (k : K) (m : BTreeMap K V) → IsSorted m → IsSorted (remove k m)
  unfolding remove
  remove-IsSorted k [] h = tt
  remove-IsSorted k ((j, w) ∷ m) h = ground (arith, remove-IsSorted k m h.1, remove-Above j k m h.0)

  -- Nothing is found below the keys.
  pub get-Above : (k : K) (m : BTreeMap K V) → Above k m → get k m ≡ none
  unfolding get
  get-Above k [] h = refl
  get-Above k ((j, w) ∷ m) h = ground (arith, o.lt_irrefl k, get-Above k m h.1)

  -- In a sorted map, what is found is exactly what is listed.
  pub All-of-get {μ} :
      (P : K × V → Type μ) (m : BTreeMap K V)
      → IsSorted m
      → ((k : K) (v : V) → get k m ≡ some v → P (k, v))
      → All P m
  unfolding get
  All-of-get P [] s h = tt
  All-of-get P ((j, w) ∷ m) s h =
      (h j w (ground arith), All-of-get P m s.1 (λ k v e. h k v (found k v e)))
    where
      found : (k : K) (v : V) → get k m ≡ some v → get k ((j, w) ∷ m) ≡ some v
      found k v e = ground (arith, get-Above k m, s.0)
