-- ===== src/Prelude/Lists.antt =====
-- Lists measured by native numbers, and predicates and searches that run.
use Prim.Native.Nat.{ℕ, zero, suc, ◌+◌}
use mathlib.Core.Path.{◌≡◌, refl}
use mathlib.Core.Logic.{inl, inr}
use mathlib.Core.Bool.{Bool, true, false, ◌||◌, ◌&&◌}
use mathlib.Core.List.{List, [], ◌∷◌, ◌++◌}
use mathlib.Core.Option.{Option, none, some}
use native.Mathlib.Omega.{arith}
use glade.Prelude.Tests.{if◌then◌else◌, Bool-cases}

module _ {ℓ} {A : Type ℓ} where
  abbrev pub length : List A → ℕ
  length [] = 0
  length (x ∷ xs) = suc (length xs)

  pub length-append : (xs ys : List A) → length (xs ++ ys) ≡ length xs + length ys
  length-append [] ys = omega arith
  length-append (x ∷ xs) ys = omega (arith, length-append xs ys)

  -- An index out of range gives the default.
  abbrev pub get_or : List A → ℕ → A → A
  get_or [] i d = d
  get_or (x ∷ xs) zero d = x
  get_or (x ∷ xs) (suc i) d = get_or xs i d

  abbrev pub last? : List A → Option A
  last? [] = none
  last? (x ∷ []) = some x
  last? (x ∷ y ∷ xs) = last? (y ∷ xs)

  pub last?-snoc : (xs : List A) (x : A) → last? (xs ++ x ∷ []) ≡ some x
  last?-snoc [] x = refl
  last?-snoc (y ∷ []) x = refl
  last?-snoc (y ∷ z ∷ xs) x = last?-snoc (z ∷ xs) x

  pub last?-eq-none : (xs : List A) → last? xs ≡ none → xs ≡ []
  last?-eq-none [] h = refl
  last?-eq-none (x ∷ []) h = cc
  last?-eq-none (x ∷ y ∷ xs) h = absurd (last?-cons y xs h)
    where
      last?-cons : (y : A) (xs : List A) → last? (y ∷ xs) ≡ none → ⊥
      last?-cons y [] h = cc
      last?-cons y (z ∷ xs) h = last?-cons z xs h

  -- The elements that a test keeps, in order: `iter().filter(p)` and `retain(p)`.
  abbrev pub keep : (A → Bool) → List A → List A
  keep p [] = []
  keep p (x ∷ xs) = if p x then x ∷ keep p xs else keep p xs

  -- The first element that a test takes: `iter().find(p)`.
  abbrev pub find? : (A → Bool) → List A → Option A
  find? p [] = none
  find? p (x ∷ xs) = if p x then some x else find? p xs

  abbrev pub any : (A → Bool) → List A → Bool
  any p [] = false
  any p (x ∷ xs) = p x || any p xs

  pub any-append : (p : A → Bool) (xs ys : List A) → any p (xs ++ ys) ≡ (any p xs || any p ys)
  any-append p [] ys = refl
  any-append p (x ∷ xs) ys = ground (arith, any-append p xs ys)

  -- xs.sort_by(lt), which is stable: an insertion before the first that is not lower.
  unfoldable pub insert_sorted : (A → A → Bool) → A → List A → List A
  insert_sorted lt a [] = a ∷ []
  insert_sorted lt a (x ∷ xs) = if lt x a then x ∷ insert_sorted lt a xs else a ∷ x ∷ xs

  unfoldable pub sort_by : (A → A → Bool) → List A → List A
  unfolding insert_sorted
  sort_by lt [] = []
  sort_by lt (x ∷ xs) = insert_sorted lt x (sort_by lt xs)

  -- A sort keeps what there is.
  any-insert_sorted :
      (p : A → Bool) (lt : A → A → Bool) (a : A) (xs : List A)
      → any p (insert_sorted lt a xs) ≡ (p a || any p xs)
  unfolding insert_sorted
  any-insert_sorted p lt a [] = refl
  any-insert_sorted p lt a (x ∷ xs) = ground (arith, any-insert_sorted p lt a xs)

  pub any-sort_by :
      (p : A → Bool) (lt : A → A → Bool) (xs : List A) → any p (sort_by lt xs) ≡ any p xs
  unfolding sort_by
  any-sort_by p lt [] = refl
  any-sort_by p lt (x ∷ xs) =
      ground (arith, any-sort_by p lt xs, any-insert_sorted p lt x (sort_by lt xs))

  pub keep-append : (p : A → Bool) (xs ys : List A) → keep p (xs ++ ys) ≡ keep p xs ++ keep p ys
  keep-append p [] ys = refl
  keep-append p (x ∷ xs) ys = ground (arith, keep-append p xs ys)

  pub keep-snoc_drop :
      (p : A → Bool) (xs : List A) (y : A) → p y ≡ false → keep p (xs ++ y ∷ []) ≡ keep p xs
  keep-snoc_drop p [] y h = ground arith
  keep-snoc_drop p (x ∷ xs) y h = ground (arith, keep-snoc_drop p xs y h)

  pub find?-append :
      (p : A → Bool) (xs ys : List A)
      → find? p (xs ++ ys) ≡ (elim (find? p xs) [ none ↦ find? p ys | some a ↦ some a ])
  find?-append p [] ys = refl
  find?-append p (x ∷ xs) ys = ground (arith, find?-append p xs ys)

  pub find?-keep : (q p : A → Bool) (xs : List A) → find? q (keep p xs) ≡ find? (λ x. p x && q x) xs
  find?-keep q p [] = refl
  find?-keep q p (x ∷ xs) = ground (arith, find?-keep q p xs)

  -- A last element that a test takes is the last of those that it takes.
  pub last?-keep :
      (p : A → Bool) (xs : List A) (y : A)
      → last? xs ≡ some y
      → p y ≡ true
      → last? (keep p xs) ≡ some y
  last?-keep p [] y e h = absurd (cc e)
  last?-keep p (x ∷ []) y e h = ground arith
  last?-keep p (x ∷ z ∷ xs) y e h = elim (Bool-cases (p x)) [
    | inl t ↦ ground (arith, t, last?-keep p (z ∷ xs) y e h, last?-cons x (keep p (z ∷ xs)) y)
    | inr f ↦ ground (arith, f, last?-keep p (z ∷ xs) y e h)
  ]
    where
      last?-cons : (x : A) (xs : List A) (y : A) → last? xs ≡ some y → last? (x ∷ xs) ≡ some y
      last?-cons x [] y e = absurd (cc e)
      last?-cons x (z ∷ xs) y e = e

  pub find?_holds : (p : A → Bool) (xs : List A) (a : A) → find? p xs ≡ some a → p a ≡ true
  find?_holds p [] a h = cc
  find?_holds p (x ∷ xs) a h = ground (arith, find?_holds p xs a)

  -- A predicate on every element, by recursion, which the tactics read and build.
  abbrev pub All {κ} : (A → Type κ) → List A → Type κ
  All P [] = Unit
  All P (x ∷ xs) = P x × All P xs

  pub All-mono {κ μ} :
      (P : A → Type κ) (Q : A → Type μ) (xs : List A) → ((a : A) → P a → Q a) → All P xs → All Q xs
  All-mono P Q [] f h = tt
  All-mono P Q (x ∷ xs) f h = (f x h.0, All-mono P Q xs f h.1)

  pub All-append {κ} : (P : A → Type κ) (xs ys : List A) → All P xs → All P ys → All P (xs ++ ys)
  All-append P [] ys hx hy = hy
  All-append P (x ∷ xs) ys hx hy = (hx.0, All-append P xs ys hx.1 hy)

  pub All-keep {κ} : (P : A → Type κ) (p : A → Bool) (xs : List A) → All P xs → All P (keep p xs)
  All-keep P p [] h = tt
  All-keep P p (x ∷ xs) h = ground (arith, All-keep P p xs h.1)

  pub All-find? {κ} :
      (P : A → Type κ) (p : A → Bool) (xs : List A) (a : A) → All P xs → find? p xs ≡ some a → P a
  All-find? P p [] a h e = cc
  All-find? P p (x ∷ xs) a h e = ground (arith, All-find? P p xs a h.1)

  pub All-last? {κ} : (P : A → Type κ) (xs : List A) (a : A) → All P xs → last? xs ≡ some a → P a
  All-last? P [] a h e = cc
  All-last? P (x ∷ []) a h e = ground arith
  All-last? P (x ∷ y ∷ xs) a h e = All-last? P (y ∷ xs) a h.1 e
