-- ===== src/Prelude/Order.antt =====
-- The orders of the keys: bytes by the first difference, tuples by the first component that differs.
use mathlib.Core.Path.{◌≡◌, refl, ap}
use mathlib.Core.Logic.{◌≢◌}
use mathlib.Core.Bool.{Bool, true, false, ◌&&◌, ◌||◌}
use mathlib.Core.List.{[], ◌∷◌}
use Prim.Native.Nat.{ℕ}
use native.Mathlib.Omega.{arith}
use glade.Prelude.Tests.{◌==◌, ltb, Bytes, bytes_eq, bytes_discrete, nat_eq}
use glade.Prelude.BTreeMap.{Ord}

unfoldable pub lt_bytes : Bytes → Bytes → Bool
lt_bytes [] [] = false
lt_bytes [] (y ∷ ys) = true
lt_bytes (x ∷ xs) [] = false
lt_bytes (x ∷ xs) (y ∷ ys) = ltb x y || (x == y && lt_bytes xs ys)

pub lt_bytes_irrefl : (a : Bytes) → lt_bytes a a ≡ false
unfolding lt_bytes
lt_bytes_irrefl [] = refl
lt_bytes_irrefl (x ∷ xs) = ground (arith, lt_bytes_irrefl xs)

pub lt_bytes_trans :
    (a b c : Bytes) → lt_bytes a b ≡ true → lt_bytes b c ≡ true → lt_bytes a c ≡ true
unfolding lt_bytes
lt_bytes_trans [] [] c p q = cc
lt_bytes_trans [] (y ∷ b) [] p q = cc
lt_bytes_trans [] (y ∷ b) (z ∷ c) p q = refl
lt_bytes_trans (x ∷ a) [] c p q = cc
lt_bytes_trans (x ∷ a) (y ∷ b) [] p q = cc
lt_bytes_trans (x ∷ a) (y ∷ b) (z ∷ c) p q = ground (arith, lt_bytes_trans a b c)

pub lt_bytes_total : (a b : Bytes) → a ≢ b → lt_bytes a b ≡ false → lt_bytes b a ≡ true
unfolding lt_bytes
lt_bytes_total [] [] n h = absurd (n refl)
lt_bytes_total [] (y ∷ b) n h = cc
lt_bytes_total (x ∷ a) [] n h = refl
lt_bytes_total (x ∷ a) (y ∷ b) n h = elim (bytes_discrete a b) [
  | yes e ↦ ground (arith, ap (◌∷◌ x) e)
  | no d ↦ ground (arith, lt_bytes_total a b d)
]

instance abbrev pub bytes_ord : Ord Bytes
bytes_ord = record {
  deceq = bytes_eq;
  lt = lt_bytes;
  lt_irrefl = lt_bytes_irrefl;
  lt_trans = lt_bytes_trans;
  lt_total = lt_bytes_total;
}

pub lt_nat_irrefl : (a : ℕ) → ltb a a ≡ false
lt_nat_irrefl a = ground arith

pub lt_nat_trans : (a b c : ℕ) → ltb a b ≡ true → ltb b c ≡ true → ltb a c ≡ true
lt_nat_trans a b c p q = ground arith

pub lt_nat_total : (a b : ℕ) → a ≢ b → ltb a b ≡ false → ltb b a ≡ true
lt_nat_total a b n h = ground arith

instance abbrev pub nat_ord : Ord ℕ
nat_ord = record {
  deceq = nat_eq;
  lt = ltb;
  lt_irrefl = lt_nat_irrefl;
  lt_trans = lt_nat_trans;
  lt_total = lt_nat_total;
}

module _ {A B : Type 0} ⦃o : Ord A⦄ ⦃p : Ord B⦄ where
  unfoldable pub dec_pair : Discrete (A × B)
  dec_pair (a, b) (c, d) = elim (o.deceq.dec a c) [
    | yes e ↦ elim (p.deceq.dec b d) [
      | yes f ↦ yes (λ i. (e i, f i))
      | no g ↦ no (λ q. g (ap (λ (t : A × B). t.1) q))
    ]
    | no g ↦ no (λ q. g (ap (λ (t : A × B). t.0) q))
  ]

  unfoldable pub lt_pair : A × B → A × B → Bool
  lt_pair (a, b) (c, d) = o.lt a c || (elim (o.deceq.dec a c) [ yes _ ↦ p.lt b d | no _ ↦ false ])

  pub lt_pair_irrefl : (x : A × B) → lt_pair x x ≡ false
  unfolding lt_pair
  lt_pair_irrefl (a, b) = ground (arith, o.lt_irrefl a, p.lt_irrefl b)

  pub lt_pair_trans : (x y z : A × B) → lt_pair x y ≡ true → lt_pair y z ≡ true → lt_pair x z ≡ true
  unfolding lt_pair
  lt_pair_trans (a, b) (c, d) (e, f) h k = ground (arith, o.lt_trans a c e, p.lt_trans b d f)

  pub lt_pair_total : (x y : A × B) → x ≢ y → lt_pair x y ≡ false → lt_pair y x ≡ true
  unfolding lt_pair
  lt_pair_total (a, b) (c, d) n h = elim (o.deceq.dec a c) [
    | yes e ↦ ground (arith, o.lt_irrefl a, p.lt_total b d (λ f. n (λ i. (e i, f i))))
    | no g ↦ ground (arith, o.lt_total a c g)
  ]

  instance abbrev pub pair_ord : Ord (A × B)
  pair_ord = record {
    deceq = record { dec = dec_pair };
    lt = lt_pair;
    lt_irrefl = lt_pair_irrefl;
    lt_trans = lt_pair_trans;
    lt_total = lt_pair_total;
  }
