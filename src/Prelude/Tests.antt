-- ===== src/Prelude/Tests.antt =====
-- Boolean tests, the conditional, and equality and order as interfaces.
use Prim.Native.Nat.{ℕ, compare, Ordering}
use Prim.Native.Char.{code}
use Prim.Native.String.{String}
use mathlib.Core.Path.{◌≡◌, refl}
use mathlib.Core.Logic.{◌≢◌, ◌⊎◌, inl, inr}
use mathlib.Core.Bool.{Bool, true, false}
use mathlib.Core.Option.{Option, none, some}
use mathlib.Core.List.{List, [], ◌∷◌}
use native.Mathlib.Omega.{arith}
use native.Mathlib.Decide.{ℕ_discrete}

-- These compute to `compare`, which `ground` and `grind` read with no lemma listed.
abbrev pub ltb : ℕ → ℕ → Bool
ltb a b = elim (compare a b) [ Ordering.lt ↦ true | _ ↦ false ]

abbrev pub leb : ℕ → ℕ → Bool
leb a b = elim (compare a b) [ Ordering.gt ↦ false | _ ↦ true ]

infix 1 if◌then◌else◌
abbrev pub if◌then◌else◌ {ℓ} : {A : Type ℓ} → Bool → A → A → A
if true then x else y = x
if false then x else y = y

pub Bool-cases : (b : Bool) → (b ≡ true) ⊎ (b ≡ false)
Bool-cases true = inl refl
Bool-cases false = inr refl

pub Option-cases {ℓ} : {A : Type ℓ} (o : Option A) → (o ≡ none) ⊎ ((a : A) × (o ≡ some a))
Option-cases none = inl refl
Option-cases (some a) = inr (a, refl)

-- `==` on a type whose equality is decided.
pub record DecEq {ℓ} (A : Type ℓ) : Type ℓ where
  pub dec : Discrete A

infix 50 ◌==◌
abbrev pub ◌==◌ {ℓ} : {A : Type ℓ} ⦃e : DecEq A⦄ → A → A → Bool
◌==◌ ⦃e⦄ a b = elim (e.dec a b) [ yes _ ↦ true | no _ ↦ false ]

module _ {ℓ} {A : Type ℓ} ⦃e : DecEq A⦄ where
  pub eq-of-== : (a b : A) → (a == b) ≡ true → a ≡ b
  eq-of-== a b h = ground arith

  pub ==_self : (a : A) → (a == a) ≡ true
  ==_self a = ground arith

  pub ==_ne : (a b : A) → a ≢ b → (a == b) ≡ false
  ==_ne a b h = ground arith

-- Bytes, and text as its UTF-8 bytes, which is how a Rust `String` is compared and ordered.
abbrev pub Bytes : Type 0
Bytes = List ℕ

abbrev pub Text : Type 0
Text = List ℕ

-- The bytes of an ASCII literal.
abbrev pub codes : String → Text
codes String.[] = []
codes (String.◌∷◌ c s) = code c ∷ codes s

unfoldable pub bytes_discrete : Discrete Bytes
bytes_discrete = hlevel ℕ_discrete

unfoldable pub maybe_bytes_discrete : Discrete (Option Bytes)
unfolding bytes_discrete
maybe_bytes_discrete = hlevel bytes_discrete

instance abbrev pub nat_eq : DecEq ℕ
nat_eq = record { dec = ℕ_discrete }

instance abbrev pub bytes_eq : DecEq Bytes
bytes_eq = record { dec = bytes_discrete }

instance abbrev pub maybe_bytes_eq : DecEq (Option Bytes)
maybe_bytes_eq = record { dec = maybe_bytes_discrete }
