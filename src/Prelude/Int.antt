-- ===== src/Prelude/Int.antt =====
-- Signed integers over the native numbers, and the `i64` that the wire carries.
use Prim.Native.Nat.{ℕ, zero, suc, ◌+◌, ◌-◌, ◌^◌, ◌≤◌, ◌<◌}
use mathlib.Core.Path.{◌≡◌}
use mathlib.Core.Bool.{Bool}
use native.Mathlib.Omega.{arith}
use native.Mathlib.Decide.{ℕ_discrete}
use glade.Prelude.Tests.{DecEq, ◌==◌, nat_eq, ltb, leb, if◌then◌else◌}

-- `negsuc n` is -(n + 1).
pub data ℤ : Type 0 where
  pos : ℕ → ℤ
  negsuc : ℕ → ℤ

unfoldable pub ℤ_discrete : Discrete ℤ
ℤ_discrete = hlevel ℕ_discrete

instance abbrev pub int_eq : DecEq ℤ
int_eq = record { dec = ℤ_discrete }

abbrev pub pos_part : ℤ → ℕ
pos_part (pos n) = n
pos_part (negsuc n) = 0

abbrev pub neg_part : ℤ → ℕ
neg_part (pos n) = 0
neg_part (negsuc n) = suc n

infix 50 ◌≤ℤ◌ ◌<ℤ◌
abbrev pub ◌≤ℤ◌ : ℤ → ℤ → Type 0
a ≤ℤ b = pos_part a + neg_part b ≤ pos_part b + neg_part a

abbrev pub ◌<ℤ◌ : ℤ → ℤ → Type 0
a <ℤ b = pos_part a + neg_part b < pos_part b + neg_part a

abbrev pub ltb_ℤ : ℤ → ℤ → Bool
ltb_ℤ a b = ltb (pos_part a + neg_part b) (pos_part b + neg_part a)

abbrev pub leb_ℤ : ℤ → ℤ → Bool
leb_ℤ a b = leb (pos_part a + neg_part b) (pos_part b + neg_part a)

-- a + 1, as an integer.
unfoldable pub suc_ℤ : ℤ → ℤ
suc_ℤ (pos n) = pos (suc n)
suc_ℤ (negsuc zero) = pos 0
suc_ℤ (negsuc (suc n)) = negsuc n

pub suc_ℤ_parts : (a : ℤ) → pos_part (suc_ℤ a) + neg_part a ≡ neg_part (suc_ℤ a) + pos_part a + 1
unfolding suc_ℤ
suc_ℤ_parts (pos n) = omega arith
suc_ℤ_parts (negsuc zero) = omega arith
suc_ℤ_parts (negsuc (suc n)) = omega arith

-- The least and the greatest `i64`.
abbrev pub i64_min : ℤ
i64_min = negsuc (2 ^ 63 - 1)

abbrev pub i64_max : ℤ
i64_max = pos (2 ^ 63 - 1)

pub record InI64 (a : ℤ) : Type 0 where
  pub above : i64_min ≤ℤ a
  pub below : a ≤ℤ i64_max

-- `a + 1` on `i64`, which wraps round.
unfoldable pub suc_i64 : ℤ → ℤ
suc_i64 a = if a == i64_max then i64_min else suc_ℤ a

pub eq_of_parts : (a b : ℤ) → pos_part a + neg_part b ≡ pos_part b + neg_part a → a ≡ b
eq_of_parts a b h = ground arith

-- Below another `i64` the successor does not wrap.
pub suc_i64_of_lt : (a b : ℤ) → a <ℤ b → InI64 b → suc_i64 a ≡ suc_ℤ a
unfolding suc_i64
suc_i64_of_lt a b h r = ground (arith, r.below)
