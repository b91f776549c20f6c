-- ===== src/Prelude/Decimal.antt =====
-- Numbers in decimal, as `format!` writes them, and read back.
use Prim.Native.Nat.{ℕ, zero, suc, ◌+◌, ◌-◌, ◌*◌, ◌/◌, ◌%◌, ◌^◌, ◌<◌}
use mathlib.Core.Path.{◌≡◌, sym, ap, ◌∙◌}
use mathlib.Core.List.{[], ◌∷◌}
use native.Mathlib.Omega.{arith}
use mathlib.Core.Logic.{inl, inr}
use glade.Prelude.Tests.{Text, ltb, if◌then◌else◌, Bool-cases}

-- The digits of a number in front of a text, on fuel.
unfoldable pub digits : ℕ → ℕ → Text → Text
digits zero n acc = acc
digits (suc fuel) n acc =
    let rest = digits fuel (n / 10) ((b'0' + n % 10) ∷ acc) in
    if ltb n 10 then (b'0' + n) ∷ acc else rest

-- The greatest `u64` has twenty digits.
unfoldable pub decimal : ℕ → Text
unfolding digits
decimal n = digits 20 n []

unfoldable pub read_from : ℕ → Text → ℕ
read_from n [] = n
read_from n (c ∷ text) = read_from (n * 10 + (c - b'0')) text

unfoldable tens : ℕ → ℕ
tens zero = 1
tens (suc f) = 10 * tens f

-- Fuel for as many digits as the number has is enough.
read_from-digits :
    (fuel n : ℕ) (acc : Text) → n < tens fuel → read_from 0 (digits fuel n acc) ≡ read_from n acc
unfolding digits read_from tens
read_from-digits zero n acc h = ap (λ k. read_from k acc) (omega (arith, h))
read_from-digits (suc fuel) n acc h = elim (Bool-cases (ltb n 10)) [
  | inl e ↦ ground (arith, e, ap (λ k. read_from k acc) (one n))
  | inr e ↦ ground (
    arith,
    e,
    read_from-digits fuel (n / 10) ((b'0' + n % 10) ∷ acc) (omega (arith, h)),
    ap (λ k. read_from k acc) (more n),
  )
]
  where
    one : (n : ℕ) → 0 * 10 + ((b'0' + n) - b'0') ≡ n
    one n = omega arith

    more : (n : ℕ) → (n / 10) * 10 + ((b'0' + n % 10) - b'0') ≡ n
    more n = omega arith

pub read_from-decimal : (n : ℕ) → n < 2 ^ 64 → read_from 0 (decimal n) ≡ n
unfolding decimal read_from tens
read_from-decimal n h = read_from-digits 20 n [] (omega (arith, h))

pub decimal_injective : (m n : ℕ) → m < 2 ^ 64 → n < 2 ^ 64 → decimal m ≡ decimal n → m ≡ n
decimal_injective m n h k e =
    sym (read_from-decimal m h) ∙ ap (read_from 0) e ∙ read_from-decimal n k
