-- ===== src/Store/Paths.antt =====
-- The first name that no file has (`unused_path` of node/src/store.rs).
use glade.Prelude.{
  ℕ, zero, suc, ◌+◌, ◌-◌, ◌^◌, ◌≤◌, ◌<◌, ◌≡◌, ◌≢◌, inl, inr, refl, sym, ap, ◌∙◌, Bool, true, false,
  not, Option, none, some, List, [], ◌∷◌, ◌++◌, arith, Text, codes, ◌==◌, nat_eq, bytes_eq,
  bytes_discrete, if◌then◌else◌, any, keep, length, length-append, Bool-cases, eq-of-==,
  Option-cases,
}
use glade.Prelude.Decimal.{decimal, decimal_injective}

-- The n-th name.
unfoldable pub candidate : Text → Text → ℕ → Text
candidate stem ext n = if n == 1 then stem ++ ext else stem ++ (codes "-" ++ (decimal n ++ ext))

-- path.exists(), in a directory of these names
unfoldable pub exists : List Text → Text → Bool
exists names name = any (λ f. f == name) names

-- The loop from `n`, on fuel.
unfoldable pub unused_from : ℕ → List Text → Text → Text → ℕ → Option Text
unfolding candidate exists
unused_from zero names stem ext n = none
unused_from (suc fuel) names stem ext n =
    let rest = unused_from fuel names stem ext (n + 1) in
    if exists names (candidate stem ext n) then rest else some (candidate stem ext n)

unfoldable pub unused_path : List Text → Text → Text → Option Text
unfolding unused_from
unused_path names stem ext = unused_from (length names + 1) names stem ext 1

module _ (stem ext : Text) where
  append_injective : (s a b : Text) → s ++ a ≡ s ++ b → a ≡ b
  append_injective [] a b h = h
  append_injective (c ∷ s) a b h = append_injective s a b (cc h)

  append_cancel : (a b s : Text) → a ++ s ≡ b ++ s → a ≡ b
  append_cancel [] [] s h = refl
  append_cancel [] (d ∷ b) s h = absurd (omega (arith, ap length h, length-append b s))
  append_cancel (c ∷ a) [] s h = absurd (omega (arith, ap length h, length-append a s))
  append_cancel (c ∷ a) (d ∷ b) s h = cc (append_cancel a b s (cc h), h)

  -- Different turns try different names.
  candidate_injective :
      (m n : ℕ)
      → 0 < m
      → 0 < n
      → m < 2 ^ 64
      → n < 2 ^ 64
      → candidate stem ext m ≡ candidate stem ext n
      → m ≡ n
  unfolding candidate
  candidate_injective m n p q h k e = elim (Bool-cases (m == 1)) [
    | inl a ↦ elim (Bool-cases (n == 1)) [
      | inl b ↦ ground (arith, a, b)
      | inr b ↦ absurd (plain n (ground (arith, e, a, b)))
    ]
    | inr a ↦ elim (Bool-cases (n == 1)) [
      | inl b ↦ absurd (plain m (sym (ground (arith, e, a, b))))
      | inr b ↦ numbered (ground (arith, e, a, b))
    ]
  ]
    where
      plain : (n : ℕ) → stem ++ ext ≡ stem ++ (codes "-" ++ (decimal n ++ ext)) → ⊥
      plain n e = omega (
        arith,
        ap length (append_injective stem _ _ e),
        length-append (codes "-") (decimal n ++ ext),
        length-append (decimal n) ext,
      )

      numbered :
          stem ++ (codes "-" ++ (decimal m ++ ext)) ≡ stem ++ (codes "-" ++ (decimal n ++ ext))
          → m ≡ n
      numbered e = decimal_injective m n h k (
          append_cancel (decimal m) (decimal n) ext
            (append_injective (codes "-") _ _ (append_injective stem _ _ e)))

  -- A listing without a name is shorter by one at least, where it had it.
  abbrev without : Text → List Text → List Text
  without name names = keep (λ f. not (f == name)) names

  length-without :
      (name : Text) (names : List Text)
      → exists names name ≡ true
      → length (without name names) < length names
  unfolding exists
  length-without name [] h = absurd (cc h)
  length-without name (f ∷ names) h = elim (Bool-cases (f == name)) [
    | inl e ↦ ground (arith, e, length-keep (λ f. not (f == name)) names)
    | inr e ↦ ground (arith, e, h, length-without name names)
  ]
    where
      length-keep : (p : Text → Bool) (names : List Text) → length (keep p names) ≤ length names
      length-keep p [] = omega arith
      length-keep p (f ∷ names) = ground (arith, length-keep p names)

  exists-without :
      (name other : Text) (names : List Text)
      → other ≢ name
      → exists names other ≡ true
      → exists (without name names) other ≡ true
  unfolding exists
  exists-without name other [] n h = absurd (cc h)
  exists-without name other (f ∷ names) n h = elim (bytes_discrete f other) [
    | yes e ↦ ground (arith, e, n)
    | no d ↦ ground (arith, d, h, exists-without name other names n)
  ]

  -- Names that all exist are no more than the files.
  all_taken :
      (count n : ℕ) (names : List Text)
      → 0 < n
      → n + count < 2 ^ 64
      → ((i : ℕ) → n ≤ i → i < n + count → exists names (candidate stem ext i) ≡ true)
      → count ≤ length names
  all_taken zero n names p h taken = omega arith
  all_taken (suc count) n names p h taken =
      let name = candidate stem ext n in
      let here = taken n (omega arith) (omega arith) in
      let fewer = length-without name names here in
      let rest =
        all_taken count (n + 1) (without name names) (omega arith) (omega (arith, h))
          (λ i above below.
            exists-without name (candidate stem ext i) names
              (λ e. absurd (
                omega (
                  arith,
                  above,
                  candidate_injective i n (omega (arith, above)) p (omega (arith, h, below))
                      (omega (arith, h)) e,
                )))
              (taken i (omega (arith, above)) (omega (arith, below)))) in
      omega (arith, fewer, rest)

  -- A loop that runs out of fuel has found every name taken.
  out_of_fuel :
      (fuel n : ℕ) (names : List Text)
      → unused_from fuel names stem ext n ≡ none
      → (i : ℕ) → n ≤ i
      → i < n + fuel
      → exists names (candidate stem ext i) ≡ true
  unfolding unused_from
  out_of_fuel zero n names e i above below = absurd (omega (arith, above, below))
  out_of_fuel (suc fuel) n names e i above below =
      elim (Bool-cases (exists names (candidate stem ext n))) [
        | inr f ↦ absurd (ground (arith, e, f))
        | inl t ↦ elim (Bool-cases (i == n)) [
          | inl q ↦
              ground (arith, q, t, ap (λ k. exists names (candidate stem ext k)) (eq-of-== i n q))
          | inr d ↦
              out_of_fuel fuel (n + 1) names (ground (arith, e, t)) i (ground (arith, above, d))
                (omega (arith, below))
        ]
      ]

  -- What the loop returns names no file, and every name before it is taken.
  found_first :
      (fuel n : ℕ) (names : List Text) (name : Text)
      → unused_from fuel names stem ext n ≡ some name
      → (k : ℕ) × (name ≡ candidate stem ext k)
        × (n ≤ k)
        × (k < n + fuel)
        × (exists names name ≡ false)
        × ((i : ℕ) → n ≤ i → i < k → exists names (candidate stem ext i) ≡ true)
  unfolding unused_from
  found_first zero n names name e = absurd (cc e)
  found_first (suc fuel) n names name e = elim (Bool-cases (exists names (candidate stem ext n))) [
    | inr f ↦ (
      n,
      ground (arith, e, f),
      omega arith,
      omega arith,
      ground (arith, e, f),
      λ i a b. absurd (omega (arith, a, b)),
    )
    | inl t ↦
        let (k, same, low, high, free, before) =
          found_first fuel (n + 1) names name (ground (arith, e, t)) in
        (
          k,
          same,
          omega (arith, low),
          omega (arith, high),
          free,
          λ i a b. elim (Bool-cases (i == n)) [
            | inl q ↦
                ground (arith, q, t, ap (λ k. exists names (candidate stem ext k)) (eq-of-== i n q))
            | inr d ↦ before i (ground (arith, a, d)) b
          ],
        )
  ]

  -- In a directory of fewer than 2^31 - 1 files the loop ends, within one turn more than there
  -- are files and so with a turn number that is an i32: its name is that of the first turn whose
  -- name no file has.
  pub unused_path_ends :
      (names : List Text)
      → length names < 2 ^ 31 - 1
      → (k : ℕ) × (unused_path names stem ext ≡ some (candidate stem ext k))
        × (1 ≤ k)
        × (k ≤ length names + 1)
        × (exists names (candidate stem ext k) ≡ false)
        × ((i : ℕ) → 1 ≤ i → i < k → exists names (candidate stem ext i) ≡ true)
  unfolding unused_path
  unused_path_ends names h = elim (Option-cases (unused_from (length names + 1) names stem ext 1)) [
    | inl e ↦ absurd (
        omega (
          arith,
          all_taken (length names + 1) 1 names (omega arith) (omega (arith, h))
              (out_of_fuel (length names + 1) 1 names e),
        ))
    | inr (name, e) ↦
        let (k, same, low, high, free, before) = found_first (length names + 1) 1 names name e in
        (k, e ∙ ap some same, low, omega (arith, high), ap (exists names) (sym same) ∙ free, before)
  ]
