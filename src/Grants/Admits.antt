-- ===== src/Grants/Admits.antt =====
-- What a granted verb admits, and whose name is a node's (contracts/grant-api/src/lib.rs,
-- node/src/grants.rs).
use glade.Prelude.{
  ℕ, ◌<◌, ◌≡◌, refl, sym, ap, ◌∙◌, ◌⊎◌, inl, inr, ◌↔◌, true, some, [], ◌∷◌, ◌++◌, arith, Text,
  bytes_eq, nat_eq, ltb, length, bytes_discrete, last?, last?-snoc, length-append, codes,
}
use mathlib.Core.List.{append_assoc}
use glade.Grants.{starts_with, ends_with, without_last, strip_suffix, admits}

-- A pattern `p.*` over a stem that is not empty, and a verb that begins `p.`.
abbrev pub IsUnder : Text → Text → Type 0
IsUnder granted asked =
    (stem : Text) × (rest : Text) × (0 < length stem)
    × (granted ≡ stem ++ codes ".*")
    × (asked ≡ stem ++ b'.' ∷ rest)

without_last-snoc : (xs : Text) (c : ℕ) → without_last (xs ++ c ∷ []) ≡ xs
unfolding without_last
without_last-snoc [] c = refl
without_last-snoc (x ∷ []) c = refl
without_last-snoc (x ∷ y ∷ xs) c = ap (◌∷◌ x) (without_last-snoc (y ∷ xs) c)

snoc-without_last : (xs : Text) (c : ℕ) → last? xs ≡ some c → xs ≡ without_last xs ++ c ∷ []
unfolding without_last
snoc-without_last [] c e = cc
snoc-without_last (x ∷ []) c e = ground arith
snoc-without_last (x ∷ y ∷ xs) c e = ap (◌∷◌ x) (snoc-without_last (y ∷ xs) c e)

starts_with-append : (xs ys : Text) → starts_with xs (xs ++ ys) ≡ true
unfolding starts_with
starts_with-append [] ys = refl
starts_with-append (x ∷ xs) ys = ground (arith, starts_with-append xs ys)

starts_with-split : (xs ys : Text) → starts_with xs ys ≡ true → (rest : Text) × (ys ≡ xs ++ rest)
unfolding starts_with
starts_with-split [] ys e = (ys, refl)
starts_with-split (x ∷ xs) [] e = absurd (ground arith)
starts_with-split (x ∷ xs) (y ∷ ys) e =
    let (rest, q) = starts_with-split xs ys (ground arith) in (rest, ground (arith, q))

-- The stem of a pattern, out of its prefix `stem.`.
pattern_stem :
    (granted prefix asked : Text)
    → last? granted ≡ some b'*'
    → without_last granted ≡ prefix
    → ltb 1 (length prefix) ≡ true
    → ends_with b'.' prefix ≡ true
    → starts_with prefix asked ≡ true
    → IsUnder granted asked
unfolding ends_with
pattern_stem granted prefix asked star e long dot begins =
    let dotted : last? prefix ≡ some b'.' = ground arith in
    let split : prefix ≡ without_last prefix ++ b'.' ∷ [] = snoc-without_last prefix b'.' dotted in
    let (rest, q) = starts_with-split prefix asked begins in
    (
      without_last prefix,
      rest,
      ground (
        arith,
        ap (λ (t : Text). length t) split,
        length-append (without_last prefix) (b'.' ∷ []),
      ),
      snoc-without_last granted b'*' star
          ∙ ap (λ t. t ++ b'*' ∷ []) (e ∙ split)
          ∙ append_assoc (without_last prefix) _ _,
      q ∙ ap (λ t. t ++ rest) split ∙ append_assoc (without_last prefix) _ _,
    )

starred : (granted : Text) → ends_with b'*' granted ≡ true → last? granted ≡ some b'*'
unfolding ends_with
starred granted h = ground arith

same : (granted asked : Text) → granted ≡ asked → admits granted asked ≡ true
unfolding admits
same granted asked e = ground arith

admits-IsUnder :
    (granted asked : Text) → admits granted asked ≡ true → (granted ≡ asked) ⊎ IsUnder granted asked
unfolding admits strip_suffix
admits-IsUnder granted asked h = elim (bytes_discrete granted asked) [
  | yes e ↦ inl e
  | no n ↦ inr (
      pattern_stem granted (without_last granted) asked (starred granted (ground arith)) refl
        (ground arith) (ground arith) (ground arith))
]

dotted_prefix : (stem : Text) → without_last (stem ++ codes ".*") ≡ stem ++ b'.' ∷ []
dotted_prefix stem =
    ap without_last (sym (append_assoc stem (b'.' ∷ []) (b'*' ∷ [])))
    ∙ without_last-snoc (stem ++ b'.' ∷ []) b'*'

ends_with-snoc : (c : ℕ) (t : Text) → ends_with c (t ++ c ∷ []) ≡ true
unfolding ends_with
ends_with-snoc c t = ground (arith, last?-snoc t c)

IsUnder-admits : (granted asked : Text) → IsUnder granted asked → admits granted asked ≡ true
unfolding admits strip_suffix
IsUnder-admits granted asked (stem, rest, long, e, q) = ground (
  arith,
  ap without_last e ∙ dotted_prefix stem,
  ap (ends_with b'*') e
      ∙ ap (ends_with b'*') (sym (append_assoc stem (b'.' ∷ []) (b'*' ∷ [])))
      ∙ ends_with-snoc b'*' (stem ++ b'.' ∷ []),
  ends_with-snoc b'.' stem,
  length-append stem (b'.' ∷ []),
  ap (starts_with (stem ++ b'.' ∷ [])) (q ∙ sym (append_assoc stem (b'.' ∷ []) rest))
      ∙ starts_with-append (stem ++ b'.' ∷ []) rest,
)

-- A granted verb admits itself and, if it is `p.*` with `p` not empty, the verbs that begin
-- `p.`; it admits no other verb.
pub admits_lem :
    (granted asked : Text)
    → (admits granted asked ≡ true) ↔ ((granted ≡ asked) ⊎ IsUnder granted asked)
admits_lem granted asked = (admits-IsUnder granted asked, back)
  where
    back : (granted ≡ asked) ⊎ IsUnder granted asked → admits granted asked ≡ true
    back (inl e) = same granted asked e
    back (inr u) = IsUnder-admits granted asked u
