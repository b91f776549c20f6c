-- ===== src/Registry/Covered.antt =====
-- Lists of claims where one is part of the other and covers it: they have one holder.
use glade.Prelude.{
  ℤ, ◌≡◌, inl, inr, sym, ap, subst, ◌∙◌, Bool, true, false, some, List, [], ◌∷◌, arith, Text, ◌==◌,
  bytes_eq, int_eq, keep, any, All, Bool-cases,
}
use glade.Prelude.Order.{bytes_ord, lt_bytes_irrefl}
use glade.SystemData.{ServeClaim}
use glade.Registry.Folds.{outranks, is_live, holder_of}
use glade.Registry.Holder.{claim_discrete, claim_eq, outranks_chain, outranks_tie, holder_of_lem}
use glade.Registry.Tick.{is_over}

-- Every claim that a predicate takes of one list is taken of the other.
abbrev pub IsPart : List ServeClaim → List ServeClaim → Type 0
IsPart ks cs = (p : ServeClaim → Bool) → any p ks ≡ true → any p cs ≡ true

-- Each claim has one over it in the other list.
abbrev pub IsCovered : List ServeClaim → List ServeClaim → Type 0
IsCovered cs ks = All (λ a. any (is_over a) ks ≡ true) cs

pub is_over_self : (a : ServeClaim) → is_over a a ≡ true
unfolding is_over
is_over_self a = ground arith

is_over_trans : (a b c : ServeClaim) → is_over a b ≡ true → is_over b c ≡ true → is_over a c ≡ true
unfolding is_over
is_over_trans a b c h k = ground arith

is_over-is_live :
    (share : Text) (now : ℤ) (a b : ServeClaim)
    → is_over a b ≡ true
    → is_live share now a ≡ true
    → is_live share now b ≡ true
unfolding is_over is_live
is_over-is_live share now a b h k = ground arith

is_over-outranks : (a b : ServeClaim) → is_over a b ≡ true → outranks a b ≡ false
unfolding is_over outranks
is_over-outranks a b h = ground (arith, lt_bytes_irrefl a.node)

any-member :
    (p : ServeClaim → Bool) (cs : List ServeClaim)
    → any p cs ≡ true
    → (c : ServeClaim) × (p c ≡ true) × (any (λ a. a == c) cs ≡ true)
any-member p [] h = absurd (cc h)
any-member p (a ∷ cs) h = elim (Bool-cases (p a)) [
  | inl e ↦ (a, e, ground arith)
  | inr e ↦ let (c, t, m) = any-member p cs (ground arith) in (c, t, ground (arith, m))
]

All-member {ℓ} :
    (P : ServeClaim → Type ℓ) (c : ServeClaim) (cs : List ServeClaim)
    → All P cs
    → any (λ a. a == c) cs ≡ true
    → P c
All-member P c [] h m = absurd (cc m)
All-member P c (a ∷ cs) h m = elim (claim_discrete a c) [
  | yes e ↦ subst P e h.0
  | no n ↦ All-member P c cs h.1 (ground arith)
]

module _ (share : Text) (now : ℤ) where
  abbrev live : List ServeClaim → List ServeClaim
  live = keep (is_live share now)

  member-live :
      (c : ServeClaim) (cs : List ServeClaim)
      → any (λ a. a == c) (live cs) ≡ true
      → (any (λ a. a == c) cs ≡ true) × (is_live share now c ≡ true)
  member-live c [] h = absurd (cc h)
  member-live c (a ∷ cs) h = elim (Bool-cases (is_live share now a)) [
    | inr d ↦ ground (arith, d, member-live c cs)
    | inl l ↦ elim (claim_discrete a c) [
      | yes e ↦ (ground (arith, e), subst (λ t. is_live share now t ≡ true) e l)
      | no n ↦ ground (arith, l, member-live c cs)
    ]
  ]

  live-member :
      (c : ServeClaim) (cs : List ServeClaim)
      → any (λ a. a == c) cs ≡ true
      → is_live share now c ≡ true
      → any (λ a. a == c) (live cs) ≡ true
  live-member c [] h l = absurd (cc h)
  live-member c (a ∷ cs) h l = elim (claim_discrete a c) [
    | yes e ↦ ground (arith, ap (is_live share now) e)
    | no n ↦ ground (arith, live-member c cs)
  ]

  -- Lists where one is part of the other, and covers it, have one holder.
  pub covered-holder :
      (ks cs : List ServeClaim)
      → IsPart ks cs
      → IsCovered cs ks
      → holder_of (live ks) ≡ holder_of (live cs)
  covered-holder ks cs part covered = elim (holder_of_lem (live ks)) [
    | inl (e, h) ↦ elim (holder_of_lem (live cs)) [
      | inl (f, k) ↦ h ∙ sym k
      | inr (d, k, m, top) ↦
          let (a, over, n, l) = upper d m in
          absurd (cc (live-member a ks n l, ap (any (λ t. t == a)) e))
    ]
    | inr (c, h, m, top) ↦
        let (mem, l) = member-live c ks m in
        let held = live-member c cs (part (λ a. a == c) mem) l in
        elim (holder_of_lem (live cs)) [
          | inl (f, k) ↦ absurd (cc (held, ap (any (λ t. t == c)) f))
          | inr (d, k, n, highest) ↦
              let (a, over, i, j) = upper d n in
              let below : outranks a c ≡ false =
                All-member _ a (live ks) top (live-member a ks i j) in
              h
              ∙ ap some (
                  outranks_tie c d (All-member _ c (live cs) highest held)
                    (outranks_chain d a c (is_over-outranks d a over) below))
              ∙ sym k
        ]
  ]
    where
      upper :
          (d : ServeClaim)
          → any (λ t. t == d) (live cs) ≡ true
          → (a : ServeClaim) × (is_over d a ≡ true)
            × (any (λ t. t == a) ks ≡ true)
            × (is_live share now a ≡ true)
      upper d m =
          let (mem, l) = member-live d cs m in
          let (a, over, n) = any-member (is_over d) ks (All-member _ d cs covered mem) in
          (a, over, n, is_over-is_live share now d a over l)
