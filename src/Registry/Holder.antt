-- ===== src/Registry/Holder.antt =====
-- Who serves a share (node/src/registry.rs): the highest live claim, whatever the order they are held in.
use glade.Prelude.{
  ℤ, ◌≡◌, ◌⊎◌, inl, inr, refl, sym, ap, subst, ◌∙◌, Bool, true, false, ◌&&◌, none, some, List, [],
  ◌∷◌, arith, Text, ◌==◌, bytes_eq, bytes_discrete, int_eq, keep, any, All, any-sort_by, Bool-cases,
  Result, ok, err, DecEq, ℕ_discrete,
}
use glade.Prelude.Order.{bytes_ord, lt_bytes, lt_bytes_irrefl, lt_bytes_trans, lt_bytes_total}
use glade.External.{External}
use glade.Directory
use glade.SystemData.{ServeClaim, claim_from_cbor}
use glade.Wire.{Op}
use glade.Wire.Cbor.{Cbor}
use glade.Wire.Decode.{DecodeError}
use glade.Registry.{Registry}
use glade.Registry.Folds.{
  outranks, is_live, best, holder_of, claims_of, who_serves, folded, record_of, fold_iter, fold_lt,
  on_stream,
}

unfoldable pub claim_discrete : Discrete ServeClaim
claim_discrete = hlevel ℕ_discrete

instance abbrev pub claim_eq : DecEq ServeClaim
claim_eq = record { dec = claim_discrete }

pub outranks_trans :
    (a b c : ServeClaim) → outranks a b ≡ true → outranks b c ≡ true → outranks a c ≡ true
unfolding outranks
outranks_trans a b c h k = ground (arith, lt_bytes_trans a.node b.node c.node)

pub outranks_chain :
    (a b c : ServeClaim) → outranks a b ≡ false → outranks b c ≡ false → outranks a c ≡ false
unfolding outranks
outranks_chain a b c h k = elim (bytes_discrete b.node c.node) [
  | yes e ↦ ground (arith, ap (λ t. lt_bytes a.node t) e)
  | no n ↦ ground (
    arith,
    lt_bytes_total b.node c.node n,
    lt_bytes_trans a.node c.node b.node,
    lt_bytes_trans c.node b.node a.node,
  )
]

pub outranks_self : (a : ServeClaim) → outranks a a ≡ false
unfolding outranks
outranks_self a = ground (arith, lt_bytes_irrefl a.node)

pub outranks_flip : (a b : ServeClaim) → outranks a b ≡ true → outranks b a ≡ false
outranks_flip a b h = elim (Bool-cases (outranks b a)) [
  | inr e ↦ e
  | inl e ↦ absurd (ground (arith, outranks_trans a b a h e, outranks_self a))
]

-- Claims that neither outranks are of one node.
pub outranks_tie :
    (a b : ServeClaim) → outranks a b ≡ false → outranks b a ≡ false → a.node ≡ b.node
unfolding outranks
outranks_tie a b h k = elim (bytes_discrete a.node b.node) [
  | yes e ↦ e
  | no n ↦ absurd (ground (arith, lt_bytes_total a.node b.node n))
]

best_max :
    (a : ServeClaim) (bs : List ServeClaim) → All (λ d. outranks d (best a bs) ≡ false) (a ∷ bs)
unfolding best
best_max a [] = (outranks_self a, tt)
best_max a (b ∷ bs) = elim (Bool-cases (outranks a b)) [
  | inl h ↦
      let (top, rest) = best_max a bs in
      let second = outranks_chain b a (best a bs) (outranks_flip a b h) top in
      subst IsTop (sym (ground (arith, h))) (top, (second, rest))
  | inr h ↦
      let (top, rest) = best_max b bs in
      let first = outranks_chain a b (best b bs) h top in
      subst IsTop (sym (ground (arith, h))) (first, (top, rest))
]
  where
    IsTop : ServeClaim → Type 0
    IsTop w = All (λ d. outranks d w ≡ false) (a ∷ b ∷ bs)

best_held : (a : ServeClaim) (bs : List ServeClaim) → any (λ d. d == best a bs) (a ∷ bs) ≡ true
unfolding best
best_held a [] = ground arith
best_held a (b ∷ bs) = elim (Bool-cases (outranks a b)) [
  | inl h ↦ ground (arith, h, best_held a bs)
  | inr h ↦ ground (arith, h, best_held b bs)
]

-- What holds of a claim that a test kept, and of one that no other may outrank.
abbrev pub Holds : List ServeClaim → Text → ℤ → ServeClaim → Type 0
Holds claims share now c =
    (any (λ d. d == c) (keep (is_live share now) claims) ≡ true)
    × All (λ d. outranks d c ≡ false) (keep (is_live share now) claims)

pub holder_of_lem :
    (claims : List ServeClaim)
    → ((claims ≡ []) × (holder_of claims ≡ none))
      ⊎ ((c : ServeClaim) × (holder_of claims ≡ some c.node)
          × (any (λ d. d == c) claims ≡ true)
          × All (λ d. outranks d c ≡ false) claims)
unfolding holder_of
holder_of_lem [] = inl (refl, refl)
holder_of_lem (a ∷ rest) = inr (best a rest, refl, best_held a rest, best_max a rest)

-- No node serves a share exactly where no claim of it that the registry holds is live at the
-- reader's clock, and otherwise the node of a live claim does that no live claim outranks.
pub who_serves-Holds :
    (x : External) (r : Registry) (share : Text) (now : ℤ)
    → ((keep (is_live share now) (claims_of x r) ≡ []) × (who_serves x r share now ≡ none))
      ⊎ ((c : ServeClaim) × (who_serves x r share now ≡ some c.node)
          × Holds (claims_of x r) share now c)
unfolding who_serves
who_serves-Holds x r share now = elim (holder_of_lem (keep (is_live share now) (claims_of x r))) [
  | inl (e, h) ↦ inl (e, h)
  | inr (c, h, m, l) ↦ inr (c, h, (m, l))
]

-- What a fold reads of the ops does not depend on their order.
any-folded :
    {A : Type 0} (x : External) (from : Cbor → Result DecodeError A) (p : A → Bool) (ops : List Op)
    → any p (folded x from ops)
      ≡ any (λ o. elim (record_of x from o) [ ok a ↦ p a | err why ↦ false ]) ops
unfolding folded
any-folded x from p [] = refl
any-folded x from p (o ∷ ops) = ground (arith, any-folded x from p ops)

pub any-keep :
    {A : Type 0} (p q : A → Bool) (xs : List A) → any p (keep q xs) ≡ any (λ a. q a && p a) xs
any-keep p q [] = refl
any-keep p q (a ∷ xs) = ground (arith, any-keep p q xs)

any-claims_of :
    (x : External) (r : Registry) (p : ServeClaim → Bool)
    → any p (claims_of x r)
      ≡ any
          (λ o.
            on_stream Directory.g_claims o
            && (elim (record_of x claim_from_cbor o) [ ok a ↦ p a | err why ↦ false ]))
          r.ops
unfolding claims_of fold_iter
any-claims_of x r p =
    any-folded x claim_from_cbor p (fold_iter r Directory.g_claims)
    ∙ any-sort_by _ fold_lt (keep (on_stream Directory.g_claims) r.ops)
    ∙ any-keep _ (on_stream Directory.g_claims) r.ops

-- Two registries that hold the same ops.
abbrev pub SameOps : Registry → Registry → Type 0
SameOps r s = (p : Op → Bool) → any p r.ops ≡ any p s.ops

-- Nothing that a predicate takes, and then nothing at all.
none-any : {A : Type 0} (cs : List A) → any (λ a. true) cs ≡ false → cs ≡ []
none-any [] h = refl
none-any (a ∷ rest) h = absurd (cc h)

pub All-any :
    {A : Type 0} (p : A → Bool) (xs : List A) → All (λ a. p a ≡ false) xs → any p xs ≡ false
All-any p [] h = refl
All-any p (a ∷ xs) h = ground (arith, All-any p xs h.1)

pub any_rank :
    (c d : ServeClaim) (live : List ServeClaim)
    → any (λ a. a == c) live ≡ true
    → any (λ a. outranks a d) live ≡ false
    → outranks c d ≡ false
any_rank c d [] h k = absurd (cc h)
any_rank c d (a ∷ live) h k = elim (claim_discrete a c) [
  | yes e ↦ ground (arith, ap (λ t. outranks t d) e)
  | no n ↦ any_rank c d live (ground arith) (ground arith)
]

-- Two lists of the same claims have one holder.
holder_of-same :
    (cs bs : List ServeClaim)
    → ((p : ServeClaim → Bool) → any p cs ≡ any p bs)
    → holder_of cs ≡ holder_of bs
holder_of-same cs bs same = elim (holder_of_lem cs) [
  | inl (e, h) ↦ elim (holder_of_lem bs) [
    | inl (f, k) ↦ h ∙ sym k
    | inr (d, k, m, l) ↦ absurd (cc (same (λ a. a == d), m, ap (any (λ a. a == d)) e))
  ]
  | inr (c, h, m, l) ↦ elim (holder_of_lem bs) [
    | inl (f, k) ↦ absurd (cc (same (λ a. a == c), m, ap (any (λ a. a == c)) f))
    | inr (d, k, n, o) ↦
        let cd = any_rank c d bs (sym (same (λ a. a == c)) ∙ m) (All-any _ bs o) in
        let dc = any_rank d c cs (same (λ a. a == d) ∙ n) (All-any _ cs l) in
        h ∙ ap some (outranks_tie c d cd dc) ∙ sym k
  ]
]

-- Registries that hold the same ops, in whichever order, name the same holder of every share at
-- every clock.
pub who_serves-same :
    (x : External) (r s : Registry) (share : Text) (now : ℤ)
    → SameOps r s
    → who_serves x r share now ≡ who_serves x s share now
unfolding who_serves
who_serves-same x r s share now same =
    holder_of-same (keep (is_live share now) (claims_of x r))
      (keep (is_live share now) (claims_of x s))
      (λ p.
        any-keep p (is_live share now) (claims_of x r)
        ∙ any-claims_of x r _
        ∙ same _
        ∙ sym (any-claims_of x s _)
        ∙ sym (any-keep p (is_live share now) (claims_of x s)))
