-- ===== src/Registry/Superseded.antt =====
-- A claim that is superseded changes no answer (`superseded` and `due` of node/src/checkpoint.rs).
use glade.Prelude.{
  ℕ, ℤ, ◌≡◌, inl, inr, refl, sym, subst, ◌∙◌, Bool, true, some, List, [], ◌∷◌, ◌++◌, arith, Text,
  bytes_eq, int_eq, keep, any, any-append, All-append, Bool-cases,
}
use glade.Prelude.Order.{bytes_ord}
use glade.External.{External}
use glade.Checkpoint.{Floor}
use glade.SystemData.{ServeClaim, claim_from_cbor}
use glade.Wire.{Op}
use glade.Registry.Folds.{is_live, holder_of, folded}
use glade.Registry.Holder.{claim_eq}
use glade.Registry.Tick.{is_over, scan_back, superseded, standing_of, due, due_at}
use glade.Registry.Covered.{IsPart, IsCovered, is_over_self, covered-holder}

-- What a scan leaves standing is what the answer keeps.
standing_of-scan :
    (p : ServeClaim → Bool) (cs : List ServeClaim)
    → any p (standing_of cs (superseded cs)) ≡ any p (scan_back cs).0
unfolding superseded scan_back standing_of
standing_of-scan p [] = refl
standing_of-scan p (c ∷ cs) = elim (Bool-cases (any (is_over c) (scan_back cs).0)) [
  | inl e ↦ ground (arith, e, standing_of-scan p cs)
  | inr e ↦ ground (arith, e, standing_of-scan p cs, any-append p (scan_back cs).0 (c ∷ []))
]

IsCovered-more :
    (cs ks ms : List ServeClaim)
    → ((a : ServeClaim) → any (is_over a) ks ≡ true → any (is_over a) ms ≡ true)
    → IsCovered cs ks
    → IsCovered cs ms
IsCovered-more [] ks ms f h = tt
IsCovered-more (c ∷ cs) ks ms f h = (f c h.0, IsCovered-more cs ks ms f h.1)

IsCovered-self : (cs : List ServeClaim) → IsCovered cs cs
IsCovered-self [] = tt
IsCovered-self (c ∷ cs) = (
  ground (arith, is_over_self c),
  IsCovered-more cs cs (c ∷ cs) (λ a h. ground (arith, h)) (IsCovered-self cs),
)

scan_back-IsCovered : (cs : List ServeClaim) → IsCovered cs (scan_back cs).0
unfolding scan_back
scan_back-IsCovered [] = tt
scan_back-IsCovered (c ∷ cs) = elim (Bool-cases (any (is_over c) (scan_back cs).0)) [
  | inl e ↦ ground (arith, e, scan_back-IsCovered cs)
  | inr e ↦
      let held : IsCovered (c ∷ cs) ((scan_back cs).0 ++ c ∷ []) = (
        ground (arith, any-append (is_over c) (scan_back cs).0 (c ∷ []), is_over_self c),
        IsCovered-more cs (scan_back cs).0 _
            (λ a h. ground (arith, h, any-append (is_over a) (scan_back cs).0 (c ∷ [])))
            (scan_back-IsCovered cs),
      ) in
      subst (IsCovered (c ∷ cs)) (sym (ground (arith, e))) held
]

superseded-IsCovered : (cs : List ServeClaim) → IsCovered cs (standing_of cs (superseded cs))
superseded-IsCovered cs =
    IsCovered-more cs (scan_back cs).0 _ (λ a h. standing_of-scan (is_over a) cs ∙ h)
      (scan_back-IsCovered cs)

standing_of-IsPart : (cs : List ServeClaim) (gone : List Bool) → IsPart (standing_of cs gone) cs
unfolding standing_of
standing_of-IsPart [] gone p h = h
standing_of-IsPart (c ∷ cs) [] p h = absurd (cc h)
standing_of-IsPart (c ∷ cs) (g ∷ gone) p h = ground (arith, standing_of-IsPart cs gone p)

-- What is left of a list that another follows.
standing_of-append :
    (p : ServeClaim → Bool) (cs ds : List ServeClaim) (gone : List Bool)
    → any p (standing_of (cs ++ ds) gone) ≡ true
    → any p (standing_of cs gone ++ ds) ≡ true
unfolding standing_of
standing_of-append p [] ds gone h = standing_of-IsPart ds gone p h
standing_of-append p (c ∷ cs) ds [] h = absurd (cc h)
standing_of-append p (c ∷ cs) ds (g ∷ gone) h = ground (arith, h, standing_of-append p cs ds gone)

-- The claims that no later one supersedes answer as all of them do: of every share, at every
-- reader's clock, whatever claims stand beside them.
pub superseded-holder :
    (others claims renewals : List ServeClaim) (share : Text) (now : ℤ)
    → holder_of (
        keep
          (is_live share now)
          (others ++ (standing_of claims (superseded (claims ++ renewals)) ++ renewals)))
      ≡ holder_of (keep (is_live share now) (others ++ (claims ++ renewals)))
superseded-holder others claims renewals share now =
    covered-holder share now (others ++ (kept ++ renewals)) (others ++ (claims ++ renewals)) part
      covered
  where
    gone : List Bool
    gone = superseded (claims ++ renewals)

    kept : List ServeClaim
    kept = standing_of claims gone

    part : IsPart (others ++ (kept ++ renewals)) (others ++ (claims ++ renewals))
    part p h = ground (
      arith,
      h,
      any-append p others (kept ++ renewals),
      any-append p others (claims ++ renewals),
      any-append p kept renewals,
      any-append p claims renewals,
      standing_of-IsPart claims gone p,
    )

    covered : IsCovered (others ++ (claims ++ renewals)) (others ++ (kept ++ renewals))
    covered =
        All-append _ others (claims ++ renewals)
          (IsCovered-more others others _
            (λ a h. ground (arith, h, any-append (is_over a) others (kept ++ renewals)))
            (IsCovered-self others))
          (IsCovered-more (claims ++ renewals) (standing_of (claims ++ renewals) gone) _
            (λ a h. ground (
              arith,
              standing_of-append (is_over a) claims renewals gone h,
              any-append (is_over a) others (kept ++ renewals),
            ))
            (superseded-IsCovered (claims ++ renewals)))

-- A tick that folds carries over enough: with its renewals, the claims that it carries name the
-- same holder as all that its chain held do, of every share and at every reader's clock,
-- whatever claims stand beside them.
pub due-holder :
    (x : External) (held : List Op) (renewals others : List ServeClaim) (after : ℕ) (floor : Floor)
    (share : Text) (now : ℤ)
    → (due x held renewals after).floor ≡ some floor
    → holder_of
        (keep (is_live share now) (others ++ ((due x held renewals after).carried ++ renewals)))
      ≡ holder_of (keep (is_live share now) (others ++ (folded x claim_from_cbor held ++ renewals)))
unfolding due due_at
due-holder x held renewals others after floor share now h =
    ground (arith, superseded-holder others (folded x claim_from_cbor held) renewals share now)
