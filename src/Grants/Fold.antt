-- ===== src/Grants/Fold.antt =====
-- What a check answers of the records that were folded (node/src/grants.rs).
use glade.Prelude.{
  ℕ, ◌≡◌, refl, ap, inl, inr, Bool, true, false, ◌&&◌, ◌||◌, none, some, List, [], ◌∷◌, arith, Text,
  ◌==◌, bytes_eq, if◌then◌else◌, any, Result, ok, err, Option-cases,
}
use glade.Prelude.BTreeMap.{get, insert, get-insert_self, get-insert_ne}
use glade.Prelude.Order.{bytes_ord, pair_ord, dec_pair}
use glade.Grants.{
  Holder, Denial, Pair, TextSet, Policy, no_policy, extend, granted_to, grant, revoke, any_admits,
  admits, check_policy, check, grant_name,
}

pub data Record : Type 0 where
  granted : Text → Text → List Text → Record
  revoked : Text → Text → Record

unfoldable pub fold : List Record → Policy → Policy
fold [] policy = policy
fold (Record.granted name share verbs ∷ records) policy =
    fold records (grant name share verbs policy)
fold (Record.revoked name share ∷ records) policy = fold records (revoke name share policy)

-- Whether a record revokes a pair, and whether it grants the pair a verb that admits another.
abbrev pub revokes : Pair → Record → Bool
revokes pair (Record.granted n s verbs) = false
revokes (name, share) (Record.revoked n s) = n == name && s == share

abbrev pub grants : Pair → Text → Record → Bool
grants (name, share) verb (Record.granted n s verbs) =
    (n == name && s == share) && any (λ v. admits v verb) verbs
grants pair verb (Record.revoked n s) = false

unfoldable is_revoked : Policy → Pair → Bool
is_revoked policy pair = elim (get pair policy.revoked) [ none ↦ false | some u ↦ true ]

unfoldable is_granted : Policy → Pair → Text → Bool
is_granted policy pair verb = any_admits (granted_to policy pair) verb

any_admits-insert :
    (v verb : Text) (set : TextSet)
    → any_admits (insert v tt set) verb ≡ (admits v verb || any_admits set verb)
unfolding any_admits insert
any_admits-insert v verb [] = ground arith
any_admits-insert v verb ((w, u) ∷ set) =
    ground (arith, any_admits-insert v verb set, λ (e : v ≡ w). ap (λ v. admits v verb) e)

any_admits-extend :
    (verbs : List Text) (verb : Text) (set : TextSet)
    → any_admits (extend verbs set) verb ≡ (any (λ v. admits v verb) verbs || any_admits set verb)
unfolding extend
any_admits-extend [] verb set = refl
any_admits-extend (v ∷ verbs) verb set =
    ground (arith, any_admits-extend verbs verb (insert v tt set), any_admits-insert v verb set)

is_revoked-grant :
    (n s : Text) (verbs : List Text) (policy : Policy) (pair : Pair)
    → is_revoked (grant n s verbs policy) pair ≡ is_revoked policy pair
unfolding is_revoked grant
is_revoked-grant n s verbs policy pair = refl

is_revoked-revoke :
    (n s : Text) (policy : Policy) (pair : Pair)
    → is_revoked (revoke n s policy) pair
      ≡ (revokes pair (Record.revoked n s) || is_revoked policy pair)
unfolding is_revoked revoke
is_revoked-revoke n s policy pair = elim (dec_pair (n, s) pair) [
  | yes e ↦ ground (arith, get-insert_self (n, s) tt policy.revoked)
  | no m ↦ ground (arith, get-insert_ne (n, s) pair tt policy.revoked m)
]

is_granted-grant :
    (n s : Text) (verbs : List Text) (policy : Policy) (pair : Pair) (verb : Text)
    → is_granted (grant n s verbs policy) pair verb
      ≡ (grants pair verb (Record.granted n s verbs) || is_granted policy pair verb)
unfolding is_granted grant granted_to
is_granted-grant n s verbs policy pair verb = elim (dec_pair (n, s) pair) [
  | yes e ↦ ground (
    arith,
    get-insert_self (n, s) (extend verbs (granted_to policy (n, s))) policy.granted,
    any_admits-extend verbs verb (granted_to policy (n, s)),
  )
  | no m ↦
      ground (
        arith,
        get-insert_ne (n, s) pair (extend verbs (granted_to policy (n, s))) policy.granted m,
      )
]

is_granted-revoke :
    (n s : Text) (policy : Policy) (pair : Pair) (verb : Text)
    → is_granted (revoke n s policy) pair verb ≡ is_granted policy pair verb
unfolding is_granted revoke granted_to
is_granted-revoke n s policy pair verb = refl

is_revoked-fold :
    (records : List Record) (policy : Policy) (pair : Pair)
    → is_revoked (fold records policy) pair ≡ (any (revokes pair) records || is_revoked policy pair)
unfolding fold
is_revoked-fold [] policy pair = refl
is_revoked-fold (Record.granted n s verbs ∷ records) policy pair = ground (
  arith,
  is_revoked-fold records (grant n s verbs policy) pair,
  is_revoked-grant n s verbs policy pair,
)
is_revoked-fold (Record.revoked n s ∷ records) policy pair =
    ground
      (arith, is_revoked-fold records (revoke n s policy) pair, is_revoked-revoke n s policy pair)

is_granted-fold :
    (records : List Record) (policy : Policy) (pair : Pair) (verb : Text)
    → is_granted (fold records policy) pair verb
      ≡ (any (grants pair verb) records || is_granted policy pair verb)
unfolding fold
is_granted-fold [] policy pair verb = refl
is_granted-fold (Record.granted n s verbs ∷ records) policy pair verb = ground (
  arith,
  is_granted-fold records (grant n s verbs policy) pair verb,
  is_granted-grant n s verbs policy pair verb,
)
is_granted-fold (Record.revoked n s ∷ records) policy pair verb = ground (
  arith,
  is_granted-fold records (revoke n s policy) pair verb,
  is_granted-revoke n s policy pair verb,
)

-- The decision of the records themselves, which no order of theirs changes.
abbrev pub decide : List Record → Text → Text → Text → Result Denial (Unit {0})
decide records name verb share =
    if any (revokes (name, share)) records
    then err Denial.revoked
    else if any (grants (name, share) verb) records
    then ok tt
    else err Denial.no_grant

check_policy-cases :
    (policy : Policy) (name verb share : Text)
    → check_policy policy name verb share ≡ (
        if is_revoked policy (name, share)
        then err Denial.revoked
        else if is_granted policy (name, share) verb
        then ok tt
        else err Denial.no_grant)
unfolding check_policy is_revoked is_granted granted_to any_admits
check_policy-cases policy name verb share = ground arith

no_revocation : (pair : Pair) → is_revoked no_policy pair ≡ false
unfolding is_revoked get
no_revocation pair = refl

nothing_granted : (pair : Pair) (verb : Text) → is_granted no_policy pair verb ≡ false
unfolding is_granted granted_to any_admits get
nothing_granted pair verb = refl

check_policy-fold :
    (records : List Record) (name verb share : Text)
    → check_policy (fold records no_policy) name verb share ≡ decide records name verb share
check_policy-fold records name verb share = ground (
  arith,
  check_policy-cases (fold records no_policy) name verb share,
  is_revoked-fold records no_policy (name, share),
  no_revocation (name, share),
  is_granted-fold records no_policy (name, share) verb,
  nothing_granted (name, share) verb,
)

-- A check of a view refuses without a fold and without a name, and otherwise answers what the
-- records of the fold decide: a revocation of the holder on the share wins over every grant, in
-- whichever order they were folded, and without one a grant of an admitting verb is needed.
pub check-decide :
    (records : List Record) (generation : ℕ) (holder : Holder) (verb share : Text)
    → (check (record { generation = generation; fold = none }) holder verb share
        ≡ err Denial.unavailable)
      × (check
            (record { generation = generation; fold = some (fold records no_policy) })
            holder
            verb
            share
          ≡ (elim (grant_name holder) [
            | none ↦ err Denial.no_grant
            | some name ↦ decide records name verb share
          ]))
unfolding check
check-decide records generation holder verb share = (
  refl,
  elim (Option-cases (grant_name holder)) [
    | inl e ↦ ground (arith, e)
    | inr (name, e) ↦ ground (arith, e, check_policy-fold records name verb share)
  ],
)
