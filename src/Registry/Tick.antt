-- ===== src/Registry/Tick.antt =====
-- A renewal tick (`superseded`, `due` and `tick` of node/src/checkpoint.rs): a node appends its renewals,
-- and folds its claims once enough of them are superseded.
use glade.Prelude.{
  ℕ, suc, ◌-◌, ℤ, Bool, true, false, ◌&&◌, Option, none, some, List, [], ◌∷◌, ◌++◌, Text, ◌==◌,
  bytes_eq, if◌then◌else◌, leb_ℤ, ltb, any, length, last?, Result, ok, and_then,
}
use glade.External.{External, op_hash}
use glade.Checkpoint.{Floor}
use glade.Directory
use glade.SystemData.{ServeClaim, claim_from_cbor}
use glade.Wire.{Op}
use glade.Registry.{Registry, RegistryError}
use glade.Registry.Folds.{folded, chain}
use glade.Registry.Persist.{Record, append_returning}

-- A later claim of the same node and share, with an epoch at least as high and a lease that ends no
-- earlier.
unfoldable pub is_over : ServeClaim → ServeClaim → Bool
is_over claim later =
    (later.node == claim.node && later.share == claim.share)
    && leb_ℤ claim.epoch later.epoch
    && leb_ℤ claim.lease_expiry_ms later.lease_expiry_ms

-- The claims that nothing supersedes, from the last, and which of the list are superseded.
unfoldable pub scan_back : List ServeClaim → List ServeClaim × List Bool
unfolding is_over
scan_back [] = ([], [])
scan_back (c ∷ claims) =
    let (standing, gone) = scan_back claims in
    if any (is_over c) standing then (standing, true ∷ gone) else (standing ++ c ∷ [], false ∷ gone)

unfoldable pub superseded : List ServeClaim → List Bool
unfolding scan_back
superseded claims = (scan_back claims).1

unfoldable pub count_gone : List Bool → ℕ
count_gone [] = 0
count_gone (gone ∷ rest) = let n = count_gone rest in if gone then suc n else n

-- claims.zip(gone) without what is gone.
unfoldable pub standing_of : List ServeClaim → List Bool → List ServeClaim
standing_of [] gone = []
standing_of (c ∷ claims) [] = []
standing_of (c ∷ claims) (g ∷ gone) =
    let rest = standing_of claims gone in if g then rest else c ∷ rest

-- What a tick folds: the floor at the chain's tip, the claims that it carries over, and how many the
-- floor covers.
pub record Due : Type 0 where
  pub floor : Option Floor
  pub carried : List ServeClaim
  pub covered : ℕ

abbrev pub not_due : Due
not_due = record { floor = none; carried = []; covered = 0 }

pub record Folded : Type 0 where
  pub base : ℤ
  pub dropped : ℕ
  pub carried : ℕ

module _ (x : External) where
  unfoldable pub due_at : Op → List Op → List ServeClaim → List ServeClaim → ℕ → Due
  unfolding superseded count_gone standing_of
  due_at tip held claims renewals after =
      if ltb (count_gone (superseded claims)) after then not_due else record {
        floor = some (tip.seq, op_hash x tip);
        carried = standing_of claims (superseded (claims ++ renewals));
        covered = length held;
      }

  unfoldable pub due : List Op → List ServeClaim → ℕ → Due
  unfolding due_at
  due held renewals after = elim (last? held) [
    | none ↦ not_due
    | some tip ↦
        if ltb (length held) after
        then not_due
        else due_at tip held (folded x claim_from_cbor held) renewals after
  ]

  -- The claims appended in their order, up to the first that is refused.
  unfoldable pub append_claims :
      Text → List ServeClaim → Registry → Result RegistryError (List Op) × Registry
  append_claims node [] r = (ok [], r)
  append_claims node (c ∷ claims) r =
      and_then (append_returning x (Record.serve c) node r)
        λ op after. and_then (append_claims node claims after) λ ops end. (ok (op ∷ ops), end)

  unfoldable pub append_checkpoint :
      Text
      → Due
      → List Op
      → Floor
      → Registry
      → Result RegistryError (List Op × Option Folded) × Registry
  append_checkpoint node d ops (base, hash) r =
      let rec : Record =
        Record.checkpoint
          (record { node = node; stream = Directory.g_claims; seq = base; hash = hash }) in
      and_then (append_returning x rec node r) λ op after. (
        ok (
          ops ++ op ∷ [],
          some (record {
            base = base;
            dropped = d.covered - length d.carried;
            carried = length d.carried;
          }),
        ),
        after,
      )

  unfoldable pub tick_due :
      Text
      → Due
      → List ServeClaim
      → Registry
      → Result RegistryError (List Op × Option Folded) × Registry
  unfolding append_claims append_checkpoint
  tick_due node d renewals r = and_then (append_claims node (d.carried ++ renewals) r) λ ops after.
      (elim d.floor [
        | none ↦ (ok (ops, none), after)
        | some floor ↦ append_checkpoint node d ops floor after
      ])

  unfoldable pub tick :
      Text
      → List ServeClaim
      → ℕ
      → Registry
      → Result RegistryError (List Op × Option Folded) × Registry
  unfolding tick_due
  tick node renewals after r =
      tick_due node (due (chain r Directory.g_claims node) renewals after) renewals r
