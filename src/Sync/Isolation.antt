-- ===== src/Sync/Isolation.antt =====
-- What a peer is sent is of its zone alone (node/src/session.rs).
use glade.Prelude.{ℤ, ◌≡◌, ap, List, [], ◌∷◌, Text, All, All-append, All-keep}
use glade.External.{External}
use glade.Wire.{Op, Zone, ChainId, zone_of, chain_of}
use glade.Store.Types.{Store}
use glade.Store.Classify.{held_of}
use glade.Store.Valid.{IsValid}
use glade.Store.Views.{heads, scan}
use glade.Sync.{Heads, from_of, missing_of, missing_for}

of_zone :
    (z : Zone) (origin : Text) (ops : List Op)
    → All (λ o. chain_of o ≡ (z, origin)) ops
    → All (λ o. zone_of o ≡ z) ops
unfolding chain_of
of_zone z origin [] h = tt
of_zone z origin (o ∷ ops) (e, h) = (ap (λ (c : ChainId). c.0) e, of_zone z origin ops h)

module _ (x : External) (s : Store) (v : IsValid x s) (z : Zone) (their : Heads) where
  scan_zone : (origin : Text) (from : ℤ) → All (λ o. zone_of o ≡ z) (scan s (z, origin) from)
  unfolding scan
  scan_zone origin from = All-keep _ _ _ (of_zone z origin _ (v.logs (z, origin)).keyed)

  missing_of-zone :
      (entries : List (Text × ℤ)) → All (λ o. zone_of o ≡ z) (missing_of s z their entries)
  unfolding missing_of
  missing_of-zone [] = tt
  missing_of-zone ((origin, head) ∷ entries) =
      All-append _ _ _ (scan_zone origin (from_of their origin)) (missing_of-zone entries)

  -- Whatever heads a peer announces for a zone, every op that a valid store sends it is of that
  -- zone: no op of another key of the same stream reaches it.
  pub missing_for-zone : All (λ o. zone_of o ≡ z) (missing_for x s z their)
  unfolding missing_for
  missing_for-zone = missing_of-zone (heads x s z)

-- What holds of every op that a store holds of a zone holds of all that it sends.
pub missing_for-All :
    (P : Op → Type 0) (x : External) (s : Store) (z : Zone) (their : Heads)
    → ((origin : Text) → All P (held_of s.logs (z, origin)))
    → All P (missing_for x s z their)
unfolding missing_for missing_of scan
missing_for-All P x s z their h = of_heads (heads x s z)
  where
    of_heads : (entries : List (Text × ℤ)) → All P (missing_of s z their entries)
    of_heads [] = tt
    of_heads ((origin, head) ∷ entries) =
        All-append _ _ _ (All-keep _ _ _ (h origin)) (of_heads entries)
