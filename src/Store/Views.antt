-- ===== src/Store/Views.antt =====
-- What the store shows (node/src/store.rs): zones, heads and scans.
use glade.Prelude.{
  ℤ, Bool, Option, none, some, List, [], ◌∷◌, Text, ◌==◌, bytes_eq, if◌then◌else◌, ltb_ℤ, keep,
  last?,
}
use glade.Prelude.BTreeMap.{get}
use glade.Prelude.Order.{bytes_ord, pair_ord}
use glade.External.{External, op_hash}
use glade.Checkpoint.{Floor}
use glade.Wire.{Op, Head, StreamHeads, Zone, ChainId, zone_eq}
use glade.Store.Types.{Logs, Register, Store}
use glade.Store.Classify.{held_of}

-- The zone of each chain, in the order of the chains, a run of equal ones once.
unfoldable pub dedup_zones : Zone → Logs → List Zone
dedup_zones z [] = []
dedup_zones z (((zone, origin), ops) ∷ logs) =
    let rest = dedup_zones zone logs in if z == zone then rest else zone ∷ rest

unfoldable pub zones_of : Logs → List Zone
unfolding dedup_zones
zones_of [] = []
zones_of (((zone, origin), ops) ∷ logs) = zone ∷ dedup_zones zone logs

unfoldable pub zones : Store → List Zone
unfolding zones_of
zones s = zones_of s.logs

abbrev pub from_seq : ℤ → Op → Bool
from_seq from o = ltb_ℤ from o.seq

-- The ops of a chain above a seq.
unfoldable pub scan : Store → ChainId → ℤ → List Op
scan s chain from = keep (from_seq from) (held_of s.logs chain)

module _ (x : External) where
  -- A chain's last seq and hash, or its floor while nothing is held above it.
  unfoldable pub tip : Register → ChainId → List Op → Option Floor
  tip register chain ops = elim (last? ops) [
    | some op ↦ some (op.seq, op_hash x op)
    | none ↦ elim (get chain register) [ none ↦ none | some (op, floor) ↦ some floor ]
  ]

  unfoldable pub heads_in : Register → Zone → Logs → List (Text × ℤ)
  unfolding tip
  heads_in register z [] = []
  heads_in register z (((zone, origin), ops) ∷ logs) =
      let rest = heads_in register z logs in
      if zone == z
      then (elim (tip register (zone, origin) ops) [
        | none ↦ rest
        | some (seq, hash) ↦ (origin, seq) ∷ rest
      ])
      else rest

  -- Each origin's last seq in a zone.
  unfoldable pub heads : Store → Zone → List (Text × ℤ)
  unfolding heads_in
  heads s z = heads_in s.register z s.logs

  unfoldable pub zone_heads_in : Register → Zone → Logs → List Head
  unfolding tip
  zone_heads_in register z [] = []
  zone_heads_in register z (((zone, origin), ops) ∷ logs) =
      let rest = zone_heads_in register z logs in
      if zone == z
      then (elim (tip register (zone, origin) ops) [
        | none ↦ rest
        | some (seq, hash) ↦ record { origin = origin; seq = seq; hash = some hash } ∷ rest
      ])
      else rest

  -- One zone's version vector.
  unfoldable pub zone_heads : Store → Zone → StreamHeads
  unfolding zone_heads_in
  zone_heads s z = record {
    share = z.0;
    glade_id = z.1.0;
    key = z.1.1;
    heads = zone_heads_in s.register z s.logs;
  }

  unfoldable pub heads_of_zones : Store → List Zone → List StreamHeads
  heads_of_zones s [] = []
  heads_of_zones s (z ∷ rest) = zone_heads s z ∷ heads_of_zones s rest

  -- Every zone's version vector.
  unfoldable pub all_heads : Store → List StreamHeads
  unfolding heads_of_zones
  all_heads s = heads_of_zones s (zones s)
