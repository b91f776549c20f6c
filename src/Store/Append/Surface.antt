-- ===== src/Store/Append/Surface.antt =====
-- The contract of a zone-surface (`validate_surface_contract` of node/src/store.rs).
use glade.Prelude.{
  Bool, not, ◌&&◌, ◌||◌, List, [], ◌∷◌, Text, ◌==◌, bytes_eq, if◌then◌else◌, Result, ok, err, ◌>>=◌,
  ◌>>◌, map_err,
}
use glade.Prelude.Order.{bytes_ord, pair_ord}
use glade.Wire
use glade.Wire.{Op, Zone, ChainId, Shape, zone_of, shape_eq, zone_eq}
use glade.Wire.Swmr.{decode_swmr}
use glade.Store.Types.{StoreError, Logs}

-- Whether one of two shapes is a writer's or a text's, which share a surface with no other.
unfoldable pub is_exclusive : Shape → Shape → Bool
is_exclusive a b = a == Wire.swmr || b == Wire.swmr || a == Wire.crdt || b == Wire.crdt

-- An op against one chain of its zone, by the chain's first op.
unfoldable pub surface_entry : Op → Text → List Op → Result StoreError (Unit {0})
surface_entry op origin [] = ok tt
surface_entry op origin (first ∷ ops) =
    if is_exclusive op.shape first.shape && not (first.shape == op.shape)
    then err (StoreError.shape_conflict first.shape op.shape)
    else if op.shape == Wire.swmr && not (origin == op.origin)
    then err (StoreError.swmr_writer_conflict origin op.origin)
    else ok tt

unfoldable pub surface_entries : Op → Logs → Result StoreError (Unit {0})
surface_entries op [] = ok tt
surface_entries op (((zone, origin), ops) ∷ logs) =
    (if zone == zone_of op then surface_entry op origin ops else ok tt) >> surface_entries op logs

-- A writer's op carries an action envelope.
unfoldable pub check_payload : Op → Result StoreError (Unit {0})
check_payload op =
    if op.shape == Wire.swmr
    then (map_err StoreError.invalid_swmr_payload (decode_swmr op.payload) >>= λ _. ok tt)
    else ok tt

unfoldable pub check_surface : Op → Logs → Result StoreError (Unit {0})
check_surface op logs = check_payload op >> surface_entries op logs
