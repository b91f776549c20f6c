-- ===== src/Sync.antt =====
-- Resume and convergence (node/src/session.rs): what a peer that announces its heads is sent, the
-- order that its zones are sent in, and the statuses of ops and subscribes.
pub mod Sent
pub mod Gap
pub mod Isolation
pub mod Receipt
pub mod Order
use glade.Prelude.{
  ℕ, ℤ, Bool, true, false, not, ◌&&◌, Option, none, some, List, [], ◌∷◌, ◌++◌, Text, Bytes, ◌==◌,
  bytes_eq, if◌then◌else◌, i64_min,
}
use glade.Prelude.BTreeMap.{BTreeMap, get, insert}
use glade.Prelude.Order.{bytes_ord}
use glade.External.{External, op_hash}
use glade.Directory
use glade.NodeId.{hex}
use glade.Wire.{Op, StreamHeads, ErrorCode, Zone}
use glade.Store.Types.{Store, StoreError}
use glade.Store.Views.{heads, zone_heads, scan}

-- A peer's per-origin heads: origin to the highest seq held.
abbrev pub Heads : Type 0
Heads = BTreeMap Text ℤ

unfoldable pub collect : List (Text × ℤ) → Heads → Heads
collect [] map = map
collect ((origin, seq) ∷ entries) map = collect entries (insert origin seq map)

unfoldable pub heads_map : External → Store → Zone → Heads
heads_map x s z = collect (heads x s z) []

-- Where an origin's replay starts: at the peer's head, or below every seq.
unfoldable pub from_of : Heads → Text → ℤ
from_of their origin = elim (get origin their) [ none ↦ i64_min | some seq ↦ seq ]

unfoldable pub missing_of : Store → Zone → Heads → List (Text × ℤ) → List Op
missing_of s z their [] = []
missing_of s z their ((origin, head) ∷ entries) =
    scan s (z, origin) (from_of their origin) ++ missing_of s z their entries

-- Of each origin of the zone, every op above the peer's head.
unfoldable pub missing_for : External → Store → Zone → Heads → List Op
missing_for x s z their = missing_of s z their (heads x s z)

abbrev pub serves_checkpoints : Zone → Bool
serves_checkpoints (share, (glade_id, key)) =
    share == Directory.home && glade_id == Directory.g_checkpoints

-- `sort_by_key` on a test's negation: a stable insertion after every zone whose key is no higher.
unfoldable pub insert_zone : Zone → List Zone → List Zone
insert_zone z [] = z ∷ []
insert_zone z (y ∷ zones) =
    let rest = insert_zone z zones in
    if serves_checkpoints z && not (serves_checkpoints y) then z ∷ y ∷ zones else y ∷ rest

unfoldable pub sort_zones : List Zone → List Zone → List Zone
sort_zones sorted [] = sorted
sort_zones sorted (z ∷ zones) = sort_zones (insert_zone z sorted) zones

unfoldable pub serve_order : List Zone → List Zone
serve_order zones = sort_zones [] zones

-- What an `Error` frame says, and the frames that answer a subscribe.
pub record Error : Type 0 where
  pub code : ErrorCode
  pub message : Text
  pub share : Option Text
  pub glade_id : Option Text
  pub corr : Option Text

pub data Frame : Type 0 where
  stream_heads : List StreamHeads → Frame
  error : Error → Frame

unfoldable pub ack : External → Store → Zone → Frame
ack x s z = Frame.stream_heads (zone_heads x s z ∷ [])

unfoldable pub refusal_frame : ErrorCode → Text → Text → Text → Frame
refusal_frame code message share glade_id = Frame.error (record {
  code = code;
  message = message;
  share = some share;
  glade_id = some glade_id;
  corr = none;
})

unfoldable pub refused_subscribe : ErrorCode → Text → Text → Text → List Frame
refused_subscribe code message share glade_id =
    Frame.stream_heads [] ∷ refusal_frame code message share glade_id ∷ []

-- The status of one client op, named by its hash in hex.
unfoldable pub op_status : External → Op → ErrorCode → Text → Frame
op_status x op code message = Frame.error (record {
  code = code;
  message = message;
  share = some op.share;
  glade_id = some op.glade_id;
  corr = some (hex (op_hash x op));
})

unfoldable pub error_code : StoreError → ErrorCode
error_code (StoreError.equivocation origin seq) = ErrorCode.equivocation
error_code (StoreError.chain_break origin seq) = ErrorCode.protocol
error_code (StoreError.gap expected got) = ErrorCode.protocol
error_code (StoreError.invalid_swmr_payload e) = ErrorCode.protocol
error_code (StoreError.swmr_writer_conflict expected got) = ErrorCode.protocol
error_code (StoreError.shape_conflict expected got) = ErrorCode.protocol
error_code (StoreError.unverified origin seq why) = ErrorCode.unauthorized
error_code (StoreError.rewrite origin seq) = ErrorCode.equivocation
error_code (StoreError.io e) = ErrorCode.internal

-- A rejected append's status. The message is the caller's: its text is not modelled.
unfoldable pub error_frame : External → StoreError → Op → Text → Frame
error_frame x e op message = op_status x op (error_code e) message
