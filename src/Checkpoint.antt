-- ===== src/Checkpoint.antt =====
-- Signed checkpoints (node/src/checkpoint.rs): the record's own check, and the rules of the floor and
-- of the register.
use glade.Prelude.{
  ◌≡◌, ◌⊎◌, Bool, not, ◌&&◌, ◌||◌, Option, none, some, arith, ◌==◌, bytes_eq, int_eq,
  maybe_bytes_eq, nat_eq, if◌then◌else◌, ℤ, pos, length, Bytes, Text, ltb_ℤ, leb_ℤ, ◌<ℤ◌, suc_i64,
  Result, ok, err,
}
use glade.External.{External, op_hash}
use glade.Directory.{g_claims}
use glade.Envelope.Parser.{parse}
use glade.Envelope.Record.{record_bytes}
use glade.Wire.{Op}
use glade.Wire.Cbor.{Cbor, int, bytes, text, map, end, entry}

-- Why a home op was refused (`Refused` of node/src/envelope.rs).
pub data Refused : Type 0 where
  unsigned form prev stream kind origin signature checkpoint : Refused

-- The base, and the hash of the op there.
abbrev pub Floor : Type 0
Floor = ℤ × Bytes

pub record Checkpoint : Type 0 where
  pub stream : Text
  pub floor : Floor

pub record ChainCheckpoint : Type 0 where
  pub node : Text
  pub stream : Text
  pub seq : ℤ
  pub hash : Bytes

unfoldable pub compacts : Text → Bool
compacts s = s == g_claims

-- Exactly `{1: text, 2: text, 3: int, 4: bytes}`.
unfoldable pub chain_checkpoint : Option Cbor → Option ChainCheckpoint
chain_checkpoint
      (some (
        map (
          entry (pos a) (text node_) (
            entry
              (pos b)
              (text stream_)
              (entry (pos c) (int seq_) (entry (pos d) (bytes hash_) end)))))) =
    if a == 1 && b == 2 && c == 3 && d == 4
    then some (record { node = node_; stream = stream_; seq = seq_; hash = hash_ })
    else none
chain_checkpoint _ = none

module _ (x : External) where
  unfoldable pub read : Bytes → Option ChainCheckpoint
  unfolding chain_checkpoint
  read raw = chain_checkpoint (parse x raw)

  unfoldable pub check : Op → Result Refused Checkpoint
  unfolding compacts
  check op = elim (read (record_bytes x op.payload)) [
    | none ↦ err checkpoint
    | some r ↦
        if r.node == op.origin && compacts r.stream && leb_ℤ (pos 0) r.seq && length r.hash == 32
        then ok (record { stream = r.stream; floor = (r.seq, r.hash) })
        else err checkpoint
  ]

pub data Against : Type 0 where
  above covered fork : Against

pub data Placement : Type 0 where
  placed duplicate seen fork chain_break rewrite : Placement

module _ (x : External) where
  unfoldable pub against : Floor → Op → Against
  against (base, hash) op =
      if ltb_ℤ base op.seq
      then Against.above
      else if op.seq == base && not (op_hash x op == hash)
      then Against.fork
      else Against.covered

  -- Where an arriving checkpoint lands against the one that is held.
  unfoldable pub place_over : Op → Floor → Op → Floor → Placement
  place_over op (base, hash) held (held_base, held_hash) =
      if ltb_ℤ op.seq held.seq
      then Placement.seen
      else if op.seq == held.seq
      then (if op_hash x op == op_hash x held then Placement.duplicate else Placement.fork)
      else if ltb_ℤ base held_base || (base == held_base && not (hash == held_hash))
      then Placement.rewrite
      else if op.seq == suc_i64 held.seq && not (op.prev == some (op_hash x held))
      then Placement.chain_break
      else Placement.placed

  unfoldable pub place : Op → Floor → Option (Op × Floor) → Placement
  unfolding place_over
  place op floor none = Placement.placed
  place op floor (some (held, at)) = place_over op floor held at

module _ (x : External) (op held : Op) (floor at : Floor) where
  -- A checkpoint that is placed over another is newer, and the floor moves up or stays where it
  -- is: its base is higher, or base and hash are the same.
  pub place_over-advances :
      place_over x op floor held at ≡ Placement.placed
      → (held.seq <ℤ op.seq) × ((at.0 <ℤ floor.0) ⊎ (floor ≡ at))
  unfolding place_over
  place_over-advances h = (ground arith, advance)
    where
      advance : (at.0 <ℤ floor.0) ⊎ (floor ≡ at)
      advance = ground arith

  -- Of two checkpoints the newer stays in the register whichever arrives first: where one is
  -- placed over the other, the other is passed over as seen when it arrives second.
  pub place_over-newest :
      place_over x op floor held at ≡ Placement.placed
      → place_over x held at op floor ≡ Placement.seen
  unfolding place_over
  place_over-newest h = ground arith
