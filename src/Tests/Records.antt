-- ===== src/Tests/Records.antt =====
-- Examples of the record checks, the signing domains, the checkpoints and the codecs.
use glade.Wire.Limit
use glade.Wire.Limit.{frame_len, max_frame_bytes}
use glade.Prelude.{
  ◌≤◌, ◌<◌, err, arith, suc_i64, suc_ℤ, ◌≡◌, refl, bytes_discrete, ℤ_discrete, ℕ_discrete, pos, ◌⊎◌,
  some, none, [], ◌∷◌, codes, ok,
}
use glade.Wire.{Op, shape_discrete}
use glade.Envelope.Parser
use glade.Envelope
use glade.Envelope.{verify, IsVerified}
use glade.Envelope.Record.{open_envelope, envelope_of}
use glade.Envelope.Record
use glade.Envelope.Format
use glade.Checkpoint.{Floor, Placement, place_over}
use glade.Checkpoint
use glade.NodeId.{hex, key_of}
use glade.NodeId
use glade.Signing
use glade.Wire.Swmr
use glade.Wire.Swmr.{decode_swmr, encode_swmr, SwmrPayload}
use glade.Tests.{toy, principal_op, op_at, repeat, repeat-bytes}

principal_op-verifies : verify toy principal_op ≡ ok tt
unfolding Envelope.verify Envelope.verify_record Record.open_envelope Parser.parse
    Envelope.kind_fields Envelope.is_kind Envelope.typed Envelope.signature_holds NodeId.key_of
    NodeId.pairs NodeId.digit Signing.verify bytes_discrete ℤ_discrete ℕ_discrete shape_discrete
principal_op-verifies = refl

abbrev older : Op
older = op_at (pos 0) none (codes "c")

abbrev newer : Op
newer = op_at (pos 2) none (codes "d")

newer-placed : place_over toy newer (pos 5, codes "h") older (pos 3, codes "k") ≡ Placement.placed
unfolding place_over bytes_discrete ℤ_discrete suc_i64 ℕ_discrete suc_ℤ
newer-placed = refl

place_over-newest_example :
    place_over toy older (pos 3, codes "k") newer (pos 5, codes "h") ≡ Placement.seen
place_over-newest_example =
    Checkpoint.place_over-newest toy newer older (pos 5, codes "h") (pos 3, codes "k") newer-placed

decode_swmr-encode_swmr_example :
    decode_swmr (encode_swmr Swmr.delta (7 ∷ []))
    ≡ ok (record { action = Swmr.delta; body = 7 ∷ [] })
decode_swmr-encode_swmr_example = Swmr.decode_swmr-encode_swmr Swmr.delta (7 ∷ [])

abbrev a_delta : SwmrPayload
a_delta = record { action = Swmr.delta; body = 7 ∷ [] }

a_delta-decodes : decode_swmr (1 ∷ 1 ∷ 7 ∷ []) ≡ ok a_delta
unfolding decode_swmr ℕ_discrete
a_delta-decodes = refl

encode_swmr-decode_swmr_example : encode_swmr a_delta.action a_delta.body ≡ 1 ∷ 1 ∷ 7 ∷ []
encode_swmr-decode_swmr_example =
    Swmr.encode_swmr-decode_swmr (1 ∷ 1 ∷ 7 ∷ []) a_delta a_delta-decodes

frame_len_lem_example :
    ((20000000 ≤ max_frame_bytes) × (frame_len 64 20000000 ≡ ok 20000000))
    ⊎ ((max_frame_bytes < 20000000) × (frame_len 64 20000000 ≡ err (Limit.invalid_data 20000000)))
frame_len_lem_example = Limit.frame_len_lem 64 20000000 (omega arith)

key_of-hex_example : key_of (hex (repeat 32 17)) ≡ some (repeat 32 17)
key_of-hex_example = NodeId.key_of-hex (repeat 32 17) refl (repeat-bytes 32 17 (omega arith))

format-verify_example : Format.format toy principal_op ≡ Format.sealed
format-verify_example = Format.format-verify toy principal_op principal_op-verifies
