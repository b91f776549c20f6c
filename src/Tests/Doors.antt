-- ===== src/Tests/Doors.antt =====
-- Runs of the door: a key that is bound, and one that its node revoked.
use glade.Prelude.{
  ◌≡◌, ◌↔◌, refl, pos, true, false, none, some, [], ◌∷◌, ◌++◌, any, ok, err, i64_min, ℕ_discrete,
  bytes_discrete,
}
use glade.Prelude.Order.{bytes_ord, pair_ord, dec_pair}
use glade.Directory
use glade.Wire
use glade.Wire.{Op, chain_of}
use glade.NodeId
use glade.NodeId.{key_of}
use glade.Signing.{verify_in}
use glade.Envelope.Parser.{parse}
use glade.Envelope.Record.{record_bytes}
use glade.Transport.{
  TransportFold, proven, proven_fields, is_canonical, is_signed, fields_of, revocation_fields,
  message, dated,
}
use glade.Transport.Door.{Refusal, door}
use glade.Transport.Revocation.{revokes_pair, record_of}
use glade.Transport.Admitted.{IsAdmitted, door-IsAdmitted}
use glade.Transport.Served.{of_store, of_store-revoked}
use glade.Store.Types.{Store}
use glade.Store.Views.{scan}
use glade.Store.Classify.{held_of}
use glade.Prelude.BTreeMap.{get}
use glade.Tests.{toy, repeat}

abbrev bound_fold : TransportFold
bound_fold = record {
  bindings = ((repeat 32 34, repeat 32 17), pos 3) ∷ [];
  revocations = [];
  ignored = 0;
}

door-IsAdmitted_example :
    (door bound_fold (repeat 32 34) (some (repeat 32 17)) false (pos 7) ≡ ok tt)
    ↔ IsAdmitted bound_fold (repeat 32 34) (some (repeat 32 17)) false (pos 7)
door-IsAdmitted_example =
    door-IsAdmitted bound_fold (repeat 32 34) (some (repeat 32 17)) false (pos 7)

abbrev revocation_op : Op
revocation_op = record {
  share = Directory.home;
  glade_id = Directory.g_transport_revocations;
  key = [];
  origin = repeat 64 b'1';
  seq = pos 0;
  prev = none;
  lamport = pos 0;
  refs = [];
  shape = Wire.log;
  payload =
      163 ∷ 1 ∷ 120 ∷ 64 ∷ repeat 64 b'1'
      ++ 2 ∷ 120 ∷ 64 ∷ repeat 64 b'2'
      ++ 3 ∷ 88 ∷ 64 ∷ repeat 64 0;
}

is_withdrawn :
    any (λ op. revokes_pair (repeat 32 34, repeat 32 17) (record_of toy op)) (revocation_op ∷ [])
    ≡ true
unfolding record_of proven proven_fields is_canonical is_signed verify_in fields_of
    revocation_fields message dated parse record_bytes key_of NodeId.pairs NodeId.pair NodeId.digit
    bytes_discrete ℕ_discrete dec_pair
is_withdrawn = refl

abbrev revoking : Store
revoking = record {
  logs = (chain_of revocation_op, revocation_op ∷ []) ∷ [];
  register = [];
  proofs = [];
  journals = [];
  proof_journal = [];
}

is_shown :
    any
      (λ op. revokes_pair (repeat 32 34, repeat 32 17) (record_of toy op))
      (scan revoking
        ((Directory.home, (Directory.g_transport_revocations, [])), repeat 64 b'1')
        i64_min)
    ≡ true
unfolding scan held_of get chain_of bytes_discrete dec_pair ℕ_discrete
is_shown = is_withdrawn

of_store-revoked_example :
    door (of_store toy revoking) (repeat 32 34) (some (repeat 32 17)) true (pos 7)
    ≡ err (Refusal.revoked (repeat 32 17))
of_store-revoked_example =
    of_store-revoked toy revoking (repeat 64 b'1') (repeat 32 34) (repeat 32 17) true (pos 7)
      is_shown refl
