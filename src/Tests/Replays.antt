-- ===== src/Tests/Replays.antt =====
-- Runs of the replay of a home journal that holds one principal's record.
use glade.Prelude.{
  ◌≡◌, refl, false, some, [], ◌∷◌, ◌++◌, keep, not, ◌==◌, bytes_eq, arith, bytes_discrete,
  ℤ_discrete, ℕ_discrete,
}
use glade.Prelude.BTreeMap.{get, insert}
use glade.Prelude.Order.{bytes_ord, pair_ord, dec_pair}
use glade.Directory
use glade.Envelope
use glade.Envelope.Parser.{parse}
use glade.Envelope.Record.{open_envelope}
use glade.NodeId
use glade.NodeId.{key_of}
use glade.Signing
use glade.Store.Append.{push}
use glade.Store.Classify.{held_of, classify_home, classify_unfloored, checked, needs_check}
use glade.Wire.{chain_of, shape_discrete}
use glade.Store.Replay
use glade.Store.Replay.{Replayed, replayed, store_of, nothing_replayed}
use glade.Store.Trusted.{IsTrusted, replayed-IsTrusted}
use glade.Store.Retaken.{Holds, append_all, replayed-append_all}
use glade.Tests.{toy, principal_op}

abbrev one_principal : Replayed
one_principal = record {
  logs = (chain_of principal_op, principal_op ∷ []) ∷ [];
  register = [];
  covered = false;
}

is_replayed : replayed toy (principal_op ∷ []) ≡ some one_principal
unfolding replayed Replay.replay_ops Replay.replay_one Replay.replay_verdict Replay.is_taken push
    held_of chain_of get insert classify_home classify_unfloored checked needs_check Envelope.verify
    Envelope.verify_record open_envelope parse Envelope.kind_fields Envelope.is_kind Envelope.typed
    Envelope.signature_holds key_of NodeId.pairs NodeId.digit Signing.verify bytes_discrete
    ℤ_discrete ℕ_discrete shape_discrete dec_pair
is_replayed = refl

replayed-IsTrusted_example : IsTrusted toy one_principal
replayed-IsTrusted_example =
    replayed-IsTrusted toy (principal_op ∷ []) one_principal
      (record { above = omega arith; below = omega arith }, tt) is_replayed

replayed-append_all_example : Holds one_principal (
    append_all toy
      (keep (λ o. o.glade_id == Directory.g_checkpoints) (principal_op ∷ [])
        ++ keep (λ o. not (o.glade_id == Directory.g_checkpoints)) (principal_op ∷ []))
      (store_of nothing_replayed))
replayed-append_all_example =
    replayed-append_all toy (principal_op ∷ []) one_principal
      ((refl, record { above = omega arith; below = omega arith }), tt) is_replayed
