-- ===== src/Tests/Links.antt =====
-- Examples of the conversations, the transport fold and the client's session.
use glade.Prelude.{
  ◌⊎◌, none, pos, i64_max, ◌<ℤ◌, ◌≡◌, refl, true, false, some, List, [], ◌∷◌, ◌++◌, codes, ok, err,
  All, any, arith, ◌==◌, ℕ_discrete, bytes_discrete,
}
use glade.Prelude.BTreeMap.{get}
use glade.Prelude.Order.{bytes_ord, nat_ord, pair_ord}
use glade.Wire
use glade.Wire.{op_eq, Op, Zone, zone_of, shape_eq, op_discrete, shape_discrete}
use glade.Conversation.{Number, start}
use glade.Conversation.Reach
use glade.Conversation.Reach.{peers_of}
use glade.Conversation.Steps
use glade.Conversation.Once
use glade.Conversation.Once.{Ascends, opened_in}
use glade.Conversation.Steps.{Event, IsLink}
use glade.Transport.{binds, over, no_records}
use glade.Transport.Revocation
use glade.Transport.Revocation.{stands, revokes_pair, record_of, earliest}
use glade.Client.{Session, ClientError, new, append, before, refused, key_of_op, log_of, require_op}
use glade.Client.Clock
use glade.Client.Clock.{Step, IsClocked, step}
use glade.Client.Folds.{HashOrder, later, first_seen, fold_value}
use glade.Client.Latest
use glade.Client.Latest.{value_ops}
use glade.Client.Refusal
use glade.Tests.{toy, op_0, op_1, repeat, principal_op}

abbrev talk : List Event
talk =
    Event.queued Number.unsent 0 (codes "hello")
    ∷ Event.arrived 2 0 (codes "x")
    ∷ Event.finished (Number.sent 1) 1
    ∷ Event.arrived 1 1 []
    ∷ Event.link_over
    ∷ []

run-start_example : IsLink (peers_of true) (Steps.run (peers_of true) talk (start true))
run-start_example = Reach.run-start true talk

opened_in-start_example : Ascends (peers_of true) 0 (opened_in (peers_of true) talk (start true))
opened_in-start_example = Once.opened_in-start true talk

binds-over_example :
    binds (over toy (principal_op ∷ []) no_records) (repeat 32 1) (repeat 32 2) (pos 7)
    ≡ stands
        (any (λ op. revokes_pair (repeat 32 2, repeat 32 1) (record_of toy op)) (principal_op ∷ []))
        (earliest toy (repeat 32 2, repeat 32 1) (principal_op ∷ []))
        (pos 7)
binds-over_example =
    Revocation.binds-over toy (principal_op ∷ []) (repeat 32 1) (repeat 32 2) (pos 7)

abbrev fresh : Session
fresh = new (codes "a")

fresh-below : fresh.lamport <ℤ i64_max
unfolding new
fresh-below = omega arith

fresh-IsClocked : IsClocked fresh
unfolding new log_of get
fresh-IsClocked k = (tt, tt)

step-IsClocked_example : IsClocked (step toy (Step.received (op_0 ∷ op_1 ∷ [])) fresh)
step-IsClocked_example =
    Clock.step-IsClocked toy (Step.received (op_0 ∷ op_1 ∷ [])) fresh fresh-below fresh-IsClocked

-- A session that holds two ops of its own.
abbrev two_own : Session
two_own = record {
  origin = codes "a";
  lamport = pos 1;
  logs = (key_of_op op_0, op_0 ∷ op_1 ∷ []) ∷ [];
  unresumed = [];
}

two_own-log : get (key_of_op op_1) two_own.logs ≡ some (op_0 ∷ op_1 ∷ [])
unfolding get bytes_discrete
two_own-log = ground arith

log_required : require_op Wire.log (codes "z") ≡ ok Wire.log
unfolding require_op
log_required = refl

two_own-before : before op_1 (op_0 ∷ op_1 ∷ []) ≡ some (op_0 ∷ [])
unfolding before op_discrete ℕ_discrete
two_own-before = refl

refused-append_example :
    ((rest : List Op) × (op_0 ∷ op_1 ∷ [] ≡ (op_0 ∷ []) ++ op_1 ∷ rest))
    × (log_of (refused op_1 two_own).logs (key_of_op op_1) ≡ op_0 ∷ [])
    × (append toy (zone_of op_1) Wire.log (codes "z") (refused op_1 two_own)
        ≡ (err (ClientError.stopped_at op_1.seq), refused op_1 two_own))
refused-append_example =
    Refusal.refused-append toy op_1 two_own (op_0 ∷ op_1 ∷ []) (op_0 ∷ []) Wire.log Wire.log
      (codes "z") refl two_own-log two_own-before log_required

abbrev a_value : Op
a_value = record op_0 { shape = Wire.value }

-- A map that gives its values in the order of their arrival.
abbrev as_seen : HashOrder
as_seen ops = ops

fold_value-later_example :
    ((value_ops (a_value ∷ []) ≡ []) × (fold_value as_seen (a_value ∷ []) ≡ none))
    ⊎ ((w : Op) × (fold_value as_seen (a_value ∷ []) ≡ some w.payload)
        × (any (λ o. o == w) (first_seen (value_ops (a_value ∷ []))) ≡ true)
        × All (λ o. later o w ≡ false) (first_seen (value_ops (a_value ∷ []))))
fold_value-later_example = Latest.fold_value-later as_seen (a_value ∷ []) (λ ops p. refl)
