-- ===== src/Tests/Access.antt =====
-- Examples of the grants and of the router.
use glade.Prelude.{
  ℕ, ◌≡◌, ◌≢◌, refl, ◌⊎◌, ◌↔◌, ◌&&◌, not, ◌==◌, nat_eq, ℕ_discrete, true, some, none, List, [], ◌∷◌,
  codes, err, any, arith, Bytes,
}
use glade.NodeId.{hex, hex_digit, key_of}
use glade.Wire.{Zone, Priority}
use glade.Grants.{Holder, Denial, admits, names_a_node, grant_name, check, no_policy}
use glade.Grants.Admits
use glade.Grants.Admits.{IsUnder}
use glade.Grants.Names
use glade.Grants.Fold
use glade.Grants.Fold.{Record, fold, decide}
use glade.Router.{route}
use glade.Router.Fanout
use glade.Router.Fanout.{Event, is_subscribed}
use glade.Router.Once
use glade.Router.Once.{Ascends}
use glade.Router.OutQueue
use glade.Router.OutQueue.{Action, run, run_pending, empty}
use glade.Tests.{repeat, repeat-bytes}

abbrev ann_reads : List Record
ann_reads =
    Record.granted (codes "ann") (codes "ws") (codes "read.*" ∷ [])
    ∷ Record.revoked (codes "bob") (codes "ws")
    ∷ []

check-decide_example :
    (check
        (record { generation = 0; fold = none })
        (Holder.principal (codes "ann"))
        (codes "read.subscribe")
        (codes "ws")
      ≡ err Denial.unavailable)
    × (check
          (record { generation = 0; fold = some (fold ann_reads no_policy) })
          (Holder.principal (codes "ann"))
          (codes "read.subscribe")
          (codes "ws")
        ≡ (elim (grant_name (Holder.principal (codes "ann"))) [
          | none ↦ err Denial.no_grant
          | some name ↦ decide ann_reads name (codes "read.subscribe") (codes "ws")
        ]))
check-decide_example =
    Fold.check-decide ann_reads 0 (Holder.principal (codes "ann")) (codes "read.subscribe")
      (codes "ws")

admits_lem_example : (admits (codes "read.*") (codes "read.subscribe") ≡ true) ↔ (
    (codes "read.*" ≡ codes "read.subscribe") ⊎ IsUnder (codes "read.*") (codes "read.subscribe"))
admits_lem_example = Admits.admits_lem (codes "read.*") (codes "read.subscribe")

names_a_node-key_of_example :
    (names_a_node (repeat 64 b'a') ≡ true) ↔ ((key : Bytes) × (key_of (repeat 64 b'a') ≡ some key))
names_a_node-key_of_example = Names.names_a_node-key_of (repeat 64 b'a')

node_named : grant_name (Holder.node (repeat 32 17)) ≡ some (repeat 64 b'1')
unfolding grant_name hex hex_digit
node_named = refl

principal_named : grant_name (Holder.principal (codes "ann")) ≡ some (codes "ann")
unfolding grant_name names_a_node ℕ_discrete
principal_named = refl

grant_name-disjoint_example : repeat 64 b'1' ≢ codes "ann"
grant_name-disjoint_example =
    Names.grant_name-disjoint (repeat 32 17) (codes "ann") (repeat 64 b'1') (codes "ann") refl
      (repeat-bytes 32 17 (omega arith)) node_named principal_named

abbrev commons : Zone
commons = (codes "sh", (codes "g", []))

abbrev history : List Event
history =
    Event.closed 3
    ∷ Event.subscribed 3 commons
    ∷ Event.subscribed 2 commons
    ∷ Event.subscribed 1 commons
    ∷ []

route-run_example :
    any (λ t. t == 2) (route (Fanout.run history) 1 commons)
    ≡ (is_subscribed history 2 commons && not (◌==◌ {A = ℕ} 2 1))
route-run_example = Fanout.route-run history 2 1 commons

route-Ascends_example : Ascends (route (Fanout.run history) 1 commons)
route-Ascends_example = Once.route-Ascends history 1 commons

abbrev backfill_then_key : List Action
backfill_then_key =
    Action.pushed Priority.bulk (codes "bulk")
    ∷ Action.pushed Priority.interactive (codes "key")
    ∷ Action.popped
    ∷ Action.popped
    ∷ []

run-run_pending_example : run backfill_then_key empty ≡ run_pending backfill_then_key []
run-run_pending_example = OutQueue.run-run_pending backfill_then_key
