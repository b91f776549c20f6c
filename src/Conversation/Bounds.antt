-- ===== src/Conversation/Bounds.antt =====
-- What every step of a link keeps (node/src/conversation.rs): the peer holds a bounded number of
-- conversations open.
use glade.Prelude.{
  ℕ, suc, ◌%◌, ◌≤◌, ◌≡◌, ◌≢◌, ap, false, some, [], ◌∷◌, arith, Bytes, ◌==◌, nat_eq, Option-cases,
  inl, inr,
}
use glade.Prelude.BTreeMap.{
  BTreeMap, get, insert, remove, IsSorted, Above-trans, get-Above, insert-IsSorted, remove-IsSorted,
}
use glade.Prelude.Order.{nat_ord}
use glade.Conversation.{
  Route, Table, Linked, Out, held, peer_open, frame_kind, reset_kind, route, route_open, route_new,
  send_out, with_table, marker,
}

held-insert :
    (peers id : ℕ) (r : Route) (routes : BTreeMap ℕ Route)
    → held peers (insert id r routes) ≤ suc (held peers routes)
unfolding held insert
held-insert peers id r [] = ground arith
held-insert peers id r ((j, q) ∷ routes) = ground (arith, held-insert peers id r routes)

-- A conversation that is open already, or of the other parity, adds none to those held.
pub held-insert_same :
    (peers id : ℕ) (r q : Route) (routes : BTreeMap ℕ Route)
    → IsSorted routes
    → get id routes ≡ some q
    → held peers (insert id r routes) ≤ held peers routes
unfolding held insert get
held-insert_same peers id r q [] s e = ground arith
held-insert_same peers id r q ((j, p) ∷ routes) s e =
    ground (
      arith,
      Above-trans id j routes,
      get-Above id routes,
      held-insert_same peers id r q routes s.1,
    )

pub held-insert_other :
    (peers id : ℕ) (r : Route) (routes : BTreeMap ℕ Route)
    → id % 2 ≢ peers
    → held peers (insert id r routes) ≤ held peers routes
unfolding held insert
held-insert_other peers id r [] n = ground arith
held-insert_other peers id r ((j, p) ∷ routes) n =
    ground (arith, held-insert_other peers id r routes n)

pub held-remove :
    (peers id : ℕ) (routes : BTreeMap ℕ Route) → held peers (remove id routes) ≤ held peers routes
unfolding held remove
held-remove peers id [] = ground arith
held-remove peers id ((j, p) ∷ routes) = ground (arith, held-remove peers id routes)

-- The routes are in the order of their numbers, and the peer holds no more than its limit.
pub record IsBounded (peers : ℕ) (t : Table) : Type 0 where
  pub sorted : IsSorted t.routes
  pub bounded : held peers t.routes ≤ peer_open

pub send_out-table : (o : Out) (l : Linked) → (send_out o l).table ≡ l.table
unfolding send_out
send_out-table o l = ground arith

route_open-IsBounded :
    (peers id kind : ℕ) (body : Bytes) (r : Route) (l : Linked)
    → get id l.table.routes ≡ some r
    → IsBounded peers l.table
    → IsBounded peers (route_open id kind body r l).1.table
unfolding route_open
route_open-IsBounded peers id kind body r l e v =
    let shut : Route = record { tx = false; done = false } in
    record {
      sorted = ground (
        arith,
        remove-IsSorted id l.table.routes,
        insert-IsSorted id shut l.table.routes,
        v.sorted,
      );
      bounded = ground (
        arith,
        held-remove peers id l.table.routes,
        held-insert_same peers id shut r l.table.routes v.sorted e,
        v.bounded,
      );
    }

route_new-IsBounded :
    (peers id kind : ℕ) (body : Bytes) (l : Linked)
    → IsBounded peers l.table
    → IsBounded peers (route_new id kind body peers l).1.table
unfolding route_new
route_new-IsBounded peers id kind body l v =
    let first : Route = record { tx = kind == frame_kind; done = false } in
    let told =
      send_out-table (Out.send (marker id reset_kind))
        (with_table (record l.table { peer_high = id }) l) in
    record {
      sorted = ground (
        arith,
        insert-IsSorted id first l.table.routes,
        v.sorted,
        ap (λ (t : Table). t.routes) told,
      );
      bounded = ground (
        arith,
        held-insert peers id first l.table.routes,
        v.bounded,
        ap (λ (t : Table). t.routes) told,
      );
    }

pub route-IsBounded :
    (peers id kind : ℕ) (body : Bytes) (l : Linked)
    → IsBounded peers l.table
    → IsBounded peers (route id kind body peers l).1.table
unfolding route
route-IsBounded peers id kind body l v = elim (Option-cases (get id l.table.routes)) [
  | inl e ↦ rw (route, e) (route_new-IsBounded peers id kind body l v)
  | inr (r, e) ↦ rw (route, e) (route_open-IsBounded peers id kind body r l e v)
]
