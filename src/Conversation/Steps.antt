-- ===== src/Conversation/Steps.antt =====
-- The steps of a link, and what they leave of its table (node/src/conversation.rs).
use glade.Prelude.{
  ℕ, ◌+◌, ◌%◌, ◌^◌, ◌≡◌, ◌≢◌, true, false, List, [], ◌∷◌, ◌++◌, arith, Bytes, ltb, nat_eq,
  Option-cases, Bool-cases, ◌⊎◌, inl, inr,
}
use glade.Prelude.BTreeMap.{get, insert, insert-IsSorted, remove-IsSorted}
use glade.Prelude.Order.{nat_ord}
use glade.Conversation.{
  Route, Table, Linked, Out, Number, route, with_table, put, queue, finish, forget, link_ended, end,
  le_bytes,
}
use glade.Conversation.Bounds.{
  IsBounded, held-insert_same, held-insert_other, held-remove, send_out-table,
}

-- What happens to a link: a frame of the peer's, a call of this end's, or its end.
pub data Event : Type 0 where
  arrived : ℕ → ℕ → Bytes → Event
  queued : Number → ℕ → Bytes → Event
  finished : Number → ℕ → Event
  link_over : Event
  closed : Event

unfoldable pub step : ℕ → Event → Linked → Linked
step peers (Event.arrived id kind body) l = (route id kind body peers l).1
step peers (Event.queued number kind body) l = (put number kind body l).1
step peers (Event.finished number kind) l = finish number kind l
step peers Event.link_over l = link_ended l
step peers Event.closed l = end l

unfoldable pub run : ℕ → List Event → Linked → Linked
run peers [] l = l
run peers (e ∷ events) l = run peers events (step peers e l)

-- The peer's conversations are within their limit, and this end's next number is not of the peer's
-- parity.
pub record IsLink (peers : ℕ) (l : Linked) : Type 0 where
  pub table : IsBounded peers l.table
  pub own : l.table.next % 2 ≢ peers

queue-table : (id kind : ℕ) (body : Bytes) (l : Linked) → (queue id kind body l).1.table ≡ l.table
unfolding queue
queue-table id kind body l =
    ground (arith, send_out-table (Out.send (le_bytes id ++ kind ∷ body)) l)

pub forget-IsBounded :
    (peers id kind : ℕ) (t : Table) → IsBounded peers t → IsBounded peers (forget id kind t)
unfolding forget
forget-IsBounded peers id kind t v = elim (Option-cases (get id t.routes)) [
  | inl e ↦ rw (forget, e) v
  | inr (r, e) ↦
      let ended : Route = record { tx = r.tx; done = true } in
      record {
        sorted =
            ground
              (arith, e, remove-IsSorted id t.routes, insert-IsSorted id ended t.routes, v.sorted);
        bounded = ground (
          arith,
          e,
          held-remove peers id t.routes,
          held-insert_same peers id ended r t.routes v.sorted e,
          v.bounded,
        );
      }
]

pub forget-next : (id kind : ℕ) (t : Table) → (forget id kind t).next ≡ t.next
unfolding forget
forget-next id kind t = ground arith

unfoldable pub grown : Linked → Table
grown l = record l.table {
  next = l.table.next + 2;
  routes = insert l.table.next (record { tx = true; done = false }) l.table.routes;
}

pub put-table :
    (number : Number) (kind : ℕ) (body : Bytes) (l : Linked)
    → ((put number kind body l).1.table ≡ l.table) ⊎ ((put number kind body l).1.table ≡ grown l)
unfolding put grown
put-table (Number.sent id) kind body l = inl (ground (arith, queue-table id kind body l))
put-table Number.unsent kind body l = elim (Bool-cases (ltb (l.table.next + 2) (2 ^ 32))) [
  | inr e ↦ inl (ground (arith, e))
  | inl e ↦ elim (Bool-cases l.table.over) [
    | inl o ↦ inl (ground (arith, o))
    | inr o ↦
        inr (ground (arith, e, o, queue-table l.table.next kind body (with_table (grown l) l)))
  ]
]

pub grown-IsBounded : (peers : ℕ) (l : Linked) → IsLink peers l → IsBounded peers (grown l)
unfolding grown
grown-IsBounded peers l v =
    let fresh : Route = record { tx = true; done = false } in
    record {
      sorted = insert-IsSorted l.table.next fresh l.table.routes v.table.sorted;
      bounded =
          omega (
            arith,
            held-insert_other peers l.table.next fresh l.table.routes v.own,
            v.table.bounded,
          );
    }
