-- ===== src/Conversation/Reach.antt =====
-- What holds of a link after any run of events from its start (node/src/conversation.rs).
use glade.Prelude.{
  ℕ, ◌%◌, ◌≤◌, ◌<◌, ◌≡◌, refl, sym, ap, ◌∙◌, subst, Bool, true, false, List, [], ◌∷◌, arith, Bytes,
  nat_eq, if◌then◌else◌, inl, inr,
}
use glade.Prelude.Order.{nat_ord}
use glade.Conversation.{
  Table, Linked, Routed, Item, Out, Number, start, held, reset_kind, route, route_open, route_new,
  send_out, with_table, marker, put, finish, forget, link_ended, end,
}
use glade.Conversation.Bounds.{IsBounded, send_out-table, route-IsBounded}
use glade.Conversation.Steps.{
  Event, IsLink, step, run, put-table, grown, grown-IsBounded, forget-IsBounded, forget-next,
}

refused_table : (id : ℕ) (l : Linked) → Linked
refused_table id l = with_table (record l.table { peer_high = id }) l

told_table :
    (id : ℕ) (l : Linked)
    → (send_out
        (Out.send (marker id reset_kind))
        (with_table (record l.table { peer_high = id }) l)).table
      ≡ record l.table { peer_high = id }
told_table id l = send_out-table (Out.send (marker id reset_kind)) _

-- The reader leaves this end's next number, and never lowers the peer's.
pub route-numbers :
    (peers id kind : ℕ) (body : Bytes) (l : Linked)
    → ((route id kind body peers l).1.table.next ≡ l.table.next)
      × (l.table.peer_high ≤ (route id kind body peers l).1.table.peer_high)
unfolding route route_open route_new
route-numbers peers id kind body l = (
  ground (arith, ap (λ (t : Table). t.next) (told_table id l)),
  ground (arith, ap (λ (t : Table). t.peer_high) (told_table id l)),
)

-- A conversation that the reader hands to the handler has the frame's number, above every number
-- that the peer has opened before, of the peer's parity, and it is then the highest.
pub route-opened :
    (peers id kind n : ℕ) (body : Bytes) (first : Item) (l : Linked)
    → (route id kind body peers l).0 ≡ Routed.opened n first
    → (n ≡ id)
      × (l.table.peer_high < n)
      × (n % 2 ≡ peers)
      × ((route id kind body peers l).1.table.peer_high ≡ n)
unfolding route route_open route_new
route-opened peers id kind n body first l e =
    (ground arith, ground arith, ground arith, ground arith)

put-IsLink :
    (peers : ℕ) (number : Number) (kind : ℕ) (body : Bytes) (l : Linked)
    → IsLink peers l
    → IsLink peers (put number kind body l).1
unfolding grown
put-IsLink peers number kind body l v = elim (put-table number kind body l) [
  | inl e ↦ record {
    table = subst (IsBounded peers) (sym e) v.table;
    own = λ h. v.own (ap (λ (t : Table). t.next % 2) (sym e) ∙ h);
  }
  | inr e ↦ record {
    table = subst (IsBounded peers) (sym e) (grown-IsBounded peers l v);
    own = λ h. v.own (sym (ap (λ (t : Table). t.next % 2) e ∙ grown-parity l) ∙ h);
  }
]
  where
    grown-parity : (l : Linked) → (grown l).next % 2 ≡ l.table.next % 2
    grown-parity l = omega arith

finish-table :
    (id kind : ℕ) (l : Linked) → (finish (Number.sent id) kind l).table ≡ forget id kind l.table
unfolding finish
finish-table id kind l = refl

finish-IsLink :
    (peers : ℕ) (number : Number) (kind : ℕ) (l : Linked)
    → IsLink peers l
    → IsLink peers (finish number kind l)
unfolding finish
finish-IsLink peers Number.unsent kind l v = v
finish-IsLink peers (Number.sent id) kind l v = record {
  table = forget-IsBounded peers id kind l.table v.table;
  own = λ h. v.own (ap (λ n. n % 2) (sym (forget-next id kind l.table)) ∙ h);
}

nothing-IsBounded : (peers : ℕ) (t : Table) → t.routes ≡ [] → IsBounded peers t
unfolding held
nothing-IsBounded peers t e = record { sorted = rw e tt; bounded = rw e (omega arith) }

step-IsLink : (peers : ℕ) (e : Event) (l : Linked) → IsLink peers l → IsLink peers (step peers e l)
unfolding step link_ended end
step-IsLink peers (Event.arrived id kind body) l v = record {
  table = route-IsBounded peers id kind body l v.table;
  own = λ h. v.own (ap (λ n. n % 2) (sym (route-numbers peers id kind body l).0) ∙ h);
}
step-IsLink peers (Event.queued number kind body) l v = put-IsLink peers number kind body l v
step-IsLink peers (Event.finished number kind) l v = finish-IsLink peers number kind l v
step-IsLink peers Event.link_over l v =
    let told =
      send_out-table Out.close (with_table (record l.table { routes = []; over = true }) l) in
    record {
      table = nothing-IsBounded peers _ (ap (λ (t : Table). t.routes) told);
      own = λ h. v.own (ap (λ (t : Table). t.next % 2) (sym told) ∙ h);
    }
step-IsLink peers Event.closed l v =
    let told = send_out-table Out.close (with_table (record l.table { over = true }) l) in
    record {
      table =
          subst (IsBounded peers) (sym told)
            (record { sorted = v.table.sorted; bounded = v.table.bounded });
      own = λ h. v.own (ap (λ (t : Table). t.next % 2) (sym told) ∙ h);
    }

run-IsLink :
    (peers : ℕ) (events : List Event) (l : Linked)
    → IsLink peers l
    → IsLink peers (run peers events l)
unfolding run
run-IsLink peers [] l v = v
run-IsLink peers (e ∷ events) l v =
    run-IsLink peers events (step peers e l) (step-IsLink peers e l v)

-- The parity of the peer's numbers.
abbrev pub peers_of : Bool → ℕ
peers_of dialed = if dialed then 0 else 1

start-IsLink : (dialed : Bool) → IsLink (peers_of dialed) (start dialed)
unfolding start held
start-IsLink true = record {
  table = record { sorted = tt; bounded = omega arith };
  own = λ h. omega (arith, h);
}
start-IsLink false = record {
  table = record { sorted = tt; bounded = omega arith };
  own = λ h. omega (arith, h);
}

-- After any run of events from a link's start, the routes are in the order of their numbers, the
-- peer holds at most 100 conversations open, and this end's next number is not of the peer's
-- parity.
pub run-start :
    (dialed : Bool) (events : List Event)
    → IsLink (peers_of dialed) (run (peers_of dialed) events (start dialed))
run-start dialed events = run-IsLink (peers_of dialed) events (start dialed) (start-IsLink dialed)
