-- ===== src/Conversation/Once.antt =====
-- Over a link's life no number is opened twice (node/src/conversation.rs).
use glade.Prelude.{
  ℕ, ◌%◌, ◌≤◌, ◌<◌, ◌≡◌, refl, ap, subst, Bool, true, List, [], ◌∷◌, arith, Bytes, nat_eq, inl, inr,
}
use glade.Prelude.Order.{nat_ord}
use glade.Conversation.{
  Table, Linked, Routed, Out, Number, start, route, with_table, put, finish, forget, link_ended,
  end,
}
use glade.Conversation.Bounds.{send_out-table}
use glade.Conversation.Steps.{Event, step, put-table, grown}
use glade.Conversation.Reach.{peers_of, route-numbers, route-opened}

-- The conversation that a frame opens, before those that follow.
abbrev opened_first : Routed → List ℕ → List ℕ
opened_first (Routed.opened n first) later = n ∷ later
opened_first _ later = later

-- The numbers that the reader hands to the handler over a run.
unfoldable pub opened_in : ℕ → List Event → Linked → List ℕ
opened_in peers [] l = []
opened_in peers (Event.arrived id kind body ∷ events) l =
    opened_first (route id kind body peers l).0
      (opened_in peers events (step peers (Event.arrived id kind body) l))
opened_in peers (e ∷ events) l = opened_in peers events (step peers e l)

-- Each number is above the one before it, and of the peer's parity.
abbrev pub Ascends : ℕ → ℕ → List ℕ → Type 0
Ascends peers b [] = Unit
Ascends peers b (n ∷ ns) = (b < n) × (n % 2 ≡ peers) × Ascends peers n ns

Ascends-from : (peers a b : ℕ) (ns : List ℕ) → a ≤ b → Ascends peers b ns → Ascends peers a ns
Ascends-from peers a b [] h s = tt
Ascends-from peers a b (n ∷ ns) h s = (omega (arith, h, s.0), s.1, s.2)

put-high :
    (number : Number) (kind : ℕ) (body : Bytes) (l : Linked)
    → (put number kind body l).1.table.peer_high ≡ l.table.peer_high
unfolding grown
put-high number kind body l = elim (put-table number kind body l) [
  | inl e ↦ ap (λ (t : Table). t.peer_high) e
  | inr e ↦ ap (λ (t : Table). t.peer_high) e
]

forget-high : (id kind : ℕ) (t : Table) → (forget id kind t).peer_high ≡ t.peer_high
unfolding forget
forget-high id kind t = ground arith

step-high :
    (peers : ℕ) (e : Event) (l : Linked) → l.table.peer_high ≤ (step peers e l).table.peer_high
unfolding step finish link_ended end
step-high peers (Event.arrived id kind body) l = (route-numbers peers id kind body l).1
step-high peers (Event.queued number kind body) l = omega (arith, put-high number kind body l)
step-high peers (Event.finished Number.unsent kind) l = omega arith
step-high peers (Event.finished (Number.sent id) kind) l =
    omega (arith, forget-high id kind l.table)
step-high peers Event.link_over l = omega (
  arith,
  ap (λ (t : Table). t.peer_high)
      (send_out-table Out.close (with_table (record l.table { routes = []; over = true }) l)),
)
step-high peers Event.closed l = omega (
  arith,
  ap (λ (t : Table). t.peer_high)
      (send_out-table Out.close (with_table (record l.table { over = true }) l)),
)

arrived-Ascends :
    (peers id kind : ℕ) (body : Bytes) (l : Linked) (rest : List ℕ) (r : Routed)
    → (route id kind body peers l).0 ≡ r
    → Ascends peers (route id kind body peers l).1.table.peer_high rest
    → Ascends peers l.table.peer_high (opened_first r rest)
arrived-Ascends peers id kind body l rest (Routed.opened n first) e later =
    let (same, above, parity, high) = route-opened peers id kind n body first l e in
    (above, parity, subst (λ b. Ascends peers b rest) high later)
arrived-Ascends peers id kind body l rest _ e later =
    Ascends-from peers l.table.peer_high _ rest (route-numbers peers id kind body l).1 later

opened_in-Ascends :
    (peers : ℕ) (events : List Event) (l : Linked)
    → Ascends peers l.table.peer_high (opened_in peers events l)
unfolding opened_in step
opened_in-Ascends peers [] l = tt
opened_in-Ascends peers (Event.arrived id kind body ∷ events) l =
    arrived-Ascends peers id kind body l _ (route id kind body peers l).0 refl
      (opened_in-Ascends peers events (step peers (Event.arrived id kind body) l))
opened_in-Ascends peers (Event.queued number kind body ∷ events) l =
    Ascends-from peers l.table.peer_high _ _ (step-high peers (Event.queued number kind body) l)
      (opened_in-Ascends peers events (step peers (Event.queued number kind body) l))
opened_in-Ascends peers (Event.finished number kind ∷ events) l =
    Ascends-from peers l.table.peer_high _ _ (step-high peers (Event.finished number kind) l)
      (opened_in-Ascends peers events (step peers (Event.finished number kind) l))
opened_in-Ascends peers (Event.link_over ∷ events) l =
    Ascends-from peers l.table.peer_high _ _ (step-high peers Event.link_over l)
      (opened_in-Ascends peers events (step peers Event.link_over l))
opened_in-Ascends peers (Event.closed ∷ events) l =
    Ascends-from peers l.table.peer_high _ _ (step-high peers Event.closed l)
      (opened_in-Ascends peers events (step peers Event.closed l))

-- Over any run of events from a link's start, frames of any numbers and kinds included: the
-- numbers that the reader hands to the handler as opened by the peer are above 0, of the peer's
-- parity, and each above the one before it, so that no number is opened twice.
pub opened_in-start :
    (dialed : Bool) (events : List Event)
    → Ascends (peers_of dialed) 0 (opened_in (peers_of dialed) events (start dialed))
unfolding start
opened_in-start dialed events = opened_in-Ascends (peers_of dialed) events (start dialed)
