-- ===== src/Router/Once.antt =====
-- The sessions that an op goes to (`route` of node/src/router.rs) are told apart.
use glade.Prelude.{◌<◌, Bool, List, [], ◌∷◌, arith, nat_eq, keep, All, Option-cases, inl, inr}
use glade.Prelude.BTreeMap.{
  get, insert, remove, IsSorted, Above, insert-IsSorted, remove-IsSorted, All-insert, All-get,
}
use glade.Prelude.Order.{bytes_ord, nat_ord, pair_ord}
use glade.Wire.{Zone}
use glade.Router.{
  SessionId, Sessions, Router, sessions_of, subscribe, unsubscribe, unsubscribe_all, sessions,
  is_other, route,
}
use glade.Router.Fanout.{Event, run}

-- Sessions in their order, each below the next.
abbrev pub Ascends : List SessionId → Type 0
Ascends [] = Unit
Ascends (s ∷ rest) = All (λ t. s < t) rest × Ascends rest

-- Every zone's sessions are in their order.
abbrev AllSorted : Router → Type 0
AllSorted r = All (λ (e : Zone × Sessions). IsSorted e.1) r

sessions_of-IsSorted : (r : Router) (z : Zone) → AllSorted r → IsSorted (sessions_of r z)
unfolding sessions_of
sessions_of-IsSorted r z h = elim (Option-cases (get z r)) [
  | inl e ↦ rw (sessions_of, e) tt
  | inr (set, e) ↦ rw (sessions_of, e) (All-get (λ (e : Zone × Sessions). IsSorted e.1) r z set h e)
]

subscribe-AllSorted :
    (s : SessionId) (z : Zone) (r : Router) → AllSorted r → AllSorted (subscribe s z r)
unfolding subscribe
subscribe-AllSorted s z r h =
    All-insert (λ (e : Zone × Sessions). IsSorted e.1) r z (insert s tt (sessions_of r z))
      (insert-IsSorted s tt (sessions_of r z) (sessions_of-IsSorted r z h)) h

unsubscribe-AllSorted :
    (s : SessionId) (z : Zone) (r : Router) → AllSorted r → AllSorted (unsubscribe s z r)
unfolding unsubscribe
unsubscribe-AllSorted s z r h = elim (Option-cases (get z r)) [
  | inl e ↦ rw (unsubscribe, e) h
  | inr (set, e) ↦
      rw (unsubscribe, e)
        (All-insert (λ (e : Zone × Sessions). IsSorted e.1) r z (remove s set)
          (remove-IsSorted s set (All-get (λ (e : Zone × Sessions). IsSorted e.1) r z set h e)) h)
]

unsubscribe_all-AllSorted :
    (s : SessionId) (r : Router) → AllSorted r → AllSorted (unsubscribe_all s r)
unfolding unsubscribe_all
unsubscribe_all-AllSorted s [] h = tt
unsubscribe_all-AllSorted s ((z, set) ∷ r) h =
    (remove-IsSorted s set h.0, unsubscribe_all-AllSorted s r h.1)

run-AllSorted : (history : List Event) → AllSorted (run history)
unfolding run
run-AllSorted [] = tt
run-AllSorted (Event.subscribed s z ∷ history) =
    subscribe-AllSorted s z (run history) (run-AllSorted history)
run-AllSorted (Event.unsubscribed s z ∷ history) =
    unsubscribe-AllSorted s z (run history) (run-AllSorted history)
run-AllSorted (Event.closed s ∷ history) =
    unsubscribe_all-AllSorted s (run history) (run-AllSorted history)

keep-Above :
    (p : SessionId → Bool) (s : SessionId) (set : Sessions)
    → Above s set
    → All (λ t. s < t) (keep p (sessions set))
keep-Above p s [] a = tt
keep-Above p s ((t, u) ∷ set) a = ground (arith, keep-Above p s set a.1)

keep-Ascends :
    (p : SessionId → Bool) (set : Sessions) → IsSorted set → Ascends (keep p (sessions set))
keep-Ascends p [] h = tt
keep-Ascends p ((s, u) ∷ set) h = ground (arith, keep-Ascends p set h.1, keep-Above p s set h.0)

-- After any history, an op of a zone goes to its sessions in their order, each below the next:
-- to none of them twice.
pub route-Ascends :
    (history : List Event) (from : SessionId) (z : Zone) → Ascends (route (run history) from z)
unfolding route sessions_of
route-Ascends history from z = elim (Option-cases (get z (run history))) [
  | inl e ↦ rw (route, e) tt
  | inr (set, e) ↦
      rw (route, e)
        (keep-Ascends (is_other from) set (
          All-get (λ (e : Zone × Sessions). IsSorted e.1) (run history) z set
            (run-AllSorted history) e))
]
