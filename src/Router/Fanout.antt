-- ===== src/Router/Fanout.antt =====
-- An op of a zone reaches the sessions that are subscribed to the zone, and not the one that it
-- comes from (node/src/router.rs).
use glade.Prelude.{
  ◌≡◌, refl, ap, ◌∙◌, Bool, true, false, not, ◌&&◌, none, some, List, [], ◌∷◌, arith, ℕ_discrete,
  ◌==◌, nat_eq, keep, any, Option-cases, inl, inr, if◌then◌else◌,
}
use glade.Prelude.BTreeMap.{
  get, insert, remove, get-insert_self, get-insert_ne, get-remove_self, get-remove_ne,
}
use glade.Prelude.Order.{bytes_ord, nat_ord, pair_ord, dec_pair}
use glade.Wire.{Zone, zone_eq}
use glade.Router.{
  SessionId, Sessions, Router, sessions_of, subscribe, unsubscribe, unsubscribe_all, sessions,
  is_other, route,
}

-- What the sessions have asked of the router.
pub data Event : Type 0 where
  subscribed : SessionId → Zone → Event
  unsubscribed : SessionId → Zone → Event
  closed : SessionId → Event

-- The router after a history, the newest event first.
unfoldable pub run : List Event → Router
run [] = []
run (Event.subscribed s z ∷ history) = subscribe s z (run history)
run (Event.unsubscribed s z ∷ history) = unsubscribe s z (run history)
run (Event.closed s ∷ history) = unsubscribe_all s (run history)

-- Whether the newest event on a session and a zone leaves it subscribed.
unfoldable pub is_subscribed : List Event → SessionId → Zone → Bool
is_subscribed [] s z = false
is_subscribed (Event.subscribed t y ∷ history) s z =
    let before = is_subscribed history s z in if t == s && y == z then true else before
is_subscribed (Event.unsubscribed t y ∷ history) s z =
    let before = is_subscribed history s z in if t == s && y == z then false else before
is_subscribed (Event.closed t ∷ history) s z =
    let before = is_subscribed history s z in if t == s then false else before

unfoldable has : Sessions → SessionId → Bool
has set s = elim (get s set) [ none ↦ false | some u ↦ true ]

has-insert :
    (s t : SessionId) (set : Sessions)
    → has (insert t tt set) s ≡ (if t == s then true else has set s)
unfolding has
has-insert s t set = elim (ℕ_discrete t s) [
  | yes e ↦ ground (arith, get-insert_self t tt set)
  | no n ↦ ground (arith, get-insert_ne t s tt set n)
]

has-remove :
    (s t : SessionId) (set : Sessions)
    → has (remove t set) s ≡ (if t == s then false else has set s)
unfolding has
has-remove s t set = elim (ℕ_discrete t s) [
  | yes e ↦ ground (arith, get-remove_self t set)
  | no n ↦ ground (arith, get-remove_ne t s set n)
]

is_in : Router → SessionId → Zone → Bool
is_in r s z = has (sessions_of r z) s

sessions_of-insert :
    (y z : Zone) (set : Sessions) (r : Router)
    → sessions_of (insert y set r) z ≡ (if y == z then set else sessions_of r z)
unfolding sessions_of
sessions_of-insert y z set r = elim (dec_pair y z) [
  | yes e ↦ ground (arith, get-insert_self y set r)
  | no n ↦ ground (arith, get-insert_ne y z set r n)
]

is_in-subscribe :
    (s t : SessionId) (y z : Zone) (r : Router)
    → is_in (subscribe t y r) s z ≡ (if t == s && y == z then true else is_in r s z)
unfolding is_in subscribe
is_in-subscribe s t y z r = ground (
  arith,
  sessions_of-insert y z (insert t tt (sessions_of r y)) r,
  has-insert s t (sessions_of r y),
  λ (e : y ≡ z). ap (λ y. has (sessions_of r y) s) e,
)

unsubscribed_none :
    (y : Zone) (r : Router) → get y r ≡ none → (s : SessionId) → has (sessions_of r y) s ≡ false
unfolding sessions_of has get
unsubscribed_none y r e s = ground arith

unsubscribed_some :
    (y : Zone) (set : Sessions) (r : Router) → get y r ≡ some set → sessions_of r y ≡ set
unfolding sessions_of
unsubscribed_some y set r e = ground arith

is_in-unsubscribe :
    (s t : SessionId) (y z : Zone) (r : Router)
    → is_in (unsubscribe t y r) s z ≡ (if t == s && y == z then false else is_in r s z)
unfolding is_in unsubscribe
is_in-unsubscribe s t y z r = elim (Option-cases (get y r)) [
  | inl e ↦
      rw (unsubscribe, e)
        (ground
          (arith, unsubscribed_none y r e s, λ (e : y ≡ z). ap (λ y. has (sessions_of r y) s) e))
  | inr (set, e) ↦
      rw (unsubscribe, e)
        (ground (
          arith,
          unsubscribed_some y set r e,
          sessions_of-insert y z (remove t set) r,
          has-remove s t set,
          λ (e : y ≡ z). ap (λ y. has (sessions_of r y) s) e,
        ))
]

no_sessions : (s : SessionId) → has [] s ≡ false
unfolding has get
no_sessions s = refl

is_in-unsubscribe_all :
    (s t : SessionId) (z : Zone) (r : Router)
    → is_in (unsubscribe_all t r) s z ≡ (if t == s then false else is_in r s z)
unfolding is_in unsubscribe_all sessions_of get
is_in-unsubscribe_all s t z [] = ground (arith, no_sessions s)
is_in-unsubscribe_all s t z ((y, set) ∷ r) =
    ground (arith, is_in-unsubscribe_all s t z r, has-remove s t set)

is_in_empty : (s : SessionId) (z : Zone) → is_in [] s z ≡ false
unfolding is_in sessions_of get has
is_in_empty s z = refl

-- The router is where its history leaves it.
is_in-run :
    (history : List Event) (s : SessionId) (z : Zone)
    → is_in (run history) s z ≡ is_subscribed history s z
unfolding run is_subscribed
is_in-run [] s z = is_in_empty s z
is_in-run (Event.subscribed t y ∷ h) s z =
    ground (arith, is_in-run h s z, is_in-subscribe s t y z (run h))
is_in-run (Event.unsubscribed t y ∷ h) s z =
    ground (arith, is_in-run h s z, is_in-unsubscribe s t y z (run h))
is_in-run (Event.closed t ∷ h) s z =
    ground (arith, is_in-run h s z, is_in-unsubscribe_all s t z (run h))

any-sessions :
    (s from : SessionId) (set : Sessions)
    → any (λ t. t == s) (keep (is_other from) (sessions set)) ≡ (has set s && not (s == from))
unfolding has get
any-sessions s from [] = refl
any-sessions s from ((t, u) ∷ set) = ground (arith, any-sessions s from set)

any-route :
    (s from : SessionId) (z : Zone) (r : Router)
    → any (λ t. t == s) (route r from z) ≡ (is_in r s z && not (s == from))
unfolding is_in route sessions_of
any-route s from z r = elim (Option-cases (get z r)) [
  | inl e ↦ ground (arith, no_sessions s, e)
  | inr (set, e) ↦ ground (arith, any-sessions s from set, e)
]

-- An op of a zone goes to exactly the sessions that the newest event on the zone leaves
-- subscribed, but not to the session that it comes from.
pub route-run :
    (history : List Event) (s from : SessionId) (z : Zone)
    → any (λ t. t == s) (route (run history) from z)
      ≡ (is_subscribed history s z && not (s == from))
route-run history s from z =
    any-route s from z (run history) ∙ ap (λ b. b && not (s == from)) (is_in-run history s z)
