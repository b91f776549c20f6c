-- ===== src/Router.antt =====
-- Subscription routing (node/src/router.rs): which sessions an op of a zone goes to.
pub mod Fanout
pub mod Once
pub mod OutQueue
use glade.Prelude.{
  ℕ, Bool, true, false, not, Option, none, some, List, [], ◌∷◌, ◌++◌, map, ◌==◌, nat_eq, keep,
}
use glade.Prelude.BTreeMap.{BTreeMap, get, insert, remove}
use glade.Prelude.Order.{bytes_ord, nat_ord, pair_ord}
use glade.Wire.{Zone}

abbrev pub SessionId : Type 0
SessionId = ℕ

-- A set of sessions, in their order.
abbrev pub Sessions : Type 0
Sessions = BTreeMap SessionId (Unit {0})

abbrev pub Router : Type 0
Router = BTreeMap Zone Sessions

-- subs.entry(zone).or_default()
unfoldable pub sessions_of : Router → Zone → Sessions
sessions_of r z = elim (get z r) [ none ↦ [] | some set ↦ set ]

unfoldable pub subscribe : SessionId → Zone → Router → Router
subscribe session z r = insert z (insert session tt (sessions_of r z)) r

unfoldable pub unsubscribe : SessionId → Zone → Router → Router
unsubscribe session z r = elim (get z r) [ none ↦ r | some set ↦ insert z (remove session set) r ]

unfoldable pub unsubscribe_all : SessionId → Router → Router
unsubscribe_all session [] = []
unsubscribe_all session ((z, set) ∷ r) = (z, remove session set) ∷ unsubscribe_all session r

abbrev pub sessions : Sessions → List SessionId
sessions [] = []
sessions ((s, u) ∷ set) = s ∷ sessions set

-- Every subscription with its zone, in the order of the zones.
unfoldable pub entries : Router → List (SessionId × Zone)
entries [] = []
entries ((z, set) ∷ r) = map (λ s. (s, z)) (sessions set) ++ entries r

abbrev pub is_other : SessionId → SessionId → Bool
is_other from s = not (s == from)

-- The sessions of a zone but the one that an op comes from.
unfoldable pub route : Router → SessionId → Zone → List SessionId
route r from z = elim (get z r) [ none ↦ [] | some set ↦ keep (is_other from) (sessions set) ]
