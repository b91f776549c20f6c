-- ===== src/Transport/Door.antt =====
-- The door of a node (`door` and `endpoints_of` of node/src/transport.rs): which endpoint keys it lets
-- in at accept, and for the HELLO of which node.
use glade.Prelude.{
  ℤ, pos, Bool, true, false, Option, none, some, List, [], ◌∷◌, ◌++◌, ◌==◌, bytes_eq, if◌then◌else◌,
  leb_ℤ, Bytes, Result, ok, err,
}
use glade.Prelude.BTreeMap.{BTreeMap, get, insert}
use glade.Prelude.Order.{bytes_ord, pair_ord}
use glade.Transport.{Pair, Bound, TransportFold, binds}

-- Why an endpoint key is refused at accept, or a HELLO through it.
pub data Refusal : Type 0 where
  clock_uncertain unknown : Refusal
  revoked : Bytes → Refusal
  not_yet : ℤ → Refusal
  bound_elsewhere : Bytes → Bytes → Refusal

unfoldable pub keys {ℓ} : {V : Type ℓ} → BTreeMap Pair V → List Pair
keys [] = []
keys ((pair, v) ∷ m) = pair ∷ keys m

-- The nodes that the pairs name beside an endpoint, as a set.
unfoldable pub nodes_in : Bytes → List Pair → BTreeMap Bytes (Unit {0})
nodes_in endpoint [] = []
nodes_in endpoint ((e, n) ∷ pairs) =
    let rest = nodes_in endpoint pairs in if e == endpoint then insert n tt rest else rest

unfoldable pub named_nodes : TransportFold → Bytes → BTreeMap Bytes (Unit {0})
named_nodes fold endpoint = nodes_in endpoint (keys fold.bindings ++ keys fold.revocations)

unfoldable pub is_live_bound : Bound → Bool
is_live_bound Bound.live = true
is_live_bound _ = false

module _ (fold : TransportFold) (endpoint : Bytes) (now : ℤ) where
  -- A node's state at the door: whether its binding of the key is live.
  unfoldable pub lives : Bytes → Bool
  lives node = is_live_bound (binds fold node endpoint now)

  unfoldable pub why : Bytes → Refusal
  why node = elim (binds fold node endpoint now) [
    | Bound.live ↦ Refusal.unknown
    | Bound.revoked ↦ Refusal.revoked node
    | Bound.unbound ↦ Refusal.unknown
    | Bound.clock_uncertain ↦ Refusal.unknown
    | Bound.not_yet valid_from ↦ Refusal.not_yet valid_from
  ]

  -- The first of the nodes whose binding is live.
  unfoldable pub find_live : BTreeMap Bytes (Unit {0}) → Option Bytes
  find_live [] = none
  find_live ((n, u) ∷ nodes) = if lives n then some n else find_live nodes

  unfoldable pub accept_any : Bytes → Option Bytes → Result Refusal (Unit {0})
  accept_any first (some m) = ok tt
  accept_any first none = err (why first)

  unfoldable pub elsewhere : Bytes → Bytes → Option Bytes → Result Refusal (Unit {0})
  elsewhere first node (some m) = err (Refusal.bound_elsewhere m node)
  elsewhere first node none = err (why first)

  unfoldable pub admit : Option Bytes → Bool → BTreeMap Bytes (Unit {0}) → Result Refusal (Unit {0})
  admit hello configured [] = if configured then ok tt else err Refusal.unknown
  admit hello configured ((first, u) ∷ rest) =
      let nodes : BTreeMap Bytes (Unit {0}) = (first, u) ∷ rest in
      elim hello [
        | none ↦ accept_any first (find_live nodes)
        | some n ↦ if lives n then ok tt else (elim (get n nodes) [
          | some v ↦ err (why n)
          | none ↦ elsewhere first n (find_live nodes)
        ])
      ]

unfoldable pub door : TransportFold → Bytes → Option Bytes → Bool → ℤ → Result Refusal (Unit {0})
door fold endpoint hello configured now =
    if leb_ℤ now (pos 0)
    then err Refusal.clock_uncertain
    else admit fold endpoint now hello configured (named_nodes fold endpoint)

-- The endpoint keys that a node has bound and not revoked, whatever their dates.
unfoldable pub endpoints_from : TransportFold → Bytes → List Pair → List Bytes
endpoints_from fold node [] = []
endpoints_from fold node ((e, n) ∷ pairs) =
    let rest = endpoints_from fold node pairs in
    if n == node
    then (elim (get (e, n) fold.revocations) [ some u ↦ rest | none ↦ e ∷ rest ])
    else rest

unfoldable pub endpoints_of : TransportFold → Bytes → List Bytes
endpoints_of fold node = endpoints_from fold node (keys fold.bindings)
