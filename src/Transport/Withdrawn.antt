-- ===== src/Transport/Withdrawn.antt =====
-- A key that its node revoked, at the door (node/src/transport.rs).
use glade.Prelude.{
  ℤ, pos, ◌≡◌, ap, ◌∙◌, Bool, true, false, some, List, [], ◌∷◌, arith, leb_ℤ, any, Bytes, err,
}
use glade.Prelude.BTreeMap.{BTreeMap, get}
use glade.Prelude.Order.{bytes_ord, pair_ord}
use glade.External.{External}
use glade.Wire.{Op}
use glade.Transport.{Bound, TransportFold, no_records, over, binds}
use glade.Transport.Door.{Refusal, named_nodes, is_live_bound, lives, why, admit, door}
use glade.Transport.Revocation.{revokes_pair, record_of, earliest, stands, binds-over}
use glade.Transport.Admitted.{is_held, is_named, is_held-named_nodes}

module _ (fold : TransportFold) (endpoint node : Bytes) (now : ℤ) where
  revoked-is_named :
      binds fold node endpoint now ≡ Bound.revoked → is_named fold endpoint node ≡ true
  unfolding binds is_named is_held
  revoked-is_named h = ground (arith, h)

  admit-revoked :
      (configured : Bool) (nodes : BTreeMap Bytes (Unit {0}))
      → is_held (get node nodes) ≡ true
      → binds fold node endpoint now ≡ Bound.revoked
      → admit fold endpoint now (some node) configured nodes ≡ err (Refusal.revoked node)
  unfolding admit lives is_live_bound why get is_held
  admit-revoked configured [] k h = absurd (cc k)
  admit-revoked configured ((first, u) ∷ rest) k h = ground (arith, k, h)

-- Over the records of any ops, in any order: if one proves that a node revoked an endpoint key
-- and the clock can be read, the node's HELLO through the key is refused as revoked by the node,
-- whatever else is proved of the key, and though the operator configured it.
pub door-revoked :
    (x : External) (ops : List Op) (endpoint node : Bytes) (configured : Bool) (now : ℤ)
    → any (λ op. revokes_pair (endpoint, node) (record_of x op)) ops ≡ true
    → leb_ℤ now (pos 0) ≡ false
    → door (over x ops no_records) endpoint (some node) configured now ≡ err (Refusal.revoked node)
unfolding door
door-revoked x ops endpoint node configured now h clock =
    let fold : TransportFold = over x ops no_records in
    let gone : binds fold node endpoint now ≡ Bound.revoked =
      binds-over x ops node endpoint now
      ∙ ap (λ b. stands b (earliest x (endpoint, node) ops) now) h in
    ground (
      arith,
      clock,
      admit-revoked fold endpoint node now configured (named_nodes fold endpoint)
          (is_held-named_nodes fold endpoint node ∙ revoked-is_named fold endpoint node now gone)
          gone,
    )
