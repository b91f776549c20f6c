-- ===== src/Transport/Admitted.antt =====
-- Whom the door lets in, against the records that the fold holds (`door` of node/src/transport.rs).
use glade.Prelude.{
  ℤ, pos, ◌≡◌, ◌↔◌, ◌⊎◌, inl, inr, refl, ap, ◌∙◌, Bool, true, false, ◌&&◌, ◌||◌, Option, none, some,
  List, [], ◌∷◌, ◌++◌, arith, ◌==◌, bytes_eq, leb_ℤ, any, any-append, Bytes, ok, Bool-cases,
  Option-cases,
}
use glade.Prelude.BTreeMap.{BTreeMap, get, insert, get-insert_self, get-insert_ne}
use glade.Prelude.Order.{bytes_ord, pair_ord, dec_pair}
use glade.Transport.{Pair, Bound, TransportFold, binds}
use glade.Transport.Door.{
  keys, nodes_in, named_nodes, is_live_bound, lives, find_live, accept_any, elsewhere, admit, door,
}

unfoldable pub is_held {ℓ} : {A : Type ℓ} → Option A → Bool
is_held none = false
is_held (some a) = true

-- A binding or a revocation of the key by the node is held.
unfoldable pub is_named : TransportFold → Bytes → Bytes → Bool
unfolding is_held
is_named fold endpoint node =
    is_held (get (endpoint, node) fold.bindings) || is_held (get (endpoint, node) fold.revocations)

abbrev is_pair : Bytes → Bytes → Pair → Bool
is_pair endpoint node pair = pair.0 == endpoint && pair.1 == node

any-keys {ℓ} :
    {V : Type ℓ} (endpoint node : Bytes) (m : BTreeMap Pair V)
    → any (is_pair endpoint node) (keys m) ≡ is_held (get (endpoint, node) m)
unfolding keys get is_held dec_pair
any-keys endpoint node [] = refl
any-keys endpoint node (((e, n), v) ∷ m) = ground (arith, any-keys endpoint node m)

is_held-nodes_in :
    (endpoint node : Bytes) (pairs : List Pair)
    → is_held (get node (nodes_in endpoint pairs)) ≡ any (is_pair endpoint node) pairs
unfolding nodes_in is_held get
is_held-nodes_in endpoint node [] = refl
is_held-nodes_in endpoint node ((e, n) ∷ pairs) = elim (bytes_eq.dec n node) [
  | yes q ↦ ground (
    arith,
    is_held-nodes_in endpoint node pairs,
    get-insert_self n tt (nodes_in endpoint pairs),
    ap (λ k. get k (insert n tt (nodes_in endpoint pairs))) q,
  )
  | no d ↦ ground (
    arith,
    is_held-nodes_in endpoint node pairs,
    get-insert_ne n node tt (nodes_in endpoint pairs) d,
  )
]

pub is_held-named_nodes :
    (fold : TransportFold) (endpoint node : Bytes)
    → is_held (get node (named_nodes fold endpoint)) ≡ is_named fold endpoint node
unfolding named_nodes is_named
is_held-named_nodes fold endpoint node =
    is_held-nodes_in endpoint node (keys fold.bindings ++ keys fold.revocations)
    ∙ any-append (is_pair endpoint node) (keys fold.bindings) (keys fold.revocations)
    ∙ ground (arith, any-keys endpoint node fold.bindings, any-keys endpoint node fold.revocations)

module _ (fold : TransportFold) (endpoint : Bytes) (now : ℤ) where
  -- What is live is named.
  lives-is_named :
      (node : Bytes) → lives fold endpoint now node ≡ true → is_named fold endpoint node ≡ true
  unfolding lives is_live_bound binds is_named is_held
  lives-is_named node h = ground (arith, h)

  find_live-lives :
      (nodes : BTreeMap Bytes (Unit {0})) (n : Bytes)
      → find_live fold endpoint now nodes ≡ some n
      → lives fold endpoint now n ≡ true
  unfolding find_live
  find_live-lives [] n h = cc
  find_live-lives ((m, u) ∷ nodes) n h = ground (arith, h, find_live-lives nodes n)

  find_live-none :
      (nodes : BTreeMap Bytes (Unit {0})) (n : Bytes)
      → find_live fold endpoint now nodes ≡ none
      → is_held (get n nodes) ≡ true
      → lives fold endpoint now n ≡ false
  unfolding find_live is_held get
  find_live-none [] n h k = absurd (cc k)
  find_live-none ((m, u) ∷ nodes) n h k =
      ground (arith, ap (lives fold endpoint now), h, k, find_live-none nodes n)

-- Some node's binding of the key is live, or that of the node that speaks.
abbrev pub Speaks : TransportFold → Bytes → ℤ → Option Bytes → Type 0
Speaks fold endpoint now none = (n : Bytes) × (binds fold n endpoint now ≡ Bound.live)
Speaks fold endpoint now (some n) = binds fold n endpoint now ≡ Bound.live

-- The clock can be read, and either the key is new and configured or a live binding stands for it.
abbrev pub IsAdmitted : TransportFold → Bytes → Option Bytes → Bool → ℤ → Type 0
IsAdmitted fold endpoint hello configured now =
    (leb_ℤ now (pos 0) ≡ false)
    × (((configured ≡ true) × ((n : Bytes) → is_named fold endpoint n ≡ false))
        ⊎ Speaks fold endpoint now hello)

module _ (fold : TransportFold) (endpoint : Bytes) (now : ℤ) (configured : Bool) where
  lives-live :
      (n : Bytes) → lives fold endpoint now n ≡ true → binds fold n endpoint now ≡ Bound.live
  unfolding lives is_live_bound
  lives-live n h = ground (arith, h)

  live-lives :
      (n : Bytes) → binds fold n endpoint now ≡ Bound.live → lives fold endpoint now n ≡ true
  unfolding lives is_live_bound
  live-lives n h = ground (arith, h)

  abbrev Names : BTreeMap Bytes (Unit {0}) → Type 0
  Names nodes = (n : Bytes) → is_held (get n nodes) ≡ is_named fold endpoint n

  first_named :
      (first : Bytes) (u : Unit {0}) (rest : BTreeMap Bytes (Unit {0}))
      → Names ((first, u) ∷ rest)
      → is_named fold endpoint first ≡ true
  unfolding get is_held
  first_named first u rest f = ground (arith, f first)

  none_named : Names [] → (n : Bytes) → is_named fold endpoint n ≡ false
  unfolding get is_held
  none_named f n = ground (arith, f n)

  admit-Speaks :
      (hello : Option Bytes) (nodes : BTreeMap Bytes (Unit {0}))
      → Names nodes
      → admit fold endpoint now hello configured nodes ≡ ok tt
      → ((configured ≡ true) × ((n : Bytes) → is_named fold endpoint n ≡ false))
        ⊎ Speaks fold endpoint now hello
  unfolding admit accept_any elsewhere
  admit-Speaks hello [] f h = inl (ground (arith, h), none_named f)
  admit-Speaks none ((first, u) ∷ rest) f h =
      inr (elim (Option-cases (find_live fold endpoint now ((first, u) ∷ rest))) [
        | inl e ↦ absurd (ground (arith, e, h))
        | inr (m, e) ↦ (m, lives-live m (find_live-lives fold endpoint now _ m e))
      ])
  admit-Speaks (some n) ((first, u) ∷ rest) f h = inr (lives-live n (ground (arith, h)))

  admit-admits :
      (hello : Option Bytes) (nodes : BTreeMap Bytes (Unit {0}))
      → Names nodes
      → ((configured ≡ true) × ((n : Bytes) → is_named fold endpoint n ≡ false))
        ⊎ Speaks fold endpoint now hello
      → admit fold endpoint now hello configured nodes ≡ ok tt
  unfolding admit accept_any elsewhere
  admit-admits hello [] f (inl (c, new)) = ground (arith, c)
  admit-admits hello ((first, u) ∷ rest) f (inl (c, new)) =
      absurd (ground (arith, new first, first_named first u rest f))
  admit-admits none [] f (inr (n, b)) =
      absurd (ground (arith, none_named f n, lives-is_named fold endpoint now n (live-lives n b)))
  admit-admits (some n) [] f (inr b) =
      absurd (ground (arith, none_named f n, lives-is_named fold endpoint now n (live-lives n b)))
  admit-admits none ((first, u) ∷ rest) f (inr (n, b)) =
      elim (Option-cases (find_live fold endpoint now ((first, u) ∷ rest))) [
        | inl e ↦ absurd (
            ground (
              arith,
              live-lives n b,
              find_live-none fold endpoint now _ n e
                  (f n ∙ lives-is_named fold endpoint now n (live-lives n b)),
            ))
        | inr (m, e) ↦ ground (arith, e)
      ]
  admit-admits (some n) ((first, u) ∷ rest) f (inr b) = ground (arith, live-lives n b)

-- The door lets an endpoint key in, at accept or for the HELLO of a node, exactly when the clock
-- can be read and either the operator configured the key and no record names it, or a binding of
-- it is live: that of the node that speaks, or at accept that of any node.
pub door-IsAdmitted :
    (fold : TransportFold) (endpoint : Bytes) (hello : Option Bytes) (configured : Bool) (now : ℤ)
    → (door fold endpoint hello configured now ≡ ok tt)
      ↔ IsAdmitted fold endpoint hello configured now
unfolding door
door-IsAdmitted fold endpoint hello configured now = (there, back)
  where
    names : (n : Bytes) → is_held (get n (named_nodes fold endpoint)) ≡ is_named fold endpoint n
    names = is_held-named_nodes fold endpoint

    there :
        door fold endpoint hello configured now ≡ ok tt
        → IsAdmitted fold endpoint hello configured now
    there h = elim (Bool-cases (leb_ℤ now (pos 0))) [
      | inl e ↦ absurd (ground (arith, e, h))
      | inr e ↦ (e, admit-Speaks fold endpoint now configured hello _ names (ground (arith, e, h)))
    ]

    back :
        IsAdmitted fold endpoint hello configured now
        → door fold endpoint hello configured now ≡ ok tt
    back (clock, why) =
        ground (arith, clock, admit-admits fold endpoint now configured hello _ names why)
