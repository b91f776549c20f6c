-- ===== src/Exchange/Orphans.antt =====
-- What a session's end takes from the calls (`Pending::ended` of node/src/exchange.rs).
use glade.Prelude.{
  ◌≡◌, ◌≢◌, refl, ap, Bool, true, false, not, ◌&&◌, none, some, [], ◌∷◌, arith, Text, ◌==◌, nat_eq,
  bytes_eq, bytes_discrete, if◌then◌else◌, All, All-mono,
}
use glade.Prelude.BTreeMap.{BTreeMap, get, Above, IsSorted, get-Above}
use glade.Prelude.Order.{bytes_ord}
use glade.Router.{SessionId}
use glade.Exchange.{Call, Pending, Caller, ended, left_by, orphaned_by}
use glade.Exchange.Takes.{Told, IsDistinct, Takes, left_by-none, left_by-IsSorted}

-- Either branch of a conditional.
either {ℓ} :
    {A : Type 0} (P : A → Type ℓ) (b : Bool) (x y : A)
    → (b ≡ true → P x)
    → P y
    → P (if b then x else y)
either P true x y f g = f refl
either P false x y f g = g

orphaned_by-either {ℓ} :
    (P : Told → Type ℓ) (sid : SessionId) (m : Text) (c : Call) (calls : BTreeMap Text Call)
    → ((c.provider == sid && not (c.caller == sid)) ≡ true
        → P ((m, (c.caller, c.corr)) ∷ orphaned_by sid calls))
    → P (orphaned_by sid calls)
    → P (orphaned_by sid ((m, c) ∷ calls))
unfolding orphaned_by
orphaned_by-either P sid m c calls f g =
    either P (c.provider == sid && not (c.caller == sid))
      ((m, (c.caller, c.corr)) ∷ orphaned_by sid calls) (orphaned_by sid calls) f g

found_first : (m : Text) (c : Call) (calls : BTreeMap Text Call) → get m ((m, c) ∷ calls) ≡ some c
unfolding get
found_first m c calls = ground arith

dropped_first :
    (sid : SessionId) (m : Text) (c : Call) (calls : BTreeMap Text Call)
    → Above m calls
    → (c.provider == sid && not (c.caller == sid)) ≡ true
    → get m (left_by sid ((m, c) ∷ calls)) ≡ none
unfolding left_by
dropped_first sid m c calls a e = ground (arith, e, left_by-none sid calls m (get-Above m calls a))

-- What an end orphans was pending.
abbrev IsPending : BTreeMap Text Call → Text × Caller → Type 0
IsPending calls e = (c : Call) × (get e.0 calls ≡ some c)

IsPending-cons :
    (m : Text) (c : Call) (calls : BTreeMap Text Call) (e : Text × Caller)
    → IsPending calls e
    → IsPending ((m, c) ∷ calls) e
unfolding get
IsPending-cons m c calls e (d, h) = elim (bytes_discrete m e.0) [
  | yes q ↦ (c, ground (arith, q))
  | no n ↦ (d, ground (arith, n, h))
]

orphaned_by-IsPending :
    (sid : SessionId) (calls : BTreeMap Text Call) → All (IsPending calls) (orphaned_by sid calls)
unfolding orphaned_by
orphaned_by-IsPending sid [] = tt
orphaned_by-IsPending sid ((m, c) ∷ calls) =
    let rest =
      All-mono _ _ (orphaned_by sid calls) (IsPending-cons m c calls)
        (orphaned_by-IsPending sid calls) in
    orphaned_by-either (All (IsPending ((m, c) ∷ calls))) sid m c calls
      (λ e. ((c, found_first m c calls), rest)) rest

-- No key of a sorted map is that of an entry before it.
pending-apart :
    (m : Text) (calls : BTreeMap Text Call) (e : Text × Caller)
    → Above m calls
    → IsPending calls e
    → e.0 ≢ m
pending-apart m calls e a (c, h) q = cc (get-Above m calls a, h, ap (λ t. get t calls) q)

orphaned_by-IsDistinct :
    (sid : SessionId) (calls : BTreeMap Text Call)
    → IsSorted calls
    → IsDistinct (orphaned_by sid calls)
unfolding orphaned_by
orphaned_by-IsDistinct sid [] s = tt
orphaned_by-IsDistinct sid ((m, c) ∷ calls) s =
    let apart =
      All-mono _ _ (orphaned_by sid calls) (λ e. pending-apart m calls e s.0)
        (orphaned_by-IsPending sid calls) in
    let rest = orphaned_by-IsDistinct sid calls s.1 in
    orphaned_by-either IsDistinct sid m c calls (λ e. (apart, rest)) rest

-- What an end orphans is pending no longer.
left-apart :
    (sid : SessionId) (m : Text) (c : Call) (calls : BTreeMap Text Call) (k : Text)
    → k ≢ m
    → get k (left_by sid calls) ≡ none
    → get k (left_by sid ((m, c) ∷ calls)) ≡ none
unfolding left_by get
left-apart sid m c calls k n h = ground (arith, n, h)

orphaned_by-gone :
    (sid : SessionId) (calls : BTreeMap Text Call)
    → IsSorted calls
    → All (λ e. get e.0 (left_by sid calls) ≡ none) (orphaned_by sid calls)
unfolding orphaned_by
orphaned_by-gone sid [] s = tt
orphaned_by-gone sid ((m, c) ∷ calls) s =
    let apart =
      All-mono _ _ (orphaned_by sid calls) (λ e. pending-apart m calls e s.0)
        (orphaned_by-IsPending sid calls) in
    let rest = later (orphaned_by sid calls) apart (orphaned_by-gone sid calls s.1) in
    orphaned_by-either (All Gone) sid m c calls (λ e. (dropped_first sid m c calls s.0 e, rest))
      rest
  where
    Gone : Text × Caller → Type 0
    Gone e = get e.0 (left_by sid ((m, c) ∷ calls)) ≡ none

    later :
        (told : Told)
        → All (λ e. e.0 ≢ m) told
        → All (λ e. get e.0 (left_by sid calls) ≡ none) told
        → All Gone told
    later [] a g = tt
    later (e ∷ told) a g = (left-apart sid m c calls e.0 a.0 g.0, later told a.1 g.1)

pub ended-Takes :
    (sid : SessionId) (p : Pending)
    → IsSorted p.calls
    → Takes p.calls (ended sid p).1.calls (orphaned_by sid p.calls)
unfolding ended
ended-Takes sid p s = record {
  pending = orphaned_by-IsPending sid p.calls;
  gone = orphaned_by-gone sid p.calls s;
  shrinks = left_by-none sid p.calls;
  distinct = orphaned_by-IsDistinct sid p.calls s;
  sorted = left_by-IsSorted sid p.calls;
}
