-- ===== src/Exchange/Takes.antt =====
-- What an answer and a bound take from the calls (`Pending` of node/src/exchange.rs).
use glade.Prelude.{
  ◌≡◌, ◌≢◌, inl, inr, ap, ◌∙◌, Option, none, some, List, [], ◌∷◌, ◌++◌, arith, Text, nat_eq,
  bytes_eq, bytes_discrete, All, All-append, Option-cases,
}
use glade.Prelude.BTreeMap.{
  BTreeMap, get, remove, get-remove_self, get-remove_ne, Above, IsSorted, remove-IsSorted,
}
use glade.Prelude.Order.{bytes_ord}
use glade.Router.{SessionId}
use glade.Exchange.{Call, Pending, Caller, file, answered, expired, ended, left_by, orphaned_by}

pub data Event : Type 0 where
  filed : SessionId → Text → SessionId → Event
  answer : SessionId → Text → Event
  expire : Text → Event
  end : SessionId → Event

abbrev pub Told : Type 0
Told = List (Text × Caller)

-- A caller that is answered, with the correlation that its call was filed as.
abbrev pub told_of : Text → Option Caller → Told
told_of minted none = []
told_of minted (some caller) = (minted, caller) ∷ []

-- One event, and what it has callers told.
unfoldable pub happens : Event → Pending → Told × Pending
happens (filed caller corr provider) p = ([], (file caller corr provider p).1)
happens (answer provider minted) p =
    let (caller, after) = answered provider minted p in (told_of minted caller, after)
happens (expire minted) p = let (caller, after) = expired minted p in (told_of minted caller, after)
happens (end sid) p = (orphaned_by sid p.calls, (ended sid p).1)

unfoldable pub told_by : List Event → Pending → Told
unfolding happens
told_by [] p = []
told_by (e ∷ events) p = (happens e p).0 ++ told_by events (happens e p).1

abbrev pub IsApart : Text → Told → Type 0
IsApart minted told = All (λ e. e.0 ≢ minted) told

abbrev pub IsDistinct : Told → Type 0
IsDistinct [] = Unit
IsDistinct ((minted, caller) ∷ told) = IsApart minted told × IsDistinct told

pub IsDistinct-append :
    (xs ys : Told)
    → IsDistinct xs
    → IsDistinct ys
    → All (λ x. IsApart x.0 ys) xs
    → IsDistinct (xs ++ ys)
IsDistinct-append [] ys dx dy h = dy
IsDistinct-append ((m, c) ∷ xs) ys dx dy h =
    (All-append _ xs ys dx.0 h.0, IsDistinct-append xs ys dx.1 dy h.1)

-- What an event that files nothing does to the calls.
pub record Takes (calls after : BTreeMap Text Call) (new : Told) : Type 0 where
  pub pending : All (λ e. (c : Call) × (get e.0 calls ≡ some c)) new
  pub gone : All (λ e. get e.0 after ≡ none) new
  pub shrinks : (k : Text) → get k calls ≡ none → get k after ≡ none
  pub distinct : IsDistinct new
  pub sorted : IsSorted calls → IsSorted after

Takes-none : (calls : BTreeMap Text Call) → Takes calls calls []
Takes-none calls = record {
  pending = tt;
  gone = tt;
  shrinks = λ k h. h;
  distinct = tt;
  sorted = λ s. s;
}

remove-Takes :
    (calls : BTreeMap Text Call) (m : Text) (c : Call) (caller : Caller)
    → get m calls ≡ some c
    → Takes calls (remove m calls) ((m, caller) ∷ [])
remove-Takes calls m c caller e = record {
  pending = ((c, e), tt);
  gone = (get-remove_self m calls, tt);
  shrinks = λ k h. elim (bytes_discrete m k) [
    | yes q ↦ absurd (cc (ap (λ t. get t calls) q, e, h))
    | no n ↦ get-remove_ne m k calls n ∙ h
  ];
  distinct = (tt, tt);
  sorted = remove-IsSorted m calls;
}

pub answered-Takes :
    (sid : SessionId) (m : Text) (p : Pending)
    → Takes p.calls (answered sid m p).1.calls (told_of m (answered sid m p).0)
unfolding answered
answered-Takes sid m p = elim (Option-cases (get m p.calls)) [
  | inl e ↦ ground (arith, e, Takes-none p.calls)
  | inr (c, e) ↦
      ground (arith, e, Takes-none p.calls, remove-Takes p.calls m c (c.caller, c.corr) e)
]

pub expired-Takes :
    (m : Text) (p : Pending) → Takes p.calls (expired m p).1.calls (told_of m (expired m p).0)
unfolding expired
expired-Takes m p = elim (Option-cases (get m p.calls)) [
  | inl e ↦ ground (arith, e, Takes-none p.calls)
  | inr (c, e) ↦ ground (arith, e, remove-Takes p.calls m c (c.caller, c.corr) e)
]

pub left_by-none :
    (sid : SessionId) (calls : BTreeMap Text Call) (k : Text)
    → get k calls ≡ none
    → get k (left_by sid calls) ≡ none
unfolding left_by get
left_by-none sid [] k h = h
left_by-none sid ((m, c) ∷ calls) k h = ground (arith, left_by-none sid calls k)

left_by-Above :
    (sid : SessionId) (calls : BTreeMap Text Call) (k : Text)
    → Above k calls
    → Above k (left_by sid calls)
unfolding left_by
left_by-Above sid [] k h = tt
left_by-Above sid ((m, c) ∷ calls) k h = ground (arith, left_by-Above sid calls k h.1)

pub left_by-IsSorted :
    (sid : SessionId) (calls : BTreeMap Text Call) → IsSorted calls → IsSorted (left_by sid calls)
unfolding left_by
left_by-IsSorted sid [] s = tt
left_by-IsSorted sid ((m, c) ∷ calls) s =
    ground (arith, left_by-IsSorted sid calls s.1, left_by-Above sid calls m s.0)
