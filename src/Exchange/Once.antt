-- ===== src/Exchange/Once.antt =====
-- No call is answered twice (`Pending` of node/src/exchange.rs), whatever answers it: its provider, its
-- bound or its provider's end.
use glade.Prelude.{
  ℕ, ◌+◌, ◌%◌, ◌^◌, ◌≤◌, ◌<◌, ◌≡◌, refl, sym, ap, subst, ◌∙◌, none, List, [], ◌∷◌, ◌++◌, arith,
  Text, nat_eq, bytes_eq, All, All-append, All-mono, length,
}
use glade.Prelude.BTreeMap.{
  BTreeMap, get, insert, remove, get-insert_ne, All-get, All-insert, IsSorted, insert-IsSorted,
}
use glade.Prelude.Decimal.{decimal_injective}
use glade.Prelude.Order.{bytes_ord}
use glade.Router.{SessionId}
use glade.Exchange.{Call, Pending, Caller, no_calls, mint, file, answered, expired, ended, left_by}
use glade.Exchange.Takes.{
  Event, filed, answer, expire, end, Told, happens, told_by, IsApart, IsDistinct, IsDistinct-append,
  Takes, answered-Takes, expired-Takes,
}
use glade.Exchange.Orphans.{ended-Takes}

-- The correlations so far, each a number that was minted.
abbrev IsMinted : ℕ → Text → Type 0
IsMinted top m = (k : ℕ) × (m ≡ mint k) × (k ≤ top)

record IsValid (p : Pending) (told : Told) : Type 0 where
  sorted : IsSorted p.calls
  keys : All (λ e. IsMinted p.minted e.0) p.calls
  minted : All (λ e. IsMinted p.minted e.0) told
  over : All (λ e. get e.0 p.calls ≡ none) told
  distinct : IsDistinct told

Takes-IsValid :
    (p after : Pending) (told new : Told)
    → after.minted ≡ p.minted
    → ((P : Text × Call → Type 0) → All P p.calls → All P after.calls)
    → Takes p.calls after.calls new
    → IsValid p told
    → IsValid after (told ++ new)
Takes-IsValid p after told new same part t v = record {
  sorted = t.sorted v.sorted;
  keys = part _ (subst (λ n. All (λ e. IsMinted n e.0) p.calls) (sym same) v.keys);
  minted =
      subst (λ n. All (λ e. IsMinted n e.0) (told ++ new)) (sym same)
        (All-append _ told new v.minted (
          All-mono _ _ new (λ e h. All-get (λ e. IsMinted p.minted e.0) p.calls e.0 h.0 v.keys h.1)
            t.pending));
  over = All-append _ told new (All-mono _ _ told (λ e. t.shrinks e.0) v.over) t.gone;
  distinct = IsDistinct-append told new v.distinct t.distinct (All-mono _ _ told apart v.over);
}
  where
    apart : (e : Text × Caller) → get e.0 p.calls ≡ none → IsApart e.0 new
    apart e h = All-mono _ _ new (λ d g q. cc (h, g.1, ap (λ t. get t p.calls) q)) t.pending

mint_injective : (m n : ℕ) → m < 2 ^ 64 → n < 2 ^ 64 → mint m ≡ mint n → m ≡ n
unfolding mint
mint_injective m n h k e = decimal_injective m n h k (cc e)

file-IsValid :
    (caller : SessionId) (corr : Text) (provider : SessionId) (p : Pending) (told : Told)
    → p.minted + 1 < 2 ^ 64
    → IsValid p told
    → IsValid (file caller corr provider p).1 told
unfolding file
file-IsValid caller corr provider p told h v =
    subst (λ n. IsValid (record { minted = n; calls = insert (mint n) call p.calls }) told) same
      filed_next
  where
    n : ℕ
    n = p.minted + 1

    call : Call
    call = record { caller = caller; corr = corr; provider = provider }

    same : n ≡ (p.minted + 1) % 2 ^ 64
    same = omega (arith, h)

    wider : (e : Text) → IsMinted p.minted e → IsMinted n e
    wider e (k, m, l) = (k, m, omega (arith, l))

    unfiled :
        (told : Told)
        → All (λ e. IsMinted p.minted e.0) told
        → All (λ e. get e.0 p.calls ≡ none) told
        → All (λ e. get e.0 (insert (mint n) call p.calls) ≡ none) told
    unfiled [] m o = tt
    unfiled (e ∷ told) ((k, q, l), m) o = (
      get-insert_ne (mint n) e.0 call p.calls
            (λ d. absurd (omega (arith, l, mint_injective n k h (omega (arith, h, l)) (d ∙ q))))
          ∙ o.0,
      unfiled told m o.1,
    )

    filed_next : IsValid (record { minted = n; calls = insert (mint n) call p.calls }) told
    filed_next = record {
      sorted = insert-IsSorted (mint n) call p.calls v.sorted;
      keys =
          All-insert (λ e. IsMinted n e.0) p.calls (mint n) call (n, refl, omega arith)
            (All-mono _ _ p.calls (λ e. wider e.0) v.keys);
      minted = All-mono _ _ told (λ e. wider e.0) v.minted;
      over = unfiled told v.minted v.over;
      distinct = v.distinct;
    }

All-remove :
    (P : Text × Call → Type 0) (m : Text) (calls : BTreeMap Text Call)
    → All P calls
    → All P (remove m calls)
unfolding remove
All-remove P m [] h = tt
All-remove P m ((k, c) ∷ calls) h = ground (arith, All-remove P m calls h.1)

All-left_by :
    (P : Text × Call → Type 0) (sid : SessionId) (calls : BTreeMap Text Call)
    → All P calls
    → All P (left_by sid calls)
unfolding left_by
All-left_by P sid [] h = tt
All-left_by P sid ((k, c) ∷ calls) h = ground (arith, All-left_by P sid calls h.1)

answered-part :
    (sid : SessionId) (m : Text) (p : Pending)
    → ((answered sid m p).1.minted ≡ p.minted)
      × ((P : Text × Call → Type 0) → All P p.calls → All P (answered sid m p).1.calls)
unfolding answered
answered-part sid m p = (ground arith, λ P h. ground (arith, h, All-remove P m p.calls h))

expired-part :
    (m : Text) (p : Pending)
    → ((expired m p).1.minted ≡ p.minted)
      × ((P : Text × Call → Type 0) → All P p.calls → All P (expired m p).1.calls)
unfolding expired
expired-part m p = (ground arith, λ P h. ground (arith, h, All-remove P m p.calls h))

append_nil : (xs : Told) → xs ≡ xs ++ []
append_nil [] = refl
append_nil (x ∷ xs) = ap (◌∷◌ x) (append_nil xs)

append_assoc : (xs ys zs : Told) → xs ++ ys ++ zs ≡ xs ++ (ys ++ zs)
append_assoc [] ys zs = refl
append_assoc (x ∷ xs) ys zs = ap (◌∷◌ x) (append_assoc xs ys zs)

end_same : (sid : SessionId) (p : Pending) → (ended sid p).1.minted ≡ p.minted
unfolding ended
end_same sid p = refl

end_part :
    (P : Text × Call → Type 0) (sid : SessionId) (p : Pending)
    → All P p.calls
    → All P (ended sid p).1.calls
unfolding ended
end_part P sid p h = All-left_by P sid p.calls h

happens-IsValid :
    (e : Event) (p : Pending) (told : Told)
    → p.minted + 1 < 2 ^ 64
    → IsValid p told
    → IsValid (happens e p).1 (told ++ (happens e p).0)
unfolding happens
happens-IsValid (filed caller corr provider) p told h v =
    subst (IsValid (file caller corr provider p).1) (append_nil told)
      (file-IsValid caller corr provider p told h v)
happens-IsValid (answer sid m) p told h v =
    let (same, part) = answered-part sid m p in
    Takes-IsValid p _ told _ same part (answered-Takes sid m p) v
happens-IsValid (expire m) p told h v =
    let (same, part) = expired-part m p in Takes-IsValid p _ told _ same part (expired-Takes m p) v
happens-IsValid (end sid) p told h v =
    Takes-IsValid p _ told _ (end_same sid p) (λ P. end_part P sid p) (ended-Takes sid p v.sorted) v

happens-minted :
    (e : Event) (p : Pending) → p.minted + 1 < 2 ^ 64 → (happens e p).1.minted ≤ p.minted + 1
unfolding happens file
happens-minted (filed caller corr provider) p h = omega (arith, h)
happens-minted (answer sid m) p h = omega (arith, (answered-part sid m p).0)
happens-minted (expire m) p h = omega (arith, (expired-part m p).0)
happens-minted (end sid) p h = omega (arith, end_same sid p)

run-IsDistinct :
    (events : List Event) (p : Pending) (told : Told)
    → p.minted + length events < 2 ^ 64
    → IsValid p told
    → IsDistinct (told ++ told_by events p)
unfolding told_by
run-IsDistinct [] p told h v = subst IsDistinct (append_nil told) v.distinct
run-IsDistinct (e ∷ events) p told h v =
    subst IsDistinct (append_assoc told (happens e p).0 (told_by events (happens e p).1)) (
      run-IsDistinct events (happens e p).1 (told ++ (happens e p).0)
        (omega (arith, h, happens-minted e p (omega (arith, h))))
        (happens-IsValid e p told (omega (arith, h)) v))

-- In any run of fewer than 2^64 events from no calls, calls that are filed, answers of any
-- session on any correlation, bounds that pass and sessions that end, no two tellings are of one
-- call: each correlation that the node mints has its caller told once at most.
pub told_by-IsDistinct :
    (events : List Event) → length events < 2 ^ 64 → IsDistinct (told_by events no_calls)
told_by-IsDistinct events h =
    run-IsDistinct events no_calls [] (omega (arith, h))
      (record { sorted = tt; keys = tt; minted = tt; over = tt; distinct = tt })
