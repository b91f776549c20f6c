-- ===== src/Sync/Gap.antt =====
-- What a peer is sent of a chain, by the head that it announced (node/src/session.rs).
use glade.Prelude.{
  ℕ, ℤ, ◌≡◌, refl, sym, ap, ◌∙◌, subst, inl, inr, Option, none, some, List, [], ◌∷◌, ◌++◌, arith,
  Text, bytes_eq, i64_min, ◌<ℤ◌, keep, All, last?, last?-eq-none, Option-cases,
}
use glade.Prelude.BTreeMap.{get, insert, get-insert_self, get-insert_ne, IsSorted, get-Above}
use glade.Prelude.Order.{bytes_ord, pair_ord, dec_pair}
use glade.External.{External}
use glade.Wire.{Op, Zone, ChainId, chain_of, zone_eq}
use glade.Store.Types.{Store, Logs, Register}
use glade.Store.Classify.{held_of}
use glade.Store.Chains.{IsChain}
use glade.Store.Open.{on_chain}
use glade.Store.Valid.{IsValid, IsRegister}
use glade.Store.Views.{heads, heads_in, scan, tip, from_seq}
use glade.Sync.{Heads, collect, heads_map, from_of, missing_for}
use glade.Sync.Sent.{keep_suffix, heads_in-cases, sent, sent-none, sent-some, scan_empty}

-- Of each origin of the zone a peer is sent, by a valid store, exactly the ops above the head
-- that it announced.
missing_for-scan :
    (x : External) (s : Store) (z : Zone) (their : Heads) (origin : Text)
    → IsValid x s
    → keep (on_chain (z, origin)) (missing_for x s z their)
      ≡ scan s (z, origin) (from_of their origin)
unfolding missing_for heads sent held_of
missing_for-scan x s z their origin v = elim (Option-cases (get (z, origin) s.logs)) [
  | inl e ↦
      sent-none x s.register z s their keyed origin s.logs e
      ∙ sym (scan_empty x s.register z s their keyed (z, origin) _ (ground (arith, e)))
  | inr (ops, e) ↦
      sent-some x s.register z s their keyed origin ops s.logs v.sorted e (ground (arith, e))
]
  where
    keyed : (c : ChainId) → All (λ o. chain_of o ≡ c) (held_of s.logs c)
    keyed c = (v.logs c).keyed

abbrev announced : Option (ℤ × List ℕ) → Option ℤ → Option ℤ
announced none before = before
announced (some p) before = some p.0

module _ (x : External) (register : Register) (z : Zone) where
  collect_empty : (o : Text) (m : Heads) → get o (collect (heads_in x register z []) m) ≡ get o m
  unfolding collect heads_in
  collect_empty o m = refl

  -- A chain's announced head.
  collect-none :
      (o : Text) (logs : Logs) (m : Heads)
      → get (z, o) logs ≡ none
      → get o (collect (heads_in x register z logs) m) ≡ get o m
  unfolding collect get
  collect-none o [] m e = collect_empty o m
  collect-none o (((y, p), ops) ∷ logs) m e = elim (heads_in-cases x register z y p ops logs) [
    | inr (_, q) ↦ ap (λ l. get o (collect l m)) q ∙ collect-none o logs m (ground arith)
    | inl (q, f, t, h) ↦
        ap (λ l. get o (collect l m)) h
        ∙ collect-none o logs (insert p f.0 m) (ground arith)
        ∙ get-insert_ne p o f.0 m
            (λ r. let k : ◌≡◌ {A = ChainId} (z, o) (y, p) = cc (q, r) in ground (arith, k))
  ]

  collect-some :
      (o : Text) (ops : List Op) (logs : Logs) (m : Heads)
      → IsSorted logs
      → get (z, o) logs ≡ some ops
      → get o (collect (heads_in x register z logs) m)
        ≡ announced (tip x register (z, o) ops) (get o m)
  unfolding collect get
  collect-some o ops [] m sorted e = cc
  collect-some o ops (((y, q), held) ∷ logs) m (above, sorted) e = elim (dec_pair (z, o) (y, q)) [
    | yes k ↦
        let none_left : get (z, o) logs ≡ none =
          subst (λ j. get j logs ≡ none) (sym k) (get-Above (y, q) logs above) in
        let same : held ≡ ops = ground (arith, k) in
        let own : o ≡ q = ap (λ (j : ChainId). j.1) k in
        let tips : tip x register (z, o) ops ≡ tip x register (y, q) held =
          ap (λ (j : ChainId × List Op). tip x register j.0 j.1) (cc (same, k)) in
        elim (heads_in-cases x register z y q held logs) [
          | inl (w, f, t, h) ↦
              ap (λ l. get o (collect l m)) h
              ∙ collect-none o logs (insert q f.0 m) none_left
              ∙ ap (λ j. get j (insert q f.0 m)) own
              ∙ get-insert_self q f.0 m
              ∙ ap (λ i. announced i (get o m)) (sym (tips ∙ t))
          | inr (inl n, h) ↦ absurd (n (sym (ap (λ (j : ChainId). j.0) k)))
          | inr (inr t, h) ↦
              ap (λ l. get o (collect l m)) h
              ∙ collect-none o logs m none_left
              ∙ ap (λ i. announced i (get o m)) (sym (tips ∙ t))
        ]
    | no n ↦ elim (heads_in-cases x register z y q held logs) [
      | inr (_, h) ↦
          ap (λ l. get o (collect l m)) h ∙ collect-some o ops logs m sorted (ground arith)
      | inl (w, f, _, h) ↦
          ap (λ l. get o (collect l m)) h
          ∙ collect-some o ops logs (insert q f.0 m) sorted (ground arith)
          ∙ ap (announced (tip x register (z, o) ops)) (
              get-insert_ne q o f.0 m
                (λ r. let k : ◌≡◌ {A = ChainId} (z, o) (y, q) = cc (w, r) in n k))
    ]
  ]

-- The head that a store announces of a chain that it has no floor of.
abbrev no_announcement : Heads
no_announcement = []

no_heads : (o : Text) → get o no_announcement ≡ none
unfolding get
no_heads o = refl

no_floor :
    (x : External) (register : Register) (c : ChainId) (ops : List Op)
    → get c register ≡ none
    → announced (tip x register c ops) none
      ≡ (elim (last? ops) [ none ↦ none | some a ↦ some a.seq ])
unfolding tip
no_floor x register c ops e = ground arith

unfoldable held_head : Option Op → Option ℤ
held_head none = none
held_head (some a) = some a.seq

get-heads_map :
    (x : External) (t : Store) (z : Zone) (o : Text)
    → IsValid x t
    → get (z, o) t.register ≡ none
    → get o (heads_map x t z) ≡ held_head (last? (held_of t.logs (z, o)))
unfolding heads_map heads held_of held_head
get-heads_map x t z o v free = elim (Option-cases (get (z, o) t.logs)) [
  | inl e ↦ ground (arith, collect-none x t.register z o t.logs [] e, e, no_heads o)
  | inr (ops, e) ↦ ground (
    arith,
    collect-some x t.register z o ops t.logs [] v.sorted e,
    no_floor x t.register (z, o) ops free,
    no_heads o,
    e,
  )
]

from_of-heads_map :
    (x : External) (t : Store) (z : Zone) (o : Text)
    → IsValid x t
    → get (z, o) t.register ≡ none
    → from_of (heads_map x t z) o
      ≡ (elim (last? (held_of t.logs (z, o))) [ none ↦ i64_min | some a ↦ a.seq ])
unfolding from_of held_head
from_of-heads_map x t z o v free = ground (arith, get-heads_map x t z o v free)

keep-All : (b : ℤ) (ops : List Op) → All (λ o. b <ℤ o.seq) ops → keep (from_seq b) ops ≡ ops
keep-All b [] h = refl
keep-All b (o ∷ ops) h = ground (arith, keep-All b ops h.1)

gap_above :
    (x : External) (held more : List Op) (from : ℤ)
    → IsChain x (held ++ more)
    → All (λ o. i64_min <ℤ o.seq) (held ++ more)
    → from ≡ (elim (last? held) [ none ↦ i64_min | some a ↦ a.seq ])
    → keep (from_seq from) (held ++ more) ≡ more
gap_above x held more from c low e = elim (Option-cases (last? held)) [
  | inl h ↦
      let nothing : held ≡ [] = last?-eq-none held h in
      let start : from ≡ i64_min = ground (arith, e, h) in
      ap (λ l. keep (from_seq from) (l ++ more)) nothing
      ∙ ap (λ f. keep (from_seq f) more) start
      ∙ keep-All i64_min more (subst (λ l. All (λ o. i64_min <ℤ o.seq) (l ++ more)) nothing low)
  | inr (a, h) ↦
      let start : from ≡ a.seq = ground (arith, e, h) in
      ap (λ f. keep (from_seq f) (held ++ more)) start ∙ keep_suffix x held more a c h
]

-- Between valid stores, what is sent of a chain that the receiver holds the beginning of, and has no
-- floor for, is the chain's end.
pub missing_for-gap :
    (x : External) (s t : Store) (z : Zone) (origin : Text) (more : List Op)
    → IsValid x s
    → IsValid x t
    → ¬ IsRegister (z, origin)
    → get (z, origin) t.register ≡ none
    → All (λ o. i64_min <ℤ o.seq) (held_of s.logs (z, origin))
    → held_of s.logs (z, origin) ≡ held_of t.logs (z, origin) ++ more
    → keep (on_chain (z, origin)) (missing_for x s z (heads_map x t z)) ≡ more
unfolding scan
missing_for-gap x s t z origin more vs vt n free low e =
    missing_for-scan x s z (heads_map x t z) origin vs
    ∙ ap (keep (from_seq (from_of (heads_map x t z) origin))) e
    ∙ gap_above x (held_of t.logs (z, origin)) more _
        (subst (IsChain x) e ((vs.logs (z, origin)).chained n))
        (subst (All (λ o. i64_min <ℤ o.seq)) e low) (from_of-heads_map x t z origin vt free)
