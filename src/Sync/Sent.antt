-- ===== src/Sync/Sent.antt =====
-- What a peer is sent of each chain of a zone (node/src/session.rs).
use glade.Prelude.{
  ℕ, ℤ, ◌≡◌, ◌≢◌, refl, sym, ap, ◌∙◌, subst, ◌⊎◌, inl, inr, none, some, List, [], ◌∷◌, ◌++◌, arith,
  Text, bytes_eq, ◌<ℤ◌, ◌≤ℤ◌, suc_ℤ_parts, keep, keep-append, All, All-keep, last?, last?-eq-none,
  Option-cases,
}
use mathlib.Core.List.{append-nil}
use glade.Prelude.BTreeMap.{get, IsSorted, get-Above}
use glade.Prelude.Order.{bytes_ord, pair_ord, dec_pair}
use glade.External.{External}
use glade.Wire.{Op, Zone, ChainId, chain_of, zone_eq}
use glade.Store.Types.{Store, Logs, Register}
use glade.Store.Classify.{held_of}
use glade.Store.Chains.{IsChain}
use glade.Store.Open.{on_chain}
use glade.Store.Views.{heads_in, scan, tip, from_seq}
use glade.Sync.{Heads, from_of, missing_of}

-- Of a chain, the ops above the seq of its last op are what follows it.
pub keep_none :
    (x : External) (a : Op) (ops : List Op) (b : ℤ)
    → IsChain x (a ∷ ops)
    → b <ℤ a.seq
    → keep (from_seq b) (a ∷ ops) ≡ a ∷ ops
keep_none x a [] b c h = ground arith
keep_none x a (o ∷ ops) b c h = ground (arith, suc_ℤ_parts a.seq, keep_none x o ops b c.1)

last_above :
    (x : External) (o a : Op) (xs ys : List Op)
    → IsChain x ((o ∷ xs) ++ ys)
    → last? (o ∷ xs) ≡ some a
    → o.seq ≤ℤ a.seq
last_above x o a [] ys c e = ground arith
last_above x o a (p ∷ xs) ys c e =
    ground (arith, suc_ℤ_parts o.seq, c.0, last_above x p a xs ys c.1 e)

pub keep_suffix :
    (x : External) (xs ys : List Op) (a : Op)
    → IsChain x (xs ++ ys)
    → last? xs ≡ some a
    → keep (from_seq a.seq) (xs ++ ys) ≡ ys
keep_suffix x [] ys a c e = cc
keep_suffix x (o ∷ []) [] a c e = ground arith
keep_suffix x (o ∷ []) (p ∷ ys) a c e =
    ground (arith, suc_ℤ_parts o.seq, keep_none x p ys a.seq c.1)
keep_suffix x (o ∷ p ∷ xs) ys a c e =
    let rest = keep_suffix x (p ∷ xs) ys a c.1 e in
    let below = last_above x o a (p ∷ xs) ys c e in ground (arith, rest, below)

on_own : (c : ChainId) (ops : List Op) → All (λ o. chain_of o ≡ c) ops → keep (on_chain c) ops ≡ ops
unfolding on_chain
on_own c [] h = refl
on_own c (o ∷ ops) h = ground (arith, h.0, on_own c ops h.1)

on_other :
    (c d : ChainId) (ops : List Op)
    → c ≢ d
    → All (λ o. chain_of o ≡ d) ops
    → keep (on_chain c) ops ≡ []
unfolding on_chain
on_other c d [] n h = refl
on_other c d (o ∷ ops) n h = ground (arith, h.0, on_other c d ops n h.1)

module _ (x : External) (register : Register) (z : Zone) where
  -- One log adds its origin's head if it is of the zone and has one.
  pub heads_in-cases :
      (y : Zone) (o : Text) (ops : List Op) (logs : Logs)
      → ((y ≡ z)
          × (p : ℤ × List ℕ) × (tip x register (y, o) ops ≡ some p)
          × (heads_in x register z (((y, o), ops) ∷ logs) ≡ (o, p.0) ∷ heads_in x register z logs))
        ⊎ (((y ≢ z) ⊎ (tip x register (y, o) ops ≡ none))
            × (heads_in x register z (((y, o), ops) ∷ logs) ≡ heads_in x register z logs))
  unfolding heads_in
  heads_in-cases y o ops logs = elim (dec_pair y z) [
    | no n ↦ inr (inl n, ground arith)
    | yes e ↦ elim (Option-cases (tip x register (y, o) ops)) [
      | inl t ↦ inr (inr t, ground arith)
      | inr (p, t) ↦ inl (e, p, t, ground arith)
    ]
  ]

  module _ (s : Store) (their : Heads)
      (keyed : (c : ChainId) → All (λ o. chain_of o ≡ c) (held_of s.logs c)) where
    unfoldable pub sent : ChainId → List (Text × ℤ) → List Op
    sent c entries = keep (on_chain c) (missing_of s z their entries)

    pub sent_cons :
        (c : ChainId) (o : Text) (seq : ℤ) (entries : List (Text × ℤ))
        → sent c ((o, seq) ∷ entries)
          ≡ keep (on_chain c) (scan s (z, o) (from_of their o)) ++ sent c entries
    unfolding sent missing_of
    sent_cons c o seq entries = keep-append (on_chain c) (scan s (z, o) (from_of their o)) _

    scan_own :
        (o : Text) (from : ℤ) → keep (on_chain (z, o)) (scan s (z, o) from) ≡ scan s (z, o) from
    unfolding scan
    scan_own o from = on_own (z, o) _ (All-keep _ _ _ (keyed (z, o)))

    scan_other :
        (c : ChainId) (o : Text) (from : ℤ)
        → c ≢ (z, o)
        → keep (on_chain c) (scan s (z, o) from) ≡ []
    unfolding scan
    scan_other c o from n = on_other c (z, o) _ n (All-keep _ _ _ (keyed (z, o)))

    pub sent_empty : (c : ChainId) → sent c (heads_in x register z []) ≡ []
    unfolding sent heads_in missing_of
    sent_empty c = refl

    -- A chain that no log is of is sent nothing.
    pub sent-none :
        (origin : Text) (logs : Logs)
        → get (z, origin) logs ≡ none
        → sent (z, origin) (heads_in x register z logs) ≡ []
    unfolding get
    sent-none origin [] e = sent_empty (z, origin)
    sent-none origin (((y, o), ops) ∷ logs) e = elim (heads_in-cases y o ops logs) [
      | inr (_, q) ↦ ap (sent (z, origin)) q ∙ sent-none origin logs (ground arith)
      | inl (q, p, t, h) ↦
          ap (sent (z, origin)) h
          ∙ sent_cons (z, origin) o p.0 _
          ∙ ap (λ l. l ++ sent (z, origin) (heads_in x register z logs))
              (scan_other (z, origin) o _ (λ r. ground (arith, r ∙ ap (λ w. (w, o)) (sym q))))
          ∙ sent-none origin logs (ground arith)
    ]

    pub scan_empty : (c : ChainId) (from : ℤ) → held_of s.logs c ≡ [] → scan s c from ≡ []
    unfolding scan
    scan_empty c from e = rw (e) refl

    no_tip : (c : ChainId) (ops : List Op) → tip x register c ops ≡ none → ops ≡ []
    unfolding tip
    no_tip c ops e = last?-eq-none ops (ground arith)

    -- A chain that a log is of is sent its own ops above where its replay starts.
    pub sent-some :
        (origin : Text) (ops : List Op) (logs : Logs)
        → IsSorted logs
        → get (z, origin) logs ≡ some ops
        → held_of s.logs (z, origin) ≡ ops
        → sent (z, origin) (heads_in x register z logs) ≡ scan s (z, origin) (from_of their origin)
    unfolding get
    sent-some origin ops [] sorted e h = cc
    sent-some origin ops (((y, o), held) ∷ logs) (above, sorted) e h =
        elim (dec_pair (z, origin) (y, o)) [
          | yes k ↦
              let none_left : get (z, origin) logs ≡ none =
                subst (λ j. get j logs ≡ none) (sym k) (get-Above (y, o) logs above) in
              let nothing = sent-none origin logs none_left in
              let same : held ≡ ops = ground (arith, k) in
              elim (heads_in-cases y o held logs) [
                | inl (q, p, t, r) ↦
                    ap (sent (z, origin)) r
                    ∙ sent_cons (z, origin) o p.0 _
                    ∙ ap (λ l. keep (on_chain (z, origin)) (scan s (z, o) (from_of their o)) ++ l)
                        nothing
                    ∙ append-nil _
                    ∙ ap
                        (λ (j : ChainId).
                          keep (on_chain (z, origin)) (scan s (z, j.1) (from_of their j.1)))
                        (sym k)
                    ∙ scan_own origin _
                | inr (inl n, r) ↦ absurd (n (sym (ap (λ (j : ChainId). j.0) k)))
                | inr (inr t, r) ↦
                    ap (sent (z, origin)) r
                    ∙ nothing
                    ∙ sym (scan_empty (z, origin) _ (h ∙ sym same ∙ no_tip (y, o) held t))
              ]
          | no n ↦
              let rest = sent-some origin ops logs sorted (ground arith) h in
              elim (heads_in-cases y o held logs) [
                | inl (q, p, t, r) ↦
                    ap (sent (z, origin)) r
                    ∙ sent_cons (z, origin) o p.0 _
                    ∙ ap (λ l. l ++ sent (z, origin) (heads_in x register z logs))
                        (scan_other (z, origin) o _ (λ k. n (k ∙ ap (λ w. (w, o)) (sym q))))
                    ∙ rest
                | inr (_, r) ↦ ap (sent (z, origin)) r ∙ rest
              ]
        ]
