-- ===== src/Transport/Served.antt =====
-- The transport fold of the served store (`of_store` of node/src/transport.rs), and its door.
use glade.Prelude.{
  ℤ, pos, ◌≡◌, ◌≢◌, ◌⊎◌, inl, inr, ap, sym, ◌∙◌, Bool, true, false, ◌||◌, none, some, List, [], ◌∷◌,
  ◌++◌, arith, leb_ℤ, any, any-append, keep, Bytes, Text, err, i64_min, last?, last?-eq-none,
  Option-cases,
}
use glade.Prelude.BTreeMap.{get}
use glade.Prelude.Order.{bytes_ord, pair_ord, dec_pair}
use glade.Directory
use glade.External.{External}
use glade.Exchange.{scan_all, home_stream}
use glade.Store.Types.{Store, Logs, Register}
use glade.Store.Classify.{held_of}
use glade.Store.Views.{heads, heads_in, tip, scan, from_seq}
use glade.Sync.Sent.{heads_in-cases}
use glade.Wire.{Op, Zone, ChainId, zone_eq}
use glade.Transport.{TransportFold, no_records, over}
use glade.Transport.Door.{Refusal, door}
use glade.Transport.Revocation.{revokes_pair, record_of}
use glade.Transport.Withdrawn.{door-revoked}

-- The transport records of the store's home share, every origin's.
unfoldable pub home_records : External → Store → List Op
home_records x s =
    home_stream x s Directory.g_transport_bindings
    ++ home_stream x s Directory.g_transport_revocations

unfoldable pub of_store : External → Store → TransportFold
of_store x s = over x (home_records x s) no_records

module _ (p : Op → Bool) where
  any-of-keep : (q : Op → Bool) (xs : List Op) → any p (keep q xs) ≡ true → any p xs ≡ true
  any-of-keep q [] h = cc
  any-of-keep q (x ∷ xs) h = ground (arith, h, any-of-keep q xs)

module _ (x : External) (s : Store) (p : Op → Bool) (z : Zone) (origin : Text) where
  -- A chain that holds an op has a tip.
  tip_some :
      (register : Register) (ops : List Op)
      → any p ops ≡ true
      → tip x register (z, origin) ops ≢ none
  unfolding tip
  tip_some register [] h n = cc h
  tip_some register (o ∷ ops) h n = elim (Option-cases (last? (o ∷ ops))) [
    | inl e ↦ absurd (cc (last?-eq-none (o ∷ ops) e))
    | inr (l, e) ↦ absurd (ground (arith, e, n))
  ]

  get-cases :
      (c : ChainId) (held : List Op) (logs : Logs) (ops : List Op)
      → get (z, origin) ((c, held) ∷ logs) ≡ some ops
      → ((c ≡ (z, origin)) × (held ≡ ops)) ⊎ (get (z, origin) logs ≡ some ops)
  unfolding get
  get-cases c held logs ops e = elim (dec_pair c (z, origin)) [
    | yes q ↦ inl (q, ground arith)
    | no n ↦ inr (ground arith)
  ]

  scan_all-cons :
      (o : Text) (seq : ℤ) (entries : List (Text × ℤ))
      → any p (scan_all x s z ((o, seq) ∷ entries))
        ≡ (any p (scan s (z, o) i64_min) || any p (scan_all x s z entries))
  unfolding scan_all
  scan_all-cons o seq entries = any-append p (scan s (z, o) i64_min) (scan_all x s z entries)

  scan_all-heads_in :
      (register : Register) (logs : Logs) (ops : List Op)
      → get (z, origin) logs ≡ some ops
      → any p ops ≡ true
      → any p (scan s (z, origin) i64_min) ≡ true
      → any p (scan_all x s z (heads_in x register z logs)) ≡ true
  unfolding get
  scan_all-heads_in register [] ops e h k = cc e
  scan_all-heads_in register (((y, o), held) ∷ logs) ops e h k =
      elim (heads_in-cases x register z y o held logs) [
        | inl (q, f, t, m) ↦
            ap (λ l. any p (scan_all x s z l)) m
            ∙ scan_all-cons o f.0 (heads_in x register z logs)
            ∙ (elim (get-cases (y, o) held logs ops e) [
              | inl (same, g) ↦
                  ground (arith, ap (λ (c : ChainId). any p (scan s (z, c.1) i64_min)) same ∙ k)
              | inr later ↦ ground (arith, scan_all-heads_in register logs ops later h k)
            ])
        | inr (why, m) ↦
            ap (λ l. any p (scan_all x s z l)) m ∙ (elim (get-cases (y, o) held logs ops e) [
              | inl (same, g) ↦ absurd (elim why [
                | inl n ↦ n (ap (λ (c : ChainId). c.0) same)
                | inr t ↦ tip_some register ops h (
                    ap (λ (c : ChainId). tip x register c ops) (sym same)
                    ∙ ap (tip x register (y, o)) (sym g)
                    ∙ t)
              ])
              | inr later ↦ scan_all-heads_in register logs ops later h k
            ])
      ]

  -- What a chain's scan shows, the scan of the whole zone shows.
  scan_all-heads :
      any p (scan s (z, origin) i64_min) ≡ true → any p (scan_all x s z (heads x s z)) ≡ true
  unfolding heads held_of scan
  scan_all-heads h = elim (Option-cases (get (z, origin) s.logs)) [
    | inl e ↦ absurd (nothing e)
    | inr (ops, e) ↦ scan_all-heads_in s.register s.logs ops e (among ops e) h
  ]
    where
      shown : any p (held_of s.logs (z, origin)) ≡ true
      shown = any-of-keep p (from_seq i64_min) _ h

      nothing : get (z, origin) s.logs ≡ none → ⊥
      nothing e = cc (sym shown ∙ ap (λ o. any p (elim o [ none ↦ [] | some ops ↦ ops ])) e)

      among : (ops : List Op) → get (z, origin) s.logs ≡ some ops → any p ops ≡ true
      among ops e = sym (ap (λ o. any p (elim o [ none ↦ [] | some ops ↦ ops ])) e) ∙ shown

-- Where a store's scan of an origin's chain of the home share's revocations shows a record that
-- proves a node's revocation of an endpoint key, and the clock can be read, the node's HELLO
-- through the key is refused as revoked by the node, whatever else the store holds, of whichever
-- origins.
pub of_store-revoked :
    (x : External) (s : Store) (origin : Text) (endpoint node : Bytes) (configured : Bool) (now : ℤ)
    → any
        (λ op. revokes_pair (endpoint, node) (record_of x op))
        (scan s ((Directory.home, (Directory.g_transport_revocations, [])), origin) i64_min)
      ≡ true
    → leb_ℤ now (pos 0) ≡ false
    → door (of_store x s) endpoint (some node) configured now ≡ err (Refusal.revoked node)
unfolding of_store home_records home_stream
of_store-revoked x s origin endpoint node configured now h clock =
    let revokes : Op → Bool = λ op. revokes_pair (endpoint, node) (record_of x op) in
    door-revoked x (home_records x s) endpoint node configured now
      (any-append revokes (home_stream x s Directory.g_transport_bindings) _
        ∙ ground (
          arith,
          scan_all-heads x s revokes (Directory.home, (Directory.g_transport_revocations, []))
              origin h,
        ))
      clock
