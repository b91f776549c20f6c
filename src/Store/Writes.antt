-- ===== src/Store/Writes.antt =====
-- What one append writes outside the home share: to its chain in memory, and to its journal
-- (node/src/store.rs).
use glade.Prelude.{
  ℕ, ℤ, ◌≡◌, ◌≢◌, refl, sym, subst, ap, ◌∙◌, inl, inr, Bool, true, false, none, some, List, [], ◌∷◌,
  ◌++◌, arith, bytes_eq, Result, ok, err, keep, Option-cases, Result-cases, Bool-cases, ◌⊎◌, Bytes,
  if◌then◌else◌,
}
use mathlib.Core.List.{append-nil}
use glade.Prelude.BTreeMap.{get-insert_self, get-insert_ne}
use glade.Prelude.Order.{bytes_ord, pair_ord, dec_pair}
use glade.External.{External}
use glade.Directory
use glade.Wire.{Op, ChainId}
use glade.Store.Types.{Append, EquivProof, StoreError, Store, Disk, Verdict, Journals, IoError}
use glade.Store.Classify.{held_of}
use glade.Store.Held.{}
use glade.Store.Append.{
  append, judge, verdict_of, commit, convict, keep_op, keep_checkpoint, place, append_to_log,
  rewrite_journal, journal_of, journal_key, written, append_proof, record_equivocation,
}
use glade.Store.Journal.{framed, frames, part}
use glade.Store.Open.{on_chain, held_of-push}
use glade.Store.Elsewhere.{
  Key, in_journal, keep-home, keep-home_journal, place-elsewhere, journal_of-place,
  journal_of-rewrite, logs-rewrite,
}
use glade.Store.Verdicts.{verdict-placed}

-- The journal of a chain.
abbrev pub key_of_chain : ChainId → Key
key_of_chain c = (c.0.0, c.1)

-- What a call that ended so has written.
abbrev pub news : Op → Result StoreError Append → List Op
news op (ok Append.appended) = op ∷ []
news op (ok Append.duplicate) = []
news op (ok Append.below_retained) = []
news op (err e) = []

journal_of-append :
    (x : External) (d : Disk) (op : Op) (j : Journals) (k : Key)
    → journal_of (append_to_log x d op j) k
      ≡ journal_of j k ++ (if in_journal k op then written d (framed x op) else [])
unfolding append_to_log in_journal journal_of
journal_of-append x d op j k = elim (dec_pair (journal_key op) k) [
  | yes e ↦ ground (
    arith,
    get-insert_self (journal_key op) (journal_of j (journal_key op) ++ written d (framed x op)) j,
  )
  | no n ↦ ground (
    arith,
    get-insert_ne (journal_key op) k (journal_of j (journal_key op) ++ written d (framed x op)) j n,
    append-nil (journal_of j k),
  )
]

-- Whether the call's write fails.
unfoldable pub fails : Disk → Bool
fails d = elim d.write [ none ↦ false | some e ↦ true ]

fails-some : (d : Disk) (e : IoError) → d.write ≡ some e → fails d ≡ true
unfolding fails
fails-some d e w = ground (arith, w)

-- What one call leaves of a journal: the records of the ops it kept behind the ones before, or, where
-- the disk failed and nothing is kept, the first bytes of the op's record.
abbrev pub Grown : External → Disk → Op → Result StoreError Append → Key → Bytes → Bytes → Type 0
Grown x d op r k before after =
    (after ≡ before ++ frames x (keep (in_journal k) (news op r)))
    ⊎ ((news op r ≡ []) × (fails d ≡ true) × (n : ℕ) × (after ≡ before ++ part n (framed x op)))

-- What one outcome leaves of the chains and the journals outside the home share.
abbrev pub Writes : External → Disk → Op → Store → Result StoreError Append × Store → Type 0
Writes x d op s (r, t) =
    ((c : ChainId)
      → c.0.0 ≢ Directory.home
      → held_of t.logs c ≡ held_of s.logs c ++ keep (on_chain c) (news op r))
    × ((k : Key)
        → k.0 ≢ Directory.home
        → Grown x d op r k (journal_of s.journals k) (journal_of t.journals k))

module _ (x : External) (d : Disk) (op : Op) (s : Store) where
  -- A call that keeps nothing and leaves the journals outside the home share.
  still :
      (r : Result StoreError Append) (t : Store)
      → news op r ≡ []
      → ((c : ChainId) → c.0.0 ≢ Directory.home → held_of t.logs c ≡ held_of s.logs c)
      → ((k : Key) → k.0 ≢ Directory.home → journal_of t.journals k ≡ journal_of s.journals k)
      → Writes x d op s (r, t)
  unfolding frames
  still r t e chains journals = (
    λ c n. chains c n ∙ rw e (sym (append-nil _)),
    λ k n. inl (journals k n ∙ rw e (sym (append-nil _))),
  )

  unchanged : (r : Result StoreError Append) → news op r ≡ [] → Writes x d op s (r, s)
  unchanged r e = still r s e (λ c n. refl) (λ k n. refl)

  convict-Writes : (p : EquivProof) (why : StoreError) → Writes x d op s (convict x d p why s)
  unfolding convict append_proof record_equivocation
  convict-Writes p why = elim (Option-cases d.write) [
    | inl e ↦
        let q : convict x d p why s ≡ (err why, record_equivocation p (append_proof x d p s)) =
          simp (convict, e) in
        subst (Writes x d op s) (sym q) (
          still (err why) (record_equivocation p (append_proof x d p s)) refl (λ c n. refl)
            (λ k n. refl))
    | inr (io, e) ↦
        let q : convict x d p why s ≡ (err (StoreError.io io), append_proof x d p s) =
          simp (convict, e) in
        subst (Writes x d op s) (sym q)
          (still (err (StoreError.io io)) (append_proof x d p s) refl (λ c n. refl) (λ k n. refl))
  ]

  kept_journal :
      (k : Key)
      → d.write ≡ none
      → journal_of (append_to_log x d op s.journals) k
        ≡ journal_of s.journals k ++ frames x (keep (in_journal k) (op ∷ []))
  unfolding written frames
  kept_journal k e =
      journal_of-append x d op s.journals k
      ∙ ap (◌++◌ (journal_of s.journals k)) (ground (arith, e, append-nil (framed x op)))

  torn_journal :
      (k : Key) (e : IoError)
      → d.write ≡ some e
      → (journal_of (append_to_log x d op s.journals) k
          ≡ journal_of s.journals k ++ part d.wrote (framed x op))
        ⊎ (journal_of (append_to_log x d op s.journals) k ≡ journal_of s.journals k)
  unfolding written
  torn_journal k e w = elim (Bool-cases (in_journal k op)) [
    | inl i ↦ inl (
        journal_of-append x d op s.journals k
        ∙ ap (◌++◌ (journal_of s.journals k)) (ground (arith, i, w)))
    | inr i ↦ inr (
        journal_of-append x d op s.journals k
        ∙ ap (◌++◌ (journal_of s.journals k)) (ground (arith, i))
        ∙ append-nil _)
  ]

  abbrev torn_store : Store
  torn_store = record s { journals = append_to_log x d op s.journals }

  torn-Writes :
      (e : IoError) → d.write ≡ some e → Writes x d op s (err (StoreError.io e), torn_store)
  unfolding frames
  torn-Writes e w = (
    λ c n. sym (append-nil _),
    λ k n. elim (torn_journal k e w) [
      | inl q ↦ inr (refl, fails-some d e w, d.wrote, q)
      | inr q ↦ inl (q ∙ sym (append-nil _))
    ],
  )

  keep_op-Writes : Writes x d op s (keep_op x d op s)
  unfolding keep_op
  keep_op-Writes = elim (Option-cases d.write) [
    | inl e ↦ rw (keep_op, e) (λ c n. held_of-push op s.logs c, λ k n. inl (kept_journal k e))
    | inr (io, e) ↦
        let q : keep_op x d op s ≡ (err (StoreError.io io), torn_store) = simp (keep_op, e) in
        subst (Writes x d op s) (sym q) (torn-Writes io e)
  ]

  keep_checkpoint-Writes :
      (folded : ChainId) (floor : ℤ × List ℕ)
      → op.share ≡ Directory.home
      → folded.0.0 ≡ Directory.home
      → Writes x d op s (keep_checkpoint x d op folded floor s)
  unfolding keep_checkpoint frames
  keep_checkpoint-Writes folded floor h f = elim (Option-cases d.write) [
    | inl e ↦
        rw (keep_checkpoint, e)
          (
            λ c n.
                same_chain c n
                ∙ sym (ap (◌++◌ (held_of s.logs c)) (keep-home op c h n) ∙ append-nil _),
            λ k n. inl (
                rewritten k n
                ∙ sym (
                    ap (λ ops. journal_of s.journals k ++ frames x ops) (keep-home_journal op k h n)
                    ∙ append-nil _)),
          )
    | inr (io, e) ↦ elim (Bool-cases d.renamed) [
      | inl r ↦
          let q : keep_checkpoint x d op folded floor s
              ≡ (err (StoreError.io io), rewrite_journal x op.origin (place op folded floor s)) =
            rw (keep_checkpoint, e, r) refl in
          subst (Writes x d op s) (sym q) (
            still (err (StoreError.io io)) (rewrite_journal x op.origin (place op folded floor s))
              refl same_rewritten rewritten)
      | inr r ↦
          let q : keep_checkpoint x d op folded floor s
              ≡ (err (StoreError.io io), place op folded floor s) =
            rw (keep_checkpoint, e, r) refl in
          subst (Writes x d op s) (sym q) (
            still (err (StoreError.io io)) (place op folded floor s) refl same_chain
              placed_journals)
    ]
  ]
    where
      same_chain :
          (c : ChainId)
          → c.0.0 ≢ Directory.home
          → held_of (place op folded floor s).logs c ≡ held_of s.logs c
      same_chain c n = place-elsewhere op folded floor s c h f n

      same_rewritten :
          (c : ChainId)
          → c.0.0 ≢ Directory.home
          → held_of (rewrite_journal x op.origin (place op folded floor s)).logs c
            ≡ held_of s.logs c
      same_rewritten c n = logs-rewrite x op.origin (place op folded floor s) c ∙ same_chain c n

      placed_journals :
          (k : Key)
          → k.0 ≢ Directory.home
          → journal_of (place op folded floor s).journals k ≡ journal_of s.journals k
      placed_journals k n = journal_of-place op folded floor s k

      rewritten :
          (k : Key)
          → k.0 ≢ Directory.home
          → journal_of (rewrite_journal x op.origin (place op folded floor s)).journals k
            ≡ journal_of s.journals k
      rewritten k n =
          journal_of-rewrite x op.origin (place op folded floor s) k n ∙ placed_journals k n

  commit-Writes : (v : Verdict) → v ≡ verdict_of x s op → Writes x d op s (commit x d op v s)
  unfolding commit
  commit-Writes Verdict.duplicate e = unchanged (ok Append.duplicate) refl
  commit-Writes Verdict.below_retained e = unchanged (ok Append.below_retained) refl
  commit-Writes (Verdict.gap a b) e = unchanged (err (StoreError.gap a b)) refl
  commit-Writes Verdict.chain_break e =
      unchanged (err (StoreError.chain_break op.origin op.seq)) refl
  commit-Writes (Verdict.equivocation o) e = convict-Writes _ _
  commit-Writes (Verdict.rewrite o) e = convict-Writes _ _
  commit-Writes Verdict.appended e = keep_op-Writes
  commit-Writes (Verdict.placed c f) e =
      let (h, g, o, r) = verdict-placed x s op c f (sym e) in keep_checkpoint-Writes c f h r

  pub append-Writes : Writes x d op s (append x d op s)
  unfolding append judge
  append-Writes = elim (Result-cases (judge x d s op)) [
    | inr (why, e) ↦ rw (append, e) (unchanged (err why) refl)
    | inl (v, e) ↦ rw (append, e) (commit-Writes v (ground arith))
  ]
