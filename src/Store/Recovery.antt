-- ===== src/Store/Recovery.antt =====
-- What the applications' journals hold after an append (node/src/store.rs). Which files an open reads is
-- not modelled: it reads those of the root's directories.
use glade.Prelude.{
  ℕ, ◌≡◌, ◌≢◌, refl, sym, ap, ◌∙◌, inl, inr, true, none, List, [], ◌∷◌, ◌++◌, arith, Bytes, Result,
  ok, err, All, All-append, All-keep, keep, keep-append,
}
use mathlib.Core.List.{append-nil, append_assoc}
use glade.Prelude.BTreeMap.{get}
use glade.Prelude.Order.{bytes_ord, pair_ord, dec_pair}
use glade.External.{External}
use glade.Directory
use glade.Wire.{Op, ChainId, chain_of}
use glade.Store.Types.{Append, StoreError, Store, Disk}
use glade.Store.Classify.{held_of}
use glade.Store.Append.{append, journal_of}
use glade.Store.Journal.{framed, frames, part, read_log}
use glade.Store.Open.{regroup, on_chain, held_of-regroup}
use glade.Store.Elsewhere.{Key, in_journal}
use glade.Store.Torn.{IsReadable, read_log-torn, read_log-frames}
use glade.Store.Writes.{key_of_chain, news, fails, append-Writes}

-- Outside the home share each journal is whole records, of ops that can be read back, and each chain
-- is what its journal holds of it, in the journal's order.
pub record IsJournaled (x : External) (s : Store) : Type 0 where
  pub records : Key → List Op
  pub readable : (k : Key) → k.0 ≢ Directory.home → All (IsReadable x) (records k)
  pub files : (k : Key) → k.0 ≢ Directory.home → journal_of s.journals k ≡ frames x (records k)
  pub chains :
      (c : ChainId)
      → c.0.0 ≢ Directory.home
      → held_of s.logs c ≡ keep (on_chain c) (records (key_of_chain c))

in_journal_of_chain :
    (op : Op) (c : ChainId) (r : Result StoreError Append)
    → keep (on_chain c) (keep (in_journal (key_of_chain c)) (news op r))
      ≡ keep (on_chain c) (news op r)
unfolding on_chain in_journal chain_of
in_journal_of_chain op c (ok Append.appended) = elim (dec_pair (chain_of op) c) [
  | yes e ↦ ground (arith, ap (λ (c : ChainId). key_of_chain c) e)
  | no n ↦ ground arith
]
in_journal_of_chain op c (ok Append.duplicate) = refl
in_journal_of_chain op c (ok Append.below_retained) = refl
in_journal_of_chain op c (err e) = refl

news-IsReadable :
    (x : External) (op : Op) (r : Result StoreError Append)
    → IsReadable x op
    → All (IsReadable x) (news op r)
news-IsReadable x op (ok Append.appended) h = (h, tt)
news-IsReadable x op (ok Append.duplicate) h = tt
news-IsReadable x op (ok Append.below_retained) h = tt
news-IsReadable x op (err e) h = tt

frames-append :
    (x : External) (ops more : List Op) → frames x (ops ++ more) ≡ frames x ops ++ frames x more
unfolding frames
frames-append x [] more = refl
frames-append x (op ∷ ops) more =
    ap (◌++◌ (framed x op)) (frames-append x ops more)
    ∙ sym (append_assoc (framed x op) (frames x ops) (frames x more))

fails-not : (d : Disk) → d.write ≡ none → fails d ≢ true
unfolding fails
fails-not d w h = ground (arith, w, h)

module _ (x : External) (d : Disk) (op : Op) (s : Store) (readable : IsReadable x op) where
  abbrev outcome : Result StoreError Append
  outcome = (append x d op s).0

  abbrev later : Store
  later = (append x d op s).1

  -- The chains after a call, of the records before it and of what it kept.
  chain_later :
      (v : IsJournaled x s) (c : ChainId)
      → c.0.0 ≢ Directory.home
      → held_of later.logs c
        ≡ keep
            (on_chain c)
            (v.records (key_of_chain c) ++ keep (in_journal (key_of_chain c)) (news op outcome))
  chain_later v c n =
      (append-Writes x d op s).0 c n
      ∙ ap (λ ops. ops ++ keep (on_chain c) (news op outcome)) (v.chains c n)
      ∙ ap (◌++◌ (keep (on_chain c) (v.records (key_of_chain c))))
          (sym (in_journal_of_chain op c outcome))
      ∙ sym (keep-append (on_chain c) (v.records (key_of_chain c)) _)

  all-IsReadable :
      (v : IsJournaled x s) (k : Key)
      → k.0 ≢ Directory.home
      → All (IsReadable x) (v.records k ++ keep (in_journal k) (news op outcome))
  all-IsReadable v k n =
      All-append _ _ _ (v.readable k n) (All-keep _ _ _ (news-IsReadable x op outcome readable))

  whole_later :
      (v : IsJournaled x s) (k : Key) (after : Bytes)
      → k.0 ≢ Directory.home
      → after ≡ journal_of s.journals k ++ frames x (keep (in_journal k) (news op outcome))
      → after ≡ frames x (v.records k ++ keep (in_journal k) (news op outcome))
  whole_later v k after n e =
      e
      ∙ ap (λ b. b ++ frames x (keep (in_journal k) (news op outcome))) (v.files k n)
      ∙ sym (frames-append x (v.records k) _)

  -- Where the disk takes what a call writes, the journals and the chains stay in step, whatever
  -- the call's outcome: each journal outside the home share is whole records, of ops that can be
  -- read back, as this one can, and each chain is what its journal holds of it, in the journal's
  -- order.
  pub append-IsJournaled : d.write ≡ none → IsJournaled x s → IsJournaled x later
  append-IsJournaled w v = record {
    records = λ k. v.records k ++ keep (in_journal k) (news op outcome);
    readable = all-IsReadable v;
    files = λ k n. elim ((append-Writes x d op s).1 k n) [
      | inl e ↦ whole_later v k _ n e
      | inr (none_kept, f, m, torn) ↦ absurd (fails-not d w f)
    ];
    chains = chain_later v;
  }

  read_later :
      (v : IsJournaled x s) (k : Key)
      → k.0 ≢ Directory.home
      → (read_log x (journal_of later.journals k)).0
        ≡ v.records k ++ keep (in_journal k) (news op outcome)
  read_later v k n = elim ((append-Writes x d op s).1 k n) [
    | inl e ↦
        ap (λ b. (read_log x b).0) (whole_later v k _ n e)
        ∙ ap (λ (q : List Op × ℕ). q.0) (read_log-frames x _ (all-IsReadable v k n))
    | inr (none_kept, f, m, e) ↦
        ap (λ b. (read_log x b).0) (e ∙ ap (λ b. b ++ part m (framed x op)) (v.files k n))
        ∙ ap (λ (q : List Op × ℕ). q.0)
            (read_log-torn x (v.records k) op m (v.readable k n) readable)
        ∙ sym (append-nil (v.records k))
        ∙ ap (λ ops. v.records k ++ keep (in_journal k) ops) (sym none_kept)
  ]

  no_chains : (c : ChainId) → held_of [] c ≡ []
  unfolding held_of get
  no_chains c = refl

  -- After an append to a store whose journals and chains are in step, whatever the disk answers,
  -- a failed write of any length included: of any chain outside the home share, the bytes of its
  -- journal, read and grouped by chain as an open does with a journal that it reads, give what
  -- the store holds of the chain. The op's encoding is read back by the codec and shorter than
  -- 2^32 bytes.
  pub append-recovers :
      IsJournaled x s
      → (c : ChainId) → c.0.0 ≢ Directory.home
      → held_of (regroup (read_log x (journal_of later.journals (key_of_chain c))).0 []) c
        ≡ held_of later.logs c
  append-recovers v c n =
      held_of-regroup _ [] c
      ∙ ap
          (λ ops.
            ops ++ keep (on_chain c) (read_log x (journal_of later.journals (key_of_chain c))).0)
          (no_chains c)
      ∙ ap (keep (on_chain c)) (read_later v (key_of_chain c) n)
      ∙ sym (chain_later v c n)
