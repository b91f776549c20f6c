-- ===== src/Store/Effects.antt =====
-- What an append of an application's op changes: its own chain by one op, or nothing that is held.
use glade.Prelude.{
  ℕ, ℤ, ◌≡◌, ◌≢◌, refl, sym, inl, inr, List, [], ◌∷◌, ◌++◌, arith, bytes_eq, Result, ok, err,
  Option-cases, Result-cases,
}
use mathlib.Core.List.{append-nil}
use glade.Prelude.Order.{bytes_ord, pair_ord, dec_pair}
use glade.External.{External}
use glade.Directory
use glade.Wire.{Op, ChainId, chain_of}
use glade.Store.Types.{Append, EquivProof, StoreError, Store, Disk, Verdict}
use glade.Store.Classify.{held_of}
use glade.Store.Append.{
  append, judge, commit, convict, keep_op, push, append_proof, record_equivocation,
}
use glade.Store.Held.{held_of-insert_self, held_of-insert_ne}
use glade.Store.Verdicts.{verdict-placed}

-- The ops that a call adds to a chain.
abbrev pub added : Op → Result StoreError Append → ChainId → List Op
added op (ok Append.appended) c = elim (dec_pair (chain_of op) c) [ yes _ ↦ op ∷ [] | no _ ↦ [] ]
added op _ c = []

held_of-push-added :
    (op : Op) (s : Store) (c : ChainId)
    → held_of (push op s.logs) c ≡ held_of s.logs c ++ added op (ok Append.appended) c
unfolding push
held_of-push-added op s c = elim (dec_pair (chain_of op) c) [
  | yes e ↦
      ground
        (arith, held_of-insert_self s.logs (chain_of op) (held_of s.logs (chain_of op) ++ op ∷ []))
  | no n ↦ ground (
    arith,
    held_of-insert_ne s.logs (chain_of op) c (held_of s.logs (chain_of op) ++ op ∷ []) n,
    append-nil (held_of s.logs c),
  )
]

-- What one outcome leaves: the register as it was, and each chain with what it added.
abbrev Adds : Op → Store → Result StoreError Append × Store → Type 0
Adds op s (r, t) =
    (t.register ≡ s.register)
    × ((c : ChainId) → held_of t.logs c ≡ held_of s.logs c ++ added op r c)

unchanged :
    (op : Op) (s : Store) (r : Result StoreError Append) → r ≢ ok Append.appended → Adds op s (r, s)
unchanged op s (ok Append.appended) n = absurd (n refl)
unchanged op s (ok Append.duplicate) n = (refl, λ c. sym (append-nil _))
unchanged op s (ok Append.below_retained) n = (refl, λ c. sym (append-nil _))
unchanged op s (err e) n = (refl, λ c. sym (append-nil _))

module _ (x : External) where
  convict-Adds :
      (d : Disk) (op : Op) (p : EquivProof) (why : StoreError) (s : Store)
      → Adds op s (convict x d p why s)
  unfolding convict append_proof record_equivocation
  convict-Adds d op p why s = elim (Option-cases d.write) [
    | inl e ↦ rw (convict, e) (refl, λ c. sym (append-nil _))
    | inr (io, e) ↦ rw (convict, e) (refl, λ c. sym (append-nil _))
  ]

  keep_op-Adds : (d : Disk) (op : Op) (s : Store) → Adds op s (keep_op x d op s)
  unfolding keep_op
  keep_op-Adds d op s = elim (Option-cases d.write) [
    | inl e ↦ rw (keep_op, e) (refl, held_of-push-added op s)
    | inr (io, e) ↦ rw (keep_op, e) (refl, λ c. sym (append-nil _))
  ]

  commit-Adds :
      (d : Disk) (op : Op) (v : Verdict) (s : Store)
      → ((c : ChainId) (f : ℤ × List ℕ) → v ≢ Verdict.placed c f)
      → Adds op s (commit x d op v s)
  unfolding commit
  commit-Adds d op Verdict.duplicate s n = unchanged op s (ok Append.duplicate) (λ q. cc)
  commit-Adds d op Verdict.below_retained s n = unchanged op s (ok Append.below_retained) (λ q. cc)
  commit-Adds d op (Verdict.gap e g) s n = unchanged op s (err (StoreError.gap e g)) (λ q. cc)
  commit-Adds d op Verdict.chain_break s n =
      unchanged op s (err (StoreError.chain_break op.origin op.seq)) (λ q. cc)
  commit-Adds d op (Verdict.equivocation o) s n = convict-Adds d op _ _ s
  commit-Adds d op (Verdict.rewrite o) s n = convict-Adds d op _ _ s
  commit-Adds d op Verdict.appended s n = keep_op-Adds d op s
  commit-Adds d op (Verdict.placed c f) s n = absurd (n c f refl)

  -- An op of any stream but the checkpoints' adds itself to the end of its own chain where the
  -- outcome is Appended, and on every other outcome, an error or an I/O fault included, no chain
  -- changes; no op that was held is lost or moved, and the register stays.
  pub append-Adds :
      (d : Disk) (op : Op) (s : Store)
      → (op.share ≡ Directory.home → op.glade_id ≢ Directory.g_checkpoints)
      → ((append x d op s).1.register ≡ s.register)
        × ((c : ChainId)
            → held_of (append x d op s).1.logs c
              ≡ held_of s.logs c ++ added op (append x d op s).0 c)
  unfolding append judge
  append-Adds d op s n = elim (Result-cases (judge x d s op)) [
    | inr (why, e) ↦ rw (append, e) (unchanged op s (err why) (λ q. cc))
    | inl (v, e) ↦
        rw (append, e)
          (commit-Adds d op v s
            (λ c f q. let (h, g, o, r) = verdict-placed x s op c f (ground arith) in n h g))
  ]
