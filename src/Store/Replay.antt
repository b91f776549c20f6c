-- ===== src/Store/Replay.antt =====
-- The replay of a home journal when a store is opened (`replayed` of node/src/store.rs): its ops as an
-- append would take them, checkpoints first, or nothing of the journal.
use glade.Prelude.{
  Bool, true, false, not, Option, none, some, List, [], ◌∷◌, ◌++◌, ◌==◌, bytes_eq, keep, Result, ok,
  err,
}
use glade.External.{External}
use glade.Directory
use glade.Wire.{Op}
use glade.Store.Types.{Logs, Register, Store, StoreError, Verdict}
use glade.Store.Classify.{classify_home, checked}
use glade.Store.Append.{push, place}

-- The chains and the register so far, and whether an op was covered.
pub record Replayed : Type 0 where
  pub logs : Logs
  pub register : Register
  pub covered : Bool

abbrev pub nothing_replayed : Replayed
nothing_replayed = record { logs = []; register = []; covered = false }

-- A store of no journals that holds what was replayed.
abbrev pub store_of : Replayed → Store
store_of r = record {
  logs = r.logs;
  register = r.register;
  proofs = [];
  journals = [];
  proof_journal = [];
}

unfoldable pub place_replayed : Store → Bool → Replayed
place_replayed placed covered = record {
  logs = placed.logs;
  register = placed.register;
  covered = covered;
}

unfoldable pub is_taken : Result StoreError (Unit {0}) → Bool
is_taken (ok u) = true
is_taken (err why) = false

unfoldable pub replay_verdict : Verdict → Bool → Op → Replayed → Option Replayed
unfolding place_replayed
replay_verdict Verdict.below_retained taken op r = some (record r { covered = true })
replay_verdict Verdict.appended true op r = some (record r { logs = push op r.logs })
replay_verdict (Verdict.placed folded floor) true op r =
    some (place_replayed (place op folded floor (store_of r)) r.covered)
replay_verdict _ _ op r = none

module _ (x : External) where
  unfoldable pub replay_one : Op → Replayed → Option Replayed
  replay_one op r =
      let verdict = classify_home x r.logs r.register op in
      replay_verdict verdict (is_taken (checked x verdict op)) op r

  unfoldable pub replay_ops : List Op → Replayed → Option Replayed
  replay_ops [] r = some r
  replay_ops (op ∷ ops) r = elim (replay_one op r) [ none ↦ none | some next ↦ replay_ops ops next ]

  unfoldable pub replayed : List Op → Option Replayed
  replayed ops =
      replay_ops
        (keep (λ op. op.glade_id == Directory.g_checkpoints) ops
          ++ keep (λ op. not (op.glade_id == Directory.g_checkpoints)) ops)
        nothing_replayed
