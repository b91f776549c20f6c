-- ===== src/Tests/Journals.antt =====
-- Examples of the journals: two appends, the second of which fails after five bytes, and a home op that
-- is appended again after a failed write.
use glade.Prelude.{
  All, ◌≡◌, ◌≢◌, refl, false, some, none, [], ◌∷◌, ◌++◌, ok, length, arith, ◌==◌, bytes_eq,
  bytes_discrete, ℕ_discrete, if◌then◌else◌,
}
use glade.Prelude.BTreeMap.{get}
use glade.Prelude.Order.{bytes_ord, pair_ord}
use glade.External.{External}
use glade.Directory
use glade.Wire.{chain_of}
use glade.Wire.Decode.{}
use glade.Store.Types.{Store, Disk, healthy}
use glade.Store.Classify.{held_of}
use glade.Store.Append.{append, journal_of}
use glade.Store.Journal.{framed, frames, part, read_log}
use glade.Store.Open.{regroup}
use glade.Store.Elsewhere.{}
use glade.Store.Writes.{key_of_chain}
use glade.Store.Torn.{IsReadable, read_log-torn}
use glade.Store.Recovery.{IsJournaled, append-IsJournaled, append-recovers}
use glade.Store.Signed
use glade.Store.Signed.{HomeSigned, append_each}
use glade.Tests.{toy, op_0, op_1, no_ops, principal_op}

-- A codec that reads the two ops back.
abbrev codec : External
codec = record toy { decode_op = λ b. if b == toy.encode_op op_0 then ok op_0 else ok op_1 }

op_0-IsReadable : IsReadable codec op_0
unfolding bytes_discrete ℕ_discrete
op_0-IsReadable = record { decodes = refl; short = omega arith }

op_1-IsReadable : IsReadable codec op_1
unfolding bytes_discrete ℕ_discrete
op_1-IsReadable = record { decodes = refl; short = omega arith }

read_log-torn_example :
    read_log codec (frames codec (op_0 ∷ []) ++ part 5 (framed codec op_1))
    ≡ (op_0 ∷ [], length (frames codec (op_0 ∷ [])))
read_log-torn_example = read_log-torn codec (op_0 ∷ []) op_1 5 (op_0-IsReadable, tt) op_1-IsReadable

no_ops-IsJournaled : IsJournaled codec no_ops
unfolding journal_of held_of get frames
no_ops-IsJournaled = record {
  records = λ k. [];
  readable = λ k n. tt;
  files = λ k n. refl;
  chains = λ c n. refl;
}

abbrev one_kept : Store
one_kept = (append codec healthy op_0 no_ops).1

append-IsJournaled_example : IsJournaled codec one_kept
append-IsJournaled_example =
    append-IsJournaled codec healthy op_0 no_ops op_0-IsReadable refl no_ops-IsJournaled

-- A disk that takes five bytes of a write and fails.
abbrev failing : Disk
failing = record { unsealed = none; write = some 28; wrote = 5; renamed = false }

application : (chain_of op_0).0.0 ≢ Directory.home
unfolding chain_of
application e = cc

append-recovers_example :
    held_of
      (regroup
        (read_log codec (
          journal_of
            (append codec failing op_1 one_kept).1.journals
            (key_of_chain (chain_of op_0)))).0
        [])
      (chain_of op_0)
    ≡ held_of (append codec failing op_1 one_kept).1.logs (chain_of op_0)
append-recovers_example =
    append-recovers codec failing op_1 one_kept op_1-IsReadable
      (append-IsJournaled codec healthy op_0 no_ops op_0-IsReadable refl no_ops-IsJournaled)
      (chain_of op_0) application

append_each-HomeSigned_example : All (HomeSigned toy) (
    held_of
      (append_each toy ((failing, principal_op) ∷ (healthy, principal_op) ∷ []) no_ops).logs
      (chain_of principal_op))
append_each-HomeSigned_example =
    Signed.append_each-HomeSigned toy ((failing, principal_op) ∷ (healthy, principal_op) ∷ [])
      no_ops (chain_of principal_op) refl refl
