-- ===== src/Client/Refusal.antt =====
-- A refusal of the session's own op (client-rs/src/session.rs): what it drops and what it stops.
use glade.Prelude.{
  ℤ, ◌≡◌, ◌≢◌, sym, ap, ◌∙◌, ◌⊎◌, inl, inr, none, some, List, [], ◌∷◌, ◌++◌, Bytes, arith, bytes_eq,
  bytes_discrete, int_eq, ok, err, Option-cases,
}
use glade.Prelude.BTreeMap.{get, insert, get-insert_self}
use glade.Prelude.Order.{bytes_ord}
use glade.External.{External}
use glade.Wire.{Op, Shape, Zone, zone_of, op_eq, op_discrete}
use glade.Client.{
  Session, ClientError, key_of_op, chain_key, log_of, require_op, append, before, refused,
}

-- What stands before an op in a log, and what the op stands before.
pub before-split :
    (op : Op) (log kept : List Op)
    → before op log ≡ some kept
    → (rest : List Op) × (log ≡ kept ++ op ∷ rest)
unfolding before
before-split op [] kept e = absurd (cc e)
before-split op (o ∷ log) kept e = elim (op_discrete o op) [
  | yes q ↦ (log, ground (arith, q))
  | no n ↦ elim (Option-cases (before op log)) [
    | inl b ↦ absurd (ground arith)
    | inr (ops, b) ↦ let (rest, r) = before-split op log ops b in (rest, ground (arith, r))
  ]
]

abbrev pub dropped : Op → List Op → Session → Session
dropped op kept s = record s {
  logs = insert (key_of_op op) kept s.logs;
  unresumed = insert (key_of_op op) op.seq s.unresumed;
}

pub dropped_lem :
    (op : Op) (s : Session) (log kept : List Op)
    → op.origin ≡ s.origin
    → get (key_of_op op) s.logs ≡ some log
    → before op log ≡ some kept
    → refused op s ≡ dropped op kept s
unfolding refused
dropped_lem op s log kept o e b = ground (arith, o, e, b)

refused-unless :
    (op : Op) (s : Session)
    → (op.origin ≢ s.origin)
      ⊎ ((get (key_of_op op) s.logs ≡ none)
          ⊎ ((log : List Op) × (get (key_of_op op) s.logs ≡ some log) × (before op log ≡ none)))
    → refused op s ≡ s
unfolding refused
refused-unless op s (inl n) = ground (arith, n)
refused-unless op s (inr (inl e)) = ground (arith, e)
refused-unless op s (inr (inr (log, e, b))) = ground (arith, e, b)

-- A refusal changes nothing, or drops from its chain the op and what follows it.
pub refused-cases :
    (op : Op) (s : Session)
    → (refused op s ≡ s)
      ⊎ ((log : List Op) × (kept : List Op) × (op.origin ≡ s.origin)
          × (get (key_of_op op) s.logs ≡ some log)
          × (before op log ≡ some kept)
          × (refused op s ≡ dropped op kept s))
refused-cases op s = elim (bytes_discrete op.origin s.origin) [
  | no n ↦ inl (refused-unless op s (inl n))
  | yes o ↦ elim (Option-cases (get (key_of_op op) s.logs)) [
    | inl e ↦ inl (refused-unless op s (inr (inl e)))
    | inr (log, e) ↦ elim (Option-cases (before op log)) [
      | inl b ↦ inl (refused-unless op s (inr (inr (log, e, b))))
      | inr (kept, b) ↦ inr (log, kept, o, e, b, dropped_lem op s log kept o e b)
    ]
  ]
]

stopped-append :
    (x : External) (z : Zone) (shape sh : Shape) (payload : Bytes) (seq : ℤ) (s : Session)
    → require_op shape payload ≡ ok sh
    → get (chain_key z s.origin) s.unresumed ≡ some seq
    → append x z shape payload s ≡ (err (ClientError.stopped_at seq), s)
unfolding append
stopped-append x z shape sh payload seq s r e = ground (arith, r, e)

-- A refusal of an op of the session's own that it holds drops it and all that follows it on its
-- chain, keeps what stands before it, and stops the chain: an append to it, of a shape and
-- payload that are allowed, is refused and changes nothing.
pub refused-append :
    (x : External) (op : Op) (s : Session) (log kept : List Op) (shape sh : Shape) (payload : Bytes)
    → op.origin ≡ s.origin
    → get (key_of_op op) s.logs ≡ some log
    → before op log ≡ some kept
    → require_op shape payload ≡ ok sh
    → ((rest : List Op) × (log ≡ kept ++ op ∷ rest))
      × (log_of (refused op s).logs (key_of_op op) ≡ kept)
      × (append x (zone_of op) shape payload (refused op s)
          ≡ (err (ClientError.stopped_at op.seq), refused op s))
unfolding log_of
refused-append x op s log kept shape sh payload o e b r =
    let q = dropped_lem op s log kept o e b in
    (
      before-split op log kept b,
      rw q (ground (arith, get-insert_self (key_of_op op) kept s.logs)),
      rw q (
          stopped-append x (zone_of op) shape sh payload op.seq (dropped op kept s) r (
            ap
              (λ origin.
                get (chain_key (zone_of op) origin) (insert (key_of_op op) op.seq s.unresumed))
              (sym o)
            ∙ get-insert_self (key_of_op op) op.seq s.unresumed)),
    )
