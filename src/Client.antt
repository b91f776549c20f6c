-- ===== src/Client.antt =====
-- The client's session (client-rs/src/session.rs): one origin's chains, what it has seen, and the
-- folds over that. A `HashMap` is an association list in the order of its keys; the folds, whose answer
-- may hang on the order in which the code reads one, take that order as an argument.
pub mod Folds
pub mod Refusal
pub mod Clock
pub mod Latest
use glade.Prelude.{
  ℕ, ℤ, pos, zero, suc, ◌≡◌, Bool, true, false, not, ◌&&◌, ◌||◌, Option, none, some, List, [], ◌∷◌,
  ◌++◌, Text, Bytes, ◌==◌, bytes_eq, bytes_discrete, maybe_bytes_discrete, int_eq, ℤ_discrete,
  if◌then◌else◌, ltb_ℤ, leb_ℤ, suc_i64, i64_min, last?, keep, Result, ok, err,
}
use glade.Prelude.BTreeMap.{BTreeMap, get, insert, remove}
use glade.Prelude.Order.{bytes_ord}
use glade.External.{External, op_hash}
use glade.Grants.{starts_with}
use glade.NodeId.{hex}
use glade.Wire
use glade.Wire.{Op, Head, Shape, Zone, shape_eq, op_eq}
use glade.Wire.Swmr.{decode_swmr, SwmrPayloadError}

-- Why an operation was refused. The texts of the messages are not modelled.
pub data ClientError : Type 0 where
  invalid_swmr : SwmrPayloadError → ClientError
  unsupported_shape : Shape → ClientError
  stopped_at : ℤ → ClientError

unfoldable pub require_op : Shape → Bytes → Result ClientError Shape
require_op Shape.value payload = ok Shape.value
require_op Shape.log payload = ok Shape.log
require_op Shape.crdt payload = ok Shape.crdt
require_op Shape.swmr payload = elim (decode_swmr payload) [
  | ok p ↦ ok Shape.swmr
  | err e ↦ err (ClientError.invalid_swmr e)
]
require_op Shape.stream payload = err (ClientError.unsupported_shape Shape.stream)

abbrev pub Logs : Type 0
Logs = BTreeMap Text (List Op)

-- What each chain key of a zone begins with: a zero byte ends each part.
unfoldable pub zone_prefix : Zone → Text
zone_prefix (share, (glade_id, key)) = share ++ 0 ∷ (glade_id ++ 0 ∷ (hex key ++ 0 ∷ []))

unfoldable pub chain_key : Zone → Text → Text
chain_key z origin = zone_prefix z ++ origin

abbrev pub key_of_op : Op → Text
key_of_op op = chain_key (op.share, (op.glade_id, op.key)) op.origin

unfoldable pub log_of : Logs → Text → List Op
log_of logs k = elim (get k logs) [ none ↦ [] | some log ↦ log ]

-- Whether a chain takes an op, and the chains after it.
unfoldable pub accepts : List Op → Op → Bool
accepts log op = elim (last? log) [
  | none ↦ true
  | some last ↦ if leb_ℤ op.seq last.seq then false else op.seq == suc_i64 last.seq
]

unfoldable pub store_append : Op → Logs → Bool × Logs
store_append op logs =
    let log = log_of logs (key_of_op op) in
    if accepts log op then (true, insert (key_of_op op) (log ++ op ∷ []) logs) else (false, logs)

unfoldable pub scan : Logs → Zone → Text → ℤ → List Op
scan logs z origin from = keep (λ o. ltb_ℤ from o.seq) (log_of logs (chain_key z origin))

-- The ops of every log whose key begins as the zone's.
unfoldable pub ops_under : Text → Logs → List Op
ops_under prefix [] = []
ops_under prefix ((k, log) ∷ logs) =
    let rest = ops_under prefix logs in if starts_with prefix k then log ++ rest else rest

unfoldable pub ops_for : Logs → Zone → List Op
ops_for logs z = ops_under (zone_prefix z) logs

unfoldable pub latest : List Op → BTreeMap Text Op → BTreeMap Text Op
latest [] held = held
latest (op ∷ ops) held = latest ops (elim (get op.origin held) [
  | none ↦ insert op.origin op held
  | some prior ↦ if leb_ℤ op.seq prior.seq then held else insert op.origin op held
])

module _ (x : External) where
  unfoldable pub heads_of : BTreeMap Text Op → List Head
  heads_of [] = []
  heads_of ((k, op) ∷ held) =
      record { origin = op.origin; seq = op.seq; hash = some (op_hash x op) } ∷ heads_of held

  -- The newest op of each origin, in the order of the origins.
  unfoldable pub stream_heads : Logs → Zone → List Head
  stream_heads logs z = heads_of (latest (ops_for logs z) [])

pub record Session : Type 0 where
  pub origin : Text
  pub lamport : ℤ
  pub logs : Logs
  pub unresumed : BTreeMap Text ℤ

unfoldable pub new : Text → Session
new origin = record { origin = origin; lamport = pos 0; logs = []; unresumed = [] }

module _ (x : External) where
  -- The seq and the `prev` of the next op of a chain.
  unfoldable pub next_of : List Op → ℤ × Option Bytes
  next_of own = elim (last? own) [
    | none ↦ (pos 0, none)
    | some last ↦ (suc_i64 last.seq, some (op_hash x last))
  ]

  -- The op that an append makes.
  unfoldable pub next_op : Session → Zone → Shape → Bytes → Op
  next_op s z shape payload =
      let next = next_of (scan s.logs z s.origin i64_min) in
      record {
        share = z.0;
        glade_id = z.1.0;
        key = z.1.1;
        origin = s.origin;
        seq = next.0;
        prev = next.1;
        lamport = suc_i64 s.lamport;
        refs = if shape == Wire.crdt then stream_heads x s.logs z else [];
        shape = shape;
        payload = payload;
      }

  unfoldable pub append : Zone → Shape → Bytes → Session → Result ClientError Op × Session
  append z shape payload s = elim (require_op shape payload) [
    | err e ↦ (err e, s)
    | ok _ ↦ elim (get (chain_key z s.origin) s.unresumed) [
      | some seq ↦ (err (ClientError.stopped_at seq), s)
      | none ↦
          let op = next_op s z shape payload in
          (ok op, record s { lamport = suc_i64 s.lamport; logs = (store_append op s.logs).1 })
    ]
  ]

-- The ops before the one refused, if the log holds it.
unfoldable pub before : Op → List Op → Option (List Op)
before op [] = none
before op (o ∷ log) =
    let rest = before op log in
    if o == op then some [] else (elim rest [ none ↦ none | some ops ↦ some (o ∷ ops) ])

-- The node refused an op of this session's: the op and the later ones are dropped.
unfoldable pub refused : Op → Session → Session
refused op s =
    if op.origin == s.origin
    then (elim (get (key_of_op op) s.logs) [
      | none ↦ s
      | some log ↦ elim (before op log) [
        | none ↦ s
        | some kept ↦ record s {
          logs = insert (key_of_op op) kept s.logs;
          unresumed = insert (key_of_op op) op.seq s.unresumed;
        }
      ]
    ])
    else s

unfoldable pub resumed : Zone → Session → Session
resumed z s = record s { unresumed = remove (chain_key z s.origin) s.unresumed }

unfoldable pub stopped : Session → Zone → Bool
stopped s z = elim (get (chain_key z s.origin) s.unresumed) [ none ↦ false | some seq ↦ true ]

-- Every op's shape and payload, before any is taken.
unfoldable pub require_all : List Op → Result ClientError (Unit {0})
require_all [] = ok tt
require_all (op ∷ ops) = elim (require_op op.shape op.payload) [
  | err e ↦ err e
  | ok _ ↦ require_all ops
]

unfoldable pub take_remote : Op → Session → Session
take_remote op s =
    let (stored, logs) = store_append op s.logs in
    record s {
      logs = logs;
      lamport = if stored && ltb_ℤ s.lamport op.lamport then op.lamport else s.lamport;
    }

unfoldable pub take_all : List Op → Session → Session
take_all [] s = s
take_all (op ∷ ops) s = take_all ops (take_remote op s)

unfoldable pub apply_remote : List Op → Session → Result ClientError (Unit {0}) × Session
apply_remote ops s = elim (require_all ops) [ err e ↦ (err e, s) | ok _ ↦ (ok tt, take_all ops s) ]
