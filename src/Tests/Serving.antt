-- ===== src/Tests/Serving.antt =====
-- Examples of what a peer is sent: the second of two ops.
use glade.Prelude.{
  suc_i64, suc_ℤ, i64_min, ◌<ℤ◌, ◌≡◌, ◌≢◌, refl, [], ◌∷◌, ◌++◌, none, codes, All, keep, arith,
  bytes_discrete, ℕ_discrete, ℤ_discrete,
}
use glade.Prelude.BTreeMap.{get, insert}
use glade.Prelude.Order.{bytes_ord, pair_ord, dec_pair}
use glade.Directory
use glade.External.{op_hash}
use glade.Wire.{Zone, chain_of, zone_of, shape_discrete}
use glade.Store.Types.{healthy}
use glade.Store.Classify.{held_of}
use glade.Store.Classify
use glade.Store.Append.{append}
use glade.Store.Append
use glade.Store.Append.Surface
use glade.Store.Invariant
use glade.Store.Valid.{IsValid}
use glade.Sync.{heads_map, missing_for, serve_order, serves_checkpoints}
use glade.Sync.Receipt
use glade.Sync.Receipt.{IsPlain, IsPlainZone, IsSent}
use glade.Store.Append.Surface.{is_exclusive}
use glade.Store.Retaken.{append_all}
use glade.Sync.Isolation
use glade.Sync.Order
use glade.Sync.Order.{is_rest}
use glade.Tests.{toy, op_0, op_1, no_ops}
use glade.Tests.Stores.{one_op, two_ops, one_op-IsValid, op_0-in_range, op_1-in_range}

abbrev zone : Zone
zone = (codes "sh", (codes "g", []))

abbrev registers : Zone
registers = (Directory.home, (Directory.g_checkpoints, []))

two_ops-IsValid : IsValid toy two_ops
two_ops-IsValid = Invariant.append-IsValid toy healthy op_1 one_op op_1-in_range one_op-IsValid

held-one : held_of one_op.logs (zone, codes "a") ≡ op_0 ∷ []
unfolding append Append.judge Append.keep_op Append.push Append.commit Append.verdict_of
    Surface.check_surface Surface.check_payload Surface.surface_entries Classify.classify held_of
    chain_of bytes_discrete ℤ_discrete ℕ_discrete shape_discrete dec_pair get insert
held-one = refl

held-two : held_of two_ops.logs (zone, codes "a") ≡ op_0 ∷ op_1 ∷ []
unfolding append Append.judge Append.keep_op Append.push Append.commit Append.verdict_of
    Surface.check_surface Surface.check_payload Surface.surface_entries Surface.surface_entry
    Surface.is_exclusive Classify.classify Classify.follows held_of chain_of bytes_discrete
    ℤ_discrete ℕ_discrete shape_discrete dec_pair get insert suc_i64 suc_ℤ op_hash
held-two = refl

held-more :
    held_of two_ops.logs (zone, codes "a") ≡ held_of one_op.logs (zone, codes "a") ++ op_1 ∷ []
held-more = rw (held-one, held-two) refl

two_ops-above : All (λ o. i64_min <ℤ o.seq) (held_of two_ops.logs (zone, codes "a"))
two_ops-above = rw held-two (omega arith, (omega arith, tt))

unfloored : get (zone, codes "a") one_op.register ≡ none
unfolding append Append.judge Append.keep_op Append.commit Append.verdict_of Surface.check_surface
    Surface.check_payload Surface.surface_entries Classify.classify held_of bytes_discrete
    ℕ_discrete shape_discrete get
unfloored = refl

elsewhere : zone.0 ≢ Directory.home
elsewhere e = cc

no_ops-plain : IsPlainZone zone no_ops
unfolding held_of get
no_ops-plain o = tt

op_0-IsSent : IsSent toy zone op_0
unfolding is_exclusive shape_discrete
op_0-IsSent = record { of_zone = refl; plain = refl; in_range = op_0-in_range }

op_1-IsSent : IsSent toy zone op_1
unfolding is_exclusive shape_discrete
op_1-IsSent = record { of_zone = refl; plain = refl; in_range = op_1-in_range }

one_op-plain : IsPlainZone zone one_op
one_op-plain = Receipt.next-IsPlainZone toy zone op_0 no_ops elsewhere op_0-IsSent no_ops-plain

two_ops-plain : IsPlainZone zone two_ops
two_ops-plain = Receipt.next-IsPlainZone toy zone op_1 one_op elsewhere op_1-IsSent one_op-plain

missing_for-completes_example :
    held_of
      (append_all toy (missing_for toy two_ops zone (heads_map toy one_op zone)) one_op).logs
      (zone, codes "a")
    ≡ held_of two_ops.logs (zone, codes "a")
missing_for-completes_example =
    Receipt.missing_for-completes toy two_ops one_op zone (codes "a") (op_1 ∷ []) elsewhere
      two_ops-IsValid one_op-IsValid two_ops-plain one_op-plain unfloored two_ops-above held-more

missing_for-zone_example :
    All (λ o. zone_of o ≡ zone) (missing_for toy two_ops zone (heads_map toy one_op zone))
missing_for-zone_example =
    Isolation.missing_for-zone toy two_ops two_ops-IsValid zone (heads_map toy one_op zone)

serve_order-partition_example :
    serve_order (zone ∷ registers ∷ [])
    ≡ keep serves_checkpoints (zone ∷ registers ∷ []) ++ keep is_rest (zone ∷ registers ∷ [])
serve_order-partition_example = Order.serve_order-partition (zone ∷ registers ∷ [])
