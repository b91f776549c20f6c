-- ===== src/Registry/Load.antt =====
-- What the registry loads and saves (node/src/registry.rs): a snapshot that is taken in op by op, and a
-- change that is held only once it is saved.
use glade.Prelude.{
  ℕ, ◌+◌, Bool, true, ◌||◌, none, some, List, [], ◌∷◌, ◌++◌, Text, Bytes, ◌==◌, bytes_eq, nat_eq,
  if◌then◌else◌, keep, sort_by, not, Result, ok, err,
}
use glade.Prelude.BTreeMap.{BTreeMap, get, insert}
use glade.Prelude.Order.{bytes_ord, pair_ord, lt_bytes}
use glade.External.{External}
use glade.Checkpoint.{Floor}
use glade.Directory
use glade.Store.Types.{IoError}
use glade.Wire.{Op, Head, StreamHeads}
use glade.Registry.{Registry, RegistryError, Ingested, Chain, own_chain, is_policy, ingest}

-- Ops in their encoding, and each stream's heads, which are encoded too.
pub record SystemSnapshot : Type 0 where
  pub records : List Bytes
  pub heads : List StreamHeads

-- The load's state: the registry so far, how many records it set aside, and the chains that it takes
-- nothing more of.
pub record Loading : Type 0 where
  pub registry : Registry
  pub rejected : ℕ
  pub poisoned : BTreeMap Chain (Unit {0})

unfoldable pub quarantine : Bool → Registry → Registry
quarantine policy r = record r { policy_quarantined = r.policy_quarantined || policy }

unfoldable pub reject : Bool → Loading → Loading
unfolding quarantine
reject policy l = record l { registry = quarantine policy l.registry; rejected = l.rejected + 1 }

unfoldable pub taken : Op → Result RegistryError Ingested × Registry → Loading → Loading
unfolding reject
taken op (ok i, r) l = record l { registry = r }
taken op (err e, r) l = record (reject (is_policy op.glade_id) (record l { registry = r })) {
  poisoned = insert (own_chain op) tt l.poisoned;
}

abbrev pub is_checkpoint : Op → Bool
is_checkpoint op = op.glade_id == Directory.g_checkpoints

module _ (x : External) where
  -- What of a snapshot's records is an op; one that is not may be on a policy stream.
  unfoldable pub decoded : List Bytes → List Op
  decoded [] = []
  decoded (b ∷ records) =
      let rest = decoded records in elim (x.decode_op b) [ ok op ↦ op ∷ rest | err why ↦ rest ]

  unfoldable pub set_aside : List Bytes → Loading → Loading
  unfolding reject
  set_aside [] l = l
  set_aside (b ∷ records) l =
      set_aside records (elim (x.decode_op b) [ ok op ↦ l | err why ↦ reject true l ])

  unfoldable pub load_op : Op → Loading → Loading
  unfolding taken reject
  load_op op l = elim (get (own_chain op) l.poisoned) [
    | some u ↦ reject (is_policy op.glade_id) l
    | none ↦ taken op (ingest x op l.registry) l
  ]

  unfoldable pub load_ops : List Op → Loading → Loading
  unfolding load_op
  load_ops [] l = l
  load_ops (op ∷ ops) l = load_ops ops (load_op op l)

  -- Checkpoints first, so that each chain that one folds starts at its floor.
  unfoldable pub load : SystemSnapshot → Registry → Registry × ℕ
  unfolding load_ops set_aside
  load snap r =
      let ops = decoded snap.records in
      let start = set_aside snap.records (record { registry = r; rejected = 0; poisoned = [] }) in
      let end =
        load_ops (keep (λ op. not (is_checkpoint op)) ops)
          (load_ops (keep is_checkpoint ops) start) in
      (end.registry, end.rejected)

  unfoldable pub encoded : List Op → List Bytes
  encoded [] = []
  encoded (op ∷ ops) = x.encode_op op ∷ encoded ops

-- by_stream.entry(glade_id).or_default().push(head)
unfoldable pub add_head : Text → Head → BTreeMap Text (List Head) → BTreeMap Text (List Head)
add_head stream head m =
    insert stream ((elim (get stream m) [ none ↦ [] | some heads ↦ heads ]) ++ head ∷ []) m

unfoldable pub by_stream :
    BTreeMap Chain Floor → BTreeMap Text (List Head) → BTreeMap Text (List Head)
unfolding add_head
by_stream [] m = m
by_stream (((stream, origin), (seq, hash)) ∷ tips) m =
    by_stream tips (add_head stream (record { origin = origin; seq = seq; hash = some hash }) m)

unfoldable pub stream_heads_of : BTreeMap Text (List Head) → List StreamHeads
stream_heads_of [] = []
stream_heads_of ((stream, heads) ∷ m) =
    record {
      share = Directory.home;
      glade_id = stream;
      key = [];
      heads = sort_by (λ a b. lt_bytes a.origin b.origin) heads;
    }
    ∷ stream_heads_of m

-- The checkpoints that the register holds, in its order.
unfoldable pub register_ops : BTreeMap Chain (Op × Floor) → List Op
register_ops [] = []
register_ops ((chain, (op, floor)) ∷ m) = op ∷ register_ops m

unfoldable pub snapshot : External → Registry → SystemSnapshot
unfolding register_ops encoded by_stream stream_heads_of
snapshot x r = record {
  records = encoded x (register_ops r.checkpoints ++ r.ops);
  heads = stream_heads_of (by_stream r.tips []);
}

-- The engine that a node persists with: a state, a load that reads it, and a save that writes it or
-- fails.
pub record StoreApi : Type 1 where
  pub State : Type 0
  pub load : State → SystemSnapshot
  pub save : SystemSnapshot → State → Result IoError (Unit {0}) × State

module _ {T E : Type 0} (x : External) (api : StoreApi) (from : IoError → E) where
  unfoldable pub accept_saved :
      T
      → Registry
      → Registry
      → Result IoError (Unit {0}) × api.State
      → Result E T × (Registry × api.State)
  accept_saved out staged r (ok u, d) = (ok out, (staged, d))
  accept_saved out staged r (err e, d) = (err (from e), (r, d))

  unfoldable pub accept_staged :
      Result E T × Registry → Registry → api.State → Result E T × (Registry × api.State)
  unfolding accept_saved
  accept_staged (err e, staged) r d = (err e, (r, d))
  accept_staged (ok out, staged) r d =
      if staged.changes == r.changes
      then (ok out, (r, d))
      else accept_saved out staged r (api.save (snapshot x staged) d)

  -- A change is made on a copy, which becomes the registry once its snapshot is saved.
  unfoldable pub accept :
      (Registry → Result E T × Registry)
      → Registry
      → api.State
      → Result E T × (Registry × api.State)
  unfolding accept_staged
  accept change r d = accept_staged (change r) r d
