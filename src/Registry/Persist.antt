-- ===== src/Registry/Persist.antt =====
-- What the registry appends, loads and saves (node/src/registry.rs): a record under its node's own chain,
-- a snapshot that is taken in op by op, and a change that is held only once it is saved.
use glade.Prelude.{
  ℤ, pos, Bool, false, not, ◌&&◌, Option, none, some, List, [], ◌∷◌, Text, Bytes, ◌==◌, bytes_eq,
  nat_eq, if◌then◌else◌, ltb_ℤ, suc_i64, Result, ok, err,
}
use glade.Prelude.BTreeMap.{get}
use glade.Prelude.Order.{bytes_ord, pair_ord}
use glade.External.{External}
use glade.Checkpoint.{ChainCheckpoint, Floor}
use glade.Directory
use glade.Envelope.Record.{envelope_of}
use glade.NodeId.{hex}
use glade.Signing
use glade.Signing.{NodeIdentity, Purpose}
use glade.SystemData.{
  NodeRecord, WorkspaceEntry, ServeClaim, CapabilityGrant, CapabilityRevocation, BindingDecl,
  BindingRetraction, ServiceDefinition, PrincipalRecord, NodeTransportBinding,
  NodeTransportRevocation, NodeRecoveryKey, node_to_cbor, workspace_to_cbor, claim_to_cbor,
  grant_to_cbor, revocation_to_cbor, binding_to_cbor, retraction_to_cbor, service_to_cbor,
  principal_to_cbor, transport_to_cbor, transport_revoke_to_cbor, recovery_to_cbor,
  checkpoint_to_cbor,
}
use glade.Wire
use glade.Wire.{Op}
use glade.Wire.Cbor.{Cbor}
use glade.Registry.{Registry, RegistryError, Ingested, is_binding_family, link}

pub data Record : Type 0 where
  node : NodeRecord → Record
  workspace : WorkspaceEntry → Record
  serve : ServeClaim → Record
  grant : CapabilityGrant → Record
  revoke : CapabilityRevocation → Record
  binding : BindingDecl → Record
  retract : BindingRetraction → Record
  service : ServiceDefinition → Record
  principal : PrincipalRecord → Record
  transport : NodeTransportBinding → Record
  transport_revoke : NodeTransportRevocation → Record
  recovery : NodeRecoveryKey → Record
  checkpoint : ChainCheckpoint → Record

-- The stream that a kind lives on.
unfoldable pub stream_of : Record → Text
stream_of (Record.node r) = Directory.g_nodes
stream_of (Record.workspace r) = Directory.g_workspaces
stream_of (Record.serve r) = Directory.g_claims
stream_of (Record.grant r) = Directory.g_grants
stream_of (Record.revoke r) = Directory.g_revocations
stream_of (Record.binding r) = Directory.g_bindings
stream_of (Record.retract r) = Directory.g_binding_retractions
stream_of (Record.service r) = Directory.g_services
stream_of (Record.principal r) = Directory.g_principals
stream_of (Record.transport r) = Directory.g_transport_bindings
stream_of (Record.transport_revoke r) = Directory.g_transport_revocations
stream_of (Record.recovery r) = Directory.g_recovery_keys
stream_of (Record.checkpoint r) = Directory.g_checkpoints

unfoldable pub to_cbor : Record → Cbor
to_cbor (Record.node r) = node_to_cbor r
to_cbor (Record.workspace r) = workspace_to_cbor r
to_cbor (Record.serve r) = claim_to_cbor r
to_cbor (Record.grant r) = grant_to_cbor r
to_cbor (Record.revoke r) = revocation_to_cbor r
to_cbor (Record.binding r) = binding_to_cbor r
to_cbor (Record.retract r) = retraction_to_cbor r
to_cbor (Record.service r) = service_to_cbor r
to_cbor (Record.principal r) = principal_to_cbor r
to_cbor (Record.transport r) = transport_to_cbor r
to_cbor (Record.transport_revoke r) = transport_revoke_to_cbor r
to_cbor (Record.recovery r) = recovery_to_cbor r
to_cbor (Record.checkpoint r) = checkpoint_to_cbor r

-- One past the highest clock that the ops of the binding family hold, or the one given.
unfoldable pub binding_lamport_from : ℤ → List Op → ℤ
binding_lamport_from highest [] = highest
binding_lamport_from highest (o ∷ ops) =
    binding_lamport_from
      (if is_binding_family o.glade_id && not (ltb_ℤ (suc_i64 o.lamport) highest)
        then suc_i64 o.lamport
        else highest)
      ops

-- The first of the family starts the maximum.
unfoldable pub next_binding_lamport : List Op → ℤ
unfolding binding_lamport_from
next_binding_lamport [] = pos 0
next_binding_lamport (o ∷ ops) =
    let rest = next_binding_lamport ops in
    if is_binding_family o.glade_id then binding_lamport_from (suc_i64 o.lamport) ops else rest

-- The seq and the `prev` of the next op on a chain.
unfoldable pub next_place : Option Floor → ℤ × Option Bytes
next_place none = (pos 0, none)
next_place (some (seq, hash)) = (suc_i64 seq, some hash)

module _ (x : External) where
  -- An envelope of the op's record, signed by the node (node/src/envelope.rs).
  unfoldable pub seal : NodeIdentity → Op → Bytes
  seal me op =
      x.encode (envelope_of op.payload (Signing.sign x me.seed Purpose.origin_op (x.encode_op op)))

  unfoldable pub sealed_op : Option NodeIdentity → Op → Op
  unfolding seal
  sealed_op none op = op
  sealed_op (some me) op = record op { payload = seal me op }

  -- The op that an append builds, before its payload is sealed.
  unfoldable pub built_op : Record → Text → Registry → Op
  unfolding next_place stream_of to_cbor next_binding_lamport
  built_op rec origin r =
      let place : ℤ × Option Bytes = next_place (get (stream_of rec, origin) r.tips) in
      let lamport =
        if is_binding_family (stream_of rec) then next_binding_lamport r.ops else place.0 in
      record {
        share = Directory.home;
        glade_id = stream_of rec;
        key = [];
        origin = origin;
        seq = place.0;
        prev = place.1;
        lamport = lamport;
        refs = [];
        shape = Wire.log;
        payload = x.encode (to_cbor rec);
      }

  unfoldable pub next_op_of : Record → Text → Registry → Op
  unfolding sealed_op built_op
  next_op_of rec origin r = sealed_op r.seal (built_op rec origin r)

  unfoldable pub not_ours : Option NodeIdentity → Text → Bool
  not_ours none origin = false
  not_ours (some me) origin = not (hex me.node_id == origin)

  unfoldable pub linked_op :
      Op → Result RegistryError Ingested × Registry → Result RegistryError Op × Registry
  linked_op op (ok i, r) = (ok op, r)
  linked_op op (err e, r) = (err e, r)

  unfoldable pub append_returning : Record → Text → Registry → Result RegistryError Op × Registry
  unfolding not_ours next_op_of linked_op
  append_returning rec origin r =
      if not_ours r.seal origin
      then (err (RegistryError.not_ours origin), r)
      else (let op = next_op_of rec origin r in linked_op op (link x op r))
