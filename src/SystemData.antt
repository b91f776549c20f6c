-- ===== src/SystemData.antt =====
-- The records of the home share (node/src/sysdata.rs): their fields, and the values that they are
-- written as and read from.
use glade.Prelude.{ℕ, ℤ, pos, suc, List, [], ◌∷◌, Text, Bytes, Result, ok, ◌>>=◌}
use glade.Wire.Cbor.{Cbor, Items, Entries, int, bytes, text, array, map, nil, cons, end, entry}
use glade.Wire.Decode.{DecodeError, try_get, try_int, try_text, try_array}
use glade.Checkpoint.{ChainCheckpoint}

pub record NodeRecord : Type 0 where
  pub node_id : Text
  pub operator : Text

pub record WorkspaceEntry : Type 0 where
  pub workspace : Text
  pub name : Text
  pub eligible_hosts : List Text

pub record ServeClaim : Type 0 where
  pub node : Text
  pub share : Text
  pub lease_expiry_ms : ℤ
  pub epoch : ℤ

pub record CapabilityGrant : Type 0 where
  pub principal : Text
  pub share : Text
  pub verbs : List Text

pub record CapabilityRevocation : Type 0 where
  pub principal : Text
  pub share : Text

pub record BindingDecl : Type 0 where
  pub app : Text
  pub glade_id : Text
  pub shape : Text
  pub authority : Text
  pub zone : Text
  pub retention : Text

pub record BindingRetraction : Type 0 where
  pub app : Text
  pub glade_id : Text

pub record ServiceDefinition : Type 0 where
  pub app : Text
  pub name : Text
  pub glade_id : Text

pub record PrincipalRecord : Type 0 where
  pub principal : Text

pub record NodeTransportBinding : Type 0 where
  pub node : Text
  pub endpoint_id : Text
  pub valid_from : ℤ
  pub sig : Bytes

pub record NodeTransportRevocation : Type 0 where
  pub node : Text
  pub endpoint_id : Text
  pub sig : Bytes

pub record NodeRecoveryKey : Type 0 where
  pub node : Text
  pub recovery_key : Text

unfoldable pub text_items : List Text → Items
text_items [] = nil
text_items (s ∷ ss) = cons (text s) (text_items ss)

-- Values keyed from a number up.
unfoldable pub fields_from : ℕ → List Cbor → Entries
fields_from k [] = end
fields_from k (v ∷ vs) = entry (pos k) v (fields_from (suc k) vs)

abbrev pub message_of : List Cbor → Cbor
message_of vs = map (fields_from 1 vs)

-- `to_cbor` of each kind.
unfoldable pub node_to_cbor : NodeRecord → Cbor
unfolding fields_from
node_to_cbor r = message_of (text r.node_id ∷ text r.operator ∷ [])

unfoldable pub workspace_to_cbor : WorkspaceEntry → Cbor
unfolding fields_from text_items
workspace_to_cbor r =
    message_of (text r.workspace ∷ text r.name ∷ array (text_items r.eligible_hosts) ∷ [])

unfoldable pub claim_to_cbor : ServeClaim → Cbor
unfolding fields_from
claim_to_cbor r = message_of (text r.node ∷ text r.share ∷ int r.lease_expiry_ms ∷ int r.epoch ∷ [])

unfoldable pub grant_to_cbor : CapabilityGrant → Cbor
unfolding fields_from text_items
grant_to_cbor r = message_of (text r.principal ∷ text r.share ∷ array (text_items r.verbs) ∷ [])

unfoldable pub revocation_to_cbor : CapabilityRevocation → Cbor
unfolding fields_from
revocation_to_cbor r = message_of (text r.principal ∷ text r.share ∷ [])

unfoldable pub binding_to_cbor : BindingDecl → Cbor
unfolding fields_from
binding_to_cbor r = message_of (
    text r.app
    ∷ text r.glade_id
    ∷ text r.shape
    ∷ text r.authority
    ∷ text r.zone
    ∷ text r.retention
    ∷ [])

unfoldable pub retraction_to_cbor : BindingRetraction → Cbor
unfolding fields_from
retraction_to_cbor r = message_of (text r.app ∷ text r.glade_id ∷ [])

unfoldable pub service_to_cbor : ServiceDefinition → Cbor
unfolding fields_from
service_to_cbor r = message_of (text r.app ∷ text r.name ∷ text r.glade_id ∷ [])

unfoldable pub principal_to_cbor : PrincipalRecord → Cbor
unfolding fields_from
principal_to_cbor r = message_of (text r.principal ∷ [])

unfoldable pub transport_to_cbor : NodeTransportBinding → Cbor
unfolding fields_from
transport_to_cbor r =
    message_of (text r.node ∷ text r.endpoint_id ∷ int r.valid_from ∷ bytes r.sig ∷ [])

unfoldable pub transport_revoke_to_cbor : NodeTransportRevocation → Cbor
unfolding fields_from
transport_revoke_to_cbor r = message_of (text r.node ∷ text r.endpoint_id ∷ bytes r.sig ∷ [])

unfoldable pub recovery_to_cbor : NodeRecoveryKey → Cbor
unfolding fields_from
recovery_to_cbor r = message_of (text r.node ∷ text r.recovery_key ∷ [])

unfoldable pub checkpoint_to_cbor : ChainCheckpoint → Cbor
unfolding fields_from
checkpoint_to_cbor r = message_of (text r.node ∷ text r.stream ∷ int r.seq ∷ bytes r.hash ∷ [])

-- Every item as text.
unfoldable pub texts_of : Items → Result DecodeError (List Text)
unfolding try_text
texts_of nil = ok []
texts_of (cons v items) = do s ← try_text v; ss ← texts_of items; ok (s ∷ ss)

abbrev pub text_field : ℤ → Cbor → Result DecodeError Text
text_field key v = try_get key v >>= try_text

abbrev pub int_field : ℤ → Cbor → Result DecodeError ℤ
int_field key v = try_get key v >>= try_int

abbrev pub texts_field : ℤ → Cbor → Result DecodeError (List Text)
texts_field key v = try_get key v >>= λ items. try_array items >>= texts_of

-- `from_cbor` of the kinds that the registry folds.
unfoldable pub node_from_cbor : Cbor → Result DecodeError NodeRecord
node_from_cbor c = do
  n ← text_field (pos 1) c
  o ← text_field (pos 2) c
  ok (record { node_id = n; operator = o })

unfoldable pub workspace_from_cbor : Cbor → Result DecodeError WorkspaceEntry
unfolding texts_of
workspace_from_cbor c = do
  w ← text_field (pos 1) c
  n ← text_field (pos 2) c
  hosts ← texts_field (pos 3) c
  ok (record { workspace = w; name = n; eligible_hosts = hosts })

unfoldable pub claim_from_cbor : Cbor → Result DecodeError ServeClaim
claim_from_cbor c = do
  n ← text_field (pos 1) c
  s ← text_field (pos 2) c
  lease ← int_field (pos 3) c
  e ← int_field (pos 4) c
  ok (record { node = n; share = s; lease_expiry_ms = lease; epoch = e })

unfoldable pub grant_from_cbor : Cbor → Result DecodeError CapabilityGrant
unfolding texts_of
grant_from_cbor c = do
  p ← text_field (pos 1) c
  s ← text_field (pos 2) c
  v ← texts_field (pos 3) c
  ok (record { principal = p; share = s; verbs = v })

unfoldable pub revocation_from_cbor : Cbor → Result DecodeError CapabilityRevocation
revocation_from_cbor c = do
  p ← text_field (pos 1) c
  s ← text_field (pos 2) c
  ok (record { principal = p; share = s })

unfoldable pub binding_from_cbor : Cbor → Result DecodeError BindingDecl
binding_from_cbor c = do
  a ← text_field (pos 1) c
  g ← text_field (pos 2) c
  s ← text_field (pos 3) c
  u ← text_field (pos 4) c
  z ← text_field (pos 5) c
  r ← text_field (pos 6) c
  ok (record { app = a; glade_id = g; shape = s; authority = u; zone = z; retention = r })

unfoldable pub retraction_from_cbor : Cbor → Result DecodeError BindingRetraction
retraction_from_cbor c = do
  a ← text_field (pos 1) c
  g ← text_field (pos 2) c
  ok (record { app = a; glade_id = g })

unfoldable pub recovery_from_cbor : Cbor → Result DecodeError NodeRecoveryKey
recovery_from_cbor c = do
  n ← text_field (pos 1) c
  k ← text_field (pos 2) c
  ok (record { node = n; recovery_key = k })
