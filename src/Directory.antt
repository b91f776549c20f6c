-- ===== src/Directory.antt =====
-- The home share and its streams (node/src/registry.rs).
use glade.Prelude.{Text, codes}

abbrev pub home : Text
home = codes "home"

abbrev pub g_nodes : Text
g_nodes = codes "dir.nodes"

abbrev pub g_workspaces : Text
g_workspaces = codes "dir.workspaces"

abbrev pub g_claims : Text
g_claims = codes "dir.claims"

abbrev pub g_grants : Text
g_grants = codes "dir.grants"

abbrev pub g_revocations : Text
g_revocations = codes "dir.revocations"

abbrev pub g_bindings : Text
g_bindings = codes "dir.bindings"

abbrev pub g_services : Text
g_services = codes "dir.services"

abbrev pub g_binding_retractions : Text
g_binding_retractions = codes "dir.binding-retractions"

abbrev pub g_principals : Text
g_principals = codes "dir.principals"

abbrev pub g_transport_bindings : Text
g_transport_bindings = codes "dir.transport-bindings"

abbrev pub g_transport_revocations : Text
g_transport_revocations = codes "dir.transport-revocations"

abbrev pub g_recovery_keys : Text
g_recovery_keys = codes "dir.recovery-keys"

abbrev pub g_checkpoints : Text
g_checkpoints = codes "dir.checkpoints"
