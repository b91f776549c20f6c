-- ===== src/Registry/Folds.antt =====
-- What the registry answers (node/src/registry.rs): the folds of the ops that it holds.
use glade.Prelude.{
  ℤ, Bool, true, ◌&&◌, ◌||◌, Option, none, some, List, [], ◌∷◌, ◌++◌, Text, Bytes, ◌==◌, bytes_eq,
  int_eq, if◌then◌else◌, ltb_ℤ, keep, any, sort_by, Result, ok, err, ◌>>=◌,
}
use glade.Prelude.Order.{bytes_ord, lt_bytes}
use glade.External.{External}
use glade.Directory
use glade.Envelope.Record.{record_bytes}
use glade.Grants.{Policy, no_policy, grant, revoke}
use glade.SystemData.{
  NodeRecord, WorkspaceEntry, ServeClaim, CapabilityGrant, CapabilityRevocation, NodeRecoveryKey,
  node_from_cbor, workspace_from_cbor, claim_from_cbor, grant_from_cbor, revocation_from_cbor,
  recovery_from_cbor,
}
use glade.Wire.{Op}
use glade.Wire.Cbor.{Cbor}
use glade.Wire.Decode.{DecodeError}
use glade.Registry.{Registry}

-- The order of the folds: by origin, and then by seq.
abbrev pub fold_lt : Op → Op → Bool
fold_lt a b = lt_bytes a.origin b.origin || (a.origin == b.origin && ltb_ℤ a.seq b.seq)

abbrev pub on_stream : Text → Op → Bool
on_stream g o = o.glade_id == g

unfoldable pub fold_iter : Registry → Text → List Op
fold_iter r g = sort_by fold_lt (keep (on_stream g) r.ops)

-- The ops of one origin's chain, in the order of their seqs.
unfoldable pub chain : Registry → Text → Text → List Op
unfolding fold_iter
chain r g origin = keep (λ o. o.origin == origin) (fold_iter r g)

-- Texts in order, each once: `sort` and `dedup`.
unfoldable pub dedup_texts : List Text → List Text
dedup_texts [] = []
dedup_texts (s ∷ []) = s ∷ []
dedup_texts (s ∷ t ∷ rest) =
    let later = dedup_texts (t ∷ rest) in if s == t then later else s ∷ later

unfoldable pub text_set : List Text → List Text
unfolding dedup_texts
text_set texts = dedup_texts (sort_by lt_bytes texts)

module _ {A : Type 0} (x : External) (from : Cbor → Result DecodeError A) where
  -- The record that an op carries (node/src/envelope.rs).
  unfoldable pub record_of : Op → Result DecodeError A
  record_of op = x.try_decode (record_bytes x op.payload) >>= from

  -- What of the ops a fold reads: the others are skipped.
  unfoldable pub folded : List Op → List A
  unfolding record_of
  folded [] = []
  folded (op ∷ ops) =
      let rest = folded ops in elim (record_of op) [ ok a ↦ a ∷ rest | err why ↦ rest ]

-- How two live claims of a share rank: the higher epoch, and then the lower node.
unfoldable pub outranks : ServeClaim → ServeClaim → Bool
outranks a b = ltb_ℤ b.epoch a.epoch || (a.epoch == b.epoch && lt_bytes a.node b.node)

-- A claim of the share whose lease lasts at the reader's clock.
unfoldable pub is_live : Text → ℤ → ServeClaim → Bool
is_live share now c = c.share == share && ltb_ℤ now c.lease_expiry_ms

-- `max_by`: the last of the highest.
unfoldable pub best : ServeClaim → List ServeClaim → ServeClaim
best a [] = a
best a (b ∷ bs) = best (if outranks a b then a else b) bs

unfoldable pub holder_of : List ServeClaim → Option Text
unfolding best
holder_of [] = none
holder_of (a ∷ rest) = some (best a rest).node

unfoldable pub latest_entry :
    Text → Option WorkspaceEntry → List WorkspaceEntry → Option WorkspaceEntry
latest_entry share latest [] = latest
latest_entry share latest (e ∷ entries) =
    latest_entry share (if e.workspace == share then some e else latest) entries

unfoldable pub verbs_of : Text → Text → List CapabilityGrant → List Text
verbs_of principal share [] = []
verbs_of principal share (g ∷ grants) =
    let rest = verbs_of principal share grants in
    if g.principal == principal && g.share == share then g.verbs ++ rest else rest

unfoldable pub operated : Text → List NodeRecord → List Text
operated operator [] = []
operated operator (n ∷ nodes) =
    let rest = operated operator nodes in if n.operator == operator then n.node_id ∷ rest else rest

unfoldable pub first_key : Text → List NodeRecoveryKey → Option Text
first_key node [] = none
first_key node (k ∷ keys) =
    let rest = first_key node keys in if k.node == node then some k.recovery_key else rest

-- The policy of the grants or of the revocations of a list, which all must be read.
unfoldable pub grant_all : List CapabilityGrant → Policy → Policy
grant_all [] p = p
grant_all (g ∷ grants) p = grant_all grants (grant g.principal g.share g.verbs p)

unfoldable pub revoke_all : List CapabilityRevocation → Policy → Policy
revoke_all [] p = p
revoke_all (r ∷ revocations) p = revoke_all revocations (revoke r.principal r.share p)

unfoldable pub every :
    {A : Type 0} → External → (Cbor → Result DecodeError A) → List Op → Option (List A)
every x from [] = some []
every x from (op ∷ ops) =
    let rest = every x from ops in
    elim (record_of x from op) [
      | err why ↦ none
      | ok a ↦ elim rest [ none ↦ none | some bs ↦ some (a ∷ bs) ]
    ]

module _ (x : External) where
  unfoldable pub has_node : Registry → Text → Bool
  unfolding folded fold_iter
  has_node r id =
      any (λ (n : NodeRecord). n.node_id == id)
        (folded x node_from_cbor (fold_iter r Directory.g_nodes))

  -- The claims that the registry holds, in the order of the fold.
  unfoldable pub claims_of : Registry → List ServeClaim
  unfolding folded fold_iter
  claims_of r = folded x claim_from_cbor (fold_iter r Directory.g_claims)

  unfoldable pub who_serves : Registry → Text → ℤ → Option Text
  unfolding claims_of holder_of
  who_serves r share now = holder_of (keep (is_live share now) (claims_of r))

  unfoldable pub replicas_of : Registry → Text → List Text
  unfolding folded fold_iter latest_entry text_set
  replicas_of r share =
      elim (latest_entry share none
        (folded x workspace_from_cbor (fold_iter r Directory.g_workspaces))) [
          | none ↦ []
          | some e ↦ text_set e.eligible_hosts
        ]

  -- A revocation that cannot be read may be this pair's.
  unfoldable pub may_revoke : Text → Text → Op → Bool
  unfolding record_of
  may_revoke principal share op = elim (record_of x revocation_from_cbor op) [
    | err why ↦ true
    | ok v ↦ v.principal == principal && v.share == share
  ]

  unfoldable pub grants_for : Registry → Text → Text → List Text
  unfolding folded fold_iter verbs_of text_set may_revoke
  grants_for r principal share =
      if any (may_revoke principal share) (fold_iter r Directory.g_revocations)
      then []
      else text_set
          (verbs_of principal share (folded x grant_from_cbor (fold_iter r Directory.g_grants)))

  -- The grant fold that the serve paths check: none where the load set a policy record aside, or
  -- where one cannot be read.
  unfoldable pub policy : Registry → Option Policy
  unfolding fold_iter grant_all revoke_all every
  policy r =
      if r.policy_quarantined
      then none
      else (elim (every x grant_from_cbor (fold_iter r Directory.g_grants)) [
        | none ↦ none
        | some grants ↦ elim (every x revocation_from_cbor (fold_iter r Directory.g_revocations)) [
          | none ↦ none
          | some revocations ↦ some (revoke_all revocations (grant_all grants no_policy))
        ]
      ])

  unfoldable pub nodes_of : Registry → Text → List Text
  unfolding folded fold_iter operated text_set
  nodes_of r operator =
      text_set (operated operator (folded x node_from_cbor (fold_iter r Directory.g_nodes)))

  unfoldable pub recovery_key : Registry → Text → Option Text
  unfolding folded fold_iter first_key
  recovery_key r node = first_key node (
      folded x recovery_from_cbor
        (keep (λ o. o.origin == node) (fold_iter r Directory.g_recovery_keys)))

  -- Whether a record is held byte for byte.
  unfoldable pub contains : Registry → Text → Bytes → Bool
  contains r g rec = any (λ o. o.glade_id == g && record_bytes x o.payload == rec) r.ops
