-- ===== src/Grants.antt =====
-- The grant check (node/src/grants.rs) and its port (contracts/grant-api/src/lib.rs).
pub mod Admits
pub mod Names
pub mod Fold
use glade.Prelude.{
  ℕ, suc, ◌+◌, ◌%◌, ◌^◌, Bool, true, false, ◌&&◌, ◌||◌, Option, none, some, List, [], ◌∷◌, Text,
  Bytes, ◌==◌, bytes_eq, nat_eq, if◌then◌else◌, ltb, leb, length, last?, any, Result, ok, err,
}
use glade.Prelude.BTreeMap.{BTreeMap, get, insert}
use glade.Prelude.Order.{bytes_ord, pair_ord}
use glade.NodeId.{hex}

pub data Holder : Type 0 where
  node : Bytes → Holder
  principal : Text → Holder

pub data Denial : Type 0 where
  no_grant revoked unavailable : Denial

-- name.len() == 64, and every byte a lower-case hex digit.
abbrev pub is_hex_digit : ℕ → Bool
is_hex_digit b = (leb b'0' b && leb b b'9') || (leb b'a' b && leb b b'f')

unfoldable pub all_hex : Text → Bool
all_hex [] = true
all_hex (b ∷ name) = is_hex_digit b && all_hex name

unfoldable pub names_a_node : Text → Bool
names_a_node name = length name == 64 && all_hex name

-- text.starts_with(prefix)
unfoldable pub starts_with : Text → Text → Bool
starts_with [] text = true
starts_with (c ∷ prefix) [] = false
starts_with (c ∷ prefix) (d ∷ text) = c == d && starts_with prefix text

-- text.ends_with(c)
unfoldable pub ends_with : ℕ → Text → Bool
ends_with c text = elim (last? text) [ none ↦ false | some d ↦ d == c ]

unfoldable pub without_last : Text → Text
without_last [] = []
without_last (c ∷ []) = []
without_last (c ∷ d ∷ text) = c ∷ without_last (d ∷ text)

-- text.strip_suffix(c)
unfoldable pub strip_suffix : ℕ → Text → Option Text
strip_suffix c text = if ends_with c text then some (without_last text) else none

-- Whether a granted verb admits the verb asked for.
unfoldable pub admits : Text → Text → Bool
admits granted asked = if granted == asked then true else (elim (strip_suffix b'*' granted) [
  | none ↦ false
  | some prefix ↦
      if ltb 1 (length prefix) && ends_with b'.' prefix then starts_with prefix asked else false
])

-- A principal and a share.
abbrev pub Pair : Type 0
Pair = Text × Text

abbrev pub TextSet : Type 0
TextSet = BTreeMap Text (Unit {0})

pub record Policy : Type 0 where
  pub granted : BTreeMap Pair TextSet
  pub revoked : BTreeMap Pair (Unit {0})

abbrev pub no_policy : Policy
no_policy = record { granted = []; revoked = [] }

unfoldable pub extend : List Text → TextSet → TextSet
extend [] set = set
extend (verb ∷ verbs) set = extend verbs (insert verb tt set)

unfoldable pub granted_to : Policy → Pair → TextSet
granted_to policy pair = elim (get pair policy.granted) [ none ↦ [] | some set ↦ set ]

unfoldable pub grant : Text → Text → List Text → Policy → Policy
grant name share verbs policy = record {
  granted = insert (name, share) (extend verbs (granted_to policy (name, share))) policy.granted;
  revoked = policy.revoked;
}

unfoldable pub revoke : Text → Text → Policy → Policy
revoke name share policy = record {
  granted = policy.granted;
  revoked = insert (name, share) tt policy.revoked;
}

-- Whether some verb of a set admits the verb asked for.
unfoldable pub any_admits : TextSet → Text → Bool
any_admits [] verb = false
any_admits ((granted, u) ∷ set) verb = admits granted verb || any_admits set verb

unfoldable pub check_policy : Policy → Text → Text → Text → Result Denial (Unit {0})
check_policy policy name verb share = elim (get (name, share) policy.revoked) [
  | some u ↦ err Denial.revoked
  | none ↦ elim (get (name, share) policy.granted) [
    | none ↦ err Denial.no_grant
    | some verbs ↦ if any_admits verbs verb then ok tt else err Denial.no_grant
  ]
]

-- The name that a grant gives a holder. A principal whose name is written as a node's id has none.
unfoldable pub grant_name : Holder → Option Text
grant_name (Holder.node id) = some (hex id)
grant_name (Holder.principal name) = if names_a_node name then none else some name

-- The fold as the serve paths read it, and how often it has been replaced, which is a u64.
pub record PolicyView : Type 0 where
  pub generation : ℕ
  pub fold : Option Policy

unfoldable pub view_of : Option Policy → PolicyView
view_of fold = record { generation = 0; fold = fold }

unfoldable pub replace : Option Policy → PolicyView → PolicyView
replace fold view = record { generation = (view.generation + 1) % 2 ^ 64; fold = fold }

unfoldable pub check : PolicyView → Holder → Text → Text → Result Denial (Unit {0})
check view holder verb share = elim view.fold [
  | none ↦ err Denial.unavailable
  | some fold ↦ elim (grant_name holder) [
    | none ↦ err Denial.no_grant
    | some name ↦ check_policy fold name verb share
  ]
]
