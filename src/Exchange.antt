-- ===== src/Exchange.antt =====
-- The calls handed to a provider and not yet answered (`Pending` of node/src/exchange.rs), and the
-- surfaces that are declared exchanges.
pub mod Takes
pub mod Orphans
pub mod Once
use glade.Prelude.{
  ℕ, ◌+◌, ◌%◌, ◌^◌, ℤ, pos, Bool, true, false, not, ◌&&◌, ◌||◌, Option, none, some, List, [], ◌∷◌,
  ◌++◌, Text, codes, ◌==◌, nat_eq, bytes_eq, if◌then◌else◌, any, i64_min, Result, ok, err, ◌>>=◌,
}
use glade.Prelude.BTreeMap.{BTreeMap, get, insert, remove}
use glade.Prelude.Decimal.{decimal}
use glade.Prelude.Order.{bytes_ord, pair_ord}
use glade.External.{External}
use glade.Directory
use glade.Registry.Bindings.{bindings_over, live_bindings}
use glade.Registry.Folds.{folded}
use glade.Router.{SessionId}
use glade.Store.Types.{Store}
use glade.Store.Views.{heads, scan}
use glade.SystemData.{ServiceDefinition, BindingDecl, text_field}
use glade.Wire.{Op, Zone}
use glade.Wire.Cbor.{Cbor}
use glade.Wire.Decode.{DecodeError}

-- A call: its caller's session and own correlation, and the session it was handed to.
pub record Call : Type 0 where
  pub caller : SessionId
  pub corr : Text
  pub provider : SessionId

-- How many correlations have been minted, a u64, and the calls by theirs.
pub record Pending : Type 0 where
  pub minted : ℕ
  pub calls : BTreeMap Text Call

abbrev pub no_calls : Pending
no_calls = record { minted = 0; calls = [] }

-- format!("n{}", n)
unfoldable pub mint : ℕ → Text
mint n = codes "n" ++ decimal n

unfoldable pub file : SessionId → Text → SessionId → Pending → Text × Pending
unfolding mint
file caller corr provider p =
    let n = (p.minted + 1) % 2 ^ 64 in
    (
      mint n,
      record {
        minted = n;
        calls =
            insert (mint n) (record { caller = caller; corr = corr; provider = provider }) p.calls;
      },
    )

-- The caller and its correlation.
abbrev pub Caller : Type 0
Caller = SessionId × Text

abbrev pub remove_call : Text → Pending → Pending
remove_call minted p = record p { calls = remove minted p.calls }

unfoldable pub answered : SessionId → Text → Pending → Option Caller × Pending
answered provider minted p = elim (get minted p.calls) [
  | none ↦ (none, p)
  | some call ↦
      if call.provider == provider
      then (some (call.caller, call.corr), remove_call minted p)
      else (none, p)
]

unfoldable pub expired : Text → Pending → Option Caller × Pending
expired minted p = elim (get minted p.calls) [
  | none ↦ (none, p)
  | some call ↦ (some (call.caller, call.corr), remove_call minted p)
]

-- The calls that a session's end leaves, and those that it orphans.
unfoldable pub left_by : SessionId → BTreeMap Text Call → BTreeMap Text Call
left_by sid [] = []
left_by sid ((minted, call) ∷ calls) =
    let rest = left_by sid calls in
    if not (call.caller == sid) && not (call.provider == sid) then (minted, call) ∷ rest else rest

unfoldable pub orphaned_by : SessionId → BTreeMap Text Call → List (Text × Caller)
orphaned_by sid [] = []
orphaned_by sid ((minted, call) ∷ calls) =
    let rest = orphaned_by sid calls in
    if call.provider == sid && not (call.caller == sid)
    then (minted, (call.caller, call.corr)) ∷ rest
    else rest

abbrev pub second_of : List (Text × Caller) → List Caller
second_of [] = []
second_of ((minted, caller) ∷ rest) = caller ∷ second_of rest

unfoldable pub ended : SessionId → Pending → List Caller × Pending
unfolding left_by orphaned_by
ended sid p = (second_of (orphaned_by sid p.calls), record p { calls = left_by sid p.calls })

unfoldable pub service_from_cbor : Cbor → Result DecodeError ServiceDefinition
service_from_cbor c = do
  a ← text_field (pos 1) c
  n ← text_field (pos 2) c
  g ← text_field (pos 3) c
  ok (record { app = a; name = n; glade_id = g })

module _ (x : External) (s : Store) where
  -- Every op that the store holds of a zone, origin by origin.
  unfoldable pub scan_all : Zone → List (Text × ℤ) → List Op
  scan_all z [] = []
  scan_all z ((origin, seq) ∷ origins) = scan s (z, origin) i64_min ++ scan_all z origins

  unfoldable pub home_stream : Text → List Op
  unfolding scan_all
  home_stream g = let z : Zone = (Directory.home, (g, [])) in scan_all z (heads x s z)

  unfoldable pub declared_exchange : Text → Bool
  unfolding home_stream service_from_cbor
  declared_exchange id =
      any (λ (d : ServiceDefinition). d.glade_id == id)
        (folded x service_from_cbor (home_stream Directory.g_services))
      || any (λ (b : BindingDecl). b.glade_id == id && b.shape == codes "exchange")
          (live_bindings (
            bindings_over x
              (home_stream Directory.g_bindings ++ home_stream Directory.g_binding_retractions) []))
