-- ===== src/Wire/Swmr.antt =====
-- The SWMR payload adapter (wire-rs/src/swmr.rs): two bytes that select the action, then the body.
use glade.Prelude.{
  ℕ, ◌≡◌, refl, [], ◌∷◌, arith, Bytes, ◌==◌, nat_eq, ℕ_discrete, if◌then◌else◌, Result, ok, err,
}

abbrev pub swmr_adapter_version : ℕ
swmr_adapter_version = 1

pub data SwmrAction : Type 0 where
  snapshot delta reset : SwmrAction

unfoldable pub tag : SwmrAction → ℕ
tag snapshot = 0
tag delta = 1
tag reset = 2

pub record SwmrPayload : Type 0 where
  pub action : SwmrAction
  pub body : Bytes

pub data SwmrPayloadError : Type 0 where
  too_short : SwmrPayloadError
  unsupported_version unsupported_action : ℕ → SwmrPayloadError

unfoldable pub encode_swmr : SwmrAction → Bytes → Bytes
unfolding tag
encode_swmr action body = swmr_adapter_version ∷ tag action ∷ body

-- The action that a tag names.
unfoldable pub action_of : ℕ → Result SwmrPayloadError SwmrAction
action_of t =
    if t == 0
    then ok snapshot
    else if t == 1
    then ok delta
    else if t == 2
    then ok reset
    else err (unsupported_action t)

-- The test on the payload's length is the patterns.
unfoldable pub decode_swmr : Bytes → Result SwmrPayloadError SwmrPayload
unfolding action_of
decode_swmr [] = err too_short
decode_swmr (v ∷ []) = err too_short
decode_swmr (v ∷ t ∷ body) =
    if v == swmr_adapter_version
    then (elim (action_of t) [ ok a ↦ ok (record { action = a; body = body }) | err e ↦ err e ])
    else err (unsupported_version v)

-- An encoded action decodes to itself and its body.
pub decode_swmr-encode_swmr :
    (a : SwmrAction) (body : Bytes)
    → decode_swmr (encode_swmr a body) ≡ ok (record { action = a; body = body })
unfolding decode_swmr encode_swmr ℕ_discrete
decode_swmr-encode_swmr snapshot body = refl
decode_swmr-encode_swmr delta body = refl
decode_swmr-encode_swmr reset body = refl

-- What decodes is exactly the encoding of what it decodes to: no payload has two readings, and
-- no byte is ignored.
pub encode_swmr-decode_swmr :
    (payload : Bytes) (p : SwmrPayload)
    → decode_swmr payload ≡ ok p
    → encode_swmr p.action p.body ≡ payload
unfolding decode_swmr encode_swmr
encode_swmr-decode_swmr [] p h = cc
encode_swmr-decode_swmr (v ∷ []) p h = cc
encode_swmr-decode_swmr (v ∷ t ∷ body) p h = ground arith
