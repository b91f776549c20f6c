-- ===== src/Signing.antt =====
-- The signing domains (node/src/signing.rs): a purpose's tag goes before the message.
use glade.Prelude.{◌≡◌, refl, [], ◌∷◌, ◌++◌, arith, Bytes, codes, ap, get_or, if◌then◌else◌, true}
use glade.External.{External}

pub data Purpose : Type 0 where
  peer_hello origin_op local_overlay : Purpose

pub data SignatureStatus : Type 0 where
  valid invalid : SignatureStatus

unfoldable pub tag : Purpose → Bytes
tag peer_hello = codes "glade/v1/peer-hello" ++ 0 ∷ []
tag origin_op = codes "glade/v1/origin-op" ++ 0 ∷ []
tag local_overlay = codes "glade/v1/local-overlay" ++ 0 ∷ []

unfoldable pub verify_in : External → Bytes → Bytes → Bytes → Bytes → SignatureStatus
verify_in x signer domain message signature =
    if x.verify_strict signer (domain ++ message) signature then valid else invalid

unfoldable pub verify : External → Bytes → Purpose → Bytes → Bytes → SignatureStatus
unfolding verify_in tag
verify x signer purpose message signature = verify_in x signer (tag purpose) message signature

-- The bytes signed for one purpose are never those signed for another, whatever the messages.
pub tag_separates : (p q : Purpose) (m n : Bytes) → tag p ++ m ≡ tag q ++ n → p ≡ q
unfolding tag
tag_separates peer_hello peer_hello m n e = refl
tag_separates origin_op origin_op m n e = refl
tag_separates local_overlay local_overlay m n e = refl
tag_separates p q m n e = absurd (omega (arith, ap (λ l. get_or l 9 0) e))

-- The signature of a seed's key on a domain's tag and a message.
unfoldable pub sign_in : External → Bytes → Bytes → Bytes → Bytes
sign_in x seed domain message = x.sign seed (domain ++ message)

unfoldable pub sign : External → Bytes → Purpose → Bytes → Bytes
unfolding sign_in tag
sign x seed purpose message = sign_in x seed (tag purpose) message

-- What a node signs as: its seed, and the public key of it, which is its id
-- (node/src/peer.rs).
pub record NodeIdentity : Type 0 where
  pub seed : Bytes
  pub node_id : Bytes

unfoldable pub from_key : External → Bytes → NodeIdentity
from_key x seed = record { seed = seed; node_id = x.public_key seed }

-- What a seed's key signs for a purpose verifies for that purpose, where the signature scheme's
-- own law holds.
pub sign-verify :
    (x : External) (seed : Bytes) (purpose : Purpose) (message : Bytes)
    → ((m : Bytes) → x.verify_strict (x.public_key seed) m (x.sign seed m) ≡ true)
    → verify x (x.public_key seed) purpose message (sign x seed purpose message) ≡ valid
unfolding verify sign sign_in verify_in
sign-verify x seed purpose message h = ground (arith, h (tag purpose ++ message))
