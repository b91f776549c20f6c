-- ===== src/Conversation/Header.antt =====
-- A frame's header is read back (node/src/conversation.rs).
use glade.Prelude.{ℕ, ◌^◌, ◌≤◌, ◌<◌, ◌≡◌, some, ◌∷◌, ◌++◌, arith, Bytes}
use glade.Conversation.{le_bytes, header, reset_kind}

-- The bytes of a number below 2^32 and of a kind that an end sends, in front of a body, are read
-- as that number, that kind and that body.
pub header-le_bytes :
    (id kind : ℕ) (body : Bytes)
    → id < 2 ^ 32
    → kind ≤ reset_kind
    → header (le_bytes id ++ kind ∷ body) ≡ some (id, kind, body)
unfolding header le_bytes
header-le_bytes id kind body h k = ground arith
