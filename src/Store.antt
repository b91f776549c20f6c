-- ===== src/Store.antt =====
-- The per-chain append-log store (node/src/store.rs).
pub mod Types
pub mod Classify
pub mod Journal
pub mod Append
pub mod Views
pub mod Held
pub mod Chains
pub mod Verdicts
pub mod Open
pub mod Replay
pub mod Paths
pub mod Torn
pub mod Effects
pub mod Elsewhere
pub mod Writes
pub mod Recovery
pub mod Surfaces
pub mod Valid
pub mod Invariant
pub mod Kept
pub mod Trusted
pub mod Retaken
pub mod Signed
