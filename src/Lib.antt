-- ===== src/Lib.antt =====
-- The glade share substrate: what its node and its clients keep, and why it is correct.
--
-- A share is a set of chains of ops. A chain is one origin's ops in one zone `(share, glade_id, key)`,
-- numbered one after the other and linked by hash. A node stores the ops that it is sent, tells a peer
-- which it holds by their heads, ships what the peer lacks, and routes a new op to the sessions that
-- subscribe to its zone. The `home` share is the directory: its ops are signed by the node that their
-- origin names, and its claims chains are cut at signed checkpoints.
--
-- The parts, with the files of this library that model them:
--   Wire, Wire/Cbor       the data of wire-rs/src/generated.rs and wire-rs/src/cbor.rs
--   Wire/Swmr, Wire/Limit the writer's payload envelope and the frame limit (wire-rs/src/swmr.rs and
--                         wire-rs/src/frame.rs)
--   External              what the code calls and does not implement: the codec, SHA-256, Ed25519,
--                         UTF-8; a record of functions that every definition using one takes
--   Directory, NodeId     the home share's streams (node/src/registry.rs), ids in hex
--                         (node/src/transport.rs)
--   SystemData, Wire/Decode
--                         the directory's records (node/src/sysdata.rs), and the reading of a value
--                         (wire-rs/src/cbor.rs)
--   Registry              node/src/registry.rs: Registry (the op-set and its chain checks),
--                         Registry/Persist (appends), Registry/Load (loads, snapshots, `accept`),
--                         Registry/Folds and Registry/Bindings (the answers), Registry/Tick (the
--                         renewal tick of node/src/checkpoint.rs); the other files prove: Valid,
--                         Folded, Invariant, Keeps, Quarantine, Durable, Appends, Holder, Covered,
--                         Superseded, Stamps, Standing
--   Signing               a purpose's tag before the message (node/src/signing.rs)
--   Envelope, /Parser, /Record, /Format
--                         `verify`, `parse`, `open` and `format` of node/src/envelope.rs
--   Checkpoint            node/src/checkpoint.rs: a checkpoint's check, the floor, the register's rule
--   Store                 node/src/store.rs: Store/Types (the state), Store/Classify (the verdicts),
--                         Store/Journal (a journal's bytes), Store/Append (the effects, and
--                         Append/Surface the surface's contract),
--                         Store/Views (zones, heads, scans), Store/Open and Store/Replay (`Store::open`:
--                         the applications' journals, and a home journal);
--                         the other files prove: Held, Chains, Verdicts, Valid, Invariant, Effects,
--                         Surfaces, Elsewhere, Writes, Torn, Recovery, Kept, Trusted, Retaken,
--                         Signed;
--                         Store/Paths is the loop that finds a file's name
--   Sync                  node/src/session.rs: `missing_for`, `serve_order`, the statuses
--   Exchange              node/src/exchange.rs: the calls handed to a provider; Takes, Orphans and Once
--                         prove
--   Router, Router/OutQueue
--                         node/src/router.rs: subscriptions and the two-lane outbound queue
--   Grants                node/src/grants.rs and contracts/grant-api/src/lib.rs
--   Transport             node/src/transport.rs: the fold of endpoint bindings and revocations;
--                         Transport/Door is the door's rule, Transport/Served the served store's
--                         fold; Revocation, Admitted and Withdrawn prove
--   Conversation          node/src/conversation.rs: a peer link's table of conversations
--   Client                client-rs/src/session.rs: the client's chains, clock, refusals (Client) and folds
--                         (Client/Folds)
--   Tests                 concrete values, and an example of each result
--
-- How the model corresponds to the code. A `BTreeMap` is an association list in the order of its
-- keys, and a set is a map to the unit type. Text is its UTF-8 bytes, as Rust orders and compares
-- it. An `i64` is an integer, and `seq + 1` wraps at the greatest one (`suc_i64`). A method that
-- changes `self` returns the new state beside its result. The disk is an argument of `append`
-- (`Disk`): it may fail the check of the seal, or the call's one write, and the state after the
-- fault is the code's own: a checkpoint is placed in memory before its journal is rewritten, an append
-- that fails leaves the first bytes of its record in the journal, and a rewrite that fails leaves the
-- old journal or the new. A journal is its bytes, read on fuel, one turn more than there are bytes, which
-- is enough, since a turn that goes on reads four bytes or more. A position in a buffer is the bytes left
-- from it, and the depth of the record reader bounds its recursion, so it needs no fuel. `unused_path` loops
-- on fuel, one turn more than there are files, and a number is written in decimal on fuel for
-- twenty digits: Store/Paths and Prelude/Decimal prove that both are enough. A `HashMap` of the
-- client is the same list, in the order of its keys; the folds take the order in which a map gives its
-- values as an argument.
--
-- A registry is saved through an engine that is an argument (`StoreApi`), with a state of its own; what a
-- snapshot holds of the heads is kept unencoded. `changes` is a u64, which wraps.
--
-- Not modelled: sockets, tasks and carriers; the generated codec; the walk of the directories when a
-- store is opened, which reads no file of the root itself; the texts of messages and log lines; the
-- TypeScript clients.
pub mod Prelude
pub mod External
pub mod Directory
pub mod NodeId
pub mod Checkpoint
pub mod Signing
pub mod Wire
pub mod Envelope
pub mod Transport
pub mod Store
pub mod SystemData
pub mod Registry
pub mod Exchange
pub mod Sync
pub mod Router
pub mod Grants
pub mod Conversation
pub mod Client
pub mod Tests
