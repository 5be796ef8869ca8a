-- ===== src/Lib.antt =====
-- A verification library for braid_rs, a Rust implementation of the Braid protocol for synchronised
-- HTTP resources, with its antimatter pruning algorithm.
--
-- The parts, how they interact, and their files (paths from the repository's root):
--
-- + Client: the retry policy of the HTTP client (core/src/core/client/retry.rs), a state that each
--   failed request changes. Client/Retry models `RetryConfig`, `RetryState` and `parse_retry_after`;
--   Client/Retry/Decide and Client/Retry/Runs hold its proofs.
--   Client/Messages models the state of `MessageParser` (core/src/core/client/parser.rs) and
--   Client/Parser its `feed`: its loop is that of Prelude/Rounds, Client/Parser/Ends shows that it ends, and Client/Parser/Pieces and
--   Client/Parser/Formatted follow whole messages through it. The two regular expressions and the
--   lower case of Unicode are the parameter `Texts`.
-- + Protocol: Protocol/Headers models the header values (core/src/core/protocol/headers.rs) over the
--   crate `sfv` as the parameter `Sfv`; Protocol/Formatter prints an update
--   (core/src/core/protocol/formatter.rs) for the parser of the client. The multiplexing of several
--   responses over one stream is in core/src/core/protocol/multiplex.rs. Protocol/Multiplex models
--   `MultiplexEvent`'s `Display` and `MultiplexParser::feed`, whose loop becomes a recursion over rounds.
-- + Types: versions, patches, content ranges and updates (core/src/core/types), which all the other
--   parts pass around.
-- + Merge: the interface of merge algorithms (core/src/core/merge/merge_type.rs) in Merge/Types, its
--   simplest implementation in Merge/Sync9, and, not behind that interface, `DiamondCRDT`
--   (core/src/core/merge/diamond.rs) in Merge/Diamond, a document over the vendored
--   `diamond_types` library. That library is the parameter `DiamondTypes`: its operation log, its
--   branch and the functions of theirs that the code calls, without any law.
-- + Server: `ResourceStateManager` (core/src/core/server/resource_state.rs), a registry of documents
--   with a lock on each, in Server/Resources; and `ConflictResolver`
--   (core/src/core/server/conflict_resolver.rs), which applies an update to the registry, in
--   Server/Conflict. `serde_json` is the parameter `SerdeJson`, a parser and a printer without laws.
-- + Antimatter: a peer (core/src/antimatter). Antimatter/Search models `ancestors`, `descendants` and
--   `get_child_map`; Antimatter/Peer the state `AntimatterCrdt` and `add_version`; Antimatter/Bubble
--   and Antimatter/Prune the pruning (core/src/antimatter/algorithm); Antimatter/Ackme the
--   acknowledgements, `update` and the handler `receive`, which calls all of the above. The CRDT below
--   is the parameter `PrunableCrdt`, as in the source. Antimatter/Sequence models the tree of the
--   sequence CRDT (core/src/antimatter/sequence_crdt.rs) with its readers and `break_node`;
--   Antimatter/Sequence/Splices `add_version` and `generate_braid`, and Antimatter/Sequence/Bubbles
--   `apply_bubbles`. Antimatter/JsonCrdt models the CRDT over it (core/src/antimatter/json_crdt.rs); the
--   printer of `serde_json` is the parameter `to_string`.
-- + Blob: the store of binary resources (core/src/blob/store.rs). Blob/Names models the file names
--   of keys, Blob/Versions the order of versions and Blob/Store the store itself over a table, a
--   directory and a log of events, with an environment that says what fails. `serde_json`, SHA-256 and
--   the tables of Unicode letters are parameters. Blob/Store/Refines relates it to a map from keys.
-- + Fs: the limit on reconnections (core/src/fs/rate_limiter.rs) in Fs/RateLimiter.
-- + Prelude: lists, texts, maps, sets, decimal numbers, UTF-8 and JSON values, with their lemmas.
--
-- State and errors. The state of a component is a record, and a method is a function from the state to
-- the state and the result. A callback that the state holds (`send_cb`) is the list of the messages
-- that it was given. A text is the list of its code points and a body is a list of bytes. A hash map is
-- an association list: its order is the order of iteration, so a statement about all lists covers all
-- orders. Errors are values of `Result`, `Option` or an own type; a panic is `panicked` or `panics`, and
-- a call that waits for ever on a lock that the task holds itself is `blocked`.
--
-- Numbers. A `u64` counter, a `u32` counter and the difference of two `u64` are written with their
-- wrap-around, a duration with the limit of its type. Other sizes are natural numbers: they are bounded
-- by the memory of the machine. A position of a splice from 2^63 on, which the code turns into a negative
-- `isize`, panics. The formulas in `f64` (the time estimate, the merge quality with remote
-- agents) are parameters. All readings of the clock in one call give one value.
--
-- Fuel. `feed` runs on one more than twice the bytes in the buffer and one for an open data frame,
-- since each round shortens the buffer or leaves the data state. The `feed` of `MessageParser` runs on
-- one more than the bytes in the buffer and a rank of its state, which is 2 at most. `recurse` and `mark_bubble` run on one
-- more than the number of versions, which bounds the depth, since each level adds a version of the graph
-- to the result. `find_one_bubble` and the stack loop of `add_full_ack_leaves` run on the length of
-- their queue and the number of parent edges, since only a version that is entered for the first time
-- puts its parents on the queue. `generate_braid` of the JSON CRDT runs on the
-- same bound. Each of these bounds is proved to be enough.
--
-- Not modelled: the HTTP client and server around these parts, the conversion of headers to those of
-- the HTTP library, the merge type over Antimatter, the service around the blob store,
-- the rest of the file system synchronisation, and the vendored libraries diamond_types and rle. The registry is used by one task at a time: other tasks
-- appear only through the locks that they would hold.
pub mod Prelude
pub mod Types
pub mod Client
pub mod Protocol
pub mod Merge
pub mod Server
pub mod Antimatter
pub mod Blob
pub mod Fs
