-- ===== src/Lib.antt =====
-- murmur, a replicated key/value store: its consensus module, the driver of a node, its service and its
-- client as definitions in antt, and what is proved of them.
--
-- The parts, and how they interact. `src/raft/consensus.rs` is a state machine without I/O: the
-- driver `src/raft/node.rs` calls its methods under a lock, sends the messages they return and feeds
-- the replies back. It keeps its log in `src/raft/types.rs`, persists through `src/raft/storage.rs`
-- before it answers, and hands what is committed to the service `src/app.rs`, which the client
-- `src/clerk.rs` calls.
--
-- Which file models which part:
-- - Prelude and its children: shared names, lists and maps over native numbers, `u64`, results, and
--   Prelude/Cursor, the bounds-checked reader of `src/raft/storage.rs` (`Reader`).
-- - Raft/Types, Raft/Rpc, Raft/Config: the values of `src/raft/types.rs`, `src/raft/rpc.rs` and
--   `src/raft/config.rs`. A field named `data` is called `bytes`.
-- - Raft/Log: `Log` of `src/raft/types.rs`, function by function. A method that changes `self` returns
--   the new log, beside its result if it has one.
-- - Raft/StateFile, Raft/Storage: `src/raft/storage.rs`. A save is its list
--   of calls; the file system is two files and a list of faults, one for each save to come.
--   Raft/Storage/PowerLoss runs the same calls on a disk that may lose what was not synced.
-- - Raft/Consensus/State, Election, Follower, Leader, Compaction: `ConsensusModule` of
--   `src/raft/consensus.rs`. Each public method is a function of its name on a record with the
--   source's fields; parts of long methods are functions of their own. The modules below these, and
--   Invariant and Replication beside them, hold proofs.
-- - Raft/Consensus/Steps: the operations as events, as the driver calls them, with the restart from the
--   storage; Steps are the histories of one node.
-- - Raft/Cluster: nodes that call one another. A step is a local event of one node, a request for a
--   vote that some node receives, or a reply that a candidate receives; any of them may come at any
--   time and any number of times. Raft/Cluster/Replicas adds that leaders take commands and build
--   AppendEntries, which any member receives at any time and any number of times; it leaves out
--   snapshots. The other modules below Raft/Cluster hold proofs.
-- - Raft/Driver: the loop of `src/raft/node.rs`. A round takes the lock twice, in `decide` and in
--   `hand_over`; the ends of the tasks that it spawns are functions of the answer that came back.
-- - Raft/Wire, Raft/Transport: `proto/raft.proto`, and the conversions and the service of
--   `src/raft/transport.rs`. Raft/Transport/Clients: its `PeerClients`, over a gRPC client that is a
--   parameter.
-- - Raft/Node, Service/Start: `start_node` and `NodeHandle` of `src/raft/node.rs`, and `start` of
--   `src/app.rs`.
-- - Service/Op, Command, Store, State: `src/command.rs`, `proto/kv.proto`, `src/store.rs`, and `apply`,
--   `apply_committed` and `run` of `src/app.rs`. The engine Sable is a record of its three calls, a
--   parameter. A text is the list of its bytes.
-- - Service/Snapshot: `build_snapshot`, `install_snapshot` and the format of a snapshot, of
--   `src/app.rs`.
-- - Service/Waiters: `next_nonce` of `src/app.rs`, and who waits for an outcome.
-- - Service/Requests: the handlers, `execute` and the apply loop of `src/app.rs`. As a request waits for
--   its commit, its handler is a beginning and an end. Service/Server: `src/server.rs`.
-- - Service/Refinement: what the state machine promises, as a map and the last answer of each client.
-- - Service/Messages: the requests and responses of `proto/kv.proto`.
-- - Clerk: `src/clerk.rs`. What an attempt meets, from the network to the clock, is the parameter
--   `Network`, by the number of the attempt.
-- - Bin/Murmurd, Bin/Client, Bin/Bench: `src/bin/murmurd.rs`, `src/bin/murmur.rs` and
--   `src/bin/murmur-bench.rs`, from the arguments to how they end. Bin/Text: the functions of the
--   standard library on texts that they use; a text is its bytes in UTF-8.
-- - A module whose name ends in Runs holds runs on concrete values and the theorems at them.
--
-- Conventions. Arithmetic on `u64` wraps at 2 ^ 64, as in the release profile; a subtraction that a
-- test guards is the subtraction of ℕ. A `usize` has 64 bits. `HashMap` and `HashSet` are association
-- lists and lists without repetition. A panic is `none`. Time is a number of nanoseconds, and does not
-- overflow. The random number generator is an argument `draw`. Log lines are not modelled.
--
-- Bounds and fuel. Only the two loops of the clerk, and what calls them, take fuel: 201 rounds, which
-- are enough, as the pause of 50 ms fits 200 times into the budget of 10 s. The other loops over lists
-- recur on the list, `maybe_advance_commit` and `take_applies` recur on the number of rounds between the
-- two indices that bound them, and the loop of the file decoder on its count. A `u64` is printed with at
-- most twenty digits, and a text is trimmed in at most as many rounds as it has bytes.
--
-- Not modelled: spawning, locks, timers and channels (`src/raft/node.rs`, `src/app.rs`), gRPC and
-- the protobuf encoding, which are generated, a loss of power in the histories of nodes,
-- allocations, the products of floats, and the lines that are printed beside the results.
pub mod Prelude
pub mod Raft
pub mod Service
pub mod Clerk
pub mod Bin
