-- ===== src/Lib.antt =====
-- A key-value datastore that is replicated over a log which OmniPaxos decides (Rust).
--
-- A transaction runs on the datastore of the leading node. Its commit returns an offset and the data of
-- the transaction, which the node appends to the log. What the log has decided goes to the datastores:
-- the leader moves its replicated offset, and the other nodes replay the data. A read is at one of two
-- durability levels: what is committed in memory, or what is replicated.
--
--   Varint, TxData, TxData.Serde: src/datastore/tx_data.rs and src/datastore/tx_data/serde.rs, the binary
--     form of transactions. Functions have the names of the source; a method of TxData has no prefix.
--   Row: `ExampleRow` of src/datastore/example_datastore.rs with its binary form.
--   Datastore.State: `CommittedState` and the `ExampleDatastore` methods on offsets, in the same file.
--     Views, Advance and Offsets read it as a history of diffs for each key.
--   Datastore.Tx: `Tx`, `MutTx` and their methods (`get`, `set` and `delete` of a `MutTx` are get_mut_tx,
--     set_mut_tx and delete_mut_tx). Buffer is about a transaction before its commit, Commit about the
--     commit.
--   Datastore.Replay: `replay_transaction`, one function for each of its loops; Partial is about a replay
--     that fails on its way.
--   Datastore.Session, Datastore.Replication: runs of whole transactions, and their replay elsewhere.
--   Datastore.Interface: the trait `Datastore` of src/datastore/mod.rs as a record of operations.
--     Datastore.Table describes a datastore as a table of strings: what a transaction answers and leaves
--     behind, and KeepsTables, the laws of a datastore of this kind. Meets is about any such datastore;
--     Example fills the trait and the laws by `ExampleDatastore`; Runs is about several transactions.
--   Durability, Durability.Entry: src/durability/mod.rs and the log entries of both durability layers.
--   Durability.OmniPaxos: the operations of the `omnipaxos` crate, as a record; HasDecided states what is
--     documented of a decided log.
--   Durability.Interface: the trait `DurabilityLayer` of src/durability/mod.rs, filled by both layers.
--   Durability.OmniPaxosDurability: src/durability/omnipaxos_durability.rs.
--   Durability.FileLog: src/durability/example_durability.rs as a step relation: the caller, the two tasks
--     and the spawned sends take steps in any order. Tracking and Reached are about what it reaches,
--     Draining about how its tasks finish, Ending about the bound on the iteration over the file, and Torn
--     about a file whose last write was cut off (TxData.Truncated: a binary form that is cut off).
--   Node.State, Node.Apply, Node.Methods: `Node` of src/node/mod.rs: its state, apply_replicated_txns, and
--     the leader change with the transaction methods. Follower, CatchUp, Leader, Fresh,
--     Promotion and Failover are about its calls in each role. Node.Runner: `NodeRunner`, an event at a
--     time; Frame and Running are about it.
--   Cluster: src/utils.rs, the channels, the nodes, and cutting and restoring connections. Spawning,
--     Connections and Reconnect are about these, and Silence is about the loop of a node that is cut off.
--   Cluster.Group: a leader and its followers as a step relation: the leader runs transactions, OmniPaxos
--     spreads its log, each node polls, and a follower takes over from the leader, in any order. A step of
--     OmniPaxos is any change of a node's state that keeps what was decided and tells a beginning of the
--     log. Prefixes, Leading (transactions), Applying and Polling (followers), and Promoted (polls of a
--     leader) prepare Invariant, Kept, Steps and Reached, on which Agreement rests; Deposed is
--     about a leader that loses its place.
--   Main: src/main.rs, where how the task of a node ends is a parameter.
--   Base: shared helpers: outcomes (a value, an error or a panic), lists, maps, bits, UTF-8.
--   Examples: concrete runs. StoreTests, SerdeTests and FileTests are the unit tests of
--     src/datastore/example_datastore.rs, src/datastore/tx_data/serde.rs and
--     src/durability/example_durability.rs, run on the model.
--
-- State that a lock guards is passed in and out, also beside an error or a panic. A sum of u64 that leaves
-- the word panics, as in a build with overflow checks, and a cast to u32 keeps the low 32 bits. A writer is
-- a `Vec<u8>`, which cannot fail; memory is enough for every length that is read. A HashMap is a list of
-- entries, whose order is any order. A String is its bytes. Recursion is structural, except for
-- write_varint, which recurs on the accessibility of its value, and the iteration over a log file, which
-- has the number of bytes in the file as its bound; an entry takes eight bytes at least.
--
-- Not modelled: printing, `Debug` and `Default` instances, time, the tasks and the channels of tokio beyond
-- what is named above, poisoned locks, deadlocks between two transactions of one thread, the helper
-- open_log_file, which nothing calls, and src/tests.rs, which holds scenarios over running clusters. A run
-- of the file layer goes on behind a call that panicked, and a transaction is committed on the node that
-- it was begun on. Cluster.Group starts with followers that mirror the leader as of an entry, and Node.Fresh
-- is about a node that has applied nothing; an old leader does not come back (Deposed is about its rollback);
-- and no node takes over whose log goes on behind what is decided.
pub mod Base
pub mod Varint
pub mod TxData
pub mod Row
pub mod Durability
pub mod Datastore
pub mod Node
pub mod Cluster
pub mod Main
pub mod Examples
