-- ===== src/Datastore.antt =====
-- src/datastore/example_datastore.rs: the committed state, the transactions over it and the replay of
-- replicated transactions. Both locks are exclusive for a writer, so the state that a guard reaches is
-- a value: `begin_mut_tx` hands it out, and `commit_mut_tx` hands it back.
pub mod State
pub mod Tx
pub mod Replay
pub mod Session
pub mod Interface
pub mod Table
pub mod Replication
