-- ===== src/Node.antt =====
-- src/node/mod.rs: a replica, which glues the datastore to OmniPaxos. Each method holds the node's lock,
-- so it is a function on the node's state; what it did before a panic stays done. A sending end of a
-- tokio channel is a parameter.
pub mod State
pub mod Apply
pub mod Methods
pub mod Follower
pub mod CatchUp
pub mod Leader
pub mod Fresh
pub mod Failover
pub mod Promotion
pub mod Runner
pub mod Frame
pub mod Running
