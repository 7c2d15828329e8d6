-- ===== src/Examples.antt =====
-- Runs at concrete inputs: a small log in the place of OmniPaxos, and transactions on two keys.
pub mod Data
pub mod Store
pub mod Codec
pub mod Replicas
pub mod Takeover
pub mod Tables
pub mod Groups
pub mod Succession
pub mod Deposition
pub mod StoreTests
pub mod SerdeTests
pub mod Cut
pub mod Starting
pub mod Loop
pub mod Files
pub mod FileTests
