-- ===== src/Durability.antt =====
-- src/durability/mod.rs, and the log entry that both durability layers write.
pub mod Entry
pub mod OmniPaxos
pub mod OmniPaxosDurability
pub mod FileLog
pub mod Interface
pub mod EntryRoundTrip

-- `DurabilityLevel`: which of the two states a read-only transaction sees.
pub data DurabilityLevel : Type 0 where
  memory replicated : DurabilityLevel
