-- ===== src/Durability/OmniPaxos.antt =====
-- The `omnipaxos` crate, which is not part of the repository: a node of the consensus protocol, with
-- the calls that src/durability/omnipaxos_durability.rs and src/node/mod.rs make.
use distributed_omnipaxos_db.Base.{ℕ, ◌≡◌, ◌≢◌, Option, some, List, length, get_elem?}
use distributed_omnipaxos_db.Durability.Entry.{DatabaseLogEntry}

-- What a read returns: a decided entry, or any other form of entry, which the source does not tell
-- apart.
pub data ReadEntry : Type 0 where
  decided : DatabaseLogEntry → ReadEntry
  undecided : ReadEntry

pub record OmniPaxos : Type 1 where
  pub State : Type 0
  pub Message : Type 0
  -- `OmniPaxosConfig { cluster_config, server_config }.build(storage)` over an empty memory storage, by
  -- the fields that the source sets: configuration id, nodes, own id, election timeout in ticks.
  pub build : ℕ → List ℕ → ℕ → ℕ → Option State
  pub get_decided_idx : State → ℕ
  pub read : State → ℕ → Option ReadEntry
  -- `none` stands for an `Err`.
  pub append : State → DatabaseLogEntry → Option State
  pub get_current_leader : State → Option ℕ
  pub tick : State → State
  pub handle_incoming : State → Message → State
  pub outgoing_messages : State → List Message × State
  pub get_receiver : Message → ℕ

module _ (P : OmniPaxos) (s : P.State) where
  -- The decided log: the decided index is its length, a read below that index gives the decided entry,
  -- and a read at it or above gives no decided entry.
  pub record HasDecided (log : List DatabaseLogEntry) : Type 0 where
    pub index : P.get_decided_idx s ≡ length log
    pub below :
        (i : ℕ) (e : DatabaseLogEntry) → get_elem? log i ≡ some e → P.read s i ≡ some (decided e)
    pub above : (e : DatabaseLogEntry) → P.read s (length log) ≢ some (decided e)
