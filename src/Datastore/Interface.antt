-- ===== src/Datastore/Interface.antt =====
-- The trait `Datastore` of src/datastore/mod.rs. A method gives back the state behind the lock that it
-- takes for writing; a transaction holds that state until it ends. `release_tx` drops a transaction, and
-- does nothing else.
use distributed_omnipaxos_db.Base.{Option, Outcome}
use distributed_omnipaxos_db.TxData.{TxOffset, TxData, TxResult}
use distributed_omnipaxos_db.Durability.{DurabilityLevel}
use distributed_omnipaxos_db.Datastore.State.{DatastoreError}

pub record Datastore (K V : Type 0) : Type 1 where
  pub State : Type 0
  pub Tx : Type 0
  pub MutTx : Type 0
  -- Transaction methods.
  pub begin_tx : State → DurabilityLevel → Tx
  pub begin_mut_tx : State → MutTx
  pub rollback_mut_tx : MutTx → State
  pub commit_mut_tx : MutTx → Outcome DatastoreError TxResult × State
  -- Data methods.
  pub get_mut_tx : MutTx → K → Outcome ⊥ (Option V)
  pub set_mut_tx : MutTx → K → V → MutTx
  pub delete_mut_tx : MutTx → K → Outcome ⊥ (Option V) × MutTx
  pub get_tx : Tx → K → Outcome ⊥ (Option V)
  -- Durability methods.
  pub advance_replicated_durability_offset :
      TxOffset → State → Outcome DatastoreError (Unit {0}) × State
  pub rollback_to_replicated_durability_offset : State → Outcome DatastoreError (Unit {0}) × State
  pub get_replicated_offset : State → Option TxOffset
  pub get_cur_offset : State → Option TxOffset
  -- Init methods.
  pub replay_transaction : TxData → State → Outcome DatastoreError (Unit {0}) × State
