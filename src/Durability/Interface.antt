-- ===== src/Durability/Interface.antt =====
-- The trait `DurabilityLayer` of src/durability/mod.rs, and the two layers that implement it. An iterator
-- is the list of what it gives; a method that may change the layer gives the layer back.
use distributed_omnipaxos_db.Base.{List, Outcome, ok, panic}
use distributed_omnipaxos_db.TxData.{TxOffset, TxData}
use distributed_omnipaxos_db.Durability.OmniPaxos.{OmniPaxos}
use distributed_omnipaxos_db.Durability.OmniPaxosDurability
use distributed_omnipaxos_db.Durability.FileLog

pub record DurabilityLayer : Type 1 where
  pub Layer : Type 0
  -- Iterates through the log from its start.
  pub iter : Layer → Outcome ⊥ (List (TxOffset × TxData))
  -- Iterates through the log from a given offset.
  pub iter_starting_from_offset : Layer → TxOffset → Outcome ⊥ (List (TxOffset × TxData))
  pub append_tx : Layer → TxOffset → TxData → Outcome ⊥ Layer
  pub get_durable_tx_offset : Layer → Outcome ⊥ TxOffset × Layer

abbrev pub omnipaxos_layer : OmniPaxos → DurabilityLayer
omnipaxos_layer P = record {
  Layer = OmniPaxosDurability.OmniPaxosDurability P;
  iter = OmniPaxosDurability.iter P;
  iter_starting_from_offset = OmniPaxosDurability.iter_starting_from_offset P;
  append_tx = OmniPaxosDurability.append_tx P;
  get_durable_tx_offset = λ d. (ok (OmniPaxosDurability.get_durable_tx_offset P d), d);
}

-- `iter_starting_from_offset` is `todo!()`.
abbrev pub file_layer : DurabilityLayer
file_layer = record {
  Layer = FileLog.FileLog;
  iter = FileLog.iter;
  iter_starting_from_offset = λ s offset. panic;
  append_tx = λ s tx_offset tx_data. ok (FileLog.append_tx s tx_offset tx_data);
  get_durable_tx_offset = FileLog.get_durable_tx_offset;
}
