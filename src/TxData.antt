-- ===== src/TxData.antt =====
-- src/datastore/tx_data.rs and the newtypes of src/datastore/mod.rs. A newtype over an integer or
-- over bytes is that integer or those bytes; `TableId` is a u32 and `TxOffset` a u64.
pub mod Serde
pub mod Shape
pub mod RoundTrip
pub mod Shrinking
pub mod Truncated
use distributed_omnipaxos_db.Base.{ℕ, List}

abbrev pub TableId : Type 0
TableId = ℕ

abbrev pub TxOffset : Type 0
TxOffset = ℕ

abbrev pub RowData : Type 0
RowData = List ℕ

pub record InsertList : Type 0 where
  pub table_id : TableId
  pub inserts : List RowData

pub record DeleteList : Type 0 where
  pub table_id : TableId
  pub deletes : List RowData

pub record TxData : Type 0 where
  pub inserts : List InsertList
  pub deletes : List DeleteList
  pub truncs : List TableId

pub record TxResult : Type 0 where
  pub tx_offset : TxOffset
  pub tx_data : TxData
