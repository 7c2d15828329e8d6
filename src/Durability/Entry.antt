-- ===== src/Durability/Entry.antt =====
-- `LogEntry` of src/durability/example_durability.rs and `DatabaseLogEntry` of
-- src/durability/omnipaxos_durability.rs, two structs with the same fields and the same binary form:
-- eight bytes for the offset, lowest first, and then the transaction.
use distributed_omnipaxos_db.Base.{ℕ, zero, suc, ◌+◌, ◌*◌, ◌/◌, ◌%◌, List, [], ◌∷◌, ◌++◌, ok, ◌>>=◌}
use distributed_omnipaxos_db.Varint.{Reads, read_exact}
use distributed_omnipaxos_db.TxData.{TxOffset, TxData}
use distributed_omnipaxos_db.TxData.Serde

-- `to_le_bytes` and `from_le_bytes` of an integer of `n` bytes.
unfoldable pub to_le_bytes : ℕ → ℕ → List ℕ
to_le_bytes zero v = []
to_le_bytes (suc n) v = v % 256 ∷ to_le_bytes n (v / 256)

unfoldable pub from_le_bytes : List ℕ → ℕ
from_le_bytes [] = 0
from_le_bytes (b ∷ bs) = b + 256 * from_le_bytes bs

pub record LogEntry : Type 0 where
  pub tx_offset : TxOffset
  pub tx_data : TxData

unfoldable pub serialize_log_entry : LogEntry → List ℕ → List ℕ
unfolding to_le_bytes
serialize_log_entry entry writer =
    Serde.serialize entry.tx_data (writer ++ to_le_bytes 8 entry.tx_offset)

unfoldable pub deserialize_log_entry : Reads LogEntry
unfolding from_le_bytes
deserialize_log_entry reader = do
  (bytes, r1) ← read_exact 8 reader
  let tx_offset = from_le_bytes bytes
  (tx_data, r2) ← Serde.deserialize r1
  ok (record { tx_offset = tx_offset; tx_data = tx_data }, r2)

pub record DatabaseLogEntry : Type 0 where
  pub tx_offset : TxOffset
  pub tx_data : TxData

unfoldable pub serialize : DatabaseLogEntry → List ℕ → List ℕ
unfolding to_le_bytes
serialize entry writer = Serde.serialize entry.tx_data (writer ++ to_le_bytes 8 entry.tx_offset)

unfoldable pub deserialize : Reads DatabaseLogEntry
unfolding from_le_bytes
deserialize reader = do
  (bytes, r1) ← read_exact 8 reader
  let tx_offset = from_le_bytes bytes
  (tx_data, r2) ← Serde.deserialize r1
  ok (record { tx_offset = tx_offset; tx_data = tx_data }, r2)
