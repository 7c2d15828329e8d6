-- ===== src/Durability/EntryRoundTrip.antt =====
-- Reading back a log entry (src/durability/example_durability.rs and omnipaxos_durability.rs).
use native.Mathlib.Nat.{pow-suc}
use distributed_omnipaxos_db.Base.{
  ℕ, zero, suc, ◌/◌, ◌^◌, ◌<◌, ◌≡◌, refl, List, [], ◌++◌, append_assoc, arith, length, ok, u64_mod,
  ap,
}
use distributed_omnipaxos_db.Varint.{read_exact}
use distributed_omnipaxos_db.TxData.Shape.{DataFits, data_bytes}
use distributed_omnipaxos_db.TxData.RoundTrip.{
  read_exact-append, serialize-append, deserialize-data_bytes,
}
use distributed_omnipaxos_db.Durability.Entry.{
  to_le_bytes, from_le_bytes, LogEntry, serialize_log_entry, deserialize_log_entry,
  DatabaseLogEntry, serialize, deserialize,
}

pub length-to_le_bytes : (n v : ℕ) → length (to_le_bytes n v) ≡ n
unfolding to_le_bytes
length-to_le_bytes zero v = refl
length-to_le_bytes (suc n) v = ap suc (length-to_le_bytes n _)

from-to_le_bytes : (n v : ℕ) → v < 256 ^ n → from_le_bytes (to_le_bytes n v) ≡ v
unfolding to_le_bytes from_le_bytes
from-to_le_bytes zero v h = omega arith
from-to_le_bytes (suc n) v h =
    omega (arith, pow-suc 256 n, from-to_le_bytes n (v / 256) (omega (arith, pow-suc 256 n)))

-- An entry is well formed where its offset is a u64 and its lengths fit 32 bits.
pub record EntryFits (e : LogEntry) : Type 0 where
  pub offset : e.tx_offset < u64_mod
  pub tx : DataFits e.tx_data

abbrev pub entry_bytes : LogEntry → List ℕ
entry_bytes e = to_le_bytes 8 e.tx_offset ++ data_bytes e.tx_data

-- `serialize` appends the bytes of the entry to the writer.
pub serialize_log_entry-append :
    (e : LogEntry) (writer : List ℕ)
    → EntryFits e
    → serialize_log_entry e writer ≡ writer ++ entry_bytes e
unfolding serialize_log_entry
serialize_log_entry-append e writer h =
    rw (serialize-append e.tx_data _ h.tx)
      (append_assoc writer (to_le_bytes 8 e.tx_offset) (data_bytes e.tx_data))

pub read_offset :
    (o : ℕ) (rest : List ℕ) → read_exact 8 (to_le_bytes 8 o ++ rest) ≡ ok (to_le_bytes 8 o, rest)
read_offset o rest = rw (length-to_le_bytes 8 o) at (read_exact-append (to_le_bytes 8 o) rest)

-- The bytes of an entry read back as that entry, and what follows them is left.
pub deserialize_log_entry-bytes :
    (e : LogEntry) (rest : List ℕ)
    → EntryFits e
    → deserialize_log_entry (entry_bytes e ++ rest) ≡ ok (e, rest)
unfolding deserialize_log_entry
deserialize_log_entry-bytes e rest h = rw (
  append_assoc (to_le_bytes 8 e.tx_offset) (data_bytes e.tx_data) rest,
  read_offset e.tx_offset _,
  deserialize-data_bytes e.tx_data rest h.tx,
  from-to_le_bytes 8 e.tx_offset h.offset,
)

-- `DatabaseLogEntry::deserialize` reads back the entry that `serialize` wrote to an empty buffer,
-- and leaves what follows it, where the offset is a u64, and table ids and the lengths of all lists
-- are below 2 ^ 32.
pub deserialize-serialize_log_entry :
    (e : DatabaseLogEntry) (rest : List ℕ)
    → e.tx_offset < u64_mod
    → DataFits e.tx_data
    → deserialize (serialize e [] ++ rest) ≡ ok (e, rest)
unfolding serialize deserialize
deserialize-serialize_log_entry e rest o h = rw (
  serialize-append e.tx_data _ h,
  append_assoc (to_le_bytes 8 e.tx_offset) (data_bytes e.tx_data) rest,
  read_offset e.tx_offset _,
  deserialize-data_bytes e.tx_data rest h,
  from-to_le_bytes 8 e.tx_offset o,
)
