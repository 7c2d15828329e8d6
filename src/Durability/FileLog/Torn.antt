-- ===== src/Durability/FileLog/Torn.antt =====
-- A file whose last write was cut off (src/durability/example_durability.rs).
use distributed_omnipaxos_db.Base.{
  ℕ, zero, suc, ◌≤◌, ◌<◌, ◌≡◌, refl, some, List, [], ◌∷◌, ◌++◌, append_assoc, map, arith, length,
  length-append, All, ok, err,
}
use distributed_omnipaxos_db.Varint.{unexpected_eof, read_exact}
use distributed_omnipaxos_db.TxData.Shape.{concat, data_bytes}
use distributed_omnipaxos_db.TxData.Truncated.{
  Starves, Starves-last, Starves-bind, read_exact-Starves,
}
use distributed_omnipaxos_db.TxData.Truncated.Data.{deserialize-Starves}
use distributed_omnipaxos_db.Durability.Entry.{LogEntry, deserialize_log_entry, to_le_bytes}
use distributed_omnipaxos_db.Durability.EntryRoundTrip.{
  EntryFits, entry_bytes, deserialize_log_entry-bytes, length-to_le_bytes, read_offset,
}
use distributed_omnipaxos_db.Durability.FileLog.{read_entries, iter_file}
use distributed_omnipaxos_db.Durability.FileLog.Reading.{pair_of, length-concat}
use distributed_omnipaxos_db.TxData.Serde

deserialize_log_entry-Starves :
    (e : LogEntry) → EntryFits e → Starves deserialize_log_entry (entry_bytes e)
unfolding deserialize_log_entry
deserialize_log_entry-Starves e h =
    Starves-bind (read_exact 8) _ (to_le_bytes 8 e.tx_offset) (data_bytes e.tx_data)
      (to_le_bytes 8 e.tx_offset)
      (read_exact-Starves 8 (to_le_bytes 8 e.tx_offset) (length-to_le_bytes 8 e.tx_offset))
      (read_offset e.tx_offset)
      (Starves-last Serde.deserialize _ (data_bytes e.tx_data) (deserialize-Starves e.tx_data h.tx))

read_entries-torn :
    (n : ℕ) (entries : List LogEntry) (torn : List ℕ)
    → length entries ≤ n
    → All EntryFits entries
    → deserialize_log_entry torn ≡ err unexpected_eof
    → read_entries n (concat entry_bytes entries ++ torn) ≡ ok (map pair_of entries)
unfolding read_entries
read_entries-torn zero [] torn le fit cut = refl
read_entries-torn zero (e ∷ es) torn le fit cut = absurd (omega arith)
read_entries-torn (suc n) [] torn le fit cut = rw cut refl
read_entries-torn (suc n) (e ∷ es) torn le fit cut =
    rw
      (
        append_assoc (entry_bytes e) (concat entry_bytes es) torn,
        deserialize_log_entry-bytes e (concat entry_bytes es ++ torn) fit.0,
        read_entries-torn n es torn (omega arith) fit.1 cut,
      )
      refl

-- A file that holds entries one behind another, and behind them a part of the bytes of one more
-- entry, is read as exactly the entries that were written as a whole, where the offsets are u64 and
-- the lengths fit 32 bits.
pub iter_file-torn :
    (entries : List LogEntry) (e : LogEntry) (torn missing : List ℕ)
    → All EntryFits entries
    → EntryFits e
    → torn ++ missing ≡ entry_bytes e
    → 0 < length missing
    → iter_file (some (concat entry_bytes entries ++ torn)) ≡ ok (map pair_of entries)
unfolding iter_file
iter_file-torn entries e torn missing fit fits whole short =
    read_entries-torn (length (concat entry_bytes entries ++ torn)) entries torn
      (omega (arith, length-concat entries, length-append (concat entry_bytes entries) torn)) fit
      (deserialize_log_entry-Starves e fits torn missing
        (record { whole = whole; missing = short }))
