-- ===== src/Durability/FileLog/Reading.antt =====
-- Reading the file of src/durability/example_durability.rs from its start.
use distributed_omnipaxos_db.Base.{
  ℕ, zero, suc, ◌≤◌, ◌≡◌, refl, some, List, [], ◌∷◌, map, arith, length, length-append, All, ok,
  err,
}
use distributed_omnipaxos_db.TxData.{TxOffset, TxData}
use distributed_omnipaxos_db.TxData.Shape.{concat, data_bytes}
use distributed_omnipaxos_db.Varint.{read_exact, unexpected_eof}
use distributed_omnipaxos_db.Durability.Entry.{LogEntry, deserialize_log_entry, to_le_bytes}
use distributed_omnipaxos_db.Durability.EntryRoundTrip.{
  EntryFits, entry_bytes, deserialize_log_entry-bytes, length-to_le_bytes,
}
use distributed_omnipaxos_db.Durability.FileLog.{read_entries, iter_file}

abbrev pub pair_of : LogEntry → TxOffset × TxData
pair_of e = (e.tx_offset, e.tx_data)

-- An empty rest of the file ends the iteration.
pub at_end : deserialize_log_entry [] ≡ err unexpected_eof
unfolding deserialize_log_entry read_exact
at_end = refl

read_entries-bytes :
    (n : ℕ) (entries : List LogEntry)
    → length entries ≤ n
    → All EntryFits entries
    → read_entries n (concat entry_bytes entries) ≡ ok (map pair_of entries)
unfolding read_entries
read_entries-bytes zero [] le fit = refl
read_entries-bytes zero (e ∷ es) le fit = absurd (omega arith)
read_entries-bytes (suc n) [] le fit = rw at_end refl
read_entries-bytes (suc n) (e ∷ es) le fit =
    rw
      (
        deserialize_log_entry-bytes e (concat entry_bytes es) fit.0,
        read_entries-bytes n es (omega arith) fit.1,
      )
      refl

pub length-concat : (entries : List LogEntry) → length entries ≤ length (concat entry_bytes entries)
length-concat [] = omega arith
length-concat (e ∷ es) = omega (
  arith,
  length-concat es,
  length-append (entry_bytes e) (concat entry_bytes es),
  length-append (to_le_bytes 8 e.tx_offset) (data_bytes e.tx_data),
  length-to_le_bytes 8 e.tx_offset,
)

-- A file that holds entries one behind another, whose offsets are u64 and whose lengths fit 32
-- bits, is read as exactly these entries, in order, to its end.
pub iter_file-entries :
    (entries : List LogEntry)
    → All EntryFits entries
    → iter_file (some (concat entry_bytes entries)) ≡ ok (map pair_of entries)
unfolding iter_file
iter_file-entries entries fit =
    read_entries-bytes (length (concat entry_bytes entries)) entries (length-concat entries) fit
