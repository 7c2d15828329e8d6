-- ===== src/Examples/FileTests.antt =====
-- The unit test of src/durability/example_durability.rs, where the wait lets the tasks finish. An
-- assertion that fails panics.
use distributed_omnipaxos_db.Base.{
  ◌≡◌, refl, ◌==◌, none, some, List, [], ◌∷◌, Outcome, ok, panic, ◌>>=◌, arith,
}
use distributed_omnipaxos_db.TxData.{TxOffset, TxData}
use distributed_omnipaxos_db.TxData.Serde
use distributed_omnipaxos_db.Varint
use distributed_omnipaxos_db.Durability.Entry.{LogEntry, serialize_log_entry, deserialize_log_entry}
use distributed_omnipaxos_db.Durability.EntryRoundTrip.{EntryFits}
use distributed_omnipaxos_db.Durability.FileLog.{
  FileLog, new, append_tx, create_file, write_request, read_entries, iter_file, iter, appends,
  creates, sends, writes, acks, notes, Reaches, stays, moves,
}
use distributed_omnipaxos_db.Durability.FileLog.Draining.{pending}
use distributed_omnipaxos_db.Examples.StoreTests.{assert}

-- One table, and no rows.
abbrev tx_data : TxData
tx_data = record { inserts = record { table_id = 0; inserts = [] } ∷ []; deletes = []; truncs = [] }

abbrev request : LogEntry
request = record { tx_offset = 0; tx_data = tx_data }

abbrev asked : FileLog
asked = append_tx (new none) 0 tx_data

abbrev queued : FileLog
queued = record (create_file asked) { sending = []; queue = request ∷ [] }

abbrev written : FileLog
written = write_request queued request []

abbrev waited : FileLog
waited = record written { unacked = none; acks = []; durable_offset = some 0 }

request-EntryFits : EntryFits request
request-EntryFits = record {
  offset = omega arith;
  tx = record {
    inserts = (omega arith, ((omega arith, omega arith, tt), tt));
    deletes = (omega arith, tt);
    truncs = (omega arith, tt);
  };
}

-- The wait is over when nothing is pending.
waited_run : (run : Reaches (new none) waited) × (pending waited ≡ 0)
unfolding new append_tx create_file write_request
waited_run = (
  moves
      (moves
        (moves
          (moves (moves (moves stays (appends 0 tx_data request-EntryFits)) (creates refl refl))
            (sends [] [] request refl (omega arith)))
          (writes request [] refl refl refl))
        (acks 0 refl (omega arith)))
      (notes 0 [] refl),
  refl,
)

abbrev first_alone : List (TxOffset × TxData) → Outcome ⊥ (Unit {0})
first_alone [] = panic
first_alone (first ∷ []) = assert (first.0 == 0)
first_alone (first ∷ second ∷ more) = panic

abbrev test_append_tx : Outcome ⊥ (Unit {0})
test_append_tx = iter waited >>= first_alone

test_append_tx_passes : test_append_tx ≡ ok tt
unfolding new append_tx create_file write_request iter iter_file read_entries serialize_log_entry
    deserialize_log_entry Serde.serialize Serde.deserialize Serde.serialize_insert_list
    Serde.deserialize_insert_list Serde.read_many Varint.write_varint Varint.read_varint
    Varint.read_exact
test_append_tx_passes = refl
