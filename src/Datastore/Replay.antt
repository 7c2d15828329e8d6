-- ===== src/Datastore/Replay.antt =====
-- `ExampleDatastore::replay_transaction` (src/datastore/example_datastore.rs).
pub mod Writes
pub mod Outcomes
pub mod Partial
use distributed_omnipaxos_db.Base.{
  ℕ, ◌+◌, Bool, true, false, Option, none, some, List, [], ◌∷◌, ◌==◌, if◌then◌else◌, Outcome, ok,
  err, panic, ◌>>=◌, add_u64, map_err,
}
use distributed_omnipaxos_db.Base.HashMap
use distributed_omnipaxos_db.Base.HashMap.{HashMap}
use distributed_omnipaxos_db.Base.Utf8.{Str, str_discrete, from_utf8}
use distributed_omnipaxos_db.TxData.{TxOffset, RowData, InsertList, DeleteList, TxData}
use distributed_omnipaxos_db.Row.{ExampleRow, deserialize_example_row}
use distributed_omnipaxos_db.Datastore.State.{
  DatastoreError, delete_deserialization_error, insert_deserialization_error, from_io_error,
  invalid_durability_offset, CommittedState, next_after,
}

-- A step that changes the replicated state, and may fail after it has.
abbrev pub Writes : Type 0
Writes = HashMap Str Str → Outcome DatastoreError (Unit {0}) × HashMap Str Str

abbrev pub and_then :
    Outcome DatastoreError (Unit {0}) × HashMap Str Str
    → Writes
    → Outcome DatastoreError (Unit {0}) × HashMap Str Str
and_then (ok _, state) next = next state
and_then (err e, state) next = (err e, state)
and_then (panic, state) next = (panic, state)

unfoldable pub replay_insert : Outcome DatastoreError ExampleRow → Writes
replay_insert (ok row) state = (ok tt, HashMap.insert str_discrete row.key row.value state)
replay_insert (err e) state = (err e, state)
replay_insert panic state = (panic, state)

-- The loop over the rows of one `InsertList`; `?` turns an `io::Error` into a `DatastoreError`.
unfoldable pub replay_inserts : List RowData → Writes
unfolding replay_insert
replay_inserts [] state = (ok tt, state)
replay_inserts (row ∷ rows) state =
    and_then (replay_insert (map_err from_io_error (deserialize_example_row row)) state)
      (replay_inserts rows)

unfoldable pub replay_insert_lists : List InsertList → Writes
unfolding replay_inserts
replay_insert_lists [] state = (ok tt, state)
replay_insert_lists (l ∷ ls) state =
    if l.table_id == 0
    then and_then (replay_inserts l.inserts state) (replay_insert_lists ls)
    else (panic, state)

-- `std::str::from_utf8(&delete.0)?` and the removal.
unfoldable pub replay_delete : RowData → Writes
replay_delete key state =
    if from_utf8 key
    then (ok tt, HashMap.remove str_discrete key state)
    else (err delete_deserialization_error, state)

unfoldable pub replay_deletes : List RowData → Writes
unfolding replay_delete
replay_deletes [] state = (ok tt, state)
replay_deletes (key ∷ ks) state = and_then (replay_delete key state) (replay_deletes ks)

unfoldable pub replay_delete_lists : List DeleteList → Writes
unfolding replay_deletes
replay_delete_lists [] state = (ok tt, state)
replay_delete_lists (l ∷ ls) state =
    if l.table_id == 0
    then and_then (replay_deletes l.deletes state) (replay_delete_lists ls)
    else (panic, state)

-- The writes of a transaction: all insertions, and then all deletions.
unfoldable pub replay_writes : TxData → Writes
unfolding replay_insert_lists replay_delete_lists
replay_writes tx_data state =
    and_then (replay_insert_lists tx_data.inserts state) (replay_delete_lists tx_data.deletes)

-- The offsets have moved before anything is written; what the writes did stays beside an error.
abbrev pub write_replay :
    TxData
    → Outcome DatastoreError TxOffset
    → CommittedState
    → Outcome DatastoreError (Unit {0}) × CommittedState
write_replay tx_data (ok n) s =
    let (result, state) = replay_writes tx_data s.replicated_state in
    (result, record s { next_tx_offset = n; replicated_state = state })
write_replay tx_data (err e) s = (err e, s)
write_replay tx_data panic s = (panic, s)

-- `expected` is the offset behind the replicated one.
abbrev pub checked_replay :
    TxData
    → Outcome DatastoreError TxOffset
    → CommittedState
    → Outcome DatastoreError (Unit {0}) × CommittedState
checked_replay tx_data (ok expected) s =
    if s.next_tx_offset == expected
    then write_replay tx_data (add_u64 s.next_tx_offset 1)
        (record s { replicated_tx_offset = some expected })
    else (err invalid_durability_offset, s)
checked_replay tx_data (err e) s = (err e, s)
checked_replay tx_data panic s = (panic, s)

unfoldable pub replay_transaction :
    TxData → CommittedState → Outcome DatastoreError (Unit {0}) × CommittedState
unfolding replay_writes next_after
replay_transaction tx_data s = checked_replay tx_data (next_after s.replicated_tx_offset) s
