-- ===== src/Datastore/Replay/Partial.antt =====
-- A replay that fails on its way: what it wrote before stays (src/datastore/example_datastore.rs).
use distributed_omnipaxos_db.Base.{
  ℕ, ==_iff, add_u64_fits, some, ◌+◌, ◌<◌, ◌≡◌, refl, sym, ◌∙◌, ap, true, false, List, [], ◌∷◌,
  ◌++◌, map, arith, ok, err, u64_mod, All,
}
use distributed_omnipaxos_db.Base.HashMap
use distributed_omnipaxos_db.Base.HashMap.{HashMap}
use distributed_omnipaxos_db.Base.Utf8.{Str, str_discrete, from_utf8}
use distributed_omnipaxos_db.Varint.{IoError}
use distributed_omnipaxos_db.TxData.{RowData, InsertList, DeleteList, TxData}
use distributed_omnipaxos_db.Row.{ExampleRow, serialize_example_row, deserialize_example_row}
use distributed_omnipaxos_db.Row.RoundTrip.{IsRow, deserialize-serialize_example_row}
use distributed_omnipaxos_db.Datastore.State.{
  DatastoreError, next_after, CommittedState, insert_deserialization_error,
  delete_deserialization_error,
}
use distributed_omnipaxos_db.Datastore.Replay.{
  replay_inserts, replay_insert_lists, replay_deletes, replay_delete_lists, replay_writes,
  replay_transaction,
}
use distributed_omnipaxos_db.Datastore.Replay.Outcomes.{IsSynced, next_after-ok}

-- The table 0 with rows to insert, or with keys to delete.
abbrev pub inserts_of : List RowData → InsertList
inserts_of rows = record { table_id = 0; inserts = rows }

abbrev pub deletes_of : List RowData → DeleteList
deletes_of keys = record { table_id = 0; deletes = keys }

abbrev pub rows_of : List ExampleRow → List RowData
rows_of = map serialize_example_row

-- The map after rows were put into it, and after keys were taken out.
abbrev pub put_rows : List ExampleRow → HashMap Str Str → HashMap Str Str
put_rows [] state = state
put_rows (row ∷ rows) state = put_rows rows (HashMap.insert str_discrete row.key row.value state)

abbrev pub put_lists : List (List ExampleRow) → HashMap Str Str → HashMap Str Str
put_lists [] state = state
put_lists (rows ∷ lists) state = put_lists lists (put_rows rows state)

abbrev pub drop_keys : List Str → HashMap Str Str → HashMap Str Str
drop_keys [] state = state
drop_keys (key ∷ ks) state = drop_keys ks (HashMap.remove str_discrete key state)

abbrev pub AreRows : List ExampleRow → Type 0
AreRows = All IsRow

replay_inserts-rows_of :
    (rows : List ExampleRow) (more : List RowData) (state : HashMap Str Str)
    → AreRows rows
    → replay_inserts (rows_of rows ++ more) state ≡ replay_inserts more (put_rows rows state)
unfolding replay_inserts
replay_inserts-rows_of [] more state h = refl
replay_inserts-rows_of (row ∷ rows) more state h =
    rw (deserialize-serialize_example_row row h.0)
      (replay_inserts-rows_of rows more (HashMap.insert str_discrete row.key row.value state) h.1)

replay_rows :
    (rows : List ExampleRow) (state : HashMap Str Str)
    → AreRows rows
    → replay_inserts (rows_of rows) state ≡ (ok tt, put_rows rows state)
unfolding replay_inserts
replay_rows [] state h = refl
replay_rows (row ∷ rows) state h =
    rw (deserialize-serialize_example_row row h.0)
      (replay_rows rows (HashMap.insert str_discrete row.key row.value state) h.1)

replay_insert_lists-rows_of :
    (lists : List (List ExampleRow)) (more : List InsertList) (state : HashMap Str Str)
    → All AreRows lists
    → replay_insert_lists (map (λ rows. inserts_of (rows_of rows)) lists ++ more) state
      ≡ replay_insert_lists more (put_lists lists state)
unfolding replay_insert_lists
replay_insert_lists-rows_of [] more state h = refl
replay_insert_lists-rows_of (rows ∷ lists) more state h =
    rw (replay_rows rows state h.0)
      (replay_insert_lists-rows_of lists more (put_rows rows state) h.1)

broken_row :
    (row : RowData) (rest : List RowData) (state : HashMap Str Str) (e : IoError)
    → deserialize_example_row row ≡ err e
    → replay_inserts (row ∷ rest) state ≡ (err insert_deserialization_error, state)
unfolding replay_inserts
broken_row row rest state e bad = rw bad refl

broken_list :
    (rows : List ExampleRow) (row : RowData) (rest : List RowData) (lists : List InsertList)
    (state : HashMap Str Str) (e : IoError)
    → AreRows rows
    → deserialize_example_row row ≡ err e
    → replay_insert_lists (inserts_of (rows_of rows ++ row ∷ rest) ∷ lists) state
      ≡ (err insert_deserialization_error, put_rows rows state)
unfolding replay_insert_lists
broken_list rows row rest lists state e h bad =
    rw
      (replay_inserts-rows_of rows (row ∷ rest) state h
        ∙ broken_row row rest (put_rows rows state) e bad)
      refl

abbrev pub AreKeys : List Str → Type 0
AreKeys = All (λ key. from_utf8 key ≡ true)

replay_deletes-keys :
    (keys rest : List Str) (key : Str) (state : HashMap Str Str)
    → AreKeys keys
    → from_utf8 key ≡ false
    → replay_deletes (keys ++ key ∷ rest) state
      ≡ (err delete_deserialization_error, drop_keys keys state)
unfolding replay_deletes
replay_deletes-keys [] rest key state h bad = rw bad refl
replay_deletes-keys (k ∷ ks) rest key state h bad =
    rw (h.0) (replay_deletes-keys ks rest key (HashMap.remove str_discrete k state) h.1 bad)

replay_good_lists :
    (lists : List (List ExampleRow)) (state : HashMap Str Str)
    → All AreRows lists
    → replay_insert_lists (map (λ rows. inserts_of (rows_of rows)) lists) state
      ≡ (ok tt, put_lists lists state)
unfolding replay_insert_lists
replay_good_lists [] state h = refl
replay_good_lists (rows ∷ lists) state h =
    rw (replay_rows rows state h.0) (replay_good_lists lists (put_rows rows state) h.1)

next_after-synced :
    (s : CommittedState)
    → IsSynced s
    → s.next_tx_offset + 1 < u64_mod
    → next_after s.replicated_tx_offset ≡ ok s.next_tx_offset
next_after-synced s sync room =
    next_after-ok s.replicated_tx_offset (omega (arith, sync, room)) ∙ ap ok (sym sync)

-- A replay on a state without commits ahead of the replicated offset, with its next offset below 2
-- ^ 64 - 1, of data whose insertions hold a row that cannot be read, behind any lists of rows and
-- behind any rows of its own list, all of table 0 and on strings whose lengths fit 32 bits. It
-- fails with the error of an insertion; the rows before the broken one are written, none behind it
-- is, no key is deleted, and both offsets have moved by one.
pub broken_row_stops :
    (before : List (List ExampleRow)) (rows : List ExampleRow) (row : RowData) (rest : List RowData)
    (lists : List InsertList) (deletes : List DeleteList) (truncs : List ℕ) (e : IoError)
    (s : CommittedState)
    → All AreRows before
    → AreRows rows
    → deserialize_example_row row ≡ err e
    → IsSynced s
    → s.next_tx_offset + 1 < u64_mod
    → let lead_in = map (λ good. inserts_of (rows_of good)) before in
      let tx_data : TxData = record {
        inserts = lead_in ++ inserts_of (rows_of rows ++ row ∷ rest) ∷ lists;
        deletes = deletes;
        truncs = truncs;
      } in
      replay_transaction tx_data s ≡ (
        err insert_deserialization_error,
        record s {
          next_tx_offset = s.next_tx_offset + 1;
          replicated_tx_offset = some s.next_tx_offset;
          replicated_state = put_rows rows (put_lists before s.replicated_state);
        },
      )
unfolding replay_transaction replay_writes
broken_row_stops before rows row rest lists deletes truncs e s good h bad sync room =
    rw
      (
        next_after-synced s sync room,
        (==_iff s.next_tx_offset s.next_tx_offset).1 refl,
        add_u64_fits {E = DatastoreError} s.next_tx_offset 1 room,
        replay_insert_lists-rows_of before (inserts_of (rows_of rows ++ row ∷ rest) ∷ lists)
              s.replicated_state good
            ∙ broken_list rows row rest lists (put_lists before s.replicated_state) e h bad,
      )
      refl

-- A replay on a state without commits ahead of the replicated offset, with its next offset below 2
-- ^ 64 - 1, of data whose insertions are rows on strings whose lengths fit 32 bits, and whose first
-- list of deletions holds a key that is not UTF-8, all of table 0. It fails with the error of a
-- deletion; all rows are written, the keys before the broken one are deleted, no key behind it is,
-- and both offsets have moved by one.
pub broken_key_stops :
    (before : List (List ExampleRow)) (keys rest : List Str) (key : Str) (lists : List DeleteList)
    (truncs : List ℕ) (s : CommittedState)
    → All AreRows before
    → AreKeys keys
    → from_utf8 key ≡ false
    → IsSynced s
    → s.next_tx_offset + 1 < u64_mod
    → let tx_data : TxData = record {
      inserts = map (λ good. inserts_of (rows_of good)) before;
      deletes = deletes_of (keys ++ key ∷ rest) ∷ lists;
      truncs = truncs;
    } in
      replay_transaction tx_data s ≡ (
        err delete_deserialization_error,
        record s {
          next_tx_offset = s.next_tx_offset + 1;
          replicated_tx_offset = some s.next_tx_offset;
          replicated_state = drop_keys keys (put_lists before s.replicated_state);
        },
      )
unfolding replay_transaction replay_writes replay_delete_lists
broken_key_stops before keys rest key lists truncs s good h bad sync room =
    rw
      (
        next_after-synced s sync room,
        (==_iff s.next_tx_offset s.next_tx_offset).1 refl,
        add_u64_fits {E = DatastoreError} s.next_tx_offset 1 room,
        replay_good_lists before s.replicated_state good,
        replay_deletes-keys keys rest key (put_lists before s.replicated_state) h bad,
      )
      refl
