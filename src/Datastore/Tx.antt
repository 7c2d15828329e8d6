-- ===== src/Datastore/Tx.antt =====
-- `Tx`, `MutTx` and the transaction methods of `ExampleDatastore`
-- (src/datastore/example_datastore.rs).
pub mod Commit
pub mod Buffer
use mathlib.Core.List.{foldl}
use distributed_omnipaxos_db.Base.{
  ℕ, ◌+◌, Option, none, some, List, [], ◌∷◌, ◌++◌, map, Outcome, ok, err, panic, ◌>>=◌, add_u64,
}
use distributed_omnipaxos_db.Base.HashMap
use distributed_omnipaxos_db.Base.HashMap.{HashMap}
use distributed_omnipaxos_db.Base.Utf8.{Str, str_discrete}
use distributed_omnipaxos_db.TxData.{TxOffset, RowData, InsertList, DeleteList, TxData, TxResult}
use distributed_omnipaxos_db.Row.{ExampleRow, serialize_example_row}
use distributed_omnipaxos_db.Durability.{DurabilityLevel, memory}
use distributed_omnipaxos_db.Datastore.State
use distributed_omnipaxos_db.Datastore.State.{
  DatastoreError, Diff, insert, delete, TxDiff, CommittedState, insert_diff, inserted,
}

pub record Tx : Type 0 where
  pub durability_level : DurabilityLevel
  pub committed_state : CommittedState

unfoldable pub begin_tx : CommittedState → DurabilityLevel → Tx
begin_tx s level = record { durability_level = level; committed_state = s }

unfoldable pub get_tx : Tx → Str → Outcome ⊥ (Option Str)
get_tx tx key = State.get tx.committed_state key tx.durability_level

pub record MutTx : Type 0 where
  pub diff : HashMap Str Diff
  pub committed_state : CommittedState

unfoldable pub begin_mut_tx : CommittedState → MutTx
begin_mut_tx s = record { diff = []; committed_state = s }

-- The lock is given up with nothing written.
unfoldable pub rollback_mut_tx : MutTx → CommittedState
rollback_mut_tx tx = tx.committed_state

abbrev pub written : Option Diff → Outcome ⊥ (Option Str) → Outcome ⊥ (Option Str)
written (some diff) otherwise = ok (inserted diff)
written none otherwise = otherwise

unfoldable pub get_mut_tx : MutTx → Str → Outcome ⊥ (Option Str)
get_mut_tx tx key =
    written (HashMap.get str_discrete key tx.diff) (State.get tx.committed_state key memory)

unfoldable pub set_mut_tx : MutTx → Str → Str → MutTx
set_mut_tx tx key value = record tx {
  diff = HashMap.insert str_discrete key (insert value) tx.diff;
}

abbrev pub finish_delete :
    Outcome ⊥ (Option Str) → Str → HashMap Str Diff → Outcome ⊥ (Option Str) × HashMap Str Diff
finish_delete (ok old) key removed = (ok old, HashMap.insert str_discrete key delete removed)
finish_delete (err e) key removed = (err e, removed)
finish_delete panic key removed = (panic, removed)

-- The old diff is taken out first, so a panic of the read leaves the map without it.
unfoldable pub delete_mut_tx : MutTx → Str → Outcome ⊥ (Option Str) × MutTx
delete_mut_tx tx key =
    let found = HashMap.get str_discrete key tx.diff in
    let old = written found (State.get tx.committed_state key memory) in
    let (result, diff) = finish_delete old key (HashMap.remove str_discrete key tx.diff) in
    (result, record tx { diff = diff })

-- One round of the loop of `commit_mut_tx`: the history of the key gets the diff.
unfoldable pub extended : Option TxDiff → TxOffset → Diff → TxDiff
unfolding insert_diff
extended (some tx_diff) offset diff = insert_diff tx_diff offset diff
extended none offset diff = insert_diff (record { history = [] }) offset diff

unfoldable pub record_diff : TxOffset → HashMap Str TxDiff → Str × Diff → HashMap Str TxDiff
unfolding extended
record_diff offset diffs (key, diff) =
    HashMap.insert str_discrete key (extended (HashMap.get str_discrete key diffs) offset diff)
      diffs

unfoldable pub insert_rows : HashMap Str Diff → List ExampleRow
insert_rows [] = []
insert_rows ((key, insert value) ∷ diffs) = record { key = key; value = value } ∷ insert_rows diffs
insert_rows ((key, delete) ∷ diffs) = insert_rows diffs

unfoldable pub delete_keys : HashMap Str Diff → List Str
delete_keys [] = []
delete_keys ((key, insert value) ∷ diffs) = delete_keys diffs
delete_keys ((key, delete) ∷ diffs) = key ∷ delete_keys diffs

unfoldable pub tx_data_of : HashMap Str Diff → TxData
unfolding insert_rows delete_keys
tx_data_of diff = record {
  inserts = record { table_id = 0; inserts = map serialize_example_row (insert_rows diff) } ∷ [];
  deletes = record { table_id = 0; deletes = delete_keys diff } ∷ [];
  truncs = [];
}

abbrev pub finish_commit :
    Outcome DatastoreError TxOffset
    → TxResult
    → CommittedState
    → Outcome DatastoreError TxResult × CommittedState
finish_commit (ok n) result s = (ok result, record s { next_tx_offset = n })
finish_commit (err e) result s = (err e, s)
finish_commit panic result s = (panic, s)

unfoldable pub commit_mut_tx : MutTx → Outcome DatastoreError TxResult × CommittedState
unfolding record_diff tx_data_of
commit_mut_tx tx =
    let s = tx.committed_state in
    let offset = s.next_tx_offset in
    let s' = record s { committed_diff = foldl (record_diff offset) s.committed_diff tx.diff } in
    finish_commit (add_u64 offset 1) (record { tx_offset = offset; tx_data = tx_data_of tx.diff })
      s'
