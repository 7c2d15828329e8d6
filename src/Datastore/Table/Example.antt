-- ===== src/Datastore/Table/Example.antt =====
-- `ExampleDatastore` as a `Datastore` (src/datastore/example_datastore.rs), and the tables that it keeps.
use distributed_omnipaxos_db.Base.{◌+◌, ◌<◌, ◌≡◌, refl, ap, fun_ext, List, [], ok, u64_mod}
use distributed_omnipaxos_db.Base.Utf8.{Str}
use distributed_omnipaxos_db.Durability.{memory, replicated}
use distributed_omnipaxos_db.Datastore.Interface.{Datastore}
use distributed_omnipaxos_db.Datastore.State
use distributed_omnipaxos_db.Datastore.State.{CommittedState}
use distributed_omnipaxos_db.Datastore.State.Views.{
  IsValid, memory_view, replicated_view, get_views,
}
use distributed_omnipaxos_db.Datastore.Tx
use distributed_omnipaxos_db.Datastore.Tx.{
  MutTx, tx_data_of, begin_tx, get_tx, begin_mut_tx, rollback_mut_tx, set_mut_tx, delete_mut_tx,
}
use distributed_omnipaxos_db.Datastore.Tx.Buffer.{
  IsOpen, tx_view, get_mut_tx-tx_view, begin_mut_tx_lem, set_mut_tx-IsOpen, tx_view-set_mut_tx,
  delete_mut_tx_lem,
}
use distributed_omnipaxos_db.Datastore.Tx.Commit.{
  commit_mut_tx-ok, commit_mut_tx-state, commit_mut_tx-IsValid, memory_view-commit_mut_tx,
}
use distributed_omnipaxos_db.Datastore.Replay
use distributed_omnipaxos_db.Datastore.Table.{
  after, Request, ops_of, answers, serve, transact, abandon, KeepsTables,
}
use distributed_omnipaxos_db.Datastore.Table.Meets.{transact_lem, abandon_lem}

abbrev pub example_datastore : Datastore Str Str
example_datastore = record {
  State = CommittedState;
  Tx = Tx.Tx;
  MutTx = MutTx;
  begin_tx = Tx.begin_tx;
  begin_mut_tx = Tx.begin_mut_tx;
  rollback_mut_tx = Tx.rollback_mut_tx;
  commit_mut_tx = Tx.commit_mut_tx;
  get_mut_tx = Tx.get_mut_tx;
  set_mut_tx = Tx.set_mut_tx;
  delete_mut_tx = Tx.delete_mut_tx;
  get_tx = Tx.get_tx;
  advance_replicated_durability_offset = State.advance_replicated_durability_offset;
  rollback_to_replicated_durability_offset = State.rollback_to_replicated_durability_offset;
  get_replicated_offset = State.get_replicated_offset;
  get_cur_offset = State.get_cur_offset;
  replay_transaction = Replay.replay_transaction;
}

pub base-delete_mut_tx :
    (tx : MutTx) (key : Str) → (delete_mut_tx tx key).1.committed_state ≡ tx.committed_state
unfolding delete_mut_tx
base-delete_mut_tx tx key = refl

pub base-set_mut_tx :
    (tx : MutTx) (key value : Str) → (set_mut_tx tx key value).committed_state ≡ tx.committed_state
unfolding set_mut_tx
base-set_mut_tx tx key value = refl

pub base-begin_mut_tx : (s : CommittedState) → (begin_mut_tx s).committed_state ≡ s
unfolding begin_mut_tx
base-begin_mut_tx s = refl

pub rollback_mut_tx_lem : (tx : MutTx) → rollback_mut_tx tx ≡ tx.committed_state
unfolding rollback_mut_tx
rollback_mut_tx_lem tx = refl

pub get_tx-begin_tx :
    (s : CommittedState) (key : Str)
    → IsValid s
    → (get_tx (begin_tx s memory) key ≡ ok (memory_view s key))
      × (get_tx (begin_tx s replicated) key ≡ ok (replicated_view s key))
unfolding begin_tx get_tx
get_tx-begin_tx s key v = let r = get_views s key v in (r.0, r.1)

-- What it promises.
abbrev pub example_tables : KeepsTables example_datastore
example_tables = record {
  IsValid = IsValid;
  IsOpen = IsOpen;
  memory_table = memory_view;
  replicated_table = replicated_view;
  next_offset = λ s. s.next_tx_offset;
  shown = tx_view;
  base = λ tx. tx.committed_state;
  tx_data = λ tx. tx_data_of tx.diff;
  reads = get_tx-begin_tx;
  begins = λ s v. (
    (begin_mut_tx_lem s [] v).0,
    base-begin_mut_tx s,
    fun_ext (λ key. (begin_mut_tx_lem s key v).1),
  );
  answers_get = get_mut_tx-tx_view;
  takes_set = λ tx key value o. (
    set_mut_tx-IsOpen tx key value o,
    base-set_mut_tx tx key value,
    fun_ext (λ j. tx_view-set_mut_tx tx key value j),
  );
  takes_delete = λ tx key o.
      let d = delete_mut_tx_lem tx key key o in
      (d.0, d.1, base-delete_mut_tx tx key, fun_ext (λ j. (delete_mut_tx_lem tx key j o).2));
  rolls_back = rollback_mut_tx_lem;
  commits = λ tx o room. (
    commit_mut_tx-ok tx o room,
    commit_mut_tx-IsValid tx o room,
    fun_ext (memory_view-commit_mut_tx tx o room),
    ap replicated_view (commit_mut_tx-state tx o room),
    ap (λ (s : CommittedState). s.next_tx_offset) (commit_mut_tx-state tx o room),
  );
}

-- A transaction on a valid state of the datastore, with the next offset below 2 ^ 64 - 1, answers
-- each of its reads and deletions as a table of strings does that starts with the values in memory.
-- Its commit returns the next offset with the data of its writes, and leaves a valid state with
-- that table in memory, the replicated values as they were, and the next offset one more; given up
-- instead, it answers the same and leaves the state as it was.
pub example_transact :
    (requests : List Request) (s : CommittedState)
    → IsValid s
    → s.next_tx_offset + 1 < u64_mod
    → let (replies, committed, s') = transact example_datastore requests s in
      (replies ≡ ok (answers requests (memory_view s)))
      × (committed
          ≡ ok (record {
            tx_offset = s.next_tx_offset;
            tx_data = tx_data_of (serve example_datastore requests (begin_mut_tx s)).1.diff;
          }))
      × IsValid s'
      × (memory_view s' ≡ after (ops_of requests) (memory_view s))
      × (replicated_view s' ≡ replicated_view s)
      × (s'.next_tx_offset ≡ s.next_tx_offset + 1)
      × (abandon example_datastore requests s ≡ (ok (answers requests (memory_view s)), s))
example_transact requests s v room =
    let (replies, committed, valid, table, same, next) =
      transact_lem example_tables requests s v room in
    (replies, committed, valid, table, same, next, abandon_lem example_tables requests s v)
