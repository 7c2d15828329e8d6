-- ===== src/Examples/Tables.antt =====
-- A transaction on a datastore with histories, against its table.
use distributed_omnipaxos_db.Base.{◌+◌, ◌≡◌, List, [], ◌∷◌, arith, ok}
use distributed_omnipaxos_db.Datastore.State.Views.{IsValid, memory_view, replicated_view}
use distributed_omnipaxos_db.Datastore.Session.{sets, deletes}
use distributed_omnipaxos_db.Datastore.Tx.{begin_mut_tx, tx_data_of}
use distributed_omnipaxos_db.Datastore.Table.{
  after, Request, gets, does, ops_of, answers, serve, transact, abandon,
}
use distributed_omnipaxos_db.Datastore.Table.Example.{example_datastore, example_transact}
use distributed_omnipaxos_db.Examples.Data.{foo, bar}
use distributed_omnipaxos_db.Examples.Store.{in_memory, in_memory-IsValid}

abbrev requests : List Request
requests =
    gets foo
    ∷ does (sets foo bar)
    ∷ gets foo
    ∷ does (deletes foo)
    ∷ gets foo
    ∷ does (sets bar foo)
    ∷ []

example_transact_example :
    let (replies, committed, s') = transact example_datastore requests in_memory in
    (replies ≡ ok (answers requests (memory_view in_memory)))
    × (committed
        ≡ ok (record {
          tx_offset = 3;
          tx_data = tx_data_of (serve example_datastore requests (begin_mut_tx in_memory)).1.diff;
        }))
    × IsValid s'
    × (memory_view s' ≡ after (ops_of requests) (memory_view in_memory))
    × (replicated_view s' ≡ replicated_view in_memory)
    × (s'.next_tx_offset ≡ 3 + 1)
    × (abandon example_datastore requests in_memory
        ≡ (ok (answers requests (memory_view in_memory)), in_memory))
example_transact_example = example_transact requests in_memory in_memory-IsValid (omega arith)
