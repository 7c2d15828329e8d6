-- ===== src/Datastore/Table/Runs.antt =====
-- Runs of whole transactions against the table (src/datastore/example_datastore.rs). The data of a
-- transaction depends on its writes alone.
use distributed_omnipaxos_db.Base.{
  ◌+◌, ◌<◌, ◌≡◌, refl, ap, ◌∙◌, subst, none, List, [], ◌∷◌, map, arith, length, u64_mod,
}
use distributed_omnipaxos_db.Base.HashMap
use distributed_omnipaxos_db.Base.HashMap.{HashMap}
use distributed_omnipaxos_db.Base.Utf8.{Str, str_discrete}
use distributed_omnipaxos_db.Datastore.State.{Diff, insert, delete, CommittedState, new}
use distributed_omnipaxos_db.Datastore.State.Views.{
  IsValid, new-IsValid, memory_view, replicated_view,
}
use distributed_omnipaxos_db.Datastore.Tx.{
  MutTx, begin_mut_tx, set_mut_tx, delete_mut_tx, tx_data_of, commit_mut_tx,
}
use distributed_omnipaxos_db.Datastore.Tx.Buffer.{
  IsOpen, begin_mut_tx_lem, set_mut_tx-IsOpen, delete_mut_tx_lem, delete_mut_tx-diff,
}
use distributed_omnipaxos_db.Datastore.Session.{Op, sets, deletes, perform, session}
use distributed_omnipaxos_db.Datastore.Replication.{data_of, lead}
use distributed_omnipaxos_db.Datastore.Table.{Table, after, does, ops_of, serve}
use distributed_omnipaxos_db.Datastore.Table.Meets.{answered_ok, serve_lem}
use distributed_omnipaxos_db.Datastore.Table.Example.{
  example_datastore, example_tables, example_transact,
}

-- The writes of a transaction, on top of those before.
abbrev pub diffs : List Op → HashMap Str Diff → HashMap Str Diff
diffs [] m = m
diffs (sets key value ∷ ops) m = diffs ops (HashMap.insert str_discrete key (insert value) m)
diffs (deletes key ∷ ops) m =
    diffs ops (HashMap.insert str_discrete key delete (HashMap.remove str_discrete key m))

perform-diffs : (ops : List Op) (tx : MutTx) → IsOpen tx → (perform ops tx).diff ≡ diffs ops tx.diff
perform-diffs [] tx o = refl
perform-diffs (sets key value ∷ ops) tx o =
    perform-diffs ops (set_mut_tx tx key value) (set_mut_tx-IsOpen tx key value o)
    ∙ ap (diffs ops) (unfold set_mut_tx in refl)
perform-diffs (deletes key ∷ ops) tx o =
    perform-diffs ops (delete_mut_tx tx key).1 (delete_mut_tx_lem tx key key o).1
    ∙ ap (diffs ops) (delete_mut_tx-diff tx key o)

-- Valid states give a transaction the same data.
pub data_of-diffs :
    (ops : List Op) (s : CommittedState) → IsValid s → data_of ops s ≡ tx_data_of (diffs ops [])
data_of-diffs ops s v = ap tx_data_of (
    perform-diffs ops (begin_mut_tx s) (begin_mut_tx_lem s [] v).0
    ∙ ap (diffs ops) (unfold begin_mut_tx in refl))

serve-perform :
    (ops : List Op) (tx : MutTx)
    → IsOpen tx
    → (serve example_datastore (map does ops) tx).1 ≡ perform ops tx
serve-perform [] tx o = refl
serve-perform (sets key value ∷ ops) tx o =
    serve-perform ops (set_mut_tx tx key value) (set_mut_tx-IsOpen tx key value o)
serve-perform (deletes key ∷ ops) tx o =
    let d = delete_mut_tx_lem tx key key o in
    rw
      (answered_ok (delete_mut_tx tx key)
        (serve example_datastore (map does ops) (delete_mut_tx tx key).1) _ _ d.0
        (serve_lem example_tables (map does ops) (delete_mut_tx tx key).1 d.1).0)
      (serve-perform ops (delete_mut_tx tx key).1 d.1)

ops_of-does : (ops : List Op) → ops_of (map does ops) ≡ ops
ops_of-does [] = refl
ops_of-does (op ∷ ops) = ap (◌∷◌ op) (ops_of-does ops)

-- A committed transaction leaves the table that its writes make of the one before, and the replicated
-- values as they were.
abbrev Leaves : List Op → CommittedState → CommittedState → Type 0
Leaves ops s s' =
    IsValid s'
    × (memory_view s' ≡ after ops (memory_view s))
    × (replicated_view s' ≡ replicated_view s)
    × (s'.next_tx_offset ≡ s.next_tx_offset + 1)

pub session_table :
    (ops : List Op) (s : CommittedState)
    → IsValid s
    → s.next_tx_offset + 1 < u64_mod
    → Leaves ops s (session ops s).1
session_table ops s v room =
    let (_, _, valid, view, same_replicated, next, _) = example_transact (map does ops) s v room in
    subst (λ tx. Leaves ops s (commit_mut_tx tx).1)
      (serve-perform ops (begin_mut_tx s) (begin_mut_tx_lem s [] v).0)
      (valid, view ∙ ap (λ l. after l (memory_view s)) (ops_of-does ops), same_replicated, next)

-- The table after whole transactions.
abbrev pub after_all : List (List Op) → Table → Table
after_all [] t = t
after_all (ops ∷ txs) t = after_all txs (after ops t)

lead_table :
    (txs : List (List Op)) (s : CommittedState)
    → IsValid s
    → s.next_tx_offset + length txs < u64_mod
    → memory_view (lead txs s) ≡ after_all txs (memory_view s)
lead_table [] s v room = refl
lead_table (ops ∷ txs) s v room =
    let (v', view, _, next) = session_table ops s v (omega arith) in
    lead_table txs (session ops s).1 v' (omega (arith, next)) ∙ ap (after_all txs) view

abbrev pub empty : Table
empty key = none

pub table_at_end :
    (txs : List (List Op)) → length txs < u64_mod → memory_view (lead txs new) ≡ after_all txs empty
unfolding new HashMap.get
table_at_end txs room = lead_table txs new new-IsValid (omega arith)
