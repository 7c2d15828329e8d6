-- ===== src/Datastore/Session.antt =====
-- Whole transactions, as the tests of src/datastore/example_datastore.rs run them: begin, writes and
-- deletions, commit; and the replay of committed transactions, in order, on another datastore.
use distributed_omnipaxos_db.Base.{◌≡◌, List, [], ◌∷◌, Outcome, ok, err, panic, refl}
use distributed_omnipaxos_db.Base.HashMap.{insert-AllEntries, remove-AllEntries}
use distributed_omnipaxos_db.Base.Utf8.{Str, str_discrete}
use distributed_omnipaxos_db.TxData.{TxResult}
use distributed_omnipaxos_db.Row.RoundTrip.{IsString}
use distributed_omnipaxos_db.Datastore.State.{DatastoreError, insert, delete, CommittedState}
use distributed_omnipaxos_db.Datastore.State.Views.{IsValid}
use distributed_omnipaxos_db.Datastore.Tx.{
  MutTx, begin_mut_tx, set_mut_tx, delete_mut_tx, commit_mut_tx,
}
use distributed_omnipaxos_db.Datastore.Tx.Buffer.{
  IsOpen, begin_mut_tx_lem, set_mut_tx-IsOpen, delete_mut_tx_lem, delete_mut_tx-diff,
}
use distributed_omnipaxos_db.Datastore.Replay.Writes.{DiffFits, AreStrings}

pub data Op : Type 0 where
  sets : Str → Str → Op
  deletes : Str → Op

abbrev pub OpFits : Op → Type 0
OpFits (sets key value) = IsString key × IsString value
OpFits (deletes key) = IsString key

abbrev pub perform : List Op → MutTx → MutTx
perform [] tx = tx
perform (sets key value ∷ ops) tx = perform ops (set_mut_tx tx key value)
perform (deletes key ∷ ops) tx = perform ops (delete_mut_tx tx key).1

abbrev pub session : List Op → CommittedState → Outcome DatastoreError TxResult × CommittedState
session ops s = commit_mut_tx (perform ops (begin_mut_tx s))

-- The transactions replayed on another datastore, up to the first that fails.
abbrev pub replay_next :
    Outcome DatastoreError (Unit {0}) × CommittedState
    → (CommittedState → Outcome DatastoreError (Unit {0}) × CommittedState)
    → Outcome DatastoreError (Unit {0}) × CommittedState
replay_next (ok _, s) next = next s
replay_next (err e, s) next = (err e, s)
replay_next (panic, s) next = (panic, s)

-- A transaction in progress over `s`.
pub record Over (s : CommittedState) (tx : MutTx) : Type 0 where
  pub open_tx : IsOpen tx
  pub base : tx.committed_state ≡ s
  pub strings : AreStrings tx.diff

abbrev pub AllFit : List Op → Type 0
AllFit [] = Unit
AllFit (op ∷ ops) = OpFits op × AllFit ops

perform-Over :
    (s : CommittedState) (ops : List Op) (tx : MutTx)
    → AllFit ops
    → Over s tx
    → Over s (perform ops tx)
perform-Over s [] tx h o = o
perform-Over s (sets key value ∷ ops) tx h o =
    perform-Over s ops (set_mut_tx tx key value) h.1 (record {
      open_tx = set_mut_tx-IsOpen tx key value o.open_tx;
      base = unfold set_mut_tx in o.base;
      strings =
          unfold set_mut_tx in
          insert-AllEntries DiffFits str_discrete key (insert value) tx.diff h.0 o.strings;
    })
perform-Over s (deletes key ∷ ops) tx h o =
    perform-Over s ops (delete_mut_tx tx key).1 h.1 (record {
      open_tx = (delete_mut_tx_lem tx key key o.open_tx).1;
      base = unfold delete_mut_tx in o.base;
      strings = rw (delete_mut_tx-diff tx key o.open_tx) (
          insert-AllEntries DiffFits str_discrete key delete _ h.0
            (remove-AllEntries DiffFits str_discrete key tx.diff o.strings));
    })

pub session-Over :
    (s : CommittedState) (ops : List Op)
    → IsValid s
    → AllFit ops
    → Over s (perform ops (begin_mut_tx s))
session-Over s ops v h = perform-Over s ops (begin_mut_tx s) h (record {
  open_tx = (begin_mut_tx_lem s [] v).0;
  base = unfold begin_mut_tx in refl;
  strings = unfold begin_mut_tx in tt;
})
