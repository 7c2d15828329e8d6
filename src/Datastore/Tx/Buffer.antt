-- ===== src/Datastore/Tx/Buffer.antt =====
-- A mutable transaction before its commit (`MutTx` of src/datastore/example_datastore.rs).
use distributed_omnipaxos_db.Base.{◌≡◌, refl, Option, none, some, arith, ok, ite}
use distributed_omnipaxos_db.Base.HashMap
use distributed_omnipaxos_db.Base.HashMap.{
  HashMap, Distinct, get-insert, get-remove, insert-Distinct, remove-Distinct,
}
use distributed_omnipaxos_db.Base.Utf8.{Str, str_discrete}
use distributed_omnipaxos_db.Durability.{memory}
use distributed_omnipaxos_db.Datastore.State
use distributed_omnipaxos_db.Datastore.State.{Diff, insert, delete, CommittedState, inserted}
use distributed_omnipaxos_db.Datastore.State.Views.{IsValid, memory_view, get_views}
use distributed_omnipaxos_db.Datastore.Tx.{
  MutTx, begin_mut_tx, rollback_mut_tx, written, get_mut_tx, set_mut_tx, delete_mut_tx,
}

-- The value that a transaction shows for a key: its own diff, or else the newest committed value.
abbrev pub shown : Option Diff → Option Str → Option Str
shown none base = base
shown (some diff) base = inserted diff

abbrev pub diff_of : MutTx → Str → Option Diff
diff_of tx key = HashMap.get str_discrete key tx.diff

abbrev pub tx_view : MutTx → Str → Option Str
tx_view tx key = shown (diff_of tx key) (memory_view tx.committed_state key)

-- A transaction over a valid state, with one diff for a key at most.
pub record IsOpen (tx : MutTx) : Type 0 where
  pub state : IsValid tx.committed_state
  pub distinct : Distinct str_discrete tx.diff

read_value :
    (tx : MutTx) (key : Str)
    → IsOpen tx
    → written (diff_of tx key) (State.get tx.committed_state key memory) ≡ ok (tx_view tx key)
read_value tx key o = ground (arith, (get_views tx.committed_state key o.state).0)

-- In an open transaction a read does not panic, and gives the transaction's own write or else the
-- newest committed value.
pub get_mut_tx-tx_view :
    (tx : MutTx) (key : Str) → IsOpen tx → get_mut_tx tx key ≡ ok (tx_view tx key)
unfolding get_mut_tx
get_mut_tx-tx_view = read_value

-- Beginning a transaction on a valid state gives an open one that shows the newest committed
-- values, and giving it up leaves the state as it was.
pub begin_mut_tx_lem :
    (s : CommittedState) (key : Str)
    → IsValid s
    → IsOpen (begin_mut_tx s)
      × (tx_view (begin_mut_tx s) key ≡ memory_view s key)
      × (rollback_mut_tx (begin_mut_tx s) ≡ s)
unfolding begin_mut_tx rollback_mut_tx HashMap.get
begin_mut_tx_lem s key v = (record { state = v; distinct = tt }, refl, refl)

pub set_mut_tx-IsOpen :
    (tx : MutTx) (key value : Str) → IsOpen tx → IsOpen (set_mut_tx tx key value)
unfolding set_mut_tx
set_mut_tx-IsOpen tx key value o = record {
  state = o.state;
  distinct = insert-Distinct str_discrete key (insert value) tx.diff o.distinct;
}

-- After a write the transaction shows the written value for its key, and for every other key what
-- it showed before.
pub tx_view-set_mut_tx :
    (tx : MutTx) (key value j : Str)
    → tx_view (set_mut_tx tx key value) j ≡ ite (str_discrete key j) (some value) (tx_view tx j)
unfolding set_mut_tx
tx_view-set_mut_tx tx key value j =
    ground (arith, get-insert str_discrete key j (insert value) tx.diff)

pub delete_mut_tx-diff :
    (tx : MutTx) (key : Str)
    → IsOpen tx
    → (delete_mut_tx tx key).1.diff
      ≡ HashMap.insert str_discrete key delete (HashMap.remove str_discrete key tx.diff)
unfolding delete_mut_tx
delete_mut_tx-diff tx key o = rw (read_value tx key o)

-- A deletion in an open transaction returns the value that the transaction showed, and leaves it
-- open, with the key absent and every other key as before.
pub delete_mut_tx_lem :
    (tx : MutTx) (key j : Str)
    → IsOpen tx
    → let (old, tx') = delete_mut_tx tx key in
      (old ≡ ok (tx_view tx key))
      × IsOpen tx'
      × (tx_view tx' j ≡ ite (str_discrete key j) none (tx_view tx j))
unfolding delete_mut_tx
delete_mut_tx_lem tx key j o = rw (read_value tx key o) (
  refl,
  record {
    state = o.state;
    distinct =
        insert-Distinct str_discrete key delete _
          (remove-Distinct str_discrete key tx.diff o.distinct);
  },
  ground (
    arith,
    get-insert str_discrete key j delete (HashMap.remove str_discrete key tx.diff),
    get-remove str_discrete key j tx.diff,
  ),
)
