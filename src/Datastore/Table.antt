-- ===== src/Datastore/Table.antt =====
-- A datastore as a table: an abstract description of what a transaction answers and leaves behind
-- (the trait of src/datastore/mod.rs), without histories or the order of a map.
pub mod Meets
pub mod Example
pub mod Runs
use distributed_omnipaxos_db.Base.{
  ℕ, ◌+◌, ◌<◌, ◌≡◌, u64_mod, Option, none, some, List, [], ◌∷◌, Outcome, ok, err, panic, ite,
}
use distributed_omnipaxos_db.Base.Utf8.{Str, str_discrete}
use distributed_omnipaxos_db.TxData.{TxData, TxResult}
use distributed_omnipaxos_db.Durability.{memory, replicated}
use distributed_omnipaxos_db.Datastore.State.{DatastoreError}
use distributed_omnipaxos_db.Datastore.Interface.{Datastore}
use distributed_omnipaxos_db.Datastore.Session.{Op, sets, deletes}

abbrev pub Table : Type 0
Table = Str → Option Str

abbrev pub after_op : Op → Table → Table
after_op (sets key value) t j = ite (str_discrete key j) (some value) (t j)
after_op (deletes key) t j = ite (str_discrete key j) none (t j)

abbrev pub after : List Op → Table → Table
after [] t = t
after (op ∷ ops) t = after ops (after_op op t)

-- What a client asks of a transaction: a read, or a change, of which a deletion is answered too.
pub data Request : Type 0 where
  gets : Str → Request
  does : Op → Request

abbrev pub ops_of : List Request → List Op
ops_of [] = []
ops_of (gets key ∷ requests) = ops_of requests
ops_of (does op ∷ requests) = op ∷ ops_of requests

abbrev pub answers : List Request → Table → List (Option Str)
answers [] t = []
answers (gets key ∷ requests) t = t key ∷ answers requests t
answers (does (sets key value) ∷ requests) t = answers requests (after_op (sets key value) t)
answers (does (deletes key) ∷ requests) t = t key ∷ answers requests (after_op (deletes key) t)

-- The calls of a transaction, up to the first that panics.
abbrev pub answered :
    {T : Type 0}
    → Outcome ⊥ (Option Str) × T
    → Outcome ⊥ (List (Option Str)) × T
    → Outcome ⊥ (List (Option Str)) × T
answered (ok answer, _) (ok rest, tx) = (ok (answer ∷ rest), tx)
answered (ok answer, _) (err e, tx) = (err e, tx)
answered (ok answer, _) (panic, tx) = (panic, tx)
answered (err e, _) p = absurd e
answered (panic, tx) p = (panic, tx)

module _ (D : Datastore Str Str) where
  abbrev pub serve : List Request → D.MutTx → Outcome ⊥ (List (Option Str)) × D.MutTx
  serve [] tx = (ok [], tx)
  serve (gets key ∷ requests) tx = answered (D.get_mut_tx tx key, tx) (serve requests tx)
  serve (does (sets key value) ∷ requests) tx = serve requests (D.set_mut_tx tx key value)
  serve (does (deletes key) ∷ requests) tx =
      answered (D.delete_mut_tx tx key) (serve requests (D.delete_mut_tx tx key).1)

  -- A whole transaction: what it answers, what its commit gives, and the state it leaves.
  abbrev pub transact :
      List Request
      → D.State
      → Outcome ⊥ (List (Option Str)) × Outcome DatastoreError TxResult × D.State
  transact requests s =
      let (replies, tx) = serve requests (D.begin_mut_tx s) in
      let (committed, s') = D.commit_mut_tx tx in (replies, committed, s')

  -- One that is given up.
  abbrev pub abandon : List Request → D.State → Outcome ⊥ (List (Option Str)) × D.State
  abandon requests s =
      let (replies, tx) = serve requests (D.begin_mut_tx s) in (replies, D.rollback_mut_tx tx)

  -- What a datastore promises: a valid state has a table for each durability level, and an open
  -- transaction over such a state shows a table of its own, which its commit makes the state's.
  pub record KeepsTables : Type 1 where
    pub IsValid : D.State → Type 0
    pub IsOpen : D.MutTx → Type 0
    pub memory_table : D.State → Table
    pub replicated_table : D.State → Table
    pub next_offset : D.State → ℕ
    pub shown : D.MutTx → Table
    pub base : D.MutTx → D.State
    pub tx_data : D.MutTx → TxData
    pub reads :
        (s : D.State) (key : Str)
        → IsValid s
        → (D.get_tx (D.begin_tx s memory) key ≡ ok (memory_table s key))
          × (D.get_tx (D.begin_tx s replicated) key ≡ ok (replicated_table s key))
    pub begins :
        (s : D.State)
        → IsValid s
        → IsOpen (D.begin_mut_tx s)
          × (base (D.begin_mut_tx s) ≡ s)
          × (shown (D.begin_mut_tx s) ≡ memory_table s)
    pub answers_get :
        (tx : D.MutTx) (key : Str) → IsOpen tx → D.get_mut_tx tx key ≡ ok (shown tx key)
    pub takes_set :
        (tx : D.MutTx) (key value : Str)
        → IsOpen tx
        → IsOpen (D.set_mut_tx tx key value)
          × (base (D.set_mut_tx tx key value) ≡ base tx)
          × (shown (D.set_mut_tx tx key value) ≡ after_op (sets key value) (shown tx))
    pub takes_delete :
        (tx : D.MutTx) (key : Str)
        → IsOpen tx
        → let (old, tx') = D.delete_mut_tx tx key in
          (old ≡ ok (shown tx key))
          × IsOpen tx'
          × (base tx' ≡ base tx)
          × (shown tx' ≡ after_op (deletes key) (shown tx))
    pub rolls_back : (tx : D.MutTx) → D.rollback_mut_tx tx ≡ base tx
    pub commits :
        (tx : D.MutTx)
        → IsOpen tx
        → next_offset (base tx) + 1 < u64_mod
        → let (result, s') = D.commit_mut_tx tx in
          (result ≡ ok (record { tx_offset = next_offset (base tx); tx_data = tx_data tx }))
          × IsValid s'
          × (memory_table s' ≡ shown tx)
          × (replicated_table s' ≡ replicated_table (base tx))
          × (next_offset s' ≡ next_offset (base tx) + 1)
