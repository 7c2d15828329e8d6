-- ===== src/Node/Methods.antt =====
-- `update_leader` and the transaction methods of `Node` (src/node/mod.rs).
use distributed_omnipaxos_db.Base.{
  ℕ, true, Option, none, some, ◌==◌, if◌then◌else◌, Outcome, ok, err, panic,
}
use distributed_omnipaxos_db.TxData.{TxResult}
use distributed_omnipaxos_db.Durability.{DurabilityLevel}
use distributed_omnipaxos_db.Durability.OmniPaxos.{OmniPaxos}
use distributed_omnipaxos_db.Durability.OmniPaxosDurability
use distributed_omnipaxos_db.Durability.OmniPaxosDurability.{OmniPaxosDurability}
use distributed_omnipaxos_db.Datastore.State.{
  DatastoreError, not_leader, rollback_to_replicated_durability_offset,
}
use distributed_omnipaxos_db.Datastore.Tx
use distributed_omnipaxos_db.Datastore.Tx.{Tx, MutTx}
use distributed_omnipaxos_db.Node.State.{Node, only_panic, and_then}
use distributed_omnipaxos_db.Node.Apply.{apply_replicated_txns}

abbrev pub put_durability :
    {P : OmniPaxos} {Sender : Type 0}
    → TxResult
    → Outcome ⊥ (OmniPaxosDurability P)
    → Node P Sender
    → Outcome DatastoreError TxResult × Node P Sender
put_durability result (ok d) n = (ok result, record n { omni_durability = d })
put_durability result (err e) n = absurd e
put_durability result panic n = (panic, n)

module _ {P : OmniPaxos} {Sender : Type 0} where
  -- An `Err` is printed and dropped by `update_leader`.
  unfoldable pub rollback_unreplicated_txns :
      Node P Sender → Outcome DatastoreError (Unit {0}) × Node P Sender
  rollback_unreplicated_txns n =
      let (result, s) = rollback_to_replicated_durability_offset n.datastore in
      (result, record n { datastore = s })

  -- What a change of leader makes a node do: the old leader rolls back, the new one catches up.
  unfoldable pub change_leader : ℕ → ℕ → Node P Sender → Outcome ⊥ (Unit {0}) × Node P Sender
  unfolding rollback_unreplicated_txns apply_replicated_txns
  change_leader old_leader current_leader n =
      let (result, rolled_back) = rollback_unreplicated_txns n in
      let promoted = apply_replicated_txns (record n { got_promoted_leader = true }) in
      if old_leader == n.node_id
      then (only_panic result, rolled_back)
      else if current_leader == n.node_id
      then promoted
      else (ok tt, n)

  abbrev pub set_leader : ℕ → Node P Sender → Outcome ⊥ (Unit {0}) × Node P Sender
  set_leader leader n = (ok tt, record n { current_leader = some leader })

  unfoldable pub update_leader_from :
      Option ℕ → Option ℕ → Node P Sender → Outcome ⊥ (Unit {0}) × Node P Sender
  unfolding change_leader
  update_leader_from (some old_leader) (some current_leader) n =
      if old_leader == current_leader
      then (ok tt, n)
      else and_then (change_leader old_leader current_leader n) (set_leader current_leader)
  update_leader_from none (some current_leader) n = set_leader current_leader n
  update_leader_from _ none n = (ok tt, n)

  unfoldable pub update_leader : Node P Sender → Outcome ⊥ (Unit {0}) × Node P Sender
  unfolding update_leader_from
  update_leader n =
      update_leader_from n.current_leader
        (OmniPaxosDurability.get_current_leader P n.omni_durability) n

  unfoldable pub begin_tx : Node P Sender → DurabilityLevel → Tx
  begin_tx n level = Tx.begin_tx n.datastore level

  unfoldable pub begin_mut_tx : Node P Sender → Outcome DatastoreError MutTx
  begin_mut_tx n =
      if OmniPaxosDurability.is_leader P n.omni_durability
      then ok (Tx.begin_mut_tx n.datastore)
      else err not_leader

  -- `data_commit.as_ref().unwrap()` panics on an error, and a failed append panics.
  unfoldable pub append_commit :
      Outcome DatastoreError TxResult
      → Node P Sender
      → Outcome DatastoreError TxResult × Node P Sender
  append_commit (ok result) n =
      put_durability result
        (OmniPaxosDurability.append_tx P n.omni_durability result.tx_offset result.tx_data) n
  append_commit (err e) n = (panic, n)
  append_commit panic n = (panic, n)

  -- A node that does not lead drops the transaction, and with it the lock on the datastore.
  unfoldable pub commit_mut_tx :
      MutTx → Node P Sender → Outcome DatastoreError TxResult × Node P Sender
  unfolding append_commit
  commit_mut_tx tx n =
      let (data_commit, s) = Tx.commit_mut_tx tx in
      let committed = append_commit data_commit (record n { datastore = s }) in
      if OmniPaxosDurability.is_leader P n.omni_durability then committed else (err not_leader, n)
