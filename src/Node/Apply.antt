-- ===== src/Node/Apply.antt =====
-- `apply_replicated_txns` of src/node/mod.rs: what is decided in the log goes to the datastore.
use distributed_omnipaxos_db.Base.{
  Bool, true, false, Option, none, some, List, [], ◌∷◌, ◌==◌, if◌then◌else◌, Outcome, ok, err,
  panic, ◌>>=◌,
}
use distributed_omnipaxos_db.TxData.{TxOffset, TxData}
use distributed_omnipaxos_db.Durability.OmniPaxos.{OmniPaxos}
use distributed_omnipaxos_db.Durability.OmniPaxosDurability
use distributed_omnipaxos_db.Durability.OmniPaxosDurability.{OmniPaxosDurability}
use distributed_omnipaxos_db.Datastore.State.{
  DatastoreError, CommittedState, get_cur_offset, advance_replicated_durability_offset,
}
use distributed_omnipaxos_db.Datastore.Replay.{replay_transaction}
use distributed_omnipaxos_db.Node.State.{Node, only_panic, and_then}

abbrev pub same_offset : Option TxOffset → Option TxOffset → Bool
same_offset (some a) (some b) = a == b
same_offset _ _ = false

abbrev pub offset_or_zero : Option TxOffset → TxOffset
offset_or_zero none = 0
offset_or_zero (some o) = o

module _ {P : OmniPaxos} {Sender : Type 0} where
  -- One round of the follower's loop: replay, note the offset, move the replicated offset to it.
  abbrev pub applied :
      TxOffset
      → Outcome DatastoreError (Unit {0}) × CommittedState
      → Node P Sender
      → Outcome ⊥ (Unit {0}) × Node P Sender
  applied offset (panic, s) n = (panic, record n { datastore = s })
  applied offset (ok _, s) n = (
    ok tt,
    record n {
      datastore = (advance_replicated_durability_offset offset s).1;
      last_applied_index = some offset;
    },
  )
  applied offset (err e, s) n = (
    ok tt,
    record n {
      datastore = (advance_replicated_durability_offset offset s).1;
      last_applied_index = some offset;
    },
  )

  unfoldable pub apply_transactions :
      List (TxOffset × TxData) → Node P Sender → Outcome ⊥ (Unit {0}) × Node P Sender
  apply_transactions [] n = (ok tt, n)
  apply_transactions ((offset, tx_data) ∷ transactions) n =
      and_then (applied offset (replay_transaction tx_data n.datastore) n)
        (apply_transactions transactions)

  unfoldable pub follow_log :
      Outcome ⊥ (List (TxOffset × TxData)) → Node P Sender → Outcome ⊥ (Unit {0}) × Node P Sender
  unfolding apply_transactions
  follow_log (ok transactions) n = apply_transactions transactions n
  follow_log (err e) n = (err e, n)
  follow_log panic n = (panic, n)

  -- The node's method `advance_replicated_durability_offset`, whose `unwrap` panics where nothing is
  -- applied.
  abbrev pub advance_last_applied :
      Option TxOffset → Node P Sender → Outcome ⊥ (Unit {0}) × Node P Sender
  advance_last_applied none n = (panic, n)
  advance_last_applied (some offset) n =
      let (result, s) = advance_replicated_durability_offset offset n.datastore in
      (only_panic result, record n { datastore = s })

  -- The leader's branch: what is in memory up to the decided offset becomes replicated.
  unfoldable pub lead_log : TxOffset → Node P Sender → Outcome ⊥ (Unit {0}) × Node P Sender
  lead_log decided_offset n =
      let n' : Node P Sender = record n { last_applied_index = some decided_offset } in
      advance_last_applied n'.last_applied_index n'

  -- Whether the leader's branch is taken. A leader that was just promoted compares its current offset,
  -- whose `unwrap` panics where nothing was committed.
  unfoldable pub takes_lead : TxOffset → Node P Sender → Outcome ⊥ Bool
  takes_lead decided_offset n =
      let promoted = (do
        cur ← OmniPaxosDurability.unwrap (get_cur_offset n.datastore)
        ok (cur == decided_offset)) in
      if OmniPaxosDurability.is_leader P n.omni_durability
      then (if n.got_promoted_leader then promoted else ok true)
      else ok false

  unfoldable pub apply_branch :
      Outcome ⊥ Bool → TxOffset → Node P Sender → Outcome ⊥ (Unit {0}) × Node P Sender
  unfolding lead_log follow_log
  apply_branch (ok true) decided_offset n = lead_log decided_offset n
  apply_branch (ok false) decided_offset n =
      follow_log
        (OmniPaxosDurability.iter_starting_from_offset P n.omni_durability
          (offset_or_zero n.last_applied_index))
        n
  apply_branch (err e) decided_offset n = (err e, n)
  apply_branch panic decided_offset n = (panic, n)

  abbrev pub clear_promoted : Node P Sender → Outcome ⊥ (Unit {0}) × Node P Sender
  clear_promoted n = (ok tt, record n { got_promoted_leader = false })

  unfoldable pub apply_decided :
      Option TxOffset → Node P Sender → Outcome ⊥ (Unit {0}) × Node P Sender
  unfolding takes_lead apply_branch
  apply_decided none n = (ok tt, n)
  apply_decided (some decided_offset) n =
      if same_offset (some decided_offset) n.last_applied_index
      then (ok tt, n)
      else and_then (apply_branch (takes_lead decided_offset n) decided_offset n) clear_promoted

  unfoldable pub apply_replicated_txns : Node P Sender → Outcome ⊥ (Unit {0}) × Node P Sender
  unfolding apply_decided
  apply_replicated_txns n =
      apply_decided (OmniPaxosDurability.get_durable_tx_offset_optional P n.omni_durability) n
