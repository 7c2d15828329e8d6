-- ===== src/Node/Promotion.antt =====
-- The promotion of a node that has committed and applied nothing (`update_leader` of src/node/mod.rs).
use distributed_omnipaxos_db.Base.{
  ℕ, ◌-◌, ◌<◌, ◌≡◌, ◌≢◌, refl, ◌∙◌, ap, true, false, none, some, List, arith, length, Outcome, ok,
  err, panic, ◌==◌, ==_iff,
}
use distributed_omnipaxos_db.TxData.{TxOffset}
use distributed_omnipaxos_db.Durability.Entry.{DatabaseLogEntry}
use distributed_omnipaxos_db.Durability.OmniPaxos.{OmniPaxos, HasDecided}
use distributed_omnipaxos_db.Durability.OmniPaxosDurability
use distributed_omnipaxos_db.Datastore.State.{get_cur_offset}
use distributed_omnipaxos_db.Node.State.{Node, and_then}
use distributed_omnipaxos_db.Node.Apply.{apply_decided, apply_replicated_txns}
use distributed_omnipaxos_db.Node.Methods.{update_leader, update_leader_from, set_leader}
use distributed_omnipaxos_db.Node.CatchUp.{IsNumbered, durable_of_numbered}
use distributed_omnipaxos_db.Node.Leader.{leads, update_from}

module _ {P : OmniPaxos} {Sender : Type 0} where
  promoted_panics :
      (n : Node P Sender) (o : TxOffset)
      → leads n ≡ true
      → n.datastore.next_tx_offset ≡ 0
      → n.last_applied_index ≡ none
      → (apply_decided (some o) (record n { got_promoted_leader = true })).0 ≡ panic
  unfolding apply_decided get_cur_offset
  promoted_panics n o h zero_next last = rw (last, h, zero_next)

  and_then_panic :
      (p : Outcome ⊥ (Unit {0}) × Node P Sender)
      (next : Node P Sender → Outcome ⊥ (Unit {0}) × Node P Sender)
      → p.0 ≡ panic
      → (and_then p next).0 ≡ panic
  and_then_panic (ok _, n) next e = absurd (cc)
  and_then_panic (err x, n) next e = absurd x
  and_then_panic (panic, n) next e = refl

  pub changes :
      (n : Node P Sender) (old : ℕ)
      → old ≢ n.node_id
      → update_leader_from (some old) (some n.node_id) n
        ≡ and_then
            (apply_replicated_txns (record n { got_promoted_leader = true }))
            (set_leader n.node_id)
  unfolding update_leader_from
  changes n old other =
      let new : (old == n.node_id) ≡ false = ground arith in
      let own : (n.node_id == n.node_id) ≡ true = (==_iff _ _).1 refl in rw (new, own)

  -- A node that has committed and applied nothing and finds itself leading in the place of another
  -- node panics, where its numbered log has a decided entry.
  pub update_leader-panics :
      (n : Node P Sender) (old : ℕ) (log : List DatabaseLogEntry)
      → n.current_leader ≡ some old
      → OmniPaxosDurability.get_current_leader P n.omni_durability ≡ some n.node_id
      → leads n ≡ true
      → old ≢ n.node_id
      → HasDecided P n.omni_durability.omnipaxos log
      → IsNumbered log
      → 0 < length log
      → n.datastore.next_tx_offset ≡ 0
      → n.last_applied_index ≡ none
      → (update_leader n).0 ≡ panic
  update_leader-panics n old log was now h other decided numbered pos zero_next last =
      rw (update_from n was now, changes n old other)
        (and_then_panic (apply_replicated_txns (record n { got_promoted_leader = true })) _ (
          unfold apply_replicated_txns in
          ap (λ o. (apply_decided o (record n { got_promoted_leader = true })).0)
            (durable_of_numbered P n.omni_durability log decided numbered pos)
          ∙ promoted_panics n (length log - 1) h zero_next last))
