-- ===== src/Node/State.antt =====
-- `Node` of src/node/mod.rs: the state of a replica, with what starts and stops it.
use distributed_omnipaxos_db.Base.{
  ℕ, Bool, true, false, Option, none, List, [], ◌≡◌, refl, Outcome, ok, err, panic, ◌>>=◌,
}
use distributed_omnipaxos_db.Base.HashMap.{HashMap}
use distributed_omnipaxos_db.TxData.{TxOffset}
use distributed_omnipaxos_db.Durability.OmniPaxos.{OmniPaxos}
use distributed_omnipaxos_db.Durability.OmniPaxosDurability
use distributed_omnipaxos_db.Durability.OmniPaxosDurability.{OmniPaxosDurability}
use distributed_omnipaxos_db.Datastore.State
use distributed_omnipaxos_db.Datastore.State.{
  DatastoreError, not_leader, CommittedState, get_cur_offset, advance_replicated_durability_offset,
  rollback_to_replicated_durability_offset,
}

pub record Node (P : OmniPaxos) (Sender : Type 0) : Type 0 where
  pub node_id : ℕ
  pub datastore : CommittedState
  pub omni_durability : OmniPaxosDurability P
  pub last_applied_index : Option TxOffset
  pub connections : HashMap ℕ Sender
  pub disconnected_connections : HashMap ℕ Sender
  pub is_running : Bool
  pub current_leader : Option ℕ
  pub received_messages_size : ℕ
  pub got_promoted_leader : Bool

-- Printed errors are dropped; a panic unwinds.
abbrev pub only_panic {ℓ} : {E : Type ℓ} → Outcome E (Unit {0}) → Outcome ⊥ (Unit {0})
only_panic (ok _) = ok tt
only_panic (err e) = ok tt
only_panic panic = panic

module _ (P : OmniPaxos) (Sender : Type 0) where
  unfoldable pub new : ℕ → List ℕ → HashMap ℕ Sender → Outcome ⊥ (Node P Sender)
  new node_id servers connections = do
    omni_durability ← OmniPaxosDurability.new P node_id servers
    ok (record {
      node_id = node_id;
      datastore = State.new;
      omni_durability = omni_durability;
      last_applied_index = none;
      connections = connections;
      disconnected_connections = [];
      is_running = true;
      current_leader = none;
      received_messages_size = 0;
      got_promoted_leader = false;
    })

module _ {P : OmniPaxos} {Sender : Type 0} where
  unfoldable pub stop : Node P Sender → Node P Sender
  stop n = record n { is_running = false }

  abbrev pub and_then :
      Outcome ⊥ (Unit {0}) × Node P Sender
      → (Node P Sender → Outcome ⊥ (Unit {0}) × Node P Sender)
      → Outcome ⊥ (Unit {0}) × Node P Sender
  and_then (ok _, n) next = next n
  and_then (err e, n) next = (err e, n)
  and_then (panic, n) next = (panic, n)

  pub and_then_ok :
      (p : Outcome ⊥ (Unit {0}) × Node P Sender)
      (next : Node P Sender → Outcome ⊥ (Unit {0}) × Node P Sender)
      → p.0 ≡ ok tt
      → and_then p next ≡ next p.1
  and_then_ok (ok _, n) next e = refl
  and_then_ok (err x, n) next e = absurd x
  and_then_ok (panic, n) next e = absurd (cc)
