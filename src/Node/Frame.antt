-- ===== src/Node/Frame.antt =====
-- What the leader change and the application of decided entries leave alone in a node
-- (src/node/mod.rs).
use distributed_omnipaxos_db.Base.{
  ℕ, ◌≡◌, refl, ◌∙◌, Bool, true, false, Option, none, some, List, [], ◌∷◌, ◌==◌, if◌then◌else◌,
  Outcome, ok, err, panic,
}
use distributed_omnipaxos_db.TxData.{TxOffset, TxData}
use distributed_omnipaxos_db.Durability.OmniPaxos.{OmniPaxos}
use distributed_omnipaxos_db.Durability.OmniPaxosDurability
use distributed_omnipaxos_db.Datastore.State.{DatastoreError, CommittedState}
use distributed_omnipaxos_db.Datastore.Replay.{replay_transaction}
use distributed_omnipaxos_db.Node.State.{Node, and_then}
use distributed_omnipaxos_db.Node.Apply.{
  applied, apply_transactions, follow_log, lead_log, apply_branch, takes_lead, clear_promoted,
  same_offset, apply_decided, apply_replicated_txns,
}
use distributed_omnipaxos_db.Node.Methods.{
  change_leader, set_leader, update_leader_from, update_leader,
}

module _ {P : OmniPaxos} {Sender : Type 0} where
  pub record SameFrame (n n' : Node P Sender) : Type 0 where
    pub node_id : n'.node_id ≡ n.node_id
    pub omni_durability : n'.omni_durability ≡ n.omni_durability
    pub connections : n'.connections ≡ n.connections
    pub is_running : n'.is_running ≡ n.is_running
    pub received_messages_size : n'.received_messages_size ≡ n.received_messages_size

  same_fields :
      {n n' : Node P Sender}
      → n'.node_id ≡ n.node_id
      → n'.omni_durability ≡ n.omni_durability
      → n'.connections ≡ n.connections
      → n'.is_running ≡ n.is_running
      → n'.received_messages_size ≡ n.received_messages_size
      → SameFrame n n'
  same_fields i d c r z = record {
    node_id = i;
    omni_durability = d;
    connections = c;
    is_running = r;
    received_messages_size = z;
  }

  pub same : {n : Node P Sender} → SameFrame n n
  same = same_fields refl refl refl refl refl

  SameFrame-trans : {n m k : Node P Sender} → SameFrame n m → SameFrame m k → SameFrame n k
  SameFrame-trans f g = record {
    node_id = g.node_id ∙ f.node_id;
    omni_durability = g.omni_durability ∙ f.omni_durability;
    connections = g.connections ∙ f.connections;
    is_running = g.is_running ∙ f.is_running;
    received_messages_size = g.received_messages_size ∙ f.received_messages_size;
  }

  abbrev pub Keeps : (Node P Sender → Outcome ⊥ (Unit {0}) × Node P Sender) → Type 0
  Keeps call = (n : Node P Sender) → SameFrame n (call n).1

  pub and_then-SameFrame :
      (n : Node P Sender) (p : Outcome ⊥ (Unit {0}) × Node P Sender)
      (next : Node P Sender → Outcome ⊥ (Unit {0}) × Node P Sender)
      → SameFrame n p.1
      → Keeps next
      → SameFrame n (and_then p next).1
  and_then-SameFrame n (ok u, m) next f k = SameFrame-trans f (k m)
  and_then-SameFrame n (err e, m) next f k = f
  and_then-SameFrame n (panic, m) next f k = f

  -- What a poll keeps: also the node that is taken for the leader.
  abbrev pub SamePoll : Node P Sender → Node P Sender → Type 0
  SamePoll n n' = SameFrame n n' × (n'.current_leader ≡ n.current_leader)

  abbrev pub Polls : (Node P Sender → Outcome ⊥ (Unit {0}) × Node P Sender) → Type 0
  Polls call = (n : Node P Sender) → SamePoll n (call n).1

  and_then-SamePoll :
      (n : Node P Sender) (p : Outcome ⊥ (Unit {0}) × Node P Sender)
      (next : Node P Sender → Outcome ⊥ (Unit {0}) × Node P Sender)
      → SamePoll n p.1
      → Polls next
      → SamePoll n (and_then p next).1
  and_then-SamePoll n (ok u, m) next f k = (SameFrame-trans f.0 (k m).0, (k m).1 ∙ f.1)
  and_then-SamePoll n (err e, m) next f k = f
  and_then-SamePoll n (panic, m) next f k = f

  choose-holds :
      (Q : Node P Sender → Type 0) (b : Bool) (p q : Outcome ⊥ (Unit {0}) × Node P Sender)
      → Q p.1
      → Q q.1
      → Q (if b then p else q).1
  choose-holds Q true p q f g = f
  choose-holds Q false p q f g = g

  applied-SamePoll :
      (offset : TxOffset) (p : Outcome DatastoreError (Unit {0}) × CommittedState)
      → Polls (applied offset p)
  applied-SamePoll offset (ok u, s) n = (same_fields refl refl refl refl refl, refl)
  applied-SamePoll offset (err e, s) n = (same_fields refl refl refl refl refl, refl)
  applied-SamePoll offset (panic, s) n = (same_fields refl refl refl refl refl, refl)

  apply_transactions-SamePoll :
      (transactions : List (TxOffset × TxData)) → Polls (apply_transactions transactions)
  unfolding apply_transactions
  apply_transactions-SamePoll [] n = (same, refl)
  apply_transactions-SamePoll ((offset, tx_data) ∷ transactions) n =
      and_then-SamePoll n (applied offset (replay_transaction tx_data n.datastore) n)
        (apply_transactions transactions) (applied-SamePoll offset _ n)
        (apply_transactions-SamePoll transactions)

  follow_log-SamePoll : (o : Outcome ⊥ (List (TxOffset × TxData))) → Polls (follow_log o)
  unfolding follow_log
  follow_log-SamePoll (ok transactions) n = apply_transactions-SamePoll transactions n
  follow_log-SamePoll (err e) n = (same, refl)
  follow_log-SamePoll panic n = (same, refl)

  apply_branch-SamePoll : (o : Outcome ⊥ Bool) (decided : TxOffset) → Polls (apply_branch o decided)
  unfolding apply_branch lead_log
  apply_branch-SamePoll (ok true) decided n = (same_fields refl refl refl refl refl, refl)
  apply_branch-SamePoll (ok false) decided n = follow_log-SamePoll _ n
  apply_branch-SamePoll (err e) decided n = (same, refl)
  apply_branch-SamePoll panic decided n = (same, refl)

  clear_promoted-SamePoll : Polls clear_promoted
  clear_promoted-SamePoll n = (same_fields refl refl refl refl refl, refl)

  apply_decided-SamePoll : (o : Option TxOffset) → Polls (apply_decided o)
  unfolding apply_decided
  apply_decided-SamePoll none n = (same, refl)
  apply_decided-SamePoll (some decided) n =
      choose-holds (SamePoll n) (same_offset (some decided) n.last_applied_index) _ _ (same, refl)
        (and_then-SamePoll n (apply_branch (takes_lead decided n) decided n) clear_promoted
          (apply_branch-SamePoll (takes_lead decided n) decided n) clear_promoted-SamePoll)

  pub apply_replicated_txns-SamePoll : Polls apply_replicated_txns
  unfolding apply_replicated_txns
  apply_replicated_txns-SamePoll n = apply_decided-SamePoll _ n

  pub apply_replicated_txns-SameFrame : Keeps apply_replicated_txns
  apply_replicated_txns-SameFrame n = (apply_replicated_txns-SamePoll n).0

  change_leader-SameFrame : (old current : ℕ) → Keeps (change_leader old current)
  unfolding change_leader
  change_leader-SameFrame old current n =
      choose-holds (SameFrame n) (old == n.node_id) _ _ (same_fields refl refl refl refl refl) (
        choose-holds (SameFrame n) (current == n.node_id) _ _
          (SameFrame-trans (same_fields refl refl refl refl refl)
            (apply_replicated_txns-SameFrame (record n { got_promoted_leader = true })))
          same)

  set_leader-SameFrame : (leader : ℕ) → Keeps (set_leader leader)
  set_leader-SameFrame leader n = same_fields refl refl refl refl refl

  update_leader_from-SameFrame : (old current : Option ℕ) → Keeps (update_leader_from old current)
  unfolding update_leader_from
  update_leader_from-SameFrame (some old) (some current) n =
      choose-holds (SameFrame n) (old == current) _ _ same (
        and_then-SameFrame n (change_leader old current n) (set_leader current)
          (change_leader-SameFrame old current n) (set_leader-SameFrame current))
  update_leader_from-SameFrame none (some current) n = set_leader-SameFrame current n
  update_leader_from-SameFrame (some old) none n = same
  update_leader_from-SameFrame none none n = same

  pub update_leader-SameFrame : Keeps update_leader
  unfolding update_leader
  update_leader-SameFrame n =
      update_leader_from-SameFrame n.current_leader
        (OmniPaxosDurability.get_current_leader P n.omni_durability) n
