-- ===== src/Node/Runner.antt =====
-- `NodeRunner` of src/node/mod.rs: the loop that ticks, handles messages and reads the receiver. An
-- event is what `select!` takes next; the lock is taken anew for each call, and no other task runs
-- between the three calls of a handling event here. The length of a message in JSON is a parameter.
use distributed_omnipaxos_db.Base.{
  ℕ, none, some, List, [], ◌∷◌, ◌++◌, if◌then◌else◌, Outcome, ok, err, panic, add_u64, ℕ_discrete,
}
use distributed_omnipaxos_db.Base.HashMap
use distributed_omnipaxos_db.Base.HashMap.{HashMap}
use distributed_omnipaxos_db.Durability.OmniPaxos.{OmniPaxos}
use distributed_omnipaxos_db.Durability.OmniPaxosDurability
use distributed_omnipaxos_db.Node.State.{Node, and_then}
use distributed_omnipaxos_db.Node.Apply.{apply_replicated_txns}
use distributed_omnipaxos_db.Node.Methods.{update_leader}

-- What the loop's `select!` takes: a tick, the handling of messages, or a message of the receiver.
pub data Event (Message : Type 0) : Type 0 where
  ticks : Event Message
  handles : Event Message
  receives : Message → Event Message

module _ (P : OmniPaxos) {Sender : Type 0} where
  -- A message for a node that is not connected is skipped.
  unfoldable pub send_all : HashMap ℕ Sender → List P.Message → List (Sender × P.Message)
  send_all connections [] = []
  send_all connections (msg ∷ msgs) =
      let rest = send_all connections msgs in
      elim (HashMap.get ℕ_discrete (P.get_receiver msg) connections) [
        | none ↦ rest
        | some channel ↦ (channel, msg) ∷ rest
      ]

  unfoldable pub send_outgoing_msgs : Node P Sender → List (Sender × P.Message) × Node P Sender
  unfolding send_all
  send_outgoing_msgs n =
      let (out_messages, s) = P.outgoing_messages n.omni_durability.omnipaxos in
      (
        send_all n.connections out_messages,
        record n { omni_durability = record n.omni_durability { omnipaxos = s } },
      )

  abbrev pub sends :
      Outcome ⊥ (Unit {0}) × Node P Sender → Outcome ⊥ (List (Sender × P.Message)) × Node P Sender
  sends (ok _, n) = let (sent, n') = send_outgoing_msgs n in (ok sent, n')
  sends (err e, n) = (err e, n)
  sends (panic, n) = (panic, n)

  -- The branch of `msg_handling_interval`.
  unfoldable pub handle_messages :
      Node P Sender → Outcome ⊥ (List (Sender × P.Message)) × Node P Sender
  unfolding send_outgoing_msgs
  handle_messages n = sends (and_then (update_leader n) apply_replicated_txns)

  abbrev pub counted :
      Outcome ⊥ ℕ
      → P.Message
      → Node P Sender
      → Outcome ⊥ (List (Sender × P.Message)) × Node P Sender
  counted (ok size) msg n = (
    ok [],
    record n {
      received_messages_size = size;
      omni_durability = OmniPaxosDurability.handle_incoming P n.omni_durability msg;
    },
  )
  counted (err e) msg n = (err e, n)
  counted panic msg n = (panic, n)

  -- The branch of the receiver: the size is added up, and the message goes to OmniPaxos.
  unfoldable pub receive :
      (P.Message → ℕ)
      → P.Message
      → Node P Sender
      → Outcome ⊥ (List (Sender × P.Message)) × Node P Sender
  receive json_length msg n = counted (add_u64 n.received_messages_size (json_length msg)) msg n

  unfoldable pub step :
      (P.Message → ℕ)
      → Event P.Message
      → Node P Sender
      → Outcome ⊥ (List (Sender × P.Message)) × Node P Sender
  unfolding handle_messages receive
  step json_length ticks n =
      (ok [], record n { omni_durability = OmniPaxosDurability.tick P n.omni_durability })
  step json_length handles n = handle_messages n
  step json_length (receives msg) n = receive json_length msg n

  abbrev pub append_sent :
      List (Sender × P.Message)
      → Outcome ⊥ (List (Sender × P.Message)) × Node P Sender
      → Outcome ⊥ (List (Sender × P.Message)) × Node P Sender
  append_sent sent (ok more, n) = (ok (sent ++ more), n)
  append_sent sent (err e, n) = (err e, n)
  append_sent sent (panic, n) = (panic, n)

  abbrev pub and_more :
      Outcome ⊥ (List (Sender × P.Message)) × Node P Sender
      → (Node P Sender → Outcome ⊥ (List (Sender × P.Message)) × Node P Sender)
      → Outcome ⊥ (List (Sender × P.Message)) × Node P Sender
  and_more (ok sent, n) next = append_sent sent (next n)
  and_more (err e, n) next = (err e, n)
  and_more (panic, n) next = (panic, n)

  -- The loop over a run of events, as long as the node is running.
  unfoldable pub run :
      (P.Message → ℕ)
      → List (Event P.Message)
      → Node P Sender
      → Outcome ⊥ (List (Sender × P.Message)) × Node P Sender
  unfolding step
  run json_length [] n = (ok [], n)
  run json_length (e ∷ events) n =
      let more = and_more (step json_length e n) (run json_length events) in
      if n.is_running then more else (ok [], n)
