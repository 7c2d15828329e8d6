-- ===== src/Cluster.antt =====
-- src/utils.rs: the nodes of a cluster, their channels, and cutting and restoring connections. A
-- channel is a number that its sender and its receiver share; no lock is poisoned.
pub mod Connections
pub mod Spawning
pub mod Reconnect
pub mod Silence
pub mod Group
use mathlib.Core.List.{foldl}
use distributed_omnipaxos_db.Base.{
  ℕ, zero, suc, ◌+◌, Option, none, some, List, [], ◌∷◌, map, Outcome, ok, err, panic, ◌>>=◌,
  ℕ_discrete,
}
use distributed_omnipaxos_db.Base.HashMap
use distributed_omnipaxos_db.Base.HashMap.{HashMap}
use distributed_omnipaxos_db.Durability.OmniPaxos.{OmniPaxos}
use distributed_omnipaxos_db.Durability.OmniPaxosDurability
use distributed_omnipaxos_db.Node.State
use distributed_omnipaxos_db.Node.State.{Node}

abbrev pub Nodes : OmniPaxos → Type 0 → Type 0
Nodes P Sender = HashMap ℕ (Node P Sender)

-- One channel for each server; a server that is listed twice keeps the channel made last.
unfoldable pub initialise_channels : List ℕ → ℕ → HashMap ℕ ℕ → HashMap ℕ ℕ × HashMap ℕ ℕ
initialise_channels [] next senders = (senders, senders)
initialise_channels (pid ∷ servers) next senders =
    initialise_channels servers (next + 1) (HashMap.insert ℕ_discrete pid next senders)

-- The receiver of a node is taken out; a server that is listed twice finds none, and panics.
unfoldable pub spawn :
    (P : OmniPaxos)
    → List ℕ
    → List ℕ
    → HashMap ℕ ℕ
    → HashMap ℕ ℕ
    → HashMap ℕ (Node P ℕ × ℕ)
    → Outcome ⊥ (HashMap ℕ (Node P ℕ × ℕ))
spawn P servers [] senders receivers nodes = ok nodes
spawn P servers (pid ∷ pids) senders receivers nodes = do
  receiver ← OmniPaxosDurability.unwrap (HashMap.get ℕ_discrete pid receivers)
  node ← State.new P ℕ pid servers (HashMap.remove ℕ_discrete pid senders)
  spawn P servers pids senders (HashMap.remove ℕ_discrete pid receivers)
      (HashMap.insert ℕ_discrete pid (node, receiver) nodes)

unfoldable pub spawn_nodes : (P : OmniPaxos) → List ℕ → Outcome ⊥ (HashMap ℕ (Node P ℕ × ℕ))
unfolding initialise_channels spawn
spawn_nodes P servers =
    let (senders, receivers) = initialise_channels servers 0 [] in
    spawn P servers servers senders receivers []

-- The loop over the disconnected connections of a node.
unfoldable pub reconnect :
    {Sender : Type 0} → HashMap ℕ Sender → HashMap ℕ Sender → HashMap ℕ Sender
reconnect [] connections = connections
reconnect ((id, connection) ∷ disconnected) connections =
    reconnect disconnected (HashMap.insert ℕ_discrete id connection connections)

module _ {P : OmniPaxos} {Sender : Type 0} where
  abbrev pub then_do {ℓ κ} :
      {A : Type ℓ} {B : Type κ}
      → Outcome ⊥ A × Nodes P Sender
      → (A → Nodes P Sender → Outcome ⊥ B × Nodes P Sender)
      → Outcome ⊥ B × Nodes P Sender
  then_do (ok a, nodes) next = next a nodes
  then_do (err e, nodes) next = (err e, nodes)
  then_do (panic, nodes) next = (panic, nodes)

  -- `nodes.get(&id).unwrap().0.lock().unwrap()` and a change of the node.
  abbrev pub changed {ℓ} :
      {A : Type ℓ}
      → Option (Node P Sender)
      → ℕ
      → (Node P Sender → A × Node P Sender)
      → Nodes P Sender
      → Outcome ⊥ A × Nodes P Sender
  changed none id f nodes = (panic, nodes)
  changed (some n) id f nodes = (ok (f n).0, HashMap.insert ℕ_discrete id (f n).1 nodes)

  unfoldable pub change {ℓ} :
      {A : Type ℓ}
      → ℕ
      → (Node P Sender → A × Node P Sender)
      → Nodes P Sender
      → Outcome ⊥ A × Nodes P Sender
  change id f nodes = changed (HashMap.get ℕ_discrete id nodes) id f nodes

  -- `connections.remove(&other)`
  abbrev pub cut : ℕ → Node P Sender → Option Sender × Node P Sender
  cut other n = (
    HashMap.get ℕ_discrete other n.connections,
    record n { connections = HashMap.remove ℕ_discrete other n.connections },
  )

  -- `disconnected_connections.insert(other, connection)`
  abbrev pub save : ℕ → Sender → Node P Sender → Unit {0} × Node P Sender
  save other connection n = (
    tt,
    record n {
      disconnected_connections =
          HashMap.insert ℕ_discrete other connection n.disconnected_connections;
    },
  )

  unfoldable pub save_if :
      ℕ → ℕ → Option Sender → Nodes P Sender → Outcome ⊥ (Unit {0}) × Nodes P Sender
  unfolding change
  save_if id other none nodes = (ok tt, nodes)
  save_if id other (some connection) nodes = change id (save other connection) nodes

  unfoldable pub delete_connections : ℕ → ℕ → Nodes P Sender → Outcome ⊥ (Unit {0}) × Nodes P Sender
  unfolding change save_if
  delete_connections node_a node_b nodes =
      then_do (change node_a (cut node_b) nodes) (λ connection_a nodes1.
        then_do (change node_b (cut node_a) nodes1) (λ connection_b nodes2.
          then_do (save_if node_a node_b connection_a nodes2)
            (λ _ nodes3. save_if node_b node_a connection_b nodes3)))

  unfoldable pub reconnect_node : Node P Sender → Node P Sender
  unfolding reconnect
  reconnect_node n = record n {
    connections = reconnect n.disconnected_connections n.connections;
    disconnected_connections = [];
  }

  unfoldable pub reconnect_nodes : Nodes P Sender → Nodes P Sender
  unfolding reconnect_node
  reconnect_nodes [] = []
  reconnect_nodes ((id, n) ∷ nodes) = (id, reconnect_node n) ∷ reconnect_nodes nodes
