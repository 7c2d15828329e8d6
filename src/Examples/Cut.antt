-- ===== src/Examples/Cut.antt =====
-- Cutting and restoring a connection in a cluster of three nodes.
use distributed_omnipaxos_db.Base.{
  ℕ, ◌≡◌, refl, none, some, [], ◌∷◌, arith, true, false, ok, ite, ℕ_discrete,
}
use distributed_omnipaxos_db.Base.HashMap
use distributed_omnipaxos_db.Base.HashMap.{AllValues}
use distributed_omnipaxos_db.Datastore.State
use distributed_omnipaxos_db.Node.State.{Node}
use distributed_omnipaxos_db.Cluster.{Nodes, delete_connections, reconnect_nodes}
use distributed_omnipaxos_db.Cluster.Connections.{cut_off, delete_connections_lem}
use distributed_omnipaxos_db.Cluster.Reconnect.{
  connection, HasNoDisconnected, reconnect-delete_connections,
}
use distributed_omnipaxos_db.Examples.Data.{memory_paxos}

-- The channel of a node is its number.
abbrev node_of : ℕ → ℕ → ℕ → Node memory_paxos ℕ
node_of node_id b c = record {
  node_id = node_id;
  datastore = State.new;
  omni_durability = record {
    omnipaxos = record { entries = []; pending = []; leader = some 1 };
    node_id = node_id;
  };
  last_applied_index = none;
  connections = (b, b) ∷ (c, c) ∷ [];
  disconnected_connections = [];
  is_running = true;
  current_leader = some 1;
  received_messages_size = 0;
  got_promoted_leader = false;
}

abbrev cluster : Nodes memory_paxos ℕ
cluster = (1, node_of 1 2 3) ∷ (2, node_of 2 1 3) ∷ (3, node_of 3 1 2) ∷ []

at_one : HashMap.get ℕ_discrete 1 cluster ≡ some (node_of 1 2 3)
unfolding HashMap.get ℕ_discrete
at_one = refl

at_two : HashMap.get ℕ_discrete 2 cluster ≡ some (node_of 2 1 3)
unfolding HashMap.get ℕ_discrete
at_two = refl

delete_connections_lem_example :
    let (result, nodes') = delete_connections 1 2 cluster in
    (result ≡ ok tt)
    × (HashMap.get ℕ_discrete 3 nodes'
        ≡ ite (ℕ_discrete 1 3) (some (cut_off 2 (node_of 1 2 3))) (
            ite
              (ℕ_discrete 2 3)
              (some (cut_off 1 (node_of 2 1 3)))
              (HashMap.get ℕ_discrete 3 cluster)))
delete_connections_lem_example =
    delete_connections_lem 1 2 cluster (node_of 1 2 3) (node_of 2 1 3) (omega arith) at_one at_two 3

none_cut : AllValues HasNoDisconnected cluster
none_cut = (refl, (refl, (refl, tt)))

reconnect-delete_connections_example :
    connection (reconnect_nodes (delete_connections 1 2 cluster).1) 2 1 ≡ connection cluster 2 1
reconnect-delete_connections_example =
    reconnect-delete_connections 1 2 cluster (node_of 1 2 3) (node_of 2 1 3) 2 1 (omega arith)
      at_one at_two none_cut
