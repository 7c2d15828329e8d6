-- ===== src/Examples/Loop.antt =====
-- The loop of a node at concrete inputs: it is connected to 3, and has messages for 2 and 3.
use distributed_omnipaxos_db.Base.{
  ℕ, ◌+◌, ◌≡◌, ◌≢◌, refl, true, false, none, some, List, [], ◌∷◌, All, ok, ℕ_discrete,
}
use distributed_omnipaxos_db.Base.HashMap
use distributed_omnipaxos_db.Datastore.State
use distributed_omnipaxos_db.Durability.OmniPaxosDurability.{
  tick, handle_incoming, get_current_leader, get_durable_tx_offset_optional,
}
use distributed_omnipaxos_db.Node.State.{Node}
use distributed_omnipaxos_db.Node.Apply.{apply_replicated_txns}
use distributed_omnipaxos_db.Node.Methods.{update_leader}
use distributed_omnipaxos_db.Node.Runner.{Event, ticks, handles, receives, run}
use distributed_omnipaxos_db.Node.Running.{Connected, bytes_of, run_lem}
use distributed_omnipaxos_db.Cluster.Connections.{cut_off}
use distributed_omnipaxos_db.Cluster.Silence.{cut_off-run}
use distributed_omnipaxos_db.Examples.Data.{memory_paxos}

abbrev node : Node memory_paxos ℕ
node = record {
  node_id = 1;
  datastore = State.new;
  omni_durability = record {
    omnipaxos = record { entries = []; pending = []; leader = some 1 };
    node_id = 1;
  };
  last_applied_index = none;
  connections = (2, 20) ∷ (3, 30) ∷ [];
  disconnected_connections = [];
  is_running = true;
  current_leader = some 1;
  received_messages_size = 5;
  got_promoted_leader = false;
}

abbrev json_length : ℕ → ℕ
json_length message = message + 100

abbrev events : List (Event ℕ)
events = ticks ∷ receives 1 ∷ handles ∷ receives 1 ∷ []

node_runs : (run memory_paxos json_length events (cut_off 2 node)).0 ≡ ok ((30, 3) ∷ [])
unfolding run update_leader apply_replicated_txns get_current_leader get_durable_tx_offset_optional
    HashMap.get HashMap.remove ℕ_discrete handle_incoming tick
node_runs = refl

run_lem_example :
    let n' = (run memory_paxos json_length events (cut_off 2 node)).1 in
    (n'.connections ≡ (cut_off 2 node).connections)
    × (n'.is_running ≡ true)
    × (n'.received_messages_size ≡ 5 + bytes_of json_length events)
    × All (Connected memory_paxos (cut_off 2 node).connections) ((30, 3) ∷ [])
run_lem_example =
    run_lem memory_paxos json_length events (cut_off 2 node) ((30, 3) ∷ []) refl node_runs

cut_off-run_example : All (λ (s : ℕ × ℕ). memory_paxos.get_receiver s.1 ≢ 2) ((30, 3) ∷ [])
cut_off-run_example =
    cut_off-run memory_paxos json_length events node 2 ((30, 3) ∷ []) refl node_runs
