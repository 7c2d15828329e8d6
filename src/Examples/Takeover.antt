-- ===== src/Examples/Takeover.antt =====
-- A follower takes over from a leader, at concrete inputs.
use distributed_omnipaxos_db.Base.{ℕ, ◌≡◌, refl, true, some, [], ◌∷◌, arith, ok}
use distributed_omnipaxos_db.Durability.OmniPaxosDurability.{is_leader, get_current_leader}
use distributed_omnipaxos_db.Datastore.State.Views.{IsValid, memory_view, replicated_view}
use distributed_omnipaxos_db.Datastore.Replication.{lead}
use distributed_omnipaxos_db.Node.State.{Node}
use distributed_omnipaxos_db.Node.Methods.{update_leader}
use distributed_omnipaxos_db.Node.CatchUp.{Follows}
use distributed_omnipaxos_db.Node.Leader.{leads}
use distributed_omnipaxos_db.Node.Failover.{update_leader-takes_over}
use distributed_omnipaxos_db.Examples.Data.{
  overwrites, overwrites-AllFit, memory_paxos, memory_log-HasDecided, MemoryLog,
}
use distributed_omnipaxos_db.Examples.Replicas.{
  node_of, log, two_decided, mirror, leader, first_replay, log-IsNumbered,
}

abbrev second_leads : MemoryLog
second_leads = record two_decided { leader = some 2 }

-- Node 2 has applied the first entry, and took node 1 for the leader.
abbrev successor : Node memory_paxos ℕ
successor = node_of 2 second_leads mirror (some 0) (some 1)

successor-leads : leads successor ≡ true
unfolding is_leader
successor-leads = refl

successor_leader : get_current_leader memory_paxos successor.omni_durability ≡ some 2
unfolding get_current_leader
successor_leader = refl

successor-Follows : Follows leader 0 successor
successor-Follows = record {
  mirrors = first_replay.1;
  no_commits = first_replay.3;
  last = refl;
  next = first_replay.2;
}

update_leader-takes_over_example :
    let (result, n') = update_leader successor in
    (result ≡ ok tt)
    × (n'.current_leader ≡ some 2)
    × Follows (lead (overwrites ∷ []) leader) 1 n'
    × IsValid n'.datastore
    × (memory_view n'.datastore ≡ memory_view (lead (overwrites ∷ []) leader))
    × (replicated_view n'.datastore ≡ memory_view (lead (overwrites ∷ []) leader))
    × (n'.datastore.next_tx_offset ≡ 2)
update_leader-takes_over_example =
    update_leader-takes_over successor 1 leader (overwrites ∷ []) log 0 refl successor_leader
      successor-leads (omega arith) (memory_log-HasDecided second_leads) log-IsNumbered
      (omega arith) (omega arith) refl (overwrites-AllFit, tt) first_replay.0 successor-Follows
