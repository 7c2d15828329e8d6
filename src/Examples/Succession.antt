-- ===== src/Examples/Succession.antt =====
-- A follower takes over from the leader of a group, at concrete inputs.
use distributed_omnipaxos_db.Base.{
  ℕ, suc, ◌≡◌, ◌≢◌, refl, sym, ap, subst, true, some, [], ◌∷◌, arith, ok,
}
use distributed_omnipaxos_db.Durability.OmniPaxosDurability.{
  is_leader, get_current_leader, is_some_of, OmniPaxosDurability,
}
use distributed_omnipaxos_db.Datastore.State.Views.{memory_view, replicated_view}
use distributed_omnipaxos_db.Datastore.Table.Runs.{after_all, empty}
use distributed_omnipaxos_db.Node.State.{Node}
use distributed_omnipaxos_db.Cluster.Group.{
  Group, taken_over, takes_over, HasLearned, KeepsDecided, Reach, later, omni, with_state,
}
use distributed_omnipaxos_db.Cluster.Group.Invariant.{replaced-some}
use distributed_omnipaxos_db.Cluster.Group.Kept.{polled_omni}
use distributed_omnipaxos_db.Node.Frame.{apply_replicated_txns-SamePoll}
use distributed_omnipaxos_db.Node.Methods.{update_leader}
use distributed_omnipaxos_db.Node.Leader.{leads}
use distributed_omnipaxos_db.Cluster.Group.Agreement.{succeeds_leader}
use distributed_omnipaxos_db.Examples.Data.{
  writes_both, overwrites, MemoryLog, memory_paxos, memory_log-HasDecided,
}
use distributed_omnipaxos_db.Examples.Groups.{
  keeps_more, polled_log, one_decided, mirroring, group_start, two_committed, known, both_known,
  knows_both, second_node, second, second-Reach, second_there,
}
use distributed_omnipaxos_db.Examples.Replicas.{two_decided}

-- Node 2 takes over.
abbrev elected : MemoryLog
elected = record two_decided { leader = some 2 }

was_follower : second_node.current_leader ≡ some 1
was_follower = (apply_replicated_txns-SamePoll known).1

is_second : second_node.node_id ≡ 2
is_second = (apply_replicated_txns-SamePoll known).0.node_id

not_first : 1 ≢ second_node.node_id
not_first same = absurd (omega (arith, same, is_second))

elects_second :
    get_current_leader memory_paxos (with_state elected second_node).omni_durability
    ≡ some second_node.node_id
unfolding get_current_leader
elects_second = sym (ap some is_second)

second_leads : leads (with_state elected second_node) ≡ true
unfolding is_leader
second_leads =
    ap (λ (d : OmniPaxosDurability memory_paxos). is_some_of (some 2) d.node_id) (polled_omni known)

elected_keeps : KeepsDecided memory_paxos (omni second_node) elected
elected_keeps =
    polled_log (λ s. KeepsDecided memory_paxos s elected) known
      (keeps_more two_decided elected [] refl)

succeeds_leader_example :
    let (result, n') = update_leader (with_state elected second_node) in
    (result ≡ ok tt)
    × (n'.current_leader ≡ some second_node.node_id)
    × (n'.datastore.next_tx_offset ≡ 2)
    × (memory_view n'.datastore ≡ after_all (writes_both ∷ overwrites ∷ []) empty)
    × (replicated_view n'.datastore ≡ after_all (writes_both ∷ overwrites ∷ []) empty)
succeeds_leader_example =
    succeeds_leader second-Reach 0 2 second_node elected 1 second_there was_follower not_first
      elects_second second_leads elected_keeps (omega arith) (memory_log-HasDecided elected)

-- What the nodes know of both entries.
abbrev KnowsBoth : Node memory_paxos ℕ → Type 0
KnowsBoth n = HasLearned memory_paxos two_committed.log (omni n)

knows_one : HasLearned memory_paxos two_committed.log one_decided
knows_one = record {
  known = 1;
  within = omega arith;
  has_decided = memory_log-HasDecided one_decided;
}

start_knows :
    (j : ℕ) (m : Node memory_paxos ℕ) → some (mirroring (suc (suc j))) ≡ some m → KnowsBoth m
start_knows j m here = subst KnowsBoth {x = mirroring (suc (suc j))} {y = m} (cc here) knows_one

others_know : (j : ℕ) (m : Node memory_paxos ℕ) → second.followers j ≡ some m → KnowsBoth m
others_know =
    replaced-some KnowsBoth both_known.followers 0 second_node
      (replaced-some KnowsBoth group_start.followers 0 known start_knows knows_both)
      (polled_log (HasLearned memory_paxos two_committed.log) known knows_both)

abbrev succeeded : Group memory_paxos ℕ
succeeded = taken_over 0 2 elected second_node second

succeeded-Reach : Reach succeeded
succeeded-Reach = later second-Reach (
    takes_over 0 2 second_node elected 1 second_there was_follower not_first elects_second
      second_leads elected_keeps (omega arith) (memory_log-HasDecided elected) refl others_know)
