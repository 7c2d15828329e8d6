-- ===== src/Examples/Deposition.antt =====
-- A leader loses its place with a transaction that is not decided, at concrete inputs.
use distributed_omnipaxos_db.Base.{
  ℕ, ◌≡◌, refl, sym, ap, true, some, [], ◌∷◌, ◌++◌, arith, ok, u64_mod, ◌+◌, ◌<◌,
}
use distributed_omnipaxos_db.Durability.OmniPaxosDurability.{
  is_leader, is_some_of, get_current_leader, get_durable_tx_offset_optional, OmniPaxosDurability,
}
use distributed_omnipaxos_db.Node.State.{Node}
use distributed_omnipaxos_db.Node.Apply.{apply_replicated_txns}
use distributed_omnipaxos_db.Node.Methods.{update_leader}
use distributed_omnipaxos_db.Node.CatchUp.{Follows, durable_of_numbered}
use distributed_omnipaxos_db.Node.Leader.{leads}
use distributed_omnipaxos_db.Cluster.Group.{run_tx, entry_for, with_state, omni}
use distributed_omnipaxos_db.Cluster.Group.Promoted.{settled, leader_polled}
use distributed_omnipaxos_db.Cluster.Group.Kept.{polled_omni}
use distributed_omnipaxos_db.Cluster.Group.Deposed.{rests, runs, deposed_leader-Follows}
use distributed_omnipaxos_db.Examples.Data.{
  MemoryLog, memory_paxos, memory_log-HasDecided, overwrites, overwrites-AllFit,
}
use distributed_omnipaxos_db.Examples.Replicas.{leader, first_replay, new_next, one-IsNumbered}
use distributed_omnipaxos_db.Examples.Groups.{one_decided, group_start}

-- Node 1 leads, and its first transaction is decided.
abbrev first : Node memory_paxos ℕ
first = group_start.leader

abbrev polled : Node memory_paxos ℕ
polled = (apply_replicated_txns first).1

-- It commits a second one.
abbrev appended : MemoryLog
appended = record (omni polled) {
  pending = (omni polled).pending ++ entry_for overwrites polled ∷ [];
}

abbrev ahead : Node memory_paxos ℕ
ahead = (run_tx overwrites polled).1

first-leads : leads first ≡ true
unfolding is_leader
first-leads = refl

still-leads : leads (with_state appended polled) ≡ true
unfolding is_leader
still-leads =
    ap (λ (d : OmniPaxosDurability memory_paxos). is_some_of d.omnipaxos.leader d.node_id)
      (polled_omni first)

-- The poll leaves the next offset alone.
room_left : polled.datastore.next_tx_offset + 1 < u64_mod
room_left =
    let r =
      leader_polled first one_decided.entries first-leads (settled refl)
        (record {
          known = 1;
          within = omega arith;
          has_decided = memory_log-HasDecided one_decided;
        })
        (one-IsNumbered _ new_next) (sym first_replay.2) (omega arith) first_replay.0 in
    omega (arith, r.2.1, first_replay.2)

first_durable : get_durable_tx_offset_optional memory_paxos first.omni_durability ≡ some 0
first_durable =
    durable_of_numbered memory_paxos first.omni_durability one_decided.entries
      (memory_log-HasDecided one_decided) (one-IsNumbered _ new_next) (omega arith)

-- Node 2 leads instead.
abbrev deposed : MemoryLog
deposed = record one_decided { leader = some 2 }

deposed_leader : get_current_leader memory_paxos (with_state deposed ahead).omni_durability ≡ some 2
unfolding get_current_leader
deposed_leader = refl

deposed_leader-Follows_example :
    let (result, n') = update_leader (with_state deposed ahead) in
    (result ≡ ok tt) × (n'.current_leader ≡ some 2) × Follows leader 0 n'
deposed_leader-Follows_example =
    deposed_leader-Follows first ahead 0 deposed 2 first-leads refl refl first_durable
      (λ e. absurd (cc e)) first_replay.0 first_replay.2
      (runs overwrites appended rests overwrites-AllFit room_left refl still-leads) deposed_leader
      (λ e. absurd (omega (arith, e)))
