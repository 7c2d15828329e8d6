-- ===== src/Node/Failover.antt =====
-- A follower that becomes the leader (`update_leader` of src/node/mod.rs).
use distributed_omnipaxos_db.Base.{
  ℕ, ◌+◌, ◌-◌, ◌<◌, ◌≡◌, ◌≢◌, refl, ◌∙◌, fun_ext, true, false, some, List, [], arith, length, drop,
  ok, u64_mod, ◌==◌,
}
use distributed_omnipaxos_db.Base.HashMap
use distributed_omnipaxos_db.TxData.{TxOffset}
use distributed_omnipaxos_db.Durability.Entry.{DatabaseLogEntry}
use distributed_omnipaxos_db.Durability.OmniPaxos.{OmniPaxos, HasDecided}
use distributed_omnipaxos_db.Durability.OmniPaxosDurability
use distributed_omnipaxos_db.Datastore.State.{CommittedState, get_cur_offset}
use distributed_omnipaxos_db.Datastore.State.Views.{IsValid, memory_view, replicated_view}
use distributed_omnipaxos_db.Datastore.Session.{Op}
use distributed_omnipaxos_db.Datastore.Replication.{lead, AllTxsFit}
use distributed_omnipaxos_db.Node.State.{Node, and_then_ok}
use distributed_omnipaxos_db.Node.Apply.{takes_lead, apply_replicated_txns}
use distributed_omnipaxos_db.Node.Methods.{update_leader, set_leader}
use distributed_omnipaxos_db.Node.Follower.{entries_of}
use distributed_omnipaxos_db.Node.CatchUp.{IsNumbered, Follows, follower_branch-Follows}
use distributed_omnipaxos_db.Node.Leader.{leads, update_from}
use distributed_omnipaxos_db.Node.Promotion.{changes}

-- A state without commits of its own is valid, and shows the same at both levels.
no_commits-IsValid :
    (s : CommittedState) → s.committed_diff ≡ [] → s.next_tx_offset < u64_mod → IsValid s
no_commits-IsValid s e room = record { distinct = rw e tt; histories = rw e tt; bounded = room }

no_commits-views : (s : CommittedState) → s.committed_diff ≡ [] → memory_view s ≡ replicated_view s
unfolding HashMap.get
no_commits-views s e = rw e refl

pub cur_offset_of :
    (s : CommittedState) (a : ℕ) → s.next_tx_offset ≡ a + 1 → get_cur_offset s ≡ some a
unfolding get_cur_offset
cur_offset_of s a e = rw e (ground arith)

module _ {P : OmniPaxos} {Sender : Type 0} where
  -- A promoted node that is behind does not take the leader's branch.
  behind_follows :
      (n : Node P Sender) (o a : TxOffset)
      → leads n ≡ true
      → n.got_promoted_leader ≡ true
      → n.datastore.next_tx_offset ≡ a + 1
      → o ≢ a
      → takes_lead o n ≡ ok false
  unfolding takes_lead
  behind_follows n o a l p next ne =
      let other : (a == o) ≡ false = ground arith in
      rw (l, p, cur_offset_of n.datastore a next, other) refl

  -- A node that mirrors a valid leader as of the entry at `a`, its last applied one, and finds
  -- itself leading in the place of another node, takes the decided entries behind `a`, where the
  -- log is numbered and holds there what the old leader appended for its next transactions. The
  -- call succeeds and notes the node as the leader. Its datastore is valid, shows at both levels
  -- the table that the old leader had in memory after these transactions, and gives out the length
  -- of the decided log as its next offset.
  pub update_leader-takes_over :
      (n : Node P Sender) (old : ℕ) (leader : CommittedState) (txs : List (List Op))
      (log : List DatabaseLogEntry) (a : TxOffset)
      → n.current_leader ≡ some old
      → OmniPaxosDurability.get_current_leader P n.omni_durability ≡ some n.node_id
      → leads n ≡ true
      → old ≢ n.node_id
      → HasDecided P n.omni_durability.omnipaxos log
      → IsNumbered log
      → a < length log
      → length log + 1 < u64_mod
      → drop (a + 1) log ≡ entries_of txs leader
      → AllTxsFit txs
      → IsValid leader
      → Follows leader a n
      → let (result, n') = update_leader n in
        (result ≡ ok tt)
        × (n'.current_leader ≡ some n.node_id)
        × Follows (lead txs leader) (length log - 1) n'
        × IsValid n'.datastore
        × (memory_view n'.datastore ≡ memory_view (lead txs leader))
        × (replicated_view n'.datastore ≡ memory_view (lead txs leader))
        × (n'.datastore.next_tx_offset ≡ length log)
  update_leader-takes_over n old leader txs log a was now l other h numbered lt room rest fit v w =
      rw
        (
          update_from n was now,
          changes n old other,
          and_then_ok (apply_replicated_txns promoted) (set_leader n.node_id) caught_up.0,
        )
        (
          refl,
          refl,
          record {
            mirrors = caught_up.1.mirrors;
            no_commits = caught_up.1.no_commits;
            last = caught_up.1.last;
            next = caught_up.1.next;
          },
          no_commits-IsValid after caught_up.1.no_commits (omega (arith, next, room)),
          no_commits-views after caught_up.1.no_commits ∙ fun_ext caught_up.1.mirrors.views,
          fun_ext caught_up.1.mirrors.views,
          next,
        )
    where
      promoted : Node P Sender
      promoted = record n { got_promoted_leader = true }

      after : CommittedState
      after = (apply_replicated_txns promoted).1.datastore

      begun : n.datastore.next_tx_offset ≡ a + 1
      begun = w.mirrors.next ∙ w.next

      caught_up :
          let (result, n') = apply_replicated_txns promoted in
          (result ≡ ok tt) × Follows (lead txs leader) (length log - 1) n'
      caught_up =
          follower_branch-Follows promoted leader txs log a
            (behind_follows promoted (length log - 1) a l refl begun) h numbered lt room rest fit v
            (record {
              mirrors = w.mirrors;
              no_commits = w.no_commits;
              last = w.last;
              next = w.next;
            })

      next : after.next_tx_offset ≡ length log
      next = omega (arith, caught_up.1.mirrors.next, caught_up.1.next, lt)
