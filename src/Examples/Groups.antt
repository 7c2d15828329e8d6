-- ===== src/Examples/Groups.antt =====
-- A leader and its followers at concrete inputs: the followers mirror the leader's first transaction,
-- the leader commits a second one, and one of them learns of it.
use distributed_omnipaxos_db.Base.{
  ℕ, zero, suc, ◌≤◌, ◌≡◌, refl, sym, subst, ℕ_discrete, some, List, [], ◌∷◌, ◌++◌, arith, ok, take,
  get_elem?, none, drop,
}
use distributed_omnipaxos_db.Durability.Entry.{DatabaseLogEntry}
use distributed_omnipaxos_db.Durability.OmniPaxos.{decided}
use distributed_omnipaxos_db.Durability.OmniPaxosDurability.{is_leader, OmniPaxosDurability}
use distributed_omnipaxos_db.Datastore.State
use distributed_omnipaxos_db.Datastore.State.Views.{replicated_view}
use distributed_omnipaxos_db.Datastore.Table.Runs.{after_all, empty}
use distributed_omnipaxos_db.Node.State.{Node}
use distributed_omnipaxos_db.Node.Apply.{apply_replicated_txns}
use distributed_omnipaxos_db.Node.Follower.{entries_of}
use distributed_omnipaxos_db.Cluster.Group.{
  Group, HasLearned, committed, taught, polled_at, commits, learns, polls, KeepsDecided, Reach,
  start, later, IsStart, IsFollowing, entry_for, omni, with_state,
}
use distributed_omnipaxos_db.Cluster.Group.Kept.{polled_omni}
use distributed_omnipaxos_db.Cluster.Group.Agreement.{
  applied_count, shows_prefix, followers_agree, catches_up,
}
use distributed_omnipaxos_db.Examples.Data.{
  MemoryLog, memory_paxos, memory_log-HasDecided, read_log, read_pending-undecided, writes_both,
  overwrites, writes_both-AllFit, overwrites-AllFit,
}
use distributed_omnipaxos_db.Examples.Replicas.{two_decided, node_of, leader, mirror, first_replay}

reads_more :
    (xs ys : List DatabaseLogEntry) (a b : MemoryLog) (i : ℕ) (e : DatabaseLogEntry)
    → read_log (get_elem? xs i) a ≡ some (decided e)
    → read_log (get_elem? (xs ++ ys) i) b ≡ some (decided e)
reads_more [] ys a b i e found = absurd (read_pending-undecided a.pending e found)
reads_more (x ∷ xs) ys a b zero e found = found
reads_more (x ∷ xs) ys a b (suc i) e found = reads_more xs ys a b i e found

pub keeps_more :
    (a b : MemoryLog) (ys : List DatabaseLogEntry)
    → b.entries ≡ a.entries ++ ys
    → KeepsDecided memory_paxos a b
keeps_more a b ys more i e found =
    subst (λ l. read_log (get_elem? l i) b ≡ some (decided e)) (sym more)
      (reads_more a.entries ys a b i e found)

-- A poll leaves the log as it is.
pub polled_log :
    (Q : MemoryLog → Type 0) (n : Node memory_paxos ℕ)
    → Q (omni n)
    → Q (omni (apply_replicated_txns n).1)
polled_log Q n =
    subst (λ (d : OmniPaxosDurability memory_paxos). Q d.omnipaxos) (sym (polled_omni n))

-- The first entry is decided.
abbrev pub first_log : List DatabaseLogEntry
first_log = entries_of (writes_both ∷ []) State.new

abbrev pub one_decided : MemoryLog
one_decided = record { entries = first_log; pending = []; leader = some 1 }

abbrev pub mirroring : ℕ → Node memory_paxos ℕ
mirroring node_id = node_of node_id one_decided mirror (some 0) (some 1)

-- Node 1 leads the nodes from 2 on.
abbrev pub group_start : Group memory_paxos ℕ
group_start = record {
  leader = node_of 1 one_decided leader none (some 1);
  followers = λ i. some (mirroring (suc (suc i)));
  log = first_log;
  txs = writes_both ∷ [];
}

reads_first :
    (i : ℕ)
    → i ≤ 0
    → (e : DatabaseLogEntry) × (read_log (get_elem? first_log i) one_decided ≡ some (decided e))
reads_first zero le = (entry_for writes_both (node_of 1 one_decided State.new none none), refl)
reads_first (suc i) le = absurd (omega arith)

is_following :
    (i : ℕ) (n : Node memory_paxos ℕ)
    → some (mirroring (suc (suc i))) ≡ some n
    → IsFollowing group_start n
unfolding is_leader
is_following i n here =
    subst (IsFollowing group_start) {x = mirroring (suc (suc i))} {y = n} (cc here) (record {
      following = ground arith;
      learned = record {
        known = 1;
        within = omega arith;
        has_decided = memory_log-HasDecided one_decided;
      };
      progress = (
        0,
        record {
          within = omega arith;
          follows = record {
            mirrors = first_replay.1;
            no_commits = first_replay.3;
            last = refl;
            next = first_replay.2;
          };
          reads = reads_first;
        },
      );
    })

group_start-IsStart : IsStart group_start
unfolding is_leader
group_start-IsStart = record {
  leading = refl;
  unpromoted = refl;
  valid = first_replay.0;
  next = first_replay.2;
  leader_learned = record {
    known = 1;
    within = omega arith;
    has_decided = memory_log-HasDecided one_decided;
  };
  same_log = refl;
  fits = (writes_both-AllFit, tt);
  room = omega arith;
  followers_start = is_following;
}

-- The leader commits a second transaction.
abbrev pub pending_second : MemoryLog
pending_second = record one_decided { pending = entry_for overwrites group_start.leader ∷ [] }

abbrev pub two_committed : Group memory_paxos ℕ
two_committed = committed overwrites group_start

two_committed-Reach : Reach two_committed
unfolding is_leader
two_committed-Reach = later (start group_start-IsStart) (
    commits overwrites pending_second overwrites-AllFit (omega arith) refl refl
      (keeps_more one_decided pending_second [] refl)
      (record {
        known = 1;
        within = omega arith;
        has_decided = memory_log-HasDecided pending_second;
      }))

-- Node 2 learns that both entries are decided.
abbrev pub known : Node memory_paxos ℕ
known = with_state two_decided (mirroring 2)

abbrev pub both_known : Group memory_paxos ℕ
both_known = taught 0 two_decided (mirroring 2) two_committed

pub knows_both : HasLearned memory_paxos two_committed.log two_decided
knows_both = record {
  known = 2;
  within = omega arith;
  has_decided = memory_log-HasDecided two_decided;
}

both_known-Reach : Reach both_known
unfolding is_leader
both_known-Reach = later two_committed-Reach (
    learns 0 (mirroring 2) two_decided refl refl
      (keeps_more one_decided two_decided (entry_for overwrites group_start.leader ∷ []) refl)
      knows_both)

known_there : both_known.followers 0 ≡ some known
unfolding ℕ_discrete
known_there = refl

abbrev pub second_node : Node memory_paxos ℕ
second_node = (apply_replicated_txns known).1

abbrev pub second : Group memory_paxos ℕ
second = polled_at 0 known both_known

pub second-Reach : Reach second
second-Reach = later both_known-Reach (polls 0 known known_there)

pub second_there : second.followers 0 ≡ some second_node
unfolding ℕ_discrete
second_there = refl

third_there : second.followers 1 ≡ some (mirroring 3)
unfolding ℕ_discrete
third_there = refl

catches_up_example :
    let (result, n') = apply_replicated_txns known in
    (result ≡ ok tt)
    × (n'.last_applied_index ≡ some 1)
    × (replicated_view n'.datastore ≡ after_all (writes_both ∷ overwrites ∷ []) empty)
catches_up_example =
    catches_up both_known-Reach 0 2 known known_there (omega arith)
      (memory_log-HasDecided two_decided)

shows_prefix_example :
    replicated_view second_node.datastore
    ≡ after_all
        (take (applied_count second_node.last_applied_index) (writes_both ∷ overwrites ∷ []))
        empty
shows_prefix_example = shows_prefix second-Reach 0 second_node second_there

second_node_last : second_node.last_applied_index ≡ some 1
second_node_last =
    (catches_up both_known-Reach 0 2 known known_there (omega arith)
      (memory_log-HasDecided two_decided)).1

-- Node 3 is one entry behind.
followers_agree_example :
    replicated_view second_node.datastore
    ≡ after_all
        (drop 1
          (take (applied_count second_node.last_applied_index) (writes_both ∷ overwrites ∷ [])))
        (replicated_view (mirroring 3).datastore)
followers_agree_example =
    followers_agree second-Reach 1 0 (mirroring 3) second_node third_there second_there
      (subst (λ l. applied_count (some 0) ≤ applied_count l) (sym second_node_last) (omega arith))
