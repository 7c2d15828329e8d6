-- ===== src/Cluster/Group/Reached.antt =====
-- Every state that a group reaches has its invariant (src/node/mod.rs).
use distributed_omnipaxos_db.Base.{
  ℕ, suc, ◌≤◌, ◌<◌, ◌≡◌, ◌∙◌, ap, subst, some, List, [], ◌∷◌, arith, length, length-append, take,
  u64_mod, All-last, ◌≢◌, true, false, ok,
}
use distributed_omnipaxos_db.Durability.OmniPaxos.{OmniPaxos, HasDecided}
use distributed_omnipaxos_db.Datastore.State
use distributed_omnipaxos_db.Datastore.State.Views.{memory_view, replicated_view}
use distributed_omnipaxos_db.Datastore.Session.{Op, AllFit}
use distributed_omnipaxos_db.Datastore.Replication.{lead}
use distributed_omnipaxos_db.Node.State.{Node}
use distributed_omnipaxos_db.Node.Methods.{update_leader}
use distributed_omnipaxos_db.Node.Leader.{leads}
use distributed_omnipaxos_db.Durability.OmniPaxosDurability
use distributed_omnipaxos_db.Node.Follower.{entries_of}
use distributed_omnipaxos_db.Cluster.Group.{
  Group, HasLearned, KeepsDecided, entry_for, with_state, omni, committed, taught, polled_at,
  taken_over, Step, commits, leader_learns, leader_polls, learns, polls, takes_over, IsStart, Reach,
  start, later,
}
use distributed_omnipaxos_db.Cluster.Group.Prefixes.{length-take, All-take, take-entries_of}
use distributed_omnipaxos_db.Cluster.Group.Promoted.{settled}
use distributed_omnipaxos_db.Cluster.Group.Invariant.{
  InGroup, Heads, Inv, log_grown, length-log, replaced-some, replaced-none,
}
use distributed_omnipaxos_db.Cluster.Group.Kept.{
  polled-InGroup, Progress-learned, Heads-learned, Heads-polled, InGroup-grown,
}
use distributed_omnipaxos_db.Cluster.Group.Steps.{committed-Heads, InGroup-cut, took_over}

module _ {P : OmniPaxos} {Sender : Type 0} where
  learned_of :
      (t : Group P Sender) (s : P.State)
      → Inv t
      → HasLearned P t.log s
      → HasLearned P (entries_of t.txs State.new) s
  learned_of t s inv = subst (λ l. HasLearned P l s) inv.same_log

  take_log :
      (t : Group P Sender) (k : ℕ) → Inv t → take k t.log ≡ entries_of (take k t.txs) State.new
  take_log t k inv = ap (take k) inv.same_log ∙ take-entries_of k t.txs State.new

  commits-Inv :
      (t : Group P Sender) (ops : List Op) (s : P.State)
      → AllFit ops
      → suc (suc (length t.log)) < u64_mod
      → P.append (omni t.leader) (entry_for ops t.leader) ≡ some s
      → leads (with_state s t.leader) ≡ true
      → KeepsDecided P (omni t.leader) s
      → HasLearned P t.log s
      → Inv t
      → Inv (committed ops t)
  commits-Inv t ops s fit small appended leading keeps learned inv = record {
    heads =
        committed-Heads t.txs ops t.leader s fit (omega (arith, small, length-log t inv)) appended
          leading keeps (learned_of t s inv learned) inv.heads;
    fits = All-last AllFit t.txs ops inv.fits fit;
    room = omega (arith, small, length-log t inv, length-append t.txs (ops ∷ []));
    same_log = log_grown ops t inv;
    in_group = λ i n here. InGroup-grown t.txs ops n (inv.in_group i n here);
  }

  learns-Inv :
      (t : Group P Sender) (i : ℕ) (n : Node P Sender) (s : P.State)
      → t.followers i ≡ some n
      → leads (with_state s n) ≡ false
      → KeepsDecided P (omni n) s
      → HasLearned P t.log s
      → Inv t
      → Inv (taught i s n t)
  learns-Inv t i n s here following keeps learned inv = record {
    heads = inv.heads;
    fits = inv.fits;
    room = inv.room;
    same_log = inv.same_log;
    in_group = replaced-some (InGroup t.txs) t.followers i (with_state s n) inv.in_group (record {
      following = following;
      learned = learned_of t s inv learned;
      progress = Progress-learned t.txs n s keeps (inv.in_group i n here).progress;
    });
  }

  polls-Inv :
      (t : Group P Sender) (i : ℕ) (n : Node P Sender)
      → t.followers i ≡ some n
      → Inv t
      → Inv (polled_at i n t)
  polls-Inv t i n here inv = record {
    heads = inv.heads;
    fits = inv.fits;
    room = inv.room;
    same_log = inv.same_log;
    in_group =
        replaced-some (InGroup t.txs) t.followers i _ inv.in_group
          (polled-InGroup t.txs n inv.fits inv.room (inv.in_group i n here)).1;
  }

  leader-Inv :
      (t : Group P Sender) (n : Node P Sender)
      → Heads t.txs n
      → Inv t
      → Inv (record t { leader = n })
  leader-Inv t n heads inv = record {
    heads = heads;
    fits = inv.fits;
    room = inv.room;
    same_log = inv.same_log;
    in_group = inv.in_group;
  }

  -- A change of leader.
  pub takes_over_lem :
      (t : Group P Sender) (i k : ℕ) (n : Node P Sender) (s : P.State) (old : ℕ)
      → t.followers i ≡ some n
      → n.current_leader ≡ some old
      → old ≢ n.node_id
      → OmniPaxosDurability.get_current_leader P (with_state s n).omni_durability ≡ some n.node_id
      → leads (with_state s n) ≡ true
      → KeepsDecided P (omni n) s
      → k ≤ length t.log
      → HasDecided P s (take k t.log)
      → Inv t
      → let (result, n') = update_leader (with_state s n) in
        (result ≡ ok tt)
        × Heads (take k t.txs) n'
        × (n'.current_leader ≡ some n.node_id)
        × (memory_view n'.datastore ≡ memory_view (lead (take k t.txs) State.new))
        × (replicated_view n'.datastore ≡ memory_view (lead (take k t.txs) State.new))
  takes_over_lem t i k n s old here was other now leading keeps le h inv =
      let (b, w) = Progress-learned t.txs n s keeps (inv.in_group i n here).progress in
      took_over t.txs k old b (with_state s n) inv.fits inv.room was other now leading
        (omega (arith, le, length-log t inv)) (subst (HasDecided P s) (take_log t k inv) h) w

  cut-Inv :
      (t : Group P Sender) (i k : ℕ) (n : Node P Sender) (s : P.State)
      → k ≤ length t.log
      → ((j : ℕ) (m : Node P Sender)
          → t.followers j ≡ some m
          → HasLearned P (take k t.log) (omni m))
      → Heads (take k t.txs) (update_leader (with_state s n)).1
      → Inv t
      → Inv (taken_over i k s n t)
  cut-Inv t i k n s le others heads inv = record {
    heads = heads;
    fits = All-take AllFit k t.txs inv.fits;
    room = omega (arith, inv.room, length-take k t.txs short, short);
    same_log = take_log t k inv;
    in_group = replaced-none (InGroup (take k t.txs)) t.followers i (λ j m here.
        InGroup-cut t.txs k m short
          (subst (λ l. HasLearned P l (omni m)) (take_log t k inv) (others j m here))
          (inv.in_group j m here));
  }
    where
      short : k ≤ length t.txs
      short = omega (arith, le, length-log t inv)

  Step-Inv : {t u : Group P Sender} → Step t u → Inv t → Inv u
  Step-Inv {t} (commits ops s fit small appended leading keeps learned) inv =
      commits-Inv t ops s fit small appended leading keeps learned inv
  Step-Inv {t} (leader_learns s leading keeps learned) inv =
      leader-Inv t (with_state s t.leader)
        (Heads-learned t.txs t.leader s leading keeps (learned_of t s inv learned) inv.heads) inv
  Step-Inv {t} leader_polls inv =
      leader-Inv t _ (Heads-polled t.txs t.leader inv.room inv.heads) inv
  Step-Inv {t} (learns i n s here following keeps learned) inv =
      learns-Inv t i n s here following keeps learned inv
  Step-Inv {t} (polls i n here) inv = polls-Inv t i n here inv
  Step-Inv {t} (takes_over i k n s old here was other now leading keeps le h end others) inv =
      cut-Inv t i k n s le others
        (takes_over_lem t i k n s old here was other now leading keeps le h inv).1 inv

  start-Inv : {t : Group P Sender} → IsStart t → Inv t
  start-Inv {t} st = record {
    heads = record {
      leading = st.leading;
      valid = st.valid;
      next = st.next;
      learned = subst (λ l. HasLearned P l (omni t.leader)) st.same_log st.leader_learned;
      role = settled st.unpromoted;
    };
    fits = st.fits;
    room = st.room;
    same_log = st.same_log;
    in_group = λ i n here.
        let f = st.followers_start i n here in
        record {
          following = f.following;
          learned = subst (λ l. HasLearned P l (omni n)) st.same_log f.learned;
          progress = f.progress;
        };
  }

  pub Reach-Inv : {t : Group P Sender} → Reach t → Inv t
  Reach-Inv (start st) = start-Inv st
  Reach-Inv (later r step) = Step-Inv step (Reach-Inv r)
