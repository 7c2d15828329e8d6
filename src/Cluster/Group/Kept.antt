-- ===== src/Cluster/Group/Kept.antt =====
-- What messages, polls and commits keep of the nodes of a group (src/node/mod.rs).
use distributed_omnipaxos_db.Base.{
  ℕ, suc, ◌<◌, ◌≡◌, sym, ◌∙◌, ap, subst, true, List, [], ◌∷◌, ◌++◌, arith, length, ok, u64_mod,
}
use distributed_omnipaxos_db.Durability.OmniPaxos.{OmniPaxos}
use distributed_omnipaxos_db.Durability.OmniPaxosDurability
use distributed_omnipaxos_db.Datastore.State
use distributed_omnipaxos_db.Datastore.State.{CommittedState}
use distributed_omnipaxos_db.Datastore.Session.{Op}
use distributed_omnipaxos_db.Datastore.Replication.{AllTxsFit}
use distributed_omnipaxos_db.Node.State.{Node}
use distributed_omnipaxos_db.Node.Apply.{apply_replicated_txns}
use distributed_omnipaxos_db.Node.Follower.{entries_of}
use distributed_omnipaxos_db.Node.CatchUp.{length-entries_of}
use distributed_omnipaxos_db.Node.Leader.{leads}
use distributed_omnipaxos_db.Node.Frame.{apply_replicated_txns-SameFrame}
use distributed_omnipaxos_db.Cluster.Group.{HasLearned, KeepsDecided, with_state}
use distributed_omnipaxos_db.Cluster.Group.Prefixes.{entries_of-append, entries_of-IsNumbered}
use distributed_omnipaxos_db.Cluster.Group.Promoted.{Role, settled, promoted, leader_polled}
use distributed_omnipaxos_db.Cluster.Group.Applying.{Knows, Progress}
use distributed_omnipaxos_db.Cluster.Group.Polling.{polled}
use distributed_omnipaxos_db.Cluster.Group.Invariant.{
  HasLearned-grown, Progress-grown, InGroup, Heads,
}

module _ {P : OmniPaxos} {Sender : Type 0} where
  pub polled_omni :
      (n : Node P Sender) → (apply_replicated_txns n).1.omni_durability ≡ n.omni_durability
  polled_omni n = (apply_replicated_txns-SameFrame n).omni_durability

  pub polled-InGroup :
      (txs : List (List Op)) (n : Node P Sender)
      → AllTxsFit txs
      → suc (length txs) < u64_mod
      → InGroup txs n
      → ((apply_replicated_txns n).0 ≡ ok tt) × InGroup txs (apply_replicated_txns n).1
  polled-InGroup txs n fits room w =
      let r = polled txs fits room n w.following w.learned w.progress in
      (
        r.0,
        record {
          following = ap (OmniPaxosDurability.is_leader P) (polled_omni n) ∙ w.following;
          learned =
              subst
                (λ (d : OmniPaxosDurability.OmniPaxosDurability P).
                  HasLearned P (entries_of txs State.new) d.omnipaxos)
                (sym (polled_omni n)) w.learned;
          progress = r.1;
        },
      )

  pub Progress-learned :
      (txs : List (List Op)) (n : Node P Sender) (s : P.State)
      → KeepsDecided P n.omni_durability.omnipaxos s
      → Progress txs n
      → Progress txs (with_state s n)
  Progress-learned txs n s k (a, w) = (
    a,
    record {
      within = w.within;
      follows = record {
        mirrors = w.follows.mirrors;
        no_commits = w.follows.no_commits;
        last = w.follows.last;
        next = w.follows.next;
      };
      reads = λ i le. let (e, r) = w.reads i le in (e, k i e r);
    },
  )

  pub Knows-learned :
      (n : Node P Sender) (s : P.State) (a : ℕ)
      → KeepsDecided P n.omni_durability.omnipaxos s
      → Knows n a
      → Knows (with_state s n) a
  Knows-learned n s a k knows i le = let (e, r) = knows i le in (e, k i e r)

  Role-learned :
      (n : Node P Sender) (s : P.State)
      → KeepsDecided P n.omni_durability.omnipaxos s
      → Role n
      → Role (with_state s n)
  Role-learned n s k (settled u) = settled u
  Role-learned n s k (promoted a p last rep lt knows) =
      promoted a p last rep lt (Knows-learned n s a k knows)

  pub Heads-learned :
      (txs : List (List Op)) (n : Node P Sender) (s : P.State)
      → leads (with_state s n) ≡ true
      → KeepsDecided P n.omni_durability.omnipaxos s
      → HasLearned P (entries_of txs State.new) s
      → Heads txs n
      → Heads txs (with_state s n)
  Heads-learned txs n s leading keeps learned w = record {
    leading = leading;
    valid = w.valid;
    next = w.next;
    learned = learned;
    role = Role-learned n s keeps w.role;
  }

  pub Heads-polled :
      (txs : List (List Op)) (n : Node P Sender)
      → suc (length txs) < u64_mod
      → Heads txs n
      → Heads txs (apply_replicated_txns n).1
  Heads-polled txs n room w =
      let r =
        leader_polled n (entries_of txs State.new) w.leading w.role w.learned
          (entries_of-IsNumbered txs (omega (arith, room)))
          (length-entries_of txs State.new ∙ sym w.next)
          (omega (arith, length-entries_of txs State.new, room)) w.valid in
      record {
        leading = ap (OmniPaxosDurability.is_leader P) (polled_omni n) ∙ w.leading;
        valid = r.2.0;
        next = r.2.1 ∙ w.next;
        learned =
            subst
              (λ (d : OmniPaxosDurability.OmniPaxosDurability P).
                HasLearned P (entries_of txs State.new) d.omnipaxos)
              (sym (polled_omni n)) w.learned;
        role = r.1;
      }

  pub InGroup-grown :
      (txs : List (List Op)) (ops : List Op) (n : Node P Sender)
      → InGroup txs n
      → InGroup (txs ++ ops ∷ []) n
  InGroup-grown txs ops n w = record {
    following = w.following;
    learned =
        subst (λ l. HasLearned P l n.omni_durability.omnipaxos)
          (sym (entries_of-append txs ops State.new))
          (HasLearned-grown (entries_of txs State.new) _ _ w.learned);
    progress = Progress-grown txs ops n w.progress;
  }
