-- ===== src/Cluster/Group/Polling.antt =====
-- What a poll of a follower does in a group (`apply_replicated_txns` of src/node/mod.rs).
use distributed_omnipaxos_db.Base.{
  ℕ, suc, ◌-◌, ◌≤◌, ◌<◌, ◌≡◌, ◌∙◌, ap, subst, false, List, arith, length, take, drop, ok, u64_mod,
}
use mathlib.Core.Path.{ap₂}
use distributed_omnipaxos_db.Durability.Entry.{DatabaseLogEntry}
use distributed_omnipaxos_db.Durability.OmniPaxos.{OmniPaxos, HasDecided}
use distributed_omnipaxos_db.Datastore.State
use distributed_omnipaxos_db.Datastore.State.{CommittedState}
use distributed_omnipaxos_db.Datastore.Session.{Op, AllFit}
use distributed_omnipaxos_db.Datastore.Replication.{lead, AllTxsFit}
use distributed_omnipaxos_db.Node.State.{Node}
use distributed_omnipaxos_db.Node.Apply.{apply_replicated_txns}
use distributed_omnipaxos_db.Node.Follower.{entries_of}
use distributed_omnipaxos_db.Node.CatchUp.{
  length-entries_of, Follows, apply_replicated_txns-Follows,
}
use distributed_omnipaxos_db.Node.Leader.{leads}
use distributed_omnipaxos_db.Cluster.Group.{HasLearned}
use distributed_omnipaxos_db.Cluster.Group.Prefixes.{
  length-take, All-take, All-drop, take-entries_of, entries_of-IsNumbered, rest_of_log, lead_rest,
  begun-IsValid,
}
use distributed_omnipaxos_db.Cluster.Group.Applying.{
  reads_below, behind_decided, same_reads, Applied, Progress,
}

module _ {P : OmniPaxos} {Sender : Type 0} where
  module _ (txs : List (List Op)) (fits : AllTxsFit txs) (room : suc (length txs) < u64_mod) where
    -- A poll brings the node to the last entry that it knows to be decided.
    pub poll_behind :
        (n : Node P Sender) (a k : ℕ)
        → leads n ≡ false
        → k ≤ length txs
        → HasDecided P n.omni_durability.omnipaxos (entries_of (take k txs) State.new)
        → Applied txs a n
        → let (result, n') = apply_replicated_txns n in
          (result ≡ ok tt) × (suc (k - 1) ≡ k) × Applied txs (k - 1) n'
    poll_behind n a k f le h w = (
      taken.0,
      omega (arith, past, size),
      record {
        within = omega arith;
        follows = taken.1;
        reads = λ i below.
            same_reads n i
              (reads_below n.omni_durability.omnipaxos log i h (omega (arith, size, below, past)));
      },
    )
      where
        log : List DatabaseLogEntry
        log = entries_of (take k txs) State.new

        size : length log ≡ k
        size = length-entries_of (take k txs) State.new ∙ length-take k txs le

        past : a < length log
        past = behind_decided n log a w.reads h

        taken :
            let (result, n') = apply_replicated_txns n in
            (result ≡ ok tt) × Follows (lead (take (suc (k - 1)) txs) State.new) (k - 1) n'
        taken =
            let r =
              apply_replicated_txns-Follows n (lead (take (suc a) txs) State.new)
                (drop (suc a) (take k txs)) log a f h
                (entries_of-IsNumbered (take k txs)
                  (omega (arith, size, length-entries_of (take k txs) State.new)))
                past (omega (arith, size)) (rest_of_log txs a k (omega (arith, past, size)))
                (All-drop AllFit (suc a) (take k txs) (All-take AllFit k txs fits))
                (begun-IsValid txs a w.within room) w.follows in
            (
              r.0,
              subst {A = CommittedState × ℕ} (λ x. Follows x.0 x.1 (apply_replicated_txns n).1)
                  {x = (
                    lead (drop (suc a) (take k txs)) (lead (take (suc a) txs) State.new),
                    length log - 1,
                  )}
                  (ap₂ (λ x y. (x, y))
                    (lead_rest txs a k (omega (arith, past, size))
                      ∙ ap (λ j. lead (take j txs) State.new) {x = k} {y = suc (k - 1)}
                          (omega (arith, past, size)))
                    (ap (λ j. j - 1) size))
                  r.1,
            )

    -- Any poll of a follower.
    pub polled :
        (n : Node P Sender)
        → leads n ≡ false
        → HasLearned P (entries_of txs State.new) n.omni_durability.omnipaxos
        → Progress txs n
        → let (result, n') = apply_replicated_txns n in (result ≡ ok tt) × Progress txs n'
    polled n f l (a, w) =
        let r =
          poll_behind n a l.known f (omega (arith, l.within, length-entries_of txs State.new))
            (subst (HasDecided P n.omni_durability.omnipaxos)
              (take-entries_of l.known txs State.new) l.has_decided)
            w in
        (r.0, (l.known - 1, r.2))
