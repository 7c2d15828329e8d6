-- ===== src/Cluster/Group/Steps.antt =====
-- The steps of a group that change its log: a commit of the leader, and a change of leader
-- (src/node/mod.rs).
use distributed_omnipaxos_db.Base.{
  ℕ, suc, ◌+◌, ◌-◌, ◌≤◌, ◌<◌, ◌≡◌, sym, ◌∙◌, ap, subst, true, some, List, [], ◌∷◌, ◌++◌, arith,
  length, length-append, take, drop, ok, u64_mod, Bool-cases, inl, inr, ◌≢◌,
}
use distributed_omnipaxos_db.Durability.Entry.{DatabaseLogEntry}
use distributed_omnipaxos_db.Durability.OmniPaxos.{OmniPaxos, HasDecided}
use distributed_omnipaxos_db.Durability.OmniPaxosDurability
use distributed_omnipaxos_db.Datastore.State
use distributed_omnipaxos_db.Datastore.State.{CommittedState}
use distributed_omnipaxos_db.Datastore.State.Views.{IsValid, memory_view, replicated_view}
use distributed_omnipaxos_db.Datastore.State.Offsets.{next_offset}
use distributed_omnipaxos_db.Datastore.Session.{Op, AllFit, session}
use distributed_omnipaxos_db.Datastore.Replication.{lead, AllTxsFit}
use distributed_omnipaxos_db.Datastore.Table.Runs.{session_table}
use distributed_omnipaxos_db.Node.State.{Node}
use distributed_omnipaxos_db.Node.Methods.{update_leader}
use distributed_omnipaxos_db.Node.Follower.{entries_of}
use distributed_omnipaxos_db.Node.CatchUp.{length-entries_of, Follows}
use distributed_omnipaxos_db.Node.Leader.{leads}
use distributed_omnipaxos_db.Node.Failover.{update_leader-takes_over}
use distributed_omnipaxos_db.Node.Frame.{update_leader-SameFrame}
use distributed_omnipaxos_db.Cluster.Group.{HasLearned, KeepsDecided, run_tx, entry_for, with_state}
use distributed_omnipaxos_db.Cluster.Group.Prefixes.{
  length-take, take-take, All-take, All-drop, take-entries_of, entries_of-IsNumbered,
  entries_of-append, rest_of_log, lead_rest, begun-IsValid,
}
use distributed_omnipaxos_db.Cluster.Group.Leading.{run_tx_lem, session-replicated_tx_offset}
use distributed_omnipaxos_db.Cluster.Group.Applying.{
  Applied, Progress, Knows, behind_decided, reads_below,
}
use distributed_omnipaxos_db.Cluster.Group.Promoted.{Role, settled, promoted}
use distributed_omnipaxos_db.Cluster.Group.Invariant.{InGroup, Heads, HasLearned-grown}
use distributed_omnipaxos_db.Cluster.Group.Kept.{Knows-learned}

module _ {P : OmniPaxos} {Sender : Type 0} where
  pub committed-Heads :
      (txs : List (List Op)) (ops : List Op) (n : Node P Sender) (s : P.State)
      → AllFit ops
      → suc (suc (length txs)) < u64_mod
      → P.append n.omni_durability.omnipaxos (entry_for ops n) ≡ some s
      → leads (with_state s n) ≡ true
      → KeepsDecided P n.omni_durability.omnipaxos s
      → HasLearned P (entries_of txs State.new) s
      → Heads txs n
      → Heads (txs ++ ops ∷ []) (run_tx ops n).1
  committed-Heads txs ops n s fit small appended leading keeps learned w =
      let done = run_tx_lem ops n s w.leading w.valid fit (omega (arith, w.next, small)) appended in
      let after = session_table ops n.datastore w.valid (omega (arith, w.next, small)) in
      rw done (record {
        leading = leading;
        valid = after.0;
        next = omega (arith, after.3, w.next, length-append txs (ops ∷ []));
        learned =
            subst (λ l. HasLearned P l s) (sym (entries_of-append txs ops State.new))
              (HasLearned-grown (entries_of txs State.new) _ _ learned);
        role = role_kept w.role;
      })
    where
      role_kept :
          Role n
          → Role (record n {
            datastore = (session ops n.datastore).1;
            omni_durability = record n.omni_durability { omnipaxos = s };
          })
      role_kept (settled u) = settled u
      role_kept (promoted a p last rep lt knows) =
          let after = session_table ops n.datastore w.valid (omega (arith, w.next, small)) in
          let kept_offset : next_offset (session ops n.datastore).1.replicated_tx_offset ≡ a + 1 =
            ap next_offset (
              session-replicated_tx_offset ops n.datastore w.valid fit
                (omega (arith, w.next, small)))
            ∙ rep in
          promoted a p last kept_offset (omega (arith, after.3, lt))
            (Knows-learned n s a keeps knows)

  -- What a node has applied lies in a log that its OmniPaxos tells of.
  known_length :
      (log : List DatabaseLogEntry) (n : Node P Sender) (a : ℕ)
      → HasLearned P log n.omni_durability.omnipaxos
      → Knows n a
      → a < length log
  known_length log n a l knows = omega (
    arith,
    behind_decided n (take l.known log) a knows l.has_decided,
    length-take l.known log l.within,
    l.within,
  )

  Applied-cut :
      (txs : List (List Op)) (k a : ℕ) (n : Node P Sender)
      → k ≤ length txs
      → a < k
      → Applied txs a n
      → Applied (take k txs) a n
  Applied-cut txs k a n le lt w = record {
    within = omega (arith, length-take k txs le, lt);
    follows =
        subst (λ l. Follows (lead l State.new) a n)
          (sym (take-take (suc a) k txs (omega (arith, lt)))) w.follows;
    reads = w.reads;
  }

  -- A follower keeps its place when the log is cut behind what it may know.
  pub InGroup-cut :
      (txs : List (List Op)) (k : ℕ) (n : Node P Sender)
      → k ≤ length txs
      → HasLearned P (entries_of (take k txs) State.new) n.omni_durability.omnipaxos
      → InGroup txs n
      → InGroup (take k txs) n
  InGroup-cut txs k n le learned w = record {
    following = w.following;
    learned = learned;
    progress = cut w.progress;
  }
    where
      cut : Progress txs n → Progress (take k txs) n
      cut (a, applied) = (
        a,
        Applied-cut txs k a n le
            (omega (
              arith,
              known_length (entries_of (take k txs) State.new) n a learned applied.reads,
              length-entries_of (take k txs) State.new,
              length-take k txs le,
            ))
            applied,
      )

  -- A follower that takes over becomes a leader of the beginning of the log that is decided.
  pub took_over :
      (txs : List (List Op)) (k old a : ℕ) (n : Node P Sender)
      → AllTxsFit txs
      → suc (length txs) < u64_mod
      → n.current_leader ≡ some old
      → old ≢ n.node_id
      → OmniPaxosDurability.get_current_leader P n.omni_durability ≡ some n.node_id
      → leads n ≡ true
      → k ≤ length txs
      → HasDecided P n.omni_durability.omnipaxos (entries_of (take k txs) State.new)
      → Applied txs a n
      → let (result, n') = update_leader n in
        (result ≡ ok tt)
        × Heads (take k txs) n'
        × (n'.current_leader ≡ some n.node_id)
        × (memory_view n'.datastore ≡ memory_view (lead (take k txs) State.new))
        × (replicated_view n'.datastore ≡ memory_view (lead (take k txs) State.new))
  took_over txs k old a n fits room was other now leading le h w = (
    taken.0,
    record {
      leading = ap (OmniPaxosDurability.is_leader P) frame ∙ leading;
      valid = taken.3;
      next = next ∙ sym seen;
      learned = record {
        known = k;
        within = omega (arith, size);
        has_decided =
            subst (HasDecided P n'.omni_durability.omnipaxos)
              (sym (
                take-entries_of k (take k txs) State.new
                ∙ ap (λ l. entries_of l State.new) (take-take k k txs (omega arith))))
              decided_there;
      };
      role = elim (Bool-cases n'.got_promoted_leader) [
        | inl p ↦
            promoted (k - 1) p (taken.2.last ∙ ap (λ j. some (j - 1)) size)
              (sym taken.2.mirrors.synced ∙ next ∙ omega (arith, past, size))
              (omega (arith, past, size, next))
              (λ i below.
                reads_below n'.omni_durability.omnipaxos log i decided_there
                  (omega (arith, below, past, size)))
        | inr u ↦ settled u
      ];
    },
    taken.1,
    taken.4 ∙ ap memory_view (lead_rest txs a k (omega (arith, past, size))),
    taken.5 ∙ ap memory_view (lead_rest txs a k (omega (arith, past, size))),
  )
    where
      log : List DatabaseLogEntry
      log = entries_of (take k txs) State.new

      n' : Node P Sender
      n' = (update_leader n).1

      seen : length (take k txs) ≡ k
      seen = length-take k txs le

      size : length log ≡ k
      size = length-entries_of (take k txs) State.new ∙ seen

      past : a < length log
      past = behind_decided n log a w.reads h

      frame : n'.omni_durability ≡ n.omni_durability
      frame = (update_leader-SameFrame n).omni_durability

      decided_there : HasDecided P n'.omni_durability.omnipaxos log
      decided_there =
          subst (λ (d : OmniPaxosDurability.OmniPaxosDurability P). HasDecided P d.omnipaxos log)
            (sym frame) h

      taken :
          let (result, after) = update_leader n in
          (result ≡ ok tt)
          × (after.current_leader ≡ some n.node_id)
          × Follows
              (lead (drop (suc a) (take k txs)) (lead (take (suc a) txs) State.new))
              (length log - 1)
              after
          × IsValid after.datastore
          × (memory_view after.datastore
              ≡ memory_view (lead (drop (suc a) (take k txs)) (lead (take (suc a) txs) State.new)))
          × (replicated_view after.datastore
              ≡ memory_view (lead (drop (suc a) (take k txs)) (lead (take (suc a) txs) State.new)))
          × (after.datastore.next_tx_offset ≡ length log)
      taken =
          update_leader-takes_over n old (lead (take (suc a) txs) State.new)
            (drop (suc a) (take k txs)) log a was now leading other h
            (entries_of-IsNumbered (take k txs) (omega (arith, seen, le, room))) past
            (omega (arith, size, le, room)) (rest_of_log txs a k (omega (arith, past, size)))
            (All-drop AllFit (suc a) (take k txs) (All-take AllFit k txs fits))
            (begun-IsValid txs a w.within room) w.follows

      next : n'.datastore.next_tx_offset ≡ k
      next = taken.6 ∙ size
