-- ===== src/Cluster/Group/Agreement.antt =====
-- What the followers of a group show to readers of replicated values (src/node/mod.rs).
use distributed_omnipaxos_db.Base.{
  ℕ, zero, suc, ◌-◌, ◌≤◌, ◌<◌, ◌≡◌, refl, sym, ◌∙◌, ap, subst, fun_ext, Option, none, some, List,
  [], ◌∷◌, arith, length, take, drop, ok, u64_mod, ◌≢◌, true,
}
use distributed_omnipaxos_db.Base.HashMap
use distributed_omnipaxos_db.TxData.{TxOffset}
use distributed_omnipaxos_db.Durability.OmniPaxos.{OmniPaxos, HasDecided}
use distributed_omnipaxos_db.Datastore.State
use distributed_omnipaxos_db.Datastore.State.Views.{memory_view, replicated_view}
use distributed_omnipaxos_db.Datastore.Session.{Op}
use distributed_omnipaxos_db.Datastore.Replication.{lead}
use distributed_omnipaxos_db.Datastore.Table.{Table}
use distributed_omnipaxos_db.Datastore.Table.Runs.{after_all, empty, table_at_end}
use distributed_omnipaxos_db.Node.State.{Node}
use distributed_omnipaxos_db.Node.Apply.{apply_replicated_txns}
use distributed_omnipaxos_db.Node.Methods.{update_leader}
use distributed_omnipaxos_db.Node.Leader.{leads}
use distributed_omnipaxos_db.Durability.OmniPaxosDurability
use distributed_omnipaxos_db.Node.CatchUp.{Follows}
use distributed_omnipaxos_db.Cluster.Group.{Group, Reach, with_state, omni, KeepsDecided}
use distributed_omnipaxos_db.Cluster.Group.Prefixes.{length-take, take-take, take-entries_of}
use distributed_omnipaxos_db.Cluster.Group.Applying.{Applied, Progress}
use distributed_omnipaxos_db.Cluster.Group.Polling.{poll_behind}
use distributed_omnipaxos_db.Cluster.Group.Invariant.{length-log}
use distributed_omnipaxos_db.Cluster.Group.Reached.{Reach-Inv, takes_over_lem}

-- How many entries a node has applied, by its last one.
abbrev pub applied_count : Option TxOffset → ℕ
applied_count none = 0
applied_count (some a) = suc a

after_all-take-drop :
    (n : ℕ) (txs : List (List Op)) (t : Table)
    → after_all (drop n txs) (after_all (take n txs) t) ≡ after_all txs t
after_all-take-drop zero txs t = refl
after_all-take-drop (suc n) [] t = refl
after_all-take-drop (suc n) (ops ∷ txs) t = after_all-take-drop n txs _

module _ {P : OmniPaxos} {Sender : Type 0} where
  -- A node that follows the transactions of a list from the start shows the table that they make.
  shows :
      (n : Node P Sender) (txs : List (List Op)) (a : ℕ)
      → length txs < u64_mod
      → Follows (lead txs State.new) a n
      → replicated_view n.datastore ≡ after_all txs empty
  shows n txs a room w = fun_ext w.mirrors.views ∙ table_at_end txs room

  shows_count :
      (n : Node P Sender) (txs : List (List Op))
      → suc (length txs) < u64_mod
      → Progress txs n
      → replicated_view n.datastore
        ≡ after_all (take (applied_count n.last_applied_index) txs) empty
  unfolding HashMap.get
  shows_count n txs room (a, w) = rw w.follows.last (
      shows n (take (suc a) txs) a (omega (arith, room, w.within, length-take (suc a) txs w.within))
        w.follows)

  -- In every state that a group reaches, whatever the order of commits, messages, polls and changes
  -- of leader, readers of replicated values on a follower see exactly the table that the first
  -- transactions of the log make of the empty one, as many of them as the follower has applied
  -- entries. The group starts with a leader whose log holds its transactions, and with followers
  -- that mirror it as of an entry of that log. Transactions are on strings, and offsets are left
  -- for them; OmniPaxos takes the entry of each commit; what a node's OmniPaxos tells is a decided
  -- beginning of the log, and stays so. A node takes over where the log that it holds is decided to
  -- its end and no other node knows of more, and the old leader is gone then.
  pub shows_prefix :
      {t : Group P Sender}
      → Reach t
      → (i : ℕ) (n : Node P Sender) → t.followers i ≡ some n
      → replicated_view n.datastore
        ≡ after_all (take (applied_count n.last_applied_index) t.txs) empty
  shows_prefix {t} r i n here =
      let inv = Reach-Inv r in shows_count n t.txs inv.room (inv.in_group i n here).progress

  -- In every state that a group reaches, a follower that has applied as many entries as another or
  -- more shows at the replicated level the table of the other one, changed by the transactions
  -- between their last entries, in order.
  pub followers_agree :
      {t : Group P Sender}
      → Reach t
      → (i j : ℕ) (n m : Node P Sender) → t.followers i ≡ some n
      → t.followers j ≡ some m
      → applied_count n.last_applied_index ≤ applied_count m.last_applied_index
      → let first = applied_count n.last_applied_index in
        let last = applied_count m.last_applied_index in
        replicated_view m.datastore
        ≡ after_all (drop first (take last t.txs)) (replicated_view n.datastore)
  followers_agree {t} r i j n m here there le =
      let first = applied_count n.last_applied_index in
      let last = applied_count m.last_applied_index in
      shows_prefix r j m there
      ∙ sym (after_all-take-drop first (take last t.txs) empty)
      ∙ ap (λ l. after_all (drop first (take last t.txs)) (after_all l empty))
          (take-take first last t.txs le)
      ∙ ap (after_all (drop first (take last t.txs))) (sym (shows_prefix r i n here))

  caught_up :
      (txs : List (List Op)) (k : ℕ) (n : Node P Sender)
      → suc (length txs) < u64_mod
      → suc (k - 1) ≡ k
      → Applied txs (k - 1) n
      → replicated_view n.datastore ≡ after_all (take k txs) empty
  caught_up txs k n room pos w =
      shows_count n txs room (k - 1, w)
      ∙ ap (λ l. after_all (take (applied_count l) txs) empty) w.follows.last
      ∙ ap (λ j. after_all (take j txs) empty) pos

  -- In every state that a group reaches, a poll of a follower that knows that the first `k` entries
  -- of the log are decided succeeds, notes the last of these as applied, and leaves the follower
  -- with the table of the first `k` transactions at the replicated level.
  pub catches_up :
      {t : Group P Sender}
      → Reach t
      → (i k : ℕ) (n : Node P Sender) → t.followers i ≡ some n
      → k ≤ length t.txs
      → HasDecided P (omni n) (take k t.log)
      → let (result, n') = apply_replicated_txns n in
        (result ≡ ok tt)
        × (n'.last_applied_index ≡ some (k - 1))
        × (replicated_view n'.datastore ≡ after_all (take k t.txs) empty)
  catches_up {t} r i k n here le h =
      let inv = Reach-Inv r in
      let w = inv.in_group i n here in
      let (b, applied) = w.progress in
      let done =
        poll_behind t.txs inv.fits inv.room n b k w.following le
          (subst (HasDecided P (omni n))
            (ap (take k) inv.same_log ∙ take-entries_of k t.txs State.new) h)
          applied in
      (done.0, done.2.follows.last, caught_up t.txs k _ inv.room done.1 done.2)

  -- In every state that a group reaches, a follower that finds itself leading in the place of
  -- another node while the first `k` entries of the log are decided, where its OmniPaxos keeps what
  -- it told before, takes over: `update_leader` succeeds and notes the node as the leader, and its
  -- datastore shows the table of the first `k` transactions at both levels and gives out `k` as its
  -- next offset.
  pub succeeds_leader :
      {t : Group P Sender}
      → Reach t
      → (i k : ℕ) (n : Node P Sender) (s : P.State) (old : ℕ) → t.followers i ≡ some n
      → n.current_leader ≡ some old
      → old ≢ n.node_id
      → OmniPaxosDurability.get_current_leader P (with_state s n).omni_durability ≡ some n.node_id
      → leads (with_state s n) ≡ true
      → KeepsDecided P (omni n) s
      → k ≤ length t.log
      → HasDecided P s (take k t.log)
      → let (result, n') = update_leader (with_state s n) in
        (result ≡ ok tt)
        × (n'.current_leader ≡ some n.node_id)
        × (n'.datastore.next_tx_offset ≡ k)
        × (memory_view n'.datastore ≡ after_all (take k t.txs) empty)
        × (replicated_view n'.datastore ≡ after_all (take k t.txs) empty)
  succeeds_leader {t} r i k n s old here was other now leading keeps le h =
      let inv = Reach-Inv r in
      let short : k ≤ length t.txs = omega (arith, le, length-log t inv) in
      let size = length-take k t.txs short in
      let table = table_at_end (take k t.txs) (omega (arith, size, short, inv.room)) in
      let taken = takes_over_lem t i k n s old here was other now leading keeps le h inv in
      (taken.0, taken.2, taken.1.next ∙ size, taken.3 ∙ table, taken.4 ∙ table)
