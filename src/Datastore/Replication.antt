-- ===== src/Datastore/Replication.antt =====
-- What a leader commits, and what a follower gets by replaying it
-- (src/datastore/example_datastore.rs).
use distributed_omnipaxos_db.Base.{
  ℕ, ◌+◌, ◌<◌, ◌≡◌, refl, sym, ◌∙◌, ap, subst, Option, none, some, List, [], ◌∷◌, arith, length,
  Outcome, ok, err, panic, u64_mod, All,
}
use distributed_omnipaxos_db.Base.HashMap
use distributed_omnipaxos_db.Base.HashMap.{HashMap}
use distributed_omnipaxos_db.Base.Utf8.{Str, str_discrete}
use distributed_omnipaxos_db.TxData.{TxData}
use distributed_omnipaxos_db.Durability.{memory, replicated}
use distributed_omnipaxos_db.Datastore.State.{
  DatastoreError, Diff, CommittedState, new, get, get_replicated_offset, get_cur_offset,
}
use distributed_omnipaxos_db.Datastore.State.Views.{
  IsValid, new-IsValid, get_views, replicated_view, memory_view,
}
use distributed_omnipaxos_db.Datastore.State.Offsets.{next_offset}
use distributed_omnipaxos_db.Datastore.Tx.{MutTx, begin_mut_tx, tx_data_of, commit_mut_tx}
use distributed_omnipaxos_db.Datastore.Tx.Buffer.{IsOpen, shown, diff_of}
use distributed_omnipaxos_db.Datastore.Tx.Commit.{
  commit_mut_tx-ok, commit_mut_tx-state, commit_mut_tx-IsValid, memory_view-commit_mut_tx,
}
use distributed_omnipaxos_db.Datastore.Replay.{replay_transaction}
use distributed_omnipaxos_db.Datastore.Replay.Writes.{
  AreStrings, delete_all, insert_all, replay_writes-tx_data_of, get-replayed,
}
use distributed_omnipaxos_db.Datastore.Replay.Outcomes.{IsSynced, replay_synced}
use distributed_omnipaxos_db.Datastore.Session.{
  Op, AllFit, perform, session, session-Over, replay_next,
}

-- A follower that has replayed what the leader committed: both give out the same offset next, the
-- follower has no commits of its own, and it holds what memory readers of the leader see.
pub record Mirrors (leader follower : CommittedState) : Type 0 where
  pub synced : IsSynced follower
  pub next : follower.next_tx_offset ≡ leader.next_tx_offset
  pub views : (key : Str) → replicated_view follower key ≡ memory_view leader key

replayed_state :
    (diffs : HashMap Str Diff) (follower : CommittedState)
    → AreStrings diffs
    → IsSynced follower
    → follower.next_tx_offset + 1 < u64_mod
    → let (result, follower') = replay_transaction (tx_data_of diffs) follower in
      (result ≡ ok tt)
      × (follower'.replicated_state ≡ delete_all diffs (insert_all diffs follower.replicated_state))
      × (follower'.next_tx_offset ≡ follower.next_tx_offset + 1)
      × (follower'.replicated_tx_offset ≡ some follower.next_tx_offset)
replayed_state diffs follower a sync room =
    let r = replay_synced (tx_data_of diffs) follower sync room in
    let w = replay_writes-tx_data_of diffs follower.replicated_state a in
    (r.0 ∙ ap (λ x. x.0) w, r.1 ∙ ap (λ x. x.1) w, r.2, r.3)

-- Where a follower mirrors the state of an open transaction, whose keys and values are strings and
-- whose offset is below 2 ^ 64 - 1, committing the transaction and replaying its data both succeed:
-- the commit returns the leader's next offset with the data that is replayed, the leader's state is
-- valid, the leader's next offset is one more, and the follower mirrors the leader again, with the
-- offset of the commit as its replicated one.
pub replay-commit :
    (tx : MutTx) (follower : CommittedState)
    → IsOpen tx
    → AreStrings tx.diff
    → Mirrors tx.committed_state follower
    → tx.committed_state.next_tx_offset + 1 < u64_mod
    → let leader = tx.committed_state in
      let (committed, leader') = commit_mut_tx tx in
      let (replayed, follower') = replay_transaction (tx_data_of tx.diff) follower in
      (committed ≡ ok (record { tx_offset = leader.next_tx_offset; tx_data = tx_data_of tx.diff }))
      × (replayed ≡ ok tt)
      × IsValid leader'
      × Mirrors leader' follower'
      × (leader'.next_tx_offset ≡ leader.next_tx_offset + 1)
      × (follower'.replicated_tx_offset ≡ some leader.next_tx_offset)
replay-commit tx follower o a m room = (
  commit_mut_tx-ok tx o room,
  r.0,
  commit_mut_tx-IsValid tx o room,
  record {
    synced = r.2 ∙ ap (λ n. next_offset (some n)) refl ∙ ap next_offset (sym r.3);
    next = r.2 ∙ ap (λ (n : ℕ). n + 1) m.next ∙ sym leads;
    views = λ j.
        ap (HashMap.get str_discrete j) r.1
        ∙ get-replayed tx.diff follower.replicated_state j o.distinct
        ∙ ap (shown (diff_of tx j)) (m.views j)
        ∙ sym (memory_view-commit_mut_tx tx o room j);
  },
  leads,
  r.3 ∙ ap some m.next,
)
  where
    leads : (commit_mut_tx tx).1.next_tx_offset ≡ tx.committed_state.next_tx_offset + 1
    leads = ap (λ (s : CommittedState). s.next_tx_offset) (commit_mut_tx-state tx o room)

    r :
        let (result, follower') = replay_transaction (tx_data_of tx.diff) follower in
        (result ≡ ok tt)
        × (follower'.replicated_state
            ≡ delete_all tx.diff (insert_all tx.diff follower.replicated_state))
        × (follower'.next_tx_offset ≡ follower.next_tx_offset + 1)
        × (follower'.replicated_tx_offset ≡ some follower.next_tx_offset)
    r = replayed_state tx.diff follower a m.synced (omega (arith, m.next))

abbrev pub data_of : List Op → CommittedState → TxData
data_of ops s = tx_data_of (perform ops (begin_mut_tx s)).diff

-- The leader runs the transactions one after the other.
abbrev pub lead : List (List Op) → CommittedState → CommittedState
lead [] s = s
lead (ops ∷ txs) s = lead txs (session ops s).1

-- The data that these commits return, oldest first.
abbrev pub committed_data : List (List Op) → CommittedState → List TxData
committed_data [] s = []
committed_data (ops ∷ txs) s = data_of ops s ∷ committed_data txs (session ops s).1

-- A follower replays a log, up to the first failure.
abbrev pub follow :
    List TxData → CommittedState → Outcome DatastoreError (Unit {0}) × CommittedState
follow [] s = (ok tt, s)
follow (d ∷ ds) s = replay_next (replay_transaction d s) (follow ds)

replay_next_ok :
    (p : Outcome DatastoreError (Unit {0}) × CommittedState)
    (next : CommittedState → Outcome DatastoreError (Unit {0}) × CommittedState)
    → p.0 ≡ ok tt
    → replay_next p next ≡ next p.1
replay_next_ok (ok _, s) next e = refl
replay_next_ok (err x, s) next e = absurd (cc)
replay_next_ok (panic, s) next e = absurd (cc)

-- A whole transaction of the leader, and the replay of its data.
pub replay-session :
    (ops : List Op) (leader follower : CommittedState)
    → AllFit ops
    → IsValid leader
    → Mirrors leader follower
    → leader.next_tx_offset + 1 < u64_mod
    → let (committed, leader') = session ops leader in
      let (replayed, follower') = replay_transaction (data_of ops leader) follower in
      (committed ≡ ok (record { tx_offset = leader.next_tx_offset; tx_data = data_of ops leader }))
      × (replayed ≡ ok tt)
      × IsValid leader'
      × Mirrors leader' follower'
      × (leader'.next_tx_offset ≡ leader.next_tx_offset + 1)
      × (follower'.committed_diff ≡ follower.committed_diff)
replay-session ops leader follower fit v m room =
    let o = session-Over leader ops v fit in
    let r =
      replay-commit (perform ops (begin_mut_tx leader)) follower o.open_tx o.strings
        (subst (λ l. Mirrors l follower) (sym o.base) m)
        (subst (λ l. l.next_tx_offset + 1 < u64_mod) (sym o.base) room) in
    (
      r.0
          ∙ ap
              (λ (l : CommittedState).
                ok (record { tx_offset = l.next_tx_offset; tx_data = data_of ops leader }))
              o.base,
      r.1,
      r.2,
      r.3,
      r.4 ∙ ap (λ (l : CommittedState). l.next_tx_offset + 1) o.base,
      (replay_synced (data_of ops leader) follower m.synced (omega (arith, m.next))).4,
    )

abbrev pub AllTxsFit : List (List Op) → Type 0
AllTxsFit = All AllFit

-- The data of any transactions that a valid leader commits, with strings as keys and values and
-- offsets left for all of them, replayed in order on a follower that mirrors the leader, is
-- accepted, and makes the follower mirror the leader again.
follow-lead :
    (txs : List (List Op)) (leader follower : CommittedState)
    → AllTxsFit txs
    → IsValid leader
    → Mirrors leader follower
    → leader.next_tx_offset + length txs < u64_mod
    → let (replayed, follower') = follow (committed_data txs leader) follower in
      (replayed ≡ ok tt) × IsValid (lead txs leader) × Mirrors (lead txs leader) follower'
follow-lead [] leader follower fit v m room = (refl, v, m)
follow-lead (ops ∷ txs) leader follower fit v m room =
    let step = replay-session ops leader follower fit.0 v m (omega arith) in
    rw
      (replay_next_ok (replay_transaction (data_of ops leader) follower)
        (follow (committed_data txs (session ops leader).1)) step.1)
      (follow-lead txs (session ops leader).1 (replay_transaction (data_of ops leader) follower).1
        fit.1 step.2 step.3 (omega (arith, step.4)))

pub new-Mirrors : Mirrors new new
unfolding new HashMap.get
new-Mirrors = record { synced = refl; next = refl; views = λ key. refl }

cur_offset :
    (s : CommittedState) (r : Option ℕ) → next_offset r ≡ s.next_tx_offset → r ≡ get_cur_offset s
unfolding get_cur_offset
cur_offset s none e = ground arith
cur_offset s (some o) e = ground arith

-- Of two new datastores one runs fewer than 2 ^ 64 transactions, on strings, and the other replays
-- the committed data in order: the replay succeeds, the second reads at the replicated level what
-- the first reads at the memory level, and its replicated offset is the first one's current offset.
pub replay_log :
    (txs : List (List Op)) (key : Str)
    → AllTxsFit txs
    → length txs < u64_mod
    → let (replayed, follower) = follow (committed_data txs new) new in
      let leader = lead txs new in
      (replayed ≡ ok tt)
      × (get follower key replicated ≡ get leader key memory)
      × (get_replicated_offset follower ≡ get_cur_offset leader)
unfolding get_replicated_offset get
replay_log txs key fit room =
    let r = follow-lead txs new new fit new-IsValid new-Mirrors (unfold new in omega arith) in
    let m = r.2 in
    (
      r.0,
      ap ok (m.views key) ∙ sym (get_views (lead txs new) key r.1).0,
      cur_offset (lead txs new) _ (sym m.synced ∙ m.next),
    )
