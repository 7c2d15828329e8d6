-- ===== src/Datastore/Replay/Outcomes.antt =====
-- Every way in which a replay can end (src/datastore/example_datastore.rs).
use distributed_omnipaxos_db.Base.{
  ℕ, ◌+◌, ◌<◌, ◌≡◌, refl, Option, none, some, arith, ok, err, add_u64_fits, u64_mod,
}
use distributed_omnipaxos_db.TxData.{TxData}
use distributed_omnipaxos_db.Datastore.State.{
  DatastoreError, invalid_durability_offset, CommittedState, next_after,
}
use distributed_omnipaxos_db.Datastore.State.Offsets.{next_offset}
use distributed_omnipaxos_db.Datastore.Replay.{replay_writes, replay_transaction}

pub next_after-ok : (r : Option ℕ) → next_offset r < u64_mod → next_after r ≡ ok (next_offset r)
unfolding next_after
next_after-ok none room = refl
next_after-ok (some o) room = add_u64_fits o 1 room

-- A state without commits that are not replicated.
abbrev pub IsSynced : CommittedState → Type 0
IsSynced s = s.next_tx_offset ≡ next_offset s.replicated_tx_offset

-- On a state without commits ahead of the replicated offset, with its next offset below 2 ^ 64 - 1,
-- a replay has the result and the effect of the writes of its data, and moves both offsets by one
-- whatever that result is.
pub replay_synced :
    (tx_data : TxData) (s : CommittedState)
    → IsSynced s
    → s.next_tx_offset + 1 < u64_mod
    → let (result, s') = replay_transaction tx_data s in
      let writes = replay_writes tx_data s.replicated_state in
      (result ≡ writes.0)
      × (s'.replicated_state ≡ writes.1)
      × (s'.next_tx_offset ≡ s.next_tx_offset + 1)
      × (s'.replicated_tx_offset ≡ some s.next_tx_offset)
      × (s'.committed_diff ≡ s.committed_diff)
unfolding replay_transaction
replay_synced tx_data s sync room = ground (
  arith,
  next_after-ok s.replicated_tx_offset,
  add_u64_fits {E = DatastoreError} s.next_tx_offset 1 room,
)

-- A state whose next offset is not the one behind its replicated offset, which is below 2 ^ 64 - 1,
-- refuses every replay and is left as it was.
pub replay_ahead :
    (tx_data : TxData) (s : CommittedState)
    → next_offset s.replicated_tx_offset < u64_mod
    → ¬ IsSynced s
    → replay_transaction tx_data s ≡ (err invalid_durability_offset, s)
unfolding replay_transaction
replay_ahead tx_data s room ahead = ground (arith, next_after-ok s.replicated_tx_offset)
