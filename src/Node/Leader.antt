-- ===== src/Node/Leader.antt =====
-- Who may change the database, and what a leader and an old leader do (src/node/mod.rs).
use distributed_omnipaxos_db.Base.{
  ℕ, ◌+◌, ◌<◌, ◌≡◌, ◌≢◌, refl, sym, ◌∙◌, ap, Bool, true, false, Option, none, some, [], arith, ok,
  err, u64_mod, ◌==◌, ==_iff, Bool-cases, inl, inr,
}
use distributed_omnipaxos_db.Base.Utf8.{Str}
use distributed_omnipaxos_db.TxData.{TxOffset}
use distributed_omnipaxos_db.Durability.OmniPaxos.{OmniPaxos}
use distributed_omnipaxos_db.Durability.OmniPaxosDurability
use distributed_omnipaxos_db.Datastore.State.{
  not_leader, advance_replicated_durability_offset, rollback_to_replicated_durability_offset,
}
use distributed_omnipaxos_db.Datastore.State.Views.{
  IsValid, history_of, replicated_view, memory_view,
}
use distributed_omnipaxos_db.Datastore.State.Offsets.{
  advanced, advance-IsValid, advance_covered, Covers, next_offset, rollback_lem,
}
use distributed_omnipaxos_db.Datastore.Tx.{MutTx, tx_data_of}
use distributed_omnipaxos_db.Datastore.Tx.Buffer.{IsOpen, tx_view}
use distributed_omnipaxos_db.Datastore.Tx.Commit.{
  commit_mut_tx-ok, commit_mut_tx-IsValid, memory_view-commit_mut_tx,
}
use distributed_omnipaxos_db.Node.State.{Node}
use distributed_omnipaxos_db.Node.Apply.{apply_decided, apply_replicated_txns, same_offset}
use distributed_omnipaxos_db.Node.Methods.{
  begin_mut_tx, commit_mut_tx, update_leader_from, update_leader,
}

differs :
    (o : TxOffset) (last : Option TxOffset) → last ≢ some o → same_offset (some o) last ≡ false
differs o none h = refl
differs o (some b) h = elim (Bool-cases (o == b)) [
  | inl same ↦ absurd (h (ap some (sym ((==_iff o b).0 same))))
  | inr other ↦ other
]

module _ {P : OmniPaxos} {Sender : Type 0} where
  abbrev pub leads : Node P Sender → Bool
  leads n = OmniPaxosDurability.is_leader P n.omni_durability

  -- A node that does not lead refuses to begin and to commit a mutable transaction, and stays as it
  -- was.
  refuses_mut_tx :
      (n : Node P Sender) (tx : MutTx)
      → leads n ≡ false
      → (begin_mut_tx n ≡ err not_leader) × (commit_mut_tx tx n ≡ (err not_leader, n))
  unfolding begin_mut_tx commit_mut_tx
  refuses_mut_tx n tx h = rw h (refl, refl)

  -- A leader commits an open transaction on its datastore, where the next offset is below 2 ^ 64 -
  -- 1 and OmniPaxos takes the entry: it returns that offset and the data of the transaction, and
  -- appends exactly these to the log. The datastore is valid then, memory readers see what the
  -- transaction showed, and the last applied offset stays.
  pub leader_commits :
      (n : Node P Sender) (tx : MutTx) (s : P.State)
      → leads n ≡ true
      → IsOpen tx
      → tx.committed_state.next_tx_offset + 1 < u64_mod
      → P.append n.omni_durability.omnipaxos
          (record { tx_offset = tx.committed_state.next_tx_offset; tx_data = tx_data_of tx.diff })
        ≡ some s
      → let (result, n') = commit_mut_tx tx n in
        (result
          ≡ ok (record {
            tx_offset = tx.committed_state.next_tx_offset;
            tx_data = tx_data_of tx.diff;
          }))
        × (n'.omni_durability.omnipaxos ≡ s)
        × IsValid n'.datastore
        × ((key : Str) → memory_view n'.datastore key ≡ tx_view tx key)
        × (n'.last_applied_index ≡ n.last_applied_index)
  unfolding commit_mut_tx OmniPaxosDurability.append_tx
  leader_commits n tx s h o room appended =
      rw (h, commit_mut_tx-ok tx o room, appended)
        (refl, refl, commit_mut_tx-IsValid tx o room, memory_view-commit_mut_tx tx o room, refl)

  moves :
      (n : Node P Sender) (o : TxOffset)
      → leads n ≡ true
      → n.got_promoted_leader ≡ false
      → n.last_applied_index ≢ some o
      → apply_decided (some o) n ≡ (
        ok tt,
        record n {
          last_applied_index = some o;
          datastore = advanced o n.datastore;
          got_promoted_leader = false;
        },
      )
  unfolding apply_decided advance_replicated_durability_offset
  moves n o h unpromoted new = rw (differs o n.last_applied_index new, h, unpromoted)

  pub update_from :
      (n : Node P Sender) {old new : ℕ}
      → n.current_leader ≡ some old
      → OmniPaxosDurability.get_current_leader P n.omni_durability ≡ some new
      → update_leader n ≡ update_leader_from (some old) (some new) n
  unfolding update_leader
  update_from n {new} was now =
      ap (λ l. update_leader_from n.current_leader l n) now
      ∙ ap (λ c. update_leader_from c (some new) n) was

  pub rolls :
      (n : Node P Sender) (leader : ℕ)
      → leader ≢ n.node_id
      → (rollback_to_replicated_durability_offset n.datastore).0 ≡ ok tt
      → update_leader_from (some n.node_id) (some leader) n ≡ (
        ok tt,
        record n {
          datastore = (rollback_to_replicated_durability_offset n.datastore).1;
          current_leader = some leader;
        },
      )
  unfolding update_leader_from
  rolls n leader other done =
      let new : (n.node_id == leader) ≡ false = ground arith in
      let own : (n.node_id == n.node_id) ≡ true = (==_iff _ _).1 refl in rw (new, own, done)

  -- A leader that was not just promoted, has a valid datastore and sees a decided offset other than
  -- its last applied one moves both its last applied and its replicated offset there. The datastore
  -- stays valid, and each key whose commits the offset covers has its newest committed value
  -- replicated.
  pub leader_advances :
      (n : Node P Sender) (o : TxOffset)
      → leads n ≡ true
      → n.got_promoted_leader ≡ false
      → OmniPaxosDurability.get_durable_tx_offset_optional P n.omni_durability ≡ some o
      → n.last_applied_index ≢ some o
      → IsValid n.datastore
      → let (result, n') = apply_replicated_txns n in
        (result ≡ ok tt)
        × (n'.last_applied_index ≡ some o)
        × IsValid n'.datastore
        × (n'.datastore.replicated_tx_offset ≡ some o)
        × ((key : Str)
            → Covers o (history_of n.datastore key)
            → replicated_view n'.datastore key ≡ memory_view n.datastore key)
  unfolding apply_replicated_txns
  leader_advances n o h unpromoted decided new v =
      rw (decided, moves n o h unpromoted new)
        (
          refl,
          refl,
          advance-IsValid o n.datastore v,
          unfold advance_replicated_durability_offset in refl,
          λ key c. (advance_covered o n.datastore key v c).0,
        )

  -- A node that took itself for the leader and finds another node leading rolls its valid datastore
  -- back, where the replicated offset is below 2 ^ 64 - 1: the state stays valid, memory readers
  -- see the replicated values, which do not change, the next offset is the one behind the
  -- replicated one, and the node has noted the new leader.
  pub update_leader-rolls_back :
      (n : Node P Sender) (leader : ℕ)
      → n.current_leader ≡ some n.node_id
      → OmniPaxosDurability.get_current_leader P n.omni_durability ≡ some leader
      → leader ≢ n.node_id
      → IsValid n.datastore
      → next_offset n.datastore.replicated_tx_offset < u64_mod
      → let (result, n') = update_leader n in
        (result ≡ ok tt)
        × IsValid n'.datastore
        × ((key : Str)
            → (memory_view n'.datastore key ≡ replicated_view n.datastore key)
              × (replicated_view n'.datastore key ≡ replicated_view n.datastore key))
        × (n'.datastore.next_tx_offset ≡ next_offset n.datastore.replicated_tx_offset)
        × (n'.current_leader ≡ some leader)
  update_leader-rolls_back n leader was now other v room =
      rw (update_from n was now ∙ rolls n leader other (rollback_lem n.datastore [] v room).0) (
        refl,
        (rollback_lem n.datastore [] v room).1,
        λ key. let r = rollback_lem n.datastore key v room in (r.2, r.3),
        (rollback_lem n.datastore [] v room).4,
        refl,
      )
