-- ===== src/Node/Follower.antt =====
-- A follower catches up with the decided log (src/node/mod.rs, src/durability/omnipaxos_durability.rs
-- and src/datastore/example_datastore.rs together).
use distributed_omnipaxos_db.Base.{
  ℕ, zero, suc, ◌+◌, ◌<◌, ◌≡◌, refl, sym, ◌∙◌, ap, Option, some, List, [], ◌∷◌, map, arith, length,
  Outcome, ok, err, panic, u64_mod,
}
use distributed_omnipaxos_db.Base.HashMap
use distributed_omnipaxos_db.Base.Utf8.{str_discrete}
use distributed_omnipaxos_db.TxData.{TxOffset}
use distributed_omnipaxos_db.Durability.Entry.{DatabaseLogEntry}
use distributed_omnipaxos_db.Durability.OmniPaxos.{OmniPaxos}
use distributed_omnipaxos_db.Durability.OmniPaxosDurability.Iteration.{pair_of}
use distributed_omnipaxos_db.Datastore.State.{
  DatastoreError, CommittedState, advance_replicated_durability_offset,
}
use distributed_omnipaxos_db.Datastore.State.Views.{IsValid}
use distributed_omnipaxos_db.Datastore.State.Offsets.{advanced, next_offset}
use distributed_omnipaxos_db.Datastore.Replay.{replay_transaction}
use distributed_omnipaxos_db.Datastore.Session.{Op, session}
use distributed_omnipaxos_db.Datastore.Replication.{
  Mirrors, data_of, lead, AllTxsFit, replay-session,
}
use distributed_omnipaxos_db.Node.State.{Node}
use distributed_omnipaxos_db.Node.Apply.{applied, apply_transactions}

-- The log entries that a leader appends for its transactions.
abbrev pub entries_of : List (List Op) → CommittedState → List DatabaseLogEntry
entries_of [] s = []
entries_of (ops ∷ txs) s =
    record { tx_offset = s.next_tx_offset; tx_data = data_of ops s }
    ∷ entries_of txs (session ops s).1

-- Where nothing waits for replication, moving the offset only sets it.
pub advanced_empty :
    (o : TxOffset) (s : CommittedState)
    → s.committed_diff ≡ []
    → ((advanced o s).replicated_state ≡ s.replicated_state)
      × ((advanced o s).committed_diff ≡ [])
      × ((advanced o s).next_tx_offset ≡ s.next_tx_offset)
      × ((advanced o s).replicated_tx_offset ≡ some o)
unfolding advance_replicated_durability_offset HashMap.retain
advanced_empty o s e = rw e (refl, refl, refl, refl)

Mirrors-advanced :
    (leader follower : CommittedState) (o : TxOffset)
    → follower.committed_diff ≡ []
    → leader.next_tx_offset ≡ o + 1
    → Mirrors leader follower
    → Mirrors leader (advanced o follower)
Mirrors-advanced leader follower o e next m =
    let a = advanced_empty o follower e in
    record {
      synced = a.2 ∙ m.next ∙ next ∙ sym (ap next_offset a.3);
      next = a.2 ∙ m.next;
      views = λ key. ap (HashMap.get str_discrete key) a.0 ∙ m.views key;
    }

-- The last of `count` offsets from `first` on, or `o` where there are none.
abbrev pub last_of : Option TxOffset → TxOffset → ℕ → Option TxOffset
last_of o first zero = o
last_of o first (suc count) = some (first + count)

last_of-suc :
    (o : Option TxOffset) (first count : ℕ)
    → last_of (some first) (first + 1) count ≡ last_of o first (suc count)
last_of-suc o first zero = ap some (omega arith)
last_of-suc o first (suc count) = ap some (omega arith)

module _ {P : OmniPaxos} {Sender : Type 0} where
  pub applied_ok :
      (offset : TxOffset) (p : Outcome DatastoreError (Unit {0}) × CommittedState)
      (n : Node P Sender)
      → p.0 ≡ ok tt
      → applied offset p n
        ≡ (ok tt, record n { datastore = advanced offset p.1; last_applied_index = some offset })
  applied_ok offset (ok _, s) n e = refl
  applied_ok offset (err x, s) n e = absurd (cc)
  applied_ok offset (panic, s) n e = absurd (cc)

  -- The follower's loop over the entries of the leader's next transactions.
  pub apply_transactions-entries_of :
      (txs : List (List Op)) (leader : CommittedState) (n : Node P Sender)
      → AllTxsFit txs
      → IsValid leader
      → Mirrors leader n.datastore
      → n.datastore.committed_diff ≡ []
      → leader.next_tx_offset + length txs < u64_mod
      → let (result, n') = apply_transactions (map pair_of (entries_of txs leader)) n in
        (result ≡ ok tt)
        × Mirrors (lead txs leader) n'.datastore
        × (n'.datastore.committed_diff ≡ [])
        × (n'.last_applied_index ≡ last_of n.last_applied_index leader.next_tx_offset (length txs))
        × ((lead txs leader).next_tx_offset ≡ leader.next_tx_offset + length txs)
  unfolding apply_transactions
  apply_transactions-entries_of [] leader n fit v m e room = (refl, m, e, refl, omega arith)
  apply_transactions-entries_of (ops ∷ txs) leader n fit v m e room =
      let r = replay-session ops leader n.datastore fit.0 v m (omega arith) in
      let s' = (replay_transaction (data_of ops leader) n.datastore).1 in
      let offset = leader.next_tx_offset in
      let n' = record n { datastore = advanced offset s'; last_applied_index = some offset } in
      let rest =
        apply_transactions-entries_of txs (session ops leader).1 n' fit.1 r.2
          (Mirrors-advanced (session ops leader).1 s' offset (r.5 ∙ e) r.4 r.3)
          (advanced_empty offset s' (r.5 ∙ e)).1 (omega (arith, r.4)) in
      rw (applied_ok offset (replay_transaction (data_of ops leader) n.datastore) n r.1) (
        rest.0,
        rest.1,
        rest.2,
        rest.3
            ∙ ap (λ first. last_of (some offset) first (length txs)) r.4
            ∙ last_of-suc n.last_applied_index offset (length txs),
        omega (arith, rest.4, r.4),
      )
