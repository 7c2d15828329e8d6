-- ===== src/Cluster/Group/Leading.antt =====
-- A transaction on a leader (`begin_mut_tx` and `commit_mut_tx` of src/node/mod.rs).
use distributed_omnipaxos_db.Base.{
  ◌+◌, ◌<◌, ◌≡◌, refl, sym, ◌∙◌, ap, subst, true, some, ok, List, u64_mod,
}
use distributed_omnipaxos_db.Durability.OmniPaxos.{OmniPaxos}
use distributed_omnipaxos_db.Durability.OmniPaxosDurability
use distributed_omnipaxos_db.Datastore.State.{CommittedState}
use distributed_omnipaxos_db.Datastore.State.Views.{IsValid}
use distributed_omnipaxos_db.Datastore.Tx
use distributed_omnipaxos_db.Datastore.Tx.{MutTx}
use distributed_omnipaxos_db.Datastore.Tx.Commit.{commit_mut_tx-ok, commit_mut_tx-state}
use distributed_omnipaxos_db.Datastore.Session.{Op, AllFit, perform, session, session-Over}
use distributed_omnipaxos_db.Datastore.Replication.{data_of}
use distributed_omnipaxos_db.Node.State.{Node}
use distributed_omnipaxos_db.Node.Methods.{begin_mut_tx, commit_mut_tx}
use distributed_omnipaxos_db.Node.Leader.{leads}
use distributed_omnipaxos_db.Cluster.Group.{run_tx, entry_for}

result_of :
    (ops : List Op) (s : CommittedState)
    → IsValid s
    → AllFit ops
    → s.next_tx_offset + 1 < u64_mod
    → (session ops s).0 ≡ ok (record { tx_offset = s.next_tx_offset; tx_data = data_of ops s })
result_of ops s v fit room =
    let o = session-Over s ops v fit in
    commit_mut_tx-ok (perform ops (Tx.begin_mut_tx s)) o.open_tx
      (subst (λ (l : CommittedState). l.next_tx_offset + 1 < u64_mod) (sym o.base) room)
    ∙ ap
        (λ (l : CommittedState).
          ok (record { tx_offset = l.next_tx_offset; tx_data = data_of ops s }))
        o.base

-- A transaction leaves the replicated offset alone.
pub session-replicated_tx_offset :
    (ops : List Op) (s : CommittedState)
    → IsValid s
    → AllFit ops
    → s.next_tx_offset + 1 < u64_mod
    → (session ops s).1.replicated_tx_offset ≡ s.replicated_tx_offset
session-replicated_tx_offset ops s v fit room =
    let o = session-Over s ops v fit in
    ap (λ (c : CommittedState). c.replicated_tx_offset)
      (commit_mut_tx-state (perform ops (Tx.begin_mut_tx s)) o.open_tx
        (subst (λ (l : CommittedState). l.next_tx_offset + 1 < u64_mod) (sym o.base) room))
    ∙ ap (λ (l : CommittedState). l.replicated_tx_offset) o.base

module _ {P : OmniPaxos} {Sender : Type 0} where
  -- A transaction on a leader whose OmniPaxos takes the entry.
  pub run_tx_lem :
      (ops : List Op) (n : Node P Sender) (s : P.State)
      → leads n ≡ true
      → IsValid n.datastore
      → AllFit ops
      → n.datastore.next_tx_offset + 1 < u64_mod
      → P.append n.omni_durability.omnipaxos (entry_for ops n) ≡ some s
      → run_tx ops n ≡ (
        ok (record { tx_offset = n.datastore.next_tx_offset; tx_data = data_of ops n.datastore }),
        record n {
          datastore = (session ops n.datastore).1;
          omni_durability = record n.omni_durability { omnipaxos = s };
        },
      )
  unfolding begin_mut_tx commit_mut_tx OmniPaxosDurability.append_tx
  run_tx_lem ops n s f v fit room appended =
      rw (f, f, result_of ops n.datastore v fit room, appended) refl
