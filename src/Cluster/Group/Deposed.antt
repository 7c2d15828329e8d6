-- ===== src/Cluster/Group/Deposed.antt =====
-- A leader that loses its place (`apply_replicated_txns`, the transaction methods and `update_leader` of
-- src/node/mod.rs, one after another): it goes back to what was decided.
use distributed_omnipaxos_db.Base.{
  ℕ, ◌+◌, ◌<◌, ◌≡◌, ◌≢◌, refl, sym, ◌∙◌, ap, true, false, some, List, [], arith, ok, u64_mod,
  fun_ext,
}
use distributed_omnipaxos_db.Base.Utf8.{Str}
use distributed_omnipaxos_db.TxData.{TxOffset}
use distributed_omnipaxos_db.Durability.OmniPaxos.{OmniPaxos}
use distributed_omnipaxos_db.Durability.OmniPaxosDurability
use distributed_omnipaxos_db.Datastore.State.{
  CommittedState, rollback_to_replicated_durability_offset,
}
use distributed_omnipaxos_db.Datastore.State.Views.{IsValid, memory_view, replicated_view}
use distributed_omnipaxos_db.Datastore.State.Offsets.{
  next_offset, all_covered, rollback_lem, rollback-no_commits,
}
use distributed_omnipaxos_db.Datastore.Session.{Op, AllFit}
use distributed_omnipaxos_db.Datastore.Table.Runs.{session_table}
use distributed_omnipaxos_db.Node.State.{Node}
use distributed_omnipaxos_db.Node.Apply.{apply_replicated_txns}
use distributed_omnipaxos_db.Node.Methods.{update_leader}
use distributed_omnipaxos_db.Node.CatchUp.{Follows}
use distributed_omnipaxos_db.Node.Leader.{leads, leader_advances, update_from, rolls}
use distributed_omnipaxos_db.Node.Frame.{apply_replicated_txns-SamePoll}
use distributed_omnipaxos_db.Cluster.Group.{run_tx, entry_for, with_state}
use distributed_omnipaxos_db.Cluster.Group.Leading.{run_tx_lem, session-replicated_tx_offset}

module _ {P : OmniPaxos} {Sender : Type 0} where
  -- What a leader does without a poll: transactions, whose entries OmniPaxos takes, and messages.
  pub data GoesOn (n : Node P Sender) : Node P Sender → Type 0 where
    rests : GoesOn n n
    runs :
        {m : Node P Sender} (ops : List Op) (s : P.State)
        → GoesOn n m
        → AllFit ops
        → m.datastore.next_tx_offset + 1 < u64_mod
        → P.append m.omni_durability.omnipaxos (entry_for ops m) ≡ some s
        → leads (with_state s m) ≡ true
        → GoesOn n (run_tx ops m).1
    learns :
        {m : Node P Sender} (s : P.State)
        → GoesOn n m
        → leads (with_state s m) ≡ true
        → GoesOn n (with_state s m)

  -- What the node keeps then: the table `leader` at the replicated level, as of offset `o`.
  record Keeps (leader : CommittedState) (o : TxOffset) (n m : Node P Sender) : Type 0 where
    leading : leads m ≡ true
    node_id : m.node_id ≡ n.node_id
    current_leader : m.current_leader ≡ n.current_leader
    last : m.last_applied_index ≡ some o
    valid : IsValid m.datastore
    view : replicated_view m.datastore ≡ memory_view leader
    offset : m.datastore.replicated_tx_offset ≡ some o

  goes_on :
      (leader : CommittedState) (o : TxOffset) (n m k : Node P Sender)
      → Keeps leader o n m
      → GoesOn m k
      → Keeps leader o n k
  goes_on leader o n m k w rests = w
  goes_on leader o n m k w (runs {m = m'} ops s run fit room appended leading) =
      let w' = goes_on leader o n m m' w run in
      let after = session_table ops m'.datastore w'.valid room in
      rw (run_tx_lem ops m' s w'.leading w'.valid fit room appended) (record {
        leading = leading;
        node_id = w'.node_id;
        current_leader = w'.current_leader;
        last = w'.last;
        valid = after.0;
        view = after.2 ∙ w'.view;
        offset = session-replicated_tx_offset ops m'.datastore w'.valid fit room ∙ w'.offset;
      })
  goes_on leader o n m k w (learns {m = m'} s run leading) =
      let w' = goes_on leader o n m m' w run in
      record {
        leading = leading;
        node_id = w'.node_id;
        current_leader = w'.current_leader;
        last = w'.last;
        valid = w'.valid;
        view = w'.view;
        offset = w'.offset;
      }

  -- The poll that finds all own commits decided.
  polled_all :
      (n : Node P Sender) (o : TxOffset)
      → leads n ≡ true
      → n.got_promoted_leader ≡ false
      → OmniPaxosDurability.get_durable_tx_offset_optional P n.omni_durability ≡ some o
      → n.last_applied_index ≢ some o
      → IsValid n.datastore
      → n.datastore.next_tx_offset ≡ o + 1
      → Keeps n.datastore o n (apply_replicated_txns n).1
  polled_all n o f u decided new v next =
      let r = leader_advances n o f u decided new v in
      let same = apply_replicated_txns-SamePoll n in
      record {
        leading = ap (OmniPaxosDurability.is_leader P) same.0.omni_durability ∙ f;
        node_id = same.0.node_id;
        current_leader = same.1;
        last = r.1;
        valid = r.2;
        view = fun_ext (λ key. r.4 key (all_covered o n.datastore key v next));
        offset = r.3;
      }

  rolled_back :
      (leader : CommittedState) (o : TxOffset) (n m : Node P Sender) (s : P.State) (new : ℕ)
      → Keeps leader o n m
      → leader.next_tx_offset ≡ o + 1
      → o + 1 < u64_mod
      → m.current_leader ≡ some m.node_id
      → OmniPaxosDurability.get_current_leader P (with_state s m).omni_durability ≡ some new
      → new ≢ m.node_id
      → let (result, m') = update_leader (with_state s m) in
        (result ≡ ok tt) × (m'.current_leader ≡ some new) × Follows leader o m'
  rolled_back leader o n m s new w next room was now other =
      rw (update_from (with_state s m) was now ∙ rolls (with_state s m) new other (back []).0) (
        refl,
        refl,
        record {
          mirrors = record {
            synced = (back []).4 ∙ sym (ap next_offset (back []).5);
            next = (back []).4 ∙ ap next_offset w.offset ∙ sym next;
            views = λ key. (back key).3 ∙ ap (λ view. view key) w.view;
          };
          no_commits = rollback-no_commits m.datastore fits;
          last = w.last;
          next = next;
        },
      )
    where
      fits : next_offset m.datastore.replicated_tx_offset < u64_mod
      fits = rw w.offset room

      back :
          (key : Str)
          → let (result, s') = rollback_to_replicated_durability_offset m.datastore in
            (result ≡ ok tt)
            × IsValid s'
            × (memory_view s' key ≡ replicated_view m.datastore key)
            × (replicated_view s' key ≡ replicated_view m.datastore key)
            × (s'.next_tx_offset ≡ next_offset m.datastore.replicated_tx_offset)
            × (s'.replicated_tx_offset ≡ m.datastore.replicated_tx_offset)
      back key = rollback_lem m.datastore key w.valid fits

  -- A leader that notes itself as the leader and was not promoted by a change of leader polls while
  -- `o`, the offset of its last commit, is the decided one and not its last applied one, on a valid
  -- datastore. It goes on with any transactions on strings, whose entries OmniPaxos takes, and any
  -- messages, without another poll, and then finds another node leading. `update_leader` succeeds,
  -- notes that node, and leaves a follower that mirrors, as of `o`, the state at the time of the
  -- poll: what was committed behind it leaves no trace, and the datastore can take the entries from
  -- `o` on.
  pub deposed_leader-Follows :
      (n m : Node P Sender) (o : TxOffset) (s : P.State) (new : ℕ)
      → leads n ≡ true
      → n.got_promoted_leader ≡ false
      → n.current_leader ≡ some n.node_id
      → OmniPaxosDurability.get_durable_tx_offset_optional P n.omni_durability ≡ some o
      → n.last_applied_index ≢ some o
      → IsValid n.datastore
      → n.datastore.next_tx_offset ≡ o + 1
      → GoesOn (apply_replicated_txns n).1 m
      → OmniPaxosDurability.get_current_leader P (with_state s m).omni_durability ≡ some new
      → new ≢ n.node_id
      → let (result, n') = update_leader (with_state s m) in
        (result ≡ ok tt) × (n'.current_leader ≡ some new) × Follows n.datastore o n'
  deposed_leader-Follows n m o s new f u was decided last v next run now other =
      let w =
        goes_on n.datastore o n (apply_replicated_txns n).1 m
          (polled_all n o f u decided last v next) run in
      rolled_back n.datastore o n m s new w next (omega (arith, v.bounded, next))
        (w.current_leader ∙ was ∙ ap some (sym w.node_id)) now (λ same. other (same ∙ w.node_id))
