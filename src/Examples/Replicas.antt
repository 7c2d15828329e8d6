-- ===== src/Examples/Replicas.antt =====
-- Replicas at concrete inputs, over the log in memory: a leader, a follower that catches up, one that
-- starts anew, and changes of leader.
use distributed_omnipaxos_db.Base.{
  ℕ, zero, suc, ◌+◌, ◌<◌, ◌≡◌, refl, sym, ap, ◌∙◌, true, false, Option, none, some, List, [], ◌∷◌,
  map, drop, arith, ok, panic, u64_mod,
}
use distributed_omnipaxos_db.Base.Utf8.{Str}
use distributed_omnipaxos_db.TxData.{TxOffset, TxData}
use distributed_omnipaxos_db.Durability.Entry.{DatabaseLogEntry}
use distributed_omnipaxos_db.Durability.OmniPaxosDurability.{
  iter_starting_from_offset, get_durable_tx_offset_optional, get_durable_tx_offset, is_leader,
  get_current_leader,
}
use distributed_omnipaxos_db.Durability.OmniPaxosDurability.Iteration.{
  pair_of, iter_starting_from_offset_lem, durable_offset_lem,
}
use distributed_omnipaxos_db.Datastore.State
use distributed_omnipaxos_db.Datastore.State.{CommittedState, not_leader}
use distributed_omnipaxos_db.Datastore.State.Views.{
  IsValid, new-IsValid, history_of, replicated_view, memory_view,
}
use distributed_omnipaxos_db.Datastore.State.Offsets.{Covers, next_offset}
use distributed_omnipaxos_db.Datastore.Tx
use distributed_omnipaxos_db.Datastore.Tx.{MutTx, tx_data_of}
use distributed_omnipaxos_db.Datastore.Tx.Buffer.{tx_view, IsOpen, begin_mut_tx_lem}
use distributed_omnipaxos_db.Datastore.Replay.{replay_writes, replay_transaction}
use distributed_omnipaxos_db.Datastore.Session.{session}
use distributed_omnipaxos_db.Datastore.Replication.{
  Mirrors, new-Mirrors, data_of, lead, replay-session,
}
use distributed_omnipaxos_db.Node.State.{Node}
use distributed_omnipaxos_db.Node.Apply.{apply_replicated_txns}
use distributed_omnipaxos_db.Node.Methods.{commit_mut_tx, update_leader}
use distributed_omnipaxos_db.Node.Follower.{entries_of}
use distributed_omnipaxos_db.Node.CatchUp.{IsNumbered, Follows, apply_replicated_txns-Follows}
use distributed_omnipaxos_db.Node.Leader.{
  leads, leader_commits, leader_advances, update_leader-rolls_back,
}
use distributed_omnipaxos_db.Node.Fresh.{IsStuck, last_entry, fresh_follower_loses}
use distributed_omnipaxos_db.Node.Promotion.{update_leader-panics}
use distributed_omnipaxos_db.Examples.Data.{
  writes_both, overwrites, writes_both-AllFit, overwrites-AllFit, sample_data, MemoryLog,
  memory_paxos, memory_log-HasDecided,
}

-- Two decided entries, and node 1 leads.
abbrev pub log : List DatabaseLogEntry
log = entries_of (writes_both ∷ overwrites ∷ []) State.new

abbrev pub two_decided : MemoryLog
two_decided = record { entries = log; pending = []; leader = some 1 }

abbrev pub node_of :
    ℕ → MemoryLog → CommittedState → Option TxOffset → Option ℕ → Node memory_paxos ℕ
node_of node_id s datastore last_applied_index current_leader = record {
  node_id = node_id;
  datastore = datastore;
  omni_durability = record { omnipaxos = s; node_id = node_id };
  last_applied_index = last_applied_index;
  connections = [];
  disconnected_connections = [];
  is_running = true;
  current_leader = current_leader;
  received_messages_size = 0;
  got_promoted_leader = false;
}

abbrev offset_of : Option DatabaseLogEntry → ℕ
offset_of none = 0
offset_of (some e) = e.tx_offset

two-IsNumbered :
    (a b : DatabaseLogEntry) → a.tx_offset ≡ 0 → b.tx_offset ≡ 1 → IsNumbered (a ∷ b ∷ [])
two-IsNumbered a b p q zero e found = sym (ap offset_of found) ∙ p
two-IsNumbered a b p q (suc zero) e found = sym (ap offset_of found) ∙ q
two-IsNumbered a b p q (suc (suc i)) e found = absurd (cc found)

pub new_next : State.new.next_tx_offset ≡ 0
unfolding State.new
new_next = refl

abbrev pub leader : CommittedState
leader = (session writes_both State.new).1

abbrev pub mirror : CommittedState
mirror = (replay_transaction (data_of writes_both State.new) State.new).1

pub first_replay :
    IsValid leader
    × Mirrors leader mirror
    × (leader.next_tx_offset ≡ 1)
    × (mirror.committed_diff ≡ [])
first_replay =
    let r =
      replay-session writes_both State.new State.new writes_both-AllFit new-IsValid new-Mirrors
        (omega (arith, new_next)) in
    (r.2, r.3, r.4 ∙ ap (λ n. n + 1) new_next, r.5 ∙ unfold State.new in refl)

pub log-IsNumbered : IsNumbered log
log-IsNumbered = two-IsNumbered _ _ new_next first_replay.2

abbrev follower : Node memory_paxos ℕ
follower = node_of 2 two_decided mirror (some 0) (some 1)

follower-Follows : Follows leader 0 follower
follower-Follows = record {
  mirrors = first_replay.1;
  no_commits = first_replay.3;
  last = refl;
  next = first_replay.2;
}

follower_not_leading : leads follower ≡ false
unfolding is_leader
follower_not_leading = refl

apply_replicated_txns-Follows_example :
    let (result, n') = apply_replicated_txns follower in
    (result ≡ ok tt) × Follows (lead (overwrites ∷ []) leader) 1 n'
apply_replicated_txns-Follows_example =
    apply_replicated_txns-Follows follower leader (overwrites ∷ []) log 0 follower_not_leading
      (memory_log-HasDecided two_decided) log-IsNumbered (omega arith) (omega arith) refl
      (overwrites-AllFit, tt) first_replay.0 follower-Follows

iter_starting_from_offset_lem_example :
    iter_starting_from_offset memory_paxos follower.omni_durability 0
    ≡ ok (map pair_of (drop (0 + 1) log))
iter_starting_from_offset_lem_example =
    iter_starting_from_offset_lem memory_paxos follower.omni_durability log 0
      (memory_log-HasDecided two_decided) (omega arith) (omega arith)

abbrev last_decided : DatabaseLogEntry
last_decided = record { tx_offset = leader.next_tx_offset; tx_data = data_of overwrites leader }

durable_two :
    (get_durable_tx_offset_optional memory_paxos follower.omni_durability
      ≡ some leader.next_tx_offset)
    × (get_durable_tx_offset memory_paxos follower.omni_durability ≡ 1)
durable_two =
    durable_offset_lem memory_paxos follower.omni_durability log last_decided
      (memory_log-HasDecided two_decided) refl

-- Node 1 leads with what it committed in memory.
abbrev leading : Node memory_paxos ℕ
leading = node_of 1 two_decided leader none (some 1)

leading-leads : leads leading ≡ true
unfolding is_leader
leading-leads = refl

abbrev next_tx : MutTx
next_tx = Tx.begin_mut_tx leader

next_tx-IsOpen : IsOpen next_tx
next_tx-IsOpen = (begin_mut_tx_lem leader [] first_replay.0).0

next_tx-room : next_tx.committed_state.next_tx_offset + 1 < u64_mod
unfolding Tx.begin_mut_tx
next_tx-room = omega (arith, first_replay.2)

abbrev next_entry : DatabaseLogEntry
next_entry = record {
  tx_offset = next_tx.committed_state.next_tx_offset;
  tx_data = tx_data_of next_tx.diff;
}

leader_commits_example :
    let (result, n') = commit_mut_tx next_tx leading in
    (result
      ≡ ok (record {
        tx_offset = next_tx.committed_state.next_tx_offset;
        tx_data = tx_data_of next_tx.diff;
      }))
    × (n'.omni_durability.omnipaxos ≡ record two_decided { pending = next_entry ∷ [] })
    × IsValid n'.datastore
    × ((key : Str) → memory_view n'.datastore key ≡ tx_view next_tx key)
    × (n'.last_applied_index ≡ none)
leader_commits_example =
    leader_commits leading next_tx (record two_decided { pending = next_entry ∷ [] }) leading-leads
      next_tx-IsOpen next_tx-room refl

one_decided : get_durable_tx_offset_optional memory_paxos leading.omni_durability ≡ some 1
unfolding get_durable_tx_offset_optional
one_decided = durable_two.0 ∙ ap some first_replay.2

leader_advances_example :
    let (result, n') = apply_replicated_txns leading in
    (result ≡ ok tt)
    × (n'.last_applied_index ≡ some 1)
    × IsValid n'.datastore
    × (n'.datastore.replicated_tx_offset ≡ some 1)
    × ((key : Str)
        → Covers 1 (history_of leader key)
        → replicated_view n'.datastore key ≡ memory_view leader key)
leader_advances_example =
    leader_advances leading 1 leading-leads refl one_decided (λ e. absurd (cc e)) first_replay.0

-- Node 2 thought that it led.
abbrev replaced : Node memory_paxos ℕ
replaced = node_of 2 two_decided State.new none (some 2)

leader_one : get_current_leader memory_paxos replaced.omni_durability ≡ some 1
unfolding get_current_leader
leader_one = refl

no_replicated : next_offset State.new.replicated_tx_offset < u64_mod
unfolding State.new
no_replicated = omega arith

update_leader-rolls_back_example :
    let (result, n') = update_leader replaced in
    (result ≡ ok tt)
    × IsValid n'.datastore
    × ((key : Str)
        → (memory_view n'.datastore key ≡ replicated_view State.new key)
          × (replicated_view n'.datastore key ≡ replicated_view State.new key))
    × (n'.datastore.next_tx_offset ≡ next_offset State.new.replicated_tx_offset)
    × (n'.current_leader ≡ some 1)
update_leader-rolls_back_example =
    update_leader-rolls_back replaced 1 refl leader_one (omega arith) new-IsValid no_replicated

-- Node 2 has applied nothing, and the second entry holds no writes.
abbrev no_writes : TxData
no_writes = record { inserts = []; deletes = []; truncs = [] }

abbrev entry_at : TxOffset → TxData → DatabaseLogEntry
entry_at offset tx_data = record { tx_offset = offset; tx_data = tx_data }

abbrev plain : MemoryLog
plain = record {
  entries = entry_at 0 sample_data ∷ entry_at 1 no_writes ∷ [];
  pending = [];
  leader = some 1;
}

abbrev fresh : Node memory_paxos ℕ
fresh = node_of 2 plain State.new none (some 1)

fresh_not_leading : leads fresh ≡ false
unfolding is_leader
fresh_not_leading = refl

plain-IsNumbered : IsNumbered plain.entries
plain-IsNumbered = two-IsNumbered (entry_at 0 sample_data) (entry_at 1 no_writes) refl refl

no_writes_ok : (replay_writes no_writes []).0 ≡ ok tt
unfolding replay_writes
no_writes_ok = refl

fresh_follower_loses_example :
    let (result, n') = apply_replicated_txns fresh in
    (result ≡ ok tt)
    × (n'.datastore.replicated_state ≡ (replay_writes no_writes []).1)
    × IsStuck n'.datastore
    × (n'.last_applied_index ≡ last_entry (some 1) [])
fresh_follower_loses_example =
    fresh_follower_loses fresh (entry_at 0 sample_data) (entry_at 1 no_writes) [] fresh_not_leading
      (memory_log-HasDecided plain) plain-IsNumbered (omega arith) refl refl no_writes_ok

-- Before the second entry is decided it waits.
abbrev waiting : Node memory_paxos ℕ
waiting =
    node_of 2 (record { entries = entry_at 0 sample_data ∷ []; pending = []; leader = some 1 })
      State.new none (some 1)

pub one-IsNumbered : (e : DatabaseLogEntry) → e.tx_offset ≡ 0 → IsNumbered (e ∷ [])
one-IsNumbered e p zero e' found = sym (ap offset_of found) ∙ p
one-IsNumbered e p (suc i) e' found = absurd (cc found)

-- Node 1 is promoted, and has applied nothing.
abbrev promoted : Node memory_paxos ℕ
promoted = node_of 1 plain State.new none (some 2)

promoted-leads : leads promoted ≡ true
unfolding is_leader
promoted-leads = refl

promoted_leader : get_current_leader memory_paxos promoted.omni_durability ≡ some 1
unfolding get_current_leader
promoted_leader = refl

update_leader-panics_example : (update_leader promoted).0 ≡ panic
update_leader-panics_example =
    update_leader-panics promoted 2 plain.entries refl promoted_leader promoted-leads (omega arith)
      (memory_log-HasDecided plain) plain-IsNumbered (omega arith) new_next refl
