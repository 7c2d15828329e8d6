-- ===== src/Node/Fresh.antt =====
-- A follower that has applied nothing yet (src/node/mod.rs): `replicated_offset.unwrap_or(TxOffset(0))`
-- stands both for "nothing" and for "the entry at 0", and the log is read behind that position.
use distributed_omnipaxos_db.Base.{
  ℕ, suc, ◌+◌, ◌<◌, ◌≤◌, ◌≡◌, refl, sym, ◌∙◌, ap, subst, false, Option, none, some, List, [], ◌∷◌,
  map, arith, length, get_elem?, drop, ok, u64_mod, All,
}
use distributed_omnipaxos_db.TxData.{TxOffset, TxData}
use distributed_omnipaxos_db.Durability.Entry.{DatabaseLogEntry}
use distributed_omnipaxos_db.Durability.OmniPaxos.{OmniPaxos, HasDecided}
use distributed_omnipaxos_db.Durability.OmniPaxosDurability
use distributed_omnipaxos_db.Durability.OmniPaxosDurability.Iteration.{
  pair_of, iter_starting_from_offset_lem,
}
use distributed_omnipaxos_db.Datastore.State
use distributed_omnipaxos_db.Datastore.State.{
  DatastoreError, invalid_durability_offset, CommittedState, get_cur_offset,
}
use distributed_omnipaxos_db.Datastore.State.Offsets.{advanced, next_offset}
use distributed_omnipaxos_db.Datastore.Replay.{replay_writes, replay_transaction}
use distributed_omnipaxos_db.Datastore.Replay.Outcomes.{replay_synced, replay_ahead}
use distributed_omnipaxos_db.Node.State.{Node, and_then, and_then_ok}
use distributed_omnipaxos_db.Node.Apply.{
  apply_transactions, apply_decided, apply_replicated_txns, clear_promoted,
}
use distributed_omnipaxos_db.Node.Follower.{applied_ok, advanced_empty}
use distributed_omnipaxos_db.Node.CatchUp.{IsNumbered, durable_of_numbered, not_leading}
use distributed_omnipaxos_db.Node.Leader.{leads}

-- A datastore that refuses every replay, without commits of its own.
pub record IsStuck (s : CommittedState) : Type 0 where
  pub one : s.next_tx_offset ≡ 1
  pub ahead : 2 ≤ next_offset s.replicated_tx_offset
  pub fits : next_offset s.replicated_tx_offset < u64_mod
  pub no_commits : s.committed_diff ≡ []

-- The offset of the last entry of a log, or `o` where it is empty.
abbrev pub last_entry : Option TxOffset → List DatabaseLogEntry → Option TxOffset
last_entry o [] = o
last_entry o (e ∷ log) = last_entry (some e.tx_offset) log

numbered-fits :
    (log : List DatabaseLogEntry) (k : ℕ)
    → ((i : ℕ) (e : DatabaseLogEntry) → get_elem? log i ≡ some e → e.tx_offset ≡ i + k)
    → 1 ≤ k
    → k + length log < u64_mod
    → All (λ e. (1 ≤ e.tx_offset) × (e.tx_offset + 1 < u64_mod)) log
numbered-fits [] k h pos room = tt
numbered-fits (e ∷ log) k h pos room = (
  omega (arith, h 0 e refl),
  numbered-fits log (k + 1) (λ i x found. omega (arith, h (suc i) x found)) (omega arith)
      (omega arith),
)

-- What the first replay on a datastore does, where it is new.
abbrev TakesFirst : TxData → CommittedState → Type 0
TakesFirst tx_data s =
    let (result, s') = replay_transaction tx_data s in
    (result ≡ (replay_writes tx_data []).0)
    × (s'.replicated_state ≡ (replay_writes tx_data []).1)
    × (s'.next_tx_offset ≡ 1)
    × (s'.committed_diff ≡ [])

new-TakesFirst : (tx_data : TxData) → TakesFirst tx_data State.new
unfolding State.new
new-TakesFirst tx_data =
    let r = replay_synced tx_data State.new refl (omega arith) in (r.0, r.1, r.2, r.4)

module _ {P : OmniPaxos} {Sender : Type 0} where
  -- A stuck datastore stays stuck, and takes nothing, whatever transactions come behind the first.
  apply_transactions-IsStuck :
      (log : List DatabaseLogEntry) (n : Node P Sender)
      → All (λ e. (1 ≤ e.tx_offset) × (e.tx_offset + 1 < u64_mod)) log
      → IsStuck n.datastore
      → let (result, n') = apply_transactions (map pair_of log) n in
        (result ≡ ok tt)
        × IsStuck n'.datastore
        × (n'.datastore.replicated_state ≡ n.datastore.replicated_state)
        × (n'.last_applied_index ≡ last_entry n.last_applied_index log)
  unfolding apply_transactions
  apply_transactions-IsStuck [] n h s = (refl, s, refl, refl)
  apply_transactions-IsStuck (e ∷ log) n h s =
      let refused =
        replay_ahead e.tx_data n.datastore s.fits
          (λ synced. absurd (omega (arith, synced, s.one, s.ahead))) in
      let a = advanced_empty e.tx_offset n.datastore s.no_commits in
      let n' = record n {
        datastore = advanced e.tx_offset n.datastore;
        last_applied_index = some e.tx_offset;
      } in
      let rest = apply_transactions-IsStuck log n' h.1 (record {
        one = a.2 ∙ s.one;
        ahead = rw a.3 (omega (arith, h.0.0));
        fits = rw a.3 h.0.1;
        no_commits = a.1;
      }) in
      rw refused (rest.0, rest.1, rest.2 ∙ a.0, rest.3)

  loops_fresh :
      (n : Node P Sender) (log : List DatabaseLogEntry) (o : TxOffset)
      → leads n ≡ false
      → HasDecided P n.omni_durability.omnipaxos log
      → 0 < length log
      → length log + 1 < u64_mod
      → n.last_applied_index ≡ none
      → apply_decided (some o) n
        ≡ and_then (apply_transactions (map pair_of (drop 1 log)) n) clear_promoted
  unfolding apply_decided
  loops_fresh n log o f h pos room last =
      rw (
        last,
        not_leading o n f,
        iter_starting_from_offset_lem P n.omni_durability log 0 h pos room,
      )

  -- A node that does not lead, with a new datastore and nothing applied, finds two or more decided
  -- entries in a numbered log, of which the second one's writes succeed. The call succeeds, but
  -- never applies the first entry: the replicated state is what the second one alone writes, the
  -- datastore refuses every later replay, and the last entry counts as applied all the same.
  pub fresh_follower_loses :
      (n : Node P Sender) (first second : DatabaseLogEntry) (rest : List DatabaseLogEntry)
      → leads n ≡ false
      → HasDecided P n.omni_durability.omnipaxos (first ∷ second ∷ rest)
      → IsNumbered (first ∷ second ∷ rest)
      → length rest + 3 < u64_mod
      → n.last_applied_index ≡ none
      → n.datastore ≡ State.new
      → (replay_writes second.tx_data []).0 ≡ ok tt
      → let (result, n') = apply_replicated_txns n in
        (result ≡ ok tt)
        × (n'.datastore.replicated_state ≡ (replay_writes second.tx_data []).1)
        × IsStuck n'.datastore
        × (n'.last_applied_index ≡ last_entry (some 1) rest)
  unfolding apply_replicated_txns
  fresh_follower_loses n first second rest f h numbered room last fresh writes =
      rw
        (
          durable_of_numbered P n.omni_durability (first ∷ second ∷ rest) h numbered (omega arith),
          loops_fresh n (first ∷ second ∷ rest) _ f h (omega arith) (omega arith) last,
          and_then_ok (apply_transactions (map pair_of (second ∷ rest)) n) clear_promoted taken.0,
        )
        (refl, taken.2, taken.1, taken.3)
    where
      r : TakesFirst second.tx_data n.datastore
      r = subst (TakesFirst second.tx_data) (sym fresh) (new-TakesFirst second.tx_data)

      s1 : CommittedState
      s1 = (replay_transaction second.tx_data n.datastore).1

      at_one : second.tx_offset ≡ 1
      at_one = numbered 1 second refl

      moved :
          ((advanced second.tx_offset s1).replicated_state ≡ s1.replicated_state)
          × ((advanced second.tx_offset s1).committed_diff ≡ [])
          × ((advanced second.tx_offset s1).next_tx_offset ≡ s1.next_tx_offset)
          × ((advanced second.tx_offset s1).replicated_tx_offset ≡ some second.tx_offset)
      moved = advanced_empty second.tx_offset s1 r.3

      stuck : IsStuck (advanced second.tx_offset s1)
      stuck = record {
        one = moved.2 ∙ r.2;
        ahead = rw moved.3 (omega (arith, at_one));
        fits = rw moved.3 (omega (arith, at_one));
        no_commits = moved.1;
      }

      behind : All (λ e. (1 ≤ e.tx_offset) × (e.tx_offset + 1 < u64_mod)) rest
      behind =
          numbered-fits rest 2 (λ i e found. omega (arith, numbered (suc (suc i)) e found))
            (omega arith) (omega arith)

      taken :
          let (result, n') = apply_transactions (map pair_of (second ∷ rest)) n in
          (result ≡ ok tt)
          × IsStuck n'.datastore
          × (n'.datastore.replicated_state ≡ (replay_writes second.tx_data []).1)
          × (n'.last_applied_index ≡ last_entry (some 1) rest)
      taken =
          let n' = record n {
            datastore = advanced second.tx_offset s1;
            last_applied_index = some second.tx_offset;
          } in
          let t = apply_transactions-IsStuck rest n' behind stuck in
          unfold apply_transactions in
          rw
            (applied_ok second.tx_offset (replay_transaction second.tx_data n.datastore) n
              (r.0 ∙ writes))
            (t.0, t.1, t.2 ∙ moved.0 ∙ r.1, t.3 ∙ ap (λ o. last_entry (some o) rest) at_one)
