-- ===== src/Node/CatchUp.antt =====
-- `apply_replicated_txns` on a follower (src/node/mod.rs), down to the log and the datastore.
use distributed_omnipaxos_db.Base.{
  ℕ, suc, ◌+◌, ◌-◌, ◌<◌, ◌≡◌, ◌≢◌, refl, sym, ◌∙◌, ap, true, false, some, List, [], ◌∷◌, map, arith,
  length, length-drop, get_elem?, drop, ok, u64_mod, ◌==◌, Bool-cases, inl, inr, ==_iff,
}
use distributed_omnipaxos_db.TxData.{TxOffset}
use distributed_omnipaxos_db.Durability.Entry.{DatabaseLogEntry}
use distributed_omnipaxos_db.Durability.OmniPaxos.{OmniPaxos, HasDecided}
use distributed_omnipaxos_db.Durability.OmniPaxosDurability
use distributed_omnipaxos_db.Durability.OmniPaxosDurability.Iteration.{
  pair_of, iter_starting_from_offset_lem, durable_offset_lem, drop-get_elem?,
}
use distributed_omnipaxos_db.Datastore.State.{CommittedState}
use distributed_omnipaxos_db.Datastore.State.Views.{IsValid}
use distributed_omnipaxos_db.Datastore.Session.{Op, session}
use distributed_omnipaxos_db.Datastore.Replication.{Mirrors, lead, AllTxsFit}
use distributed_omnipaxos_db.Node.State.{Node, and_then, and_then_ok}
use distributed_omnipaxos_db.Node.Apply.{
  apply_transactions, takes_lead, apply_decided, clear_promoted, apply_replicated_txns,
}
use distributed_omnipaxos_db.Node.Follower.{entries_of, last_of, apply_transactions-entries_of}

-- Each entry carries its position in the log as its offset.
abbrev pub IsNumbered : List DatabaseLogEntry → Type 0
IsNumbered log = (i : ℕ) (e : DatabaseLogEntry) → get_elem? log i ≡ some e → e.tx_offset ≡ i

-- In a numbered log with a decided entry the durable offset is the last position.
pub durable_of_numbered :
    (P : OmniPaxos) (d : OmniPaxosDurability.OmniPaxosDurability P) (log : List DatabaseLogEntry)
    → HasDecided P d.omnipaxos log
    → IsNumbered log
    → 0 < length log
    → OmniPaxosDurability.get_durable_tx_offset_optional P d ≡ some (length log - 1)
durable_of_numbered P d log h numbered pos =
    let (e, found, _) = drop-get_elem? log (length log - 1) (omega arith) in
    (durable_offset_lem P d log e h found).0 ∙ ap some (numbered (length log - 1) e found)

pub length-entries_of :
    (txs : List (List Op)) (s : CommittedState) → length (entries_of txs s) ≡ length txs
length-entries_of [] s = refl
length-entries_of (ops ∷ txs) s = ap suc (length-entries_of txs (session ops s).1)

lead_zero : (txs : List (List Op)) (s : CommittedState) → length txs ≡ 0 → lead txs s ≡ s
lead_zero [] s e = refl
lead_zero (ops ∷ txs) s e = absurd (omega (arith, e))

-- A node whose datastore mirrors the leader as of the entry at `a`, which is the last one that the node
-- has applied.
pub record Follows {P : OmniPaxos} {Sender : Type 0} (leader : CommittedState) (a : TxOffset)
    (n : Node P Sender) : Type 0 where
  pub mirrors : Mirrors leader n.datastore
  pub no_commits : n.datastore.committed_diff ≡ []
  pub last : n.last_applied_index ≡ some a
  pub next : leader.next_tx_offset ≡ a + 1

module _ {P : OmniPaxos} {Sender : Type 0} where
  pub not_leading :
      (o : TxOffset) (n : Node P Sender)
      → OmniPaxosDurability.is_leader P n.omni_durability ≡ false
      → takes_lead o n ≡ ok false
  unfolding takes_lead
  not_leading o n h = rw h

  pub up_to_date :
      (n : Node P Sender) (o a : TxOffset)
      → n.last_applied_index ≡ some a
      → (o == a) ≡ true
      → apply_decided (some o) n ≡ (ok tt, n)
  unfolding apply_decided
  up_to_date n o a last same = rw (last, same)

  -- A node that does not take the leader's branch, and whose last entry is not the last decided one,
  -- runs its loop over those behind it.
  pub loops :
      (n : Node P Sender) (log : List DatabaseLogEntry) (a : TxOffset)
      → takes_lead (length log - 1) n ≡ ok false
      → HasDecided P n.omni_durability.omnipaxos log
      → a < length log
      → length log + 1 < u64_mod
      → n.last_applied_index ≡ some a
      → (length log - 1 == a) ≡ false
      → apply_decided (some (length log - 1)) n
        ≡ and_then (apply_transactions (map pair_of (drop (a + 1) log)) n) clear_promoted
  unfolding apply_decided
  loops n log a f h lt room last behind =
      rw (last, behind, f, iter_starting_from_offset_lem P n.omni_durability log a h lt room)

  -- A node that takes the follower's branch where it is behind, and follows the leader.
  pub follower_branch-Follows :
      (n : Node P Sender) (leader : CommittedState) (txs : List (List Op))
      (log : List DatabaseLogEntry) (a : TxOffset)
      → (length log - 1 ≢ a → takes_lead (length log - 1) n ≡ ok false)
      → HasDecided P n.omni_durability.omnipaxos log
      → IsNumbered log
      → a < length log
      → length log + 1 < u64_mod
      → drop (a + 1) log ≡ entries_of txs leader
      → AllTxsFit txs
      → IsValid leader
      → Follows leader a n
      → let (result, n') = apply_replicated_txns n in
        (result ≡ ok tt) × Follows (lead txs leader) (length log - 1) n'
  unfolding apply_replicated_txns
  follower_branch-Follows n leader txs log a f h numbered lt room rest fit v w =
      rw (durable_of_numbered P n.omni_durability log h numbered (omega arith))
        (elim (Bool-cases (length log - 1 == a)) [
          | inl same ↦ rw (up_to_date n (length log - 1) a w.last same) (refl, stays same)
          | inr behind ↦
              rw (loops n log a (f (ne behind)) h lt room w.last behind, rest)
                (rw
                  (and_then_ok (apply_transactions (map pair_of (entries_of txs leader)) n)
                    clear_promoted caught_up.0)
                  (refl, followed behind))
        ])
    where
      count : length txs ≡ length log - (a + 1)
      count = sym (length-entries_of txs leader) ∙ ap length (sym rest) ∙ length-drop (a + 1) log

      n' : Node P Sender
      n' = (apply_transactions (map pair_of (entries_of txs leader)) n).1

      caught_up :
          ((apply_transactions (map pair_of (entries_of txs leader)) n).0 ≡ ok tt)
          × Mirrors (lead txs leader) n'.datastore
          × (n'.datastore.committed_diff ≡ [])
          × (n'.last_applied_index
              ≡ last_of n.last_applied_index leader.next_tx_offset (length txs))
          × ((lead txs leader).next_tx_offset ≡ leader.next_tx_offset + length txs)
      caught_up =
          apply_transactions-entries_of txs leader n fit v w.mirrors w.no_commits
            (omega (arith, count, w.next))

      stays : (length log - 1 == a) ≡ true → Follows (lead txs leader) (length log - 1) n
      stays same =
          let end : length log - 1 ≡ a = (==_iff _ _).0 same in
          rw (lead_zero txs leader (omega (arith, count, end)), end) w

      ne : (length log - 1 == a) ≡ false → length log - 1 ≢ a
      ne behind e = ground arith

      followed :
          (length log - 1 == a) ≡ false
          → Follows (lead txs leader) (length log - 1) (record n' { got_promoted_leader = false })
      followed behind = record {
        mirrors = caught_up.1;
        no_commits = caught_up.2;
        last =
            caught_up.3
            ∙ ap (last_of n.last_applied_index leader.next_tx_offset) {x = length txs}
                {y = suc (length log - (a + 2))} (omega (arith, count, ne behind))
            ∙ ap some (omega (arith, w.next, ne behind));
        next = omega (arith, caught_up.4, count, w.next);
      }

  -- A node that does not lead, whose datastore mirrors a valid leader as of the entry at `a`, its
  -- last applied one, takes the entries decided behind `a`, where the log is numbered and holds
  -- there what the leader appended for its next transactions. The call succeeds, and the node
  -- mirrors the leader as of the last decided entry: no entry is left out, refused or applied
  -- twice.
  pub apply_replicated_txns-Follows :
      (n : Node P Sender) (leader : CommittedState) (txs : List (List Op))
      (log : List DatabaseLogEntry) (a : TxOffset)
      → OmniPaxosDurability.is_leader P n.omni_durability ≡ false
      → HasDecided P n.omni_durability.omnipaxos log
      → IsNumbered log
      → a < length log
      → length log + 1 < u64_mod
      → drop (a + 1) log ≡ entries_of txs leader
      → AllTxsFit txs
      → IsValid leader
      → Follows leader a n
      → let (result, n') = apply_replicated_txns n in
        (result ≡ ok tt) × Follows (lead txs leader) (length log - 1) n'
  apply_replicated_txns-Follows n leader txs log a f h numbered lt room rest fit v w =
      follower_branch-Follows n leader txs log a (λ _. not_leading (length log - 1) n f) h numbered
        lt room rest fit v w
