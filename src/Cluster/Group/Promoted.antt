-- ===== src/Cluster/Group/Promoted.antt =====
-- What a poll of a leader does, in particular of one that was just promoted
-- (`apply_replicated_txns` of src/node/mod.rs).
use distributed_omnipaxos_db.Base.{
  ℕ, zero, suc, ◌+◌, ◌-◌, ◌≤◌, ◌<◌, ◌≡◌, ◌≢◌, refl, subst, true, false, Option, none, some, List,
  [], ◌∷◌, arith, ok, length, get_elem?, take, drop, map, u64_mod, All, All-map, Bool-cases, inl,
  inr, ◌==◌, ==_iff, ℕ_discrete,
}
use distributed_omnipaxos_db.TxData.{TxOffset}
use distributed_omnipaxos_db.Durability.Entry.{DatabaseLogEntry}
use distributed_omnipaxos_db.Durability.OmniPaxos.{OmniPaxos, HasDecided}
use distributed_omnipaxos_db.Durability.OmniPaxosDurability.Iteration.{pair_of}
use distributed_omnipaxos_db.Datastore.State.{advance_replicated_durability_offset}
use distributed_omnipaxos_db.Datastore.State.Views.{IsValid}
use distributed_omnipaxos_db.Datastore.State.Offsets.{advanced, advance-IsValid, next_offset}
use distributed_omnipaxos_db.Datastore.Replay.Outcomes.{replay_ahead}
use distributed_omnipaxos_db.Node.State.{Node, and_then_ok}
use distributed_omnipaxos_db.Node.Apply.{
  apply_transactions, takes_lead, apply_decided, clear_promoted, apply_replicated_txns, same_offset,
}
use distributed_omnipaxos_db.Node.CatchUp.{IsNumbered, durable_of_numbered, loops, up_to_date}
use distributed_omnipaxos_db.Node.Leader.{leads}
use distributed_omnipaxos_db.Node.Failover.{cur_offset_of}
use distributed_omnipaxos_db.Cluster.Group.{HasLearned}
use distributed_omnipaxos_db.Cluster.Group.Prefixes.{length-take, All-drop}
use distributed_omnipaxos_db.Cluster.Group.Applying.{Knows, behind_decided}

get_elem?-take :
    {A : Type 0} (k : ℕ) (xs : List A) (i : ℕ) (x : A)
    → get_elem? (take k xs) i ≡ some x
    → get_elem? xs i ≡ some x
get_elem?-take zero xs i x found = absurd (cc found)
get_elem?-take (suc k) [] i x found = absurd (cc found)
get_elem?-take (suc k) (y ∷ xs) zero x found = found
get_elem?-take (suc k) (y ∷ xs) (suc i) x found = get_elem?-take k xs i x found

IsNumbered-take : (k : ℕ) (log : List DatabaseLogEntry) → IsNumbered log → IsNumbered (take k log)
IsNumbered-take k log h i e found = h i e (get_elem?-take k log i e found)

offsets_below :
    (log : List DatabaseLogEntry) (first : ℕ)
    → ((i : ℕ) (e : DatabaseLogEntry) → get_elem? log i ≡ some e → e.tx_offset ≡ first + i)
    → All (λ e. e.tx_offset < first + length log) log
offsets_below [] first h = tt
offsets_below (e ∷ log) first h = (
  omega (arith, h 0 e refl),
  subst (λ k. All (λ e'. e'.tx_offset < k) log) {x = suc first + length log}
      {y = first + suc (length log)} (omega arith)
      (offsets_below log (suc first) (λ i e' found. omega (arith, h (suc i) e' found))),
)

module _ {P : OmniPaxos} {Sender : Type 0} where
  abbrev pub Moved : Node P Sender → Node P Sender → Type 0
  Moved n n' = IsValid n'.datastore × (n'.datastore.next_tx_offset ≡ n.datastore.next_tx_offset)

  -- Entries that the leader has committed itself are refused, and only move its offset.
  refused :
      (log : List DatabaseLogEntry) (n : Node P Sender)
      → IsValid n.datastore
      → next_offset n.datastore.replicated_tx_offset < n.datastore.next_tx_offset
      → n.datastore.next_tx_offset < u64_mod
      → All (λ e. e.tx_offset + 1 < n.datastore.next_tx_offset) log
      → let (result, n') = apply_transactions (map pair_of log) n in (result ≡ ok tt) × Moved n n'
  unfolding apply_transactions advance_replicated_durability_offset
  refused [] n v ahead room h = (refl, (v, refl))
  refused (e ∷ log) n v ahead room h =
      let no =
        replay_ahead e.tx_data n.datastore (omega (arith, ahead, room))
          (λ synced. absurd (omega (arith, synced, ahead))) in
      let n' : Node P Sender = record n {
        datastore = advanced e.tx_offset n.datastore;
        last_applied_index = some e.tx_offset;
      } in
      let rest =
        refused log n' (advance-IsValid e.tx_offset n.datastore v) (omega (arith, h.0)) room h.1 in
      rw no rest

  -- A leader that polled since it leads, or has led from the start; and one that was promoted with the
  -- entry at `a` as its last applied one, and has not moved its offset since.
  pub data Role (n : Node P Sender) : Type 0 where
    settled : n.got_promoted_leader ≡ false → Role n
    promoted :
        (a : ℕ)
        → n.got_promoted_leader ≡ true
        → n.last_applied_index ≡ some a
        → next_offset n.datastore.replicated_tx_offset ≡ a + 1
        → a < n.datastore.next_tx_offset
        → Knows n a
        → Role n

  settled_moves :
      (n : Node P Sender) (o : Option TxOffset)
      → leads n ≡ true
      → n.got_promoted_leader ≡ false
      → IsValid n.datastore
      → let (result, n') = apply_decided o n in (result ≡ ok tt) × Role n' × Moved n n'
  unfolding apply_decided advance_replicated_durability_offset
  settled_moves n none f u v = (refl, settled u, (v, refl))
  settled_moves n (some o) f u v = elim (Bool-cases (same_offset (some o) n.last_applied_index)) [
    | inl same ↦ rw same (refl, settled u, (v, refl))
    | inr other ↦ rw (other, f, u) (refl, settled refl, (advance-IsValid o n.datastore v, refl))
  ]

  -- The leader's branch of a promoted leader.
  promoted_moves :
      (n : Node P Sender) (o a : ℕ)
      → leads n ≡ true
      → n.got_promoted_leader ≡ true
      → n.last_applied_index ≡ some a
      → (o == a) ≡ false
      → n.datastore.next_tx_offset ≡ o + 1
      → IsValid n.datastore
      → let (result, n') = apply_decided (some o) n in (result ≡ ok tt) × Role n' × Moved n n'
  unfolding apply_decided advance_replicated_durability_offset
  promoted_moves n o a f p last other next v =
      let own : (o == o) ≡ true = (==_iff o o).1 refl in
      rw (last, other, f, p, cur_offset_of n.datastore o next, own)
        (refl, settled refl, (advance-IsValid o n.datastore v, refl))

  not_taken :
      (n : Node P Sender) (o : ℕ)
      → leads n ≡ true
      → n.got_promoted_leader ≡ true
      → 0 < n.datastore.next_tx_offset
      → n.datastore.next_tx_offset ≢ o + 1
      → takes_lead o n ≡ ok false
  unfolding takes_lead
  not_taken n o f p pos ne =
      let other : (n.datastore.next_tx_offset - 1 == o) ≡ false = ground arith in
      rw
        (
          f,
          p,
          cur_offset_of n.datastore (n.datastore.next_tx_offset - 1) (omega (arith, pos)),
          other,
        )
        refl

  -- A poll of a promoted leader that knows how much of its log is decided.
  promoted_decides :
      (n : Node P Sender) (log : List DatabaseLogEntry) (a : ℕ)
      → leads n ≡ true
      → n.got_promoted_leader ≡ true
      → n.last_applied_index ≡ some a
      → next_offset n.datastore.replicated_tx_offset ≡ a + 1
      → a < n.datastore.next_tx_offset
      → Knows n a
      → HasDecided P n.omni_durability.omnipaxos log
      → IsNumbered log
      → length log ≤ n.datastore.next_tx_offset
      → length log + 1 < u64_mod
      → IsValid n.datastore
      → let (result, n') = apply_replicated_txns n in (result ≡ ok tt) × Role n' × Moved n n'
  unfolding apply_replicated_txns
  promoted_decides n log a f p last rep lt knows h numbered within room v =
      let past : a < length log = behind_decided n log a knows h in
      let o = length log - 1 in
      rw (durable_of_numbered P n.omni_durability log h numbered (omega (arith, past)))
        (elim (Bool-cases (o == a)) [
          | inl same ↦
              rw (up_to_date n o a last same) (refl, promoted a p last rep lt knows, (v, refl))
          | inr other ↦ elim (ℕ_discrete n.datastore.next_tx_offset (o + 1)) [
            | yes at_end ↦ promoted_moves n o a f p last other at_end v
            | no ne ↦ behind past other ne
          ]
        ])
    where
      behind :
          a < length log
          → (length log - 1 == a) ≡ false
          → n.datastore.next_tx_offset ≢ length log - 1 + 1
          → let (result, n') = apply_decided (some (length log - 1)) n in
            (result ≡ ok tt) × Role n' × Moved n n'
      behind past other ne =
          let more : length log < n.datastore.next_tx_offset = omega (arith, past, within, ne) in
          let rest = refused (drop (a + 1) log) n v (omega (arith, rep, past, more)) v.bounded (
            All-drop (λ e. e.tx_offset + 1 < n.datastore.next_tx_offset) (a + 1) log
              (All-map (λ e. e.tx_offset < 0 + length log)
                (λ e. e.tx_offset + 1 < n.datastore.next_tx_offset) log
                (λ e lt'. omega (arith, lt', more))
                (offsets_below log 0 (λ i e found. omega (arith, numbered i e found))))) in
          rw
            (
              loops n log a (not_taken n (length log - 1) f p (omega (arith, lt)) ne) h past room
                  last other,
              and_then_ok (apply_transactions (map pair_of (drop (a + 1) log)) n) clear_promoted
                  rest.0,
            )
            (refl, settled refl, rest.1)

  -- Any poll of a leader.
  pub leader_polled :
      (n : Node P Sender) (log : List DatabaseLogEntry)
      → leads n ≡ true
      → Role n
      → HasLearned P log n.omni_durability.omnipaxos
      → IsNumbered log
      → length log ≡ n.datastore.next_tx_offset
      → length log + 1 < u64_mod
      → IsValid n.datastore
      → let (result, n') = apply_replicated_txns n in (result ≡ ok tt) × Role n' × Moved n n'
  leader_polled n log f (settled u) l numbered size room v =
      unfold apply_replicated_txns in settled_moves n _ f u v
  leader_polled n log f (promoted a p last rep lt knows) l numbered size room v =
      let short = length-take l.known log l.within in
      promoted_decides n (take l.known log) a f p last rep lt knows l.has_decided
        (IsNumbered-take l.known log numbered) (omega (arith, short, l.within, size))
        (omega (arith, short, l.within, room)) v
