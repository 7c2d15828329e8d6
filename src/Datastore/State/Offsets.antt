-- ===== src/Datastore/State/Offsets.antt =====
-- The two calls that move the replicated durability offset, in terms of histories and views
-- (src/datastore/example_datastore.rs).
use distributed_omnipaxos_db.Base.{
  ℕ, suc, ◌+◌, ◌≤◌, ◌<◌, ◌≡◌, refl, ◌∙◌, ap, subst, Option, none, some, [], ◌∷◌, ◌++◌, arith, ok,
  append-nil, if◌then◌else◌, add_u64_fits, u64_mod, All,
}
use distributed_omnipaxos_db.Base.HashMap
use distributed_omnipaxos_db.Base.HashMap.{
  HashMap, Distinct, AllValues, get-AllValues, get-retain, kept, retain, retain-Distinct,
}
use distributed_omnipaxos_db.Base.Utf8.{Str, str_discrete}
use distributed_omnipaxos_db.TxData.{TxOffset}
use distributed_omnipaxos_db.Datastore.State.{
  DatastoreError, Diff, TxDiff, CommittedState, inserted, drain, drain_all,
  advance_replicated_durability_offset, rollback_to_replicated_durability_offset, is_pending,
  set_next, next_after,
}
use distributed_omnipaxos_db.Datastore.State.Views.{
  History, history_in, history_of, replicated_view, memory_view, newest, newest-append, Rising,
  IsHistory, IsValid,
}
use distributed_omnipaxos_db.Datastore.State.Advance.{
  upto, beyond, tail_of, drain-Rising, drained, drain_all-get,
}

abbrev pub advanced : TxOffset → CommittedState → CommittedState
advanced o s = (advance_replicated_durability_offset o s).1

Rising-lower : (lo lo' hi : ℕ) (h : History) → lo ≤ lo' → Rising lo' hi h → Rising lo hi h
Rising-lower lo lo' hi [] le r = tt
Rising-lower lo lo' hi ((q, d) ∷ h) le r = (omega arith, r.1, r.2)

beyond-keeps : (o lo hi : ℕ) (h : History) → Rising lo hi h → Rising lo hi (beyond o h)
beyond-keeps o lo hi [] r = tt
beyond-keeps o lo hi ((q, d) ∷ h) r =
    ground (arith, beyond-keeps o (suc q) hi h r.2, Rising-lower lo (suc q) hi (beyond o h))

tail_of-keeps : (lo hi : ℕ) (h : History) → Rising lo hi h → Rising lo hi (tail_of h)
tail_of-keeps lo hi [] r = tt
tail_of-keeps lo hi ((q, d) ∷ h) r = Rising-lower lo (suc q) hi h (omega arith) r.2

drain_all-Distinct :
    (o hi : ℕ) (m : HashMap Str TxDiff) (state : HashMap Str Str)
    → Distinct str_discrete m
    → AllValues (IsHistory hi) m
    → Distinct str_discrete (drain_all o m state).0
unfolding drain_all
drain_all-Distinct o hi [] state u a = tt
drain_all-Distinct o hi ((k, d) ∷ m) state u a =
    let state' = (drain o k d.history state).1 in
    (
      (drain_all-get o hi k m state' u.1 a.1).0 ∙ ap (drained o) u.0,
      drain_all-Distinct o hi m state' u.1 a.1,
    )

drain_all-histories :
    (o hi : ℕ) (m : HashMap Str TxDiff) (state : HashMap Str Str)
    → AllValues (IsHistory hi) m
    → AllValues (IsHistory hi) (retain is_pending (drain_all o m state).0)
unfolding drain_all retain
drain_all-histories o hi [] state a = tt
drain_all-histories o hi ((k, d) ∷ m) state a =
    rw (drain-Rising o 0 hi k k d.history state a.0.1).0 (
      kept_entry (tail_of (beyond o d.history)) (tail_of-keeps 0 hi _ (beyond-keeps o 0 hi _ a.0.1))
        _ (drain_all-histories o hi m (drain o k d.history state).1 a.1))
  where
    kept_entry :
        (h : History)
        → Rising 0 hi h
        → (rest : HashMap Str TxDiff) → AllValues (IsHistory hi) rest
        → AllValues (IsHistory hi) (
            if is_pending (record { history = h })
            then (k, record { history = h }) ∷ rest
            else rest)
    kept_entry [] r rest a' = a'
    kept_entry (e ∷ h) r rest a' = ((omega arith, r), a')

-- Moving the replicated offset leaves a valid state valid.
pub advance-IsValid : (o : TxOffset) (s : CommittedState) → IsValid s → IsValid (advanced o s)
unfolding advance_replicated_durability_offset
advance-IsValid o s v = record {
  distinct = retain-Distinct str_discrete is_pending _ (
      drain_all-Distinct o s.next_tx_offset s.committed_diff s.replicated_state v.distinct
        v.histories);
  histories =
      drain_all-histories o s.next_tx_offset s.committed_diff s.replicated_state v.histories;
  bounded = v.bounded;
}

history-kept :
    (o : TxOffset) (d : Option TxDiff)
    → history_in (kept str_discrete is_pending (drained o d)) ≡ tail_of (beyond o (history_in d))
history-kept o none = refl
history-kept o (some d) = whole (tail_of (beyond o d.history))
  where
    whole :
        (h : History)
        → history_in (kept str_discrete is_pending (some (record { history = h }))) ≡ h
    whole [] = refl
    whole (e ∷ h) = refl

-- Moving the replicated offset of a valid state applies, for each key, the diffs up to the offset
-- to the replicated value, and leaves of the history what is beyond the offset, less its first
-- diff.
pub advance_lem :
    (o : TxOffset) (s : CommittedState) (j : Str)
    → IsValid s
    → (replicated_view (advanced o s) j ≡ newest (upto o (history_of s j)) (replicated_view s j))
      × (history_of (advanced o s) j ≡ tail_of (beyond o (history_of s j)))
unfolding advance_replicated_durability_offset
advance_lem o s j v =
    let at_key =
      drain_all-get o s.next_tx_offset j s.committed_diff s.replicated_state v.distinct
        v.histories in
    (
      at_key.1,
      ap history_in (
            get-retain str_discrete is_pending j _ (
              drain_all-Distinct o s.next_tx_offset s.committed_diff s.replicated_state v.distinct
                v.histories))
          ∙ ap (λ d. history_in (kept str_discrete is_pending d)) at_key.0
          ∙ history-kept o (HashMap.get str_discrete j s.committed_diff),
    )

-- An offset that covers the whole history of a key.
abbrev pub Covers : TxOffset → History → Type 0
Covers o = All (λ e. e.0 ≤ o)

upto-Covers : (o : TxOffset) (h k : History) → Covers o h → upto o (h ++ k) ≡ h ++ upto o k
upto-Covers o [] k c = refl
upto-Covers o ((q, d) ∷ h) k c = ground (arith, upto-Covers o h k c.1)

beyond-Covers : (o : TxOffset) (h k : History) → Covers o h → beyond o (h ++ k) ≡ beyond o k
beyond-Covers o [] k c = refl
beyond-Covers o ((q, d) ∷ h) k c = ground (arith, beyond-Covers o h k c.1)

-- Where the offset covers the history of a key in a valid state, the key's newest committed value
-- becomes its replicated value, nothing is left of the history, and memory readers see no change.
pub advance_covered :
    (o : TxOffset) (s : CommittedState) (j : Str)
    → IsValid s
    → Covers o (history_of s j)
    → (replicated_view (advanced o s) j ≡ memory_view s j)
      × (history_of (advanced o s) j ≡ [])
      × (memory_view (advanced o s) j ≡ memory_view s j)
advance_covered o s j v c = ground (
  arith,
  advance_lem o s j v,
  upto-Covers o (history_of s j) [] c,
  beyond-Covers o (history_of s j) [] c,
  append-nil (history_of s j),
)

-- In a valid state, a committed diff that is the newest of its key and the only one beyond the
-- offset is lost when the offset moves: memory readers saw it, then fall back to the diffs before
-- it, and no later move of the offset brings it into the replicated state.
pub advance_loses_next :
    (o later : TxOffset) (s : CommittedState) (j : Str) (older : History) (q : TxOffset) (d : Diff)
    → IsValid s
    → history_of s j ≡ older ++ (q, d) ∷ []
    → Covers o older
    → o < q
    → let s' = advanced o s in
      (memory_view s j ≡ inserted d)
      × (memory_view s' j ≡ newest older (replicated_view s j))
      × (replicated_view (advanced later s') j ≡ newest older (replicated_view s j))
advance_loses_next o later s j older q d v e c lt = (
  rw (e, newest-append older ((q, d) ∷ [])) refl,
  rw (left, now) refl,
  rw ((advance_lem later (advanced o s) j (advance-IsValid o s v)).0, left) now,
)
  where
    covered : upto o (history_of s j) ≡ older
    covered = rw e (ground (arith, upto-Covers o older ((q, d) ∷ []) c, append-nil older))

    left : history_of (advanced o s) j ≡ []
    left = (advance_lem o s j v).1 ∙ rw e (ground (arith, beyond-Covers o older ((q, d) ∷ []) c))

    now : replicated_view (advanced o s) j ≡ newest older (replicated_view s j)
    now = (advance_lem o s j v).0 ∙ ap (λ h. newest h (replicated_view s j)) covered

abbrev pub next_offset : Option TxOffset → ℕ
next_offset none = 0
next_offset (some o) = o + 1

set_next_lem :
    (s : CommittedState) (r : Option TxOffset)
    → next_offset r < u64_mod
    → set_next (next_after r) s ≡ (ok tt, record s { next_tx_offset = next_offset r })
unfolding next_after
set_next_lem s none room = refl
set_next_lem s (some o) room = rw (add_u64_fits {E = DatastoreError} o 1 room)

-- Rolling back a valid state succeeds where the replicated offset is below 2 ^ 64 - 1: the state
-- stays valid, memory readers see the replicated values, which do not change, the next transaction
-- gets the offset behind the replicated one, or 0, and the replicated offset stays.
pub rollback_lem :
    (s : CommittedState) (j : Str)
    → IsValid s
    → next_offset s.replicated_tx_offset < u64_mod
    → let (result, s') = rollback_to_replicated_durability_offset s in
      (result ≡ ok tt)
      × IsValid s'
      × (memory_view s' j ≡ replicated_view s j)
      × (replicated_view s' j ≡ replicated_view s j)
      × (s'.next_tx_offset ≡ next_offset s.replicated_tx_offset)
      × (s'.replicated_tx_offset ≡ s.replicated_tx_offset)
unfolding rollback_to_replicated_durability_offset HashMap.get
rollback_lem s j v room =
    rw (set_next_lem (record s { committed_diff = [] }) s.replicated_tx_offset room)
      (refl, record { distinct = tt; histories = tt; bounded = room }, refl, refl, refl, refl)

-- Without commits beyond an offset, it covers every history.
Rising-Covers : (lo o : ℕ) (h : History) → Rising lo (o + 1) h → Covers o h
Rising-Covers lo o [] r = tt
Rising-Covers lo o ((q, d) ∷ h) r = (omega (arith, r.1), Rising-Covers (suc q) o h r.2)

pub all_covered :
    (o : TxOffset) (s : CommittedState) (j : Str)
    → IsValid s
    → s.next_tx_offset ≡ o + 1
    → Covers o (history_of s j)
all_covered o s j v next = covers (HashMap.get str_discrete j s.committed_diff) (λ d found.
    (get-AllValues str_discrete (IsHistory s.next_tx_offset) j d s.committed_diff v.histories
      found).1)
  where
    covers :
        (found : Option TxDiff)
        → ((d : TxDiff) → found ≡ some d → Rising 0 s.next_tx_offset d.history)
        → Covers o (history_in found)
    covers none h = tt
    covers (some d) h =
        Rising-Covers 0 o d.history (subst (λ hi. Rising 0 hi d.history) next (h d refl))

pub rollback-no_commits :
    (s : CommittedState)
    → next_offset s.replicated_tx_offset < u64_mod
    → (rollback_to_replicated_durability_offset s).1.committed_diff ≡ []
unfolding rollback_to_replicated_durability_offset
rollback-no_commits s room =
    rw (set_next_lem (record s { committed_diff = [] }) s.replicated_tx_offset room) refl
