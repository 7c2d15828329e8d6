-- ===== src/Datastore/Tx/Commit.antt =====
-- What a commit does to the committed state (src/datastore/example_datastore.rs).
use mathlib.Core.List.{foldl}
use distributed_omnipaxos_db.Base.{
  ℕ, suc, ◌+◌, ◌≤◌, ◌<◌, ◌≡◌, refl, sym, ap, if_pos, if_neg, Option, none, some, [], ◌∷◌, ◌++◌,
  append-nil, arith, length-append, ok, ite, add_u64_fits, u64_mod,
}
use distributed_omnipaxos_db.Base.HashMap
use distributed_omnipaxos_db.Base.HashMap.{
  HashMap, Distinct, AllValues, get-insert, insert-Distinct, get-AllValues, insert-AllValues,
}
use distributed_omnipaxos_db.Base.Utf8.{Str, str_discrete}
use distributed_omnipaxos_db.TxData.{TxOffset}
use distributed_omnipaxos_db.Datastore.State.{DatastoreError, Diff, TxDiff}
use distributed_omnipaxos_db.Datastore.State.Views.{
  History, history_in, history_of, memory_view, newest, newest-append, Rising, IsHistory, IsValid,
}
use distributed_omnipaxos_db.Datastore.Tx.{MutTx, extended, record_diff, tx_data_of, commit_mut_tx}
use distributed_omnipaxos_db.Datastore.Tx.Buffer.{IsOpen, diff_of, shown, tx_view}

-- The entry that a commit adds to the history of a key.
abbrev pub entry_at : TxOffset → Option Diff → History
entry_at offset none = []
entry_at offset (some diff) = (offset, diff) ∷ []

newest-entry_at :
    (offset : TxOffset) (o : Option Diff) (base : Option Str)
    → newest (entry_at offset o) base ≡ shown o base
newest-entry_at offset none base = refl
newest-entry_at offset (some d) base = refl

history-extended :
    (o : Option TxDiff) (offset : TxOffset) (diff : Diff)
    → (extended o offset diff).history ≡ history_in o ++ (offset, diff) ∷ []
unfolding extended
history-extended none offset diff = refl
history-extended (some d) offset diff = refl

history-record_diff :
    (offset : TxOffset) (m : HashMap Str TxDiff) (k j : Str) (d : Diff)
    → history_in (HashMap.get str_discrete j (record_diff offset m (k, d)))
      ≡ history_in (HashMap.get str_discrete j m)
        ++ entry_at offset (ite (str_discrete k j) (some d) none)
unfolding record_diff
history-record_diff offset m k j d = ground (
  arith,
  get-insert str_discrete k j (extended (HashMap.get str_discrete k m) offset d) m,
  history-extended (HashMap.get str_discrete k m) offset d,
  append-nil (history_in (HashMap.get str_discrete j m)),
)

history-record_diffs :
    (offset : TxOffset) (m : HashMap Str TxDiff) (diffs : HashMap Str Diff) (j : Str)
    → Distinct str_discrete diffs
    → history_in (HashMap.get str_discrete j (foldl (record_diff offset) m diffs))
      ≡ history_in (HashMap.get str_discrete j m)
        ++ entry_at offset (HashMap.get str_discrete j diffs)
unfolding HashMap.get
history-record_diffs offset m [] j h = sym (append-nil _)
history-record_diffs offset m ((k, d) ∷ diffs) j h = ground (
  arith,
  history-record_diffs offset (record_diff offset m (k, d)) diffs j h.1,
  history-record_diff offset m k j d,
  append-nil (history_in (HashMap.get str_discrete j m)),
  append-nil (history_in (HashMap.get str_discrete j m) ++ (offset, d) ∷ []),
)

Rising-append :
    (n : ℕ) (h : History) (d : Diff) (lo : ℕ)
    → lo ≤ n
    → Rising lo n h
    → Rising lo (n + 1) (h ++ (n, d) ∷ [])
Rising-append n [] d lo le r = omega arith
Rising-append n ((q, e) ∷ h) d lo le r =
    (r.0, omega arith, Rising-append n h d (suc q) (omega arith) r.2)

Rising-widen : (n lo : ℕ) (h : History) → Rising lo n h → Rising lo (n + 1) h
Rising-widen n lo [] r = tt
Rising-widen n lo ((q, d) ∷ h) r = (r.0, omega arith, Rising-widen n (suc q) h r.2)

widen :
    (n : ℕ) (m : HashMap Str TxDiff) → AllValues (IsHistory n) m → AllValues (IsHistory (n + 1)) m
widen n [] h = tt
widen n ((k, d) ∷ m) h = ((h.0.0, Rising-widen n 0 d.history h.0.1), widen n m h.1)

extended-IsHistory :
    (n : ℕ) (o : Option TxDiff) (diff : Diff)
    → ((d : TxDiff) → o ≡ some d → Rising 0 n d.history)
    → IsHistory (n + 1) (extended o n diff)
unfolding extended
extended-IsHistory n none diff h = omega arith
extended-IsHistory n (some d) diff h = (
  omega (arith, length-append d.history ((n, diff) ∷ [])),
  Rising-append n d.history diff 0 (omega arith) (h d refl),
)

-- The keys that are still to be written have histories below the new offset.
abbrev Fresh : ℕ → HashMap Str TxDiff → HashMap Str Diff → Type 0
Fresh n m diffs =
    (j : Str) (d : Diff) (v : TxDiff)
    → HashMap.get str_discrete j diffs ≡ some d
    → HashMap.get str_discrete j m ≡ some v
    → Rising 0 n v.history

Fresh-tail :
    (n : ℕ) (m : HashMap Str TxDiff) (k : Str) (d : Diff) (diffs : HashMap Str Diff)
    → HashMap.get str_discrete k diffs ≡ none
    → Fresh n m ((k, d) ∷ diffs)
    → Fresh n (record_diff n m (k, d)) diffs
unfolding HashMap.get record_diff
Fresh-tail n m k d diffs new f j e v p q = elim (str_discrete k j) [
  | yes same ↦ absurd (cc (new, p, ap (λ (x : Str). HashMap.get str_discrete x diffs) same))
  | no other ↦
      f j e v (rw (if_neg (str_discrete k j) other) p)
        (rw (get-insert str_discrete k j _ m, if_neg (str_discrete k j) other) at q)
]

record_diffs_valid :
    (n : ℕ) (m : HashMap Str TxDiff) (diffs : HashMap Str Diff)
    → Distinct str_discrete diffs
    → Distinct str_discrete m
    → AllValues (IsHistory (n + 1)) m
    → Fresh n m diffs
    → let m' = foldl (record_diff n) m diffs in
      Distinct str_discrete m' × AllValues (IsHistory (n + 1)) m'
unfolding HashMap.get
record_diffs_valid n m [] h d a f = (d, a)
record_diffs_valid n m ((k, diff) ∷ diffs) h d a f =
    record_diffs_valid n (record_diff n m (k, diff)) diffs h.1
      (unfold record_diff in insert-Distinct str_discrete k _ m d)
      (unfold record_diff in
        insert-AllValues str_discrete (IsHistory (n + 1)) k _ m
          (extended-IsHistory n (HashMap.get str_discrete k m) diff
            (λ v e. f k diff v (rw (if_pos (str_discrete k k) refl)) e))
          a)
      (Fresh-tail n m k diff diffs h.0 f)

module _ (tx : MutTx) (o : IsOpen tx) (room : tx.committed_state.next_tx_offset + 1 < u64_mod) where
  abbrev offset : TxOffset
  offset = tx.committed_state.next_tx_offset

  -- Where an offset is left, a commit succeeds, with the offset and the data of the transaction.
  pub commit_mut_tx-ok :
      (commit_mut_tx tx).0
      ≡ ok (record { tx_offset = tx.committed_state.next_tx_offset; tx_data = tx_data_of tx.diff })
  unfolding commit_mut_tx
  commit_mut_tx-ok = rw (add_u64_fits {E = DatastoreError} offset 1 room)

  pub commit_mut_tx-state : (commit_mut_tx tx).1 ≡ record tx.committed_state {
    next_tx_offset = tx.committed_state.next_tx_offset + 1;
    committed_diff =
        foldl
          (record_diff tx.committed_state.next_tx_offset)
          tx.committed_state.committed_diff
          tx.diff;
  }
  unfolding commit_mut_tx
  commit_mut_tx-state = rw (add_u64_fits {E = DatastoreError} offset 1 room)

  -- Committing an open transaction leaves the committed state valid, where the next offset is below
  -- 2 ^ 64 - 1.
  pub commit_mut_tx-IsValid : IsValid (commit_mut_tx tx).1
  commit_mut_tx-IsValid =
      rw commit_mut_tx-state
        (record { distinct = (recorded).0; histories = (recorded).1; bounded = room })
    where
      recorded :
          let m = foldl (record_diff offset) tx.committed_state.committed_diff tx.diff in
          Distinct str_discrete m × AllValues (IsHistory (offset + 1)) m
      recorded =
          record_diffs_valid offset tx.committed_state.committed_diff tx.diff o.distinct
            o.state.distinct (widen offset _ o.state.histories)
            (λ j d v p q.
              (get-AllValues str_discrete (IsHistory offset) j v tx.committed_state.committed_diff
                o.state.histories q).1)

  -- Committing an open transaction, where the next offset is below 2 ^ 64 - 1, appends the diff of
  -- each key that the transaction wrote to the history of that key, at that offset, and leaves all
  -- other histories as they were.
  history_of-commit_mut_tx :
      (j : Str)
      → history_of (commit_mut_tx tx).1 j
        ≡ history_of tx.committed_state j ++ entry_at offset (diff_of tx j)
  history_of-commit_mut_tx j =
      rw commit_mut_tx-state
        (history-record_diffs offset tx.committed_state.committed_diff tx.diff j o.distinct)

  -- After the commit of an open transaction memory readers see for each key what the transaction
  -- showed, where the next offset is below 2 ^ 64 - 1.
  pub memory_view-commit_mut_tx : (j : Str) → memory_view (commit_mut_tx tx).1 j ≡ tx_view tx j
  memory_view-commit_mut_tx j =
      rw (history_of-commit_mut_tx j, newest-append (history_of tx.committed_state j))
        (rw commit_mut_tx-state (newest-entry_at offset (diff_of tx j) _))
