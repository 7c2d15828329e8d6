-- ===== src/Datastore/State/Views.antt =====
-- What readers of the committed state see (src/datastore/example_datastore.rs): for each key the
-- history of diffs that are committed and not yet replicated, and the two states.
use distributed_omnipaxos_db.Base.{
  ℕ, suc, ◌≤◌, ◌<◌, ◌≡◌, refl, Option, none, some, List, [], ◌∷◌, ◌++◌, arith, length, ok, ◌>>=◌,
  u64_mod,
}
use distributed_omnipaxos_db.Base.HashMap
use distributed_omnipaxos_db.Base.HashMap.{HashMap, Distinct, AllValues, get-AllValues}
use distributed_omnipaxos_db.Base.Utf8.{Str, str_discrete}
use distributed_omnipaxos_db.TxData.{TxOffset}
use distributed_omnipaxos_db.Durability.{memory, replicated}
use distributed_omnipaxos_db.Datastore.State.{
  Diff, TxDiff, CommittedState, new, last, unwrap, inserted, get_diff, get,
}

abbrev pub History : Type 0
History = List (TxOffset × Diff)

-- A key without an entry has the empty history.
abbrev pub history_in : Option TxDiff → History
history_in none = []
history_in (some d) = d.history

abbrev pub history_of : CommittedState → Str → History
history_of s key = history_in (HashMap.get str_discrete key s.committed_diff)

abbrev pub replicated_view : CommittedState → Str → Option Str
replicated_view s key = HashMap.get str_discrete key s.replicated_state

-- The diffs of a history, oldest first, applied to a value.
abbrev pub newest : History → Option Str → Option Str
newest [] base = base
newest ((offset, diff) ∷ history) base = newest history (inserted diff)

abbrev pub memory_view : CommittedState → Str → Option Str
memory_view s key = newest (history_of s key) (replicated_view s key)

-- Offsets rise along a history from `lo` on and stay below `hi`.
abbrev pub Rising : ℕ → ℕ → History → Type 0
Rising lo hi [] = Unit
Rising lo hi ((offset, diff) ∷ history) =
    (lo ≤ offset) × (offset < hi) × Rising (suc offset) hi history

abbrev pub IsHistory : ℕ → TxDiff → Type 0
IsHistory hi d = (0 < length d.history) × Rising 0 hi d.history

-- Each key has one entry, with a history that is not empty, of offsets that rise and have been given
-- out.
pub record IsValid (s : CommittedState) : Type 0 where
  pub distinct : Distinct str_discrete s.committed_diff
  pub histories : AllValues (IsHistory s.next_tx_offset) s.committed_diff
  pub bounded : s.next_tx_offset < u64_mod

pub new-IsValid : IsValid new
unfolding new
new-IsValid = record { distinct = tt; histories = tt; bounded = omega arith }

latest-newest :
    (history : History) (base : Option Str)
    → 0 < length history
    → (do (_, diff) ← unwrap {E = ⊥} (last history); ok (inserted diff)) ≡ ok (newest history base)
unfolding last
latest-newest [] base h = absurd (omega arith)
latest-newest ((q, d) ∷ []) base h = refl
latest-newest ((q, d) ∷ (r, e) ∷ rest) base h =
    latest-newest ((r, e) ∷ rest) (inserted d) (omega arith)

get_diff-newest :
    (o : Option TxDiff) (base : Option Str)
    → ((d : TxDiff) → o ≡ some d → 0 < length d.history)
    → get_diff o base ≡ ok (newest (history_in o) base)
unfolding get_diff
get_diff-newest none base h = refl
get_diff-newest (some d) base h = latest-newest d.history base (h d refl)

-- In a valid state a read does not panic: at the memory level it gives the newest committed value,
-- and at the replicated level the replicated one.
pub get_views :
    (s : CommittedState) (key : Str)
    → IsValid s
    → (get s key memory ≡ ok (memory_view s key))
      × (get s key replicated ≡ ok (replicated_view s key))
unfolding get
get_views s key v = (
  get_diff-newest _ _ (λ d e.
      (get-AllValues str_discrete (IsHistory s.next_tx_offset) key d s.committed_diff v.histories
        e).0),
  refl,
)

pub newest-append :
    (h k : History) (base : Option Str) → newest (h ++ k) base ≡ newest k (newest h base)
newest-append [] k base = refl
newest-append ((q, d) ∷ h) k base = newest-append h k (inserted d)
