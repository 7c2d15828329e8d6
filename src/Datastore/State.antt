-- ===== src/Datastore/State.antt =====
-- `CommittedState` of src/datastore/example_datastore.rs, with the errors of src/datastore/error.rs.
-- Code that changes the state gives the state back beside an error or a panic too.
pub mod Views
pub mod Advance
pub mod Offsets
use mathlib.Core.Option
use distributed_omnipaxos_db.Base.{
  ℕ, zero, suc, ◌+◌, ◌-◌, ◌≡◌, Bool, true, false, Option, none, some, List, [], ◌∷◌, ◌++◌, map, not,
  leb, ◌==◌, if◌then◌else◌, Outcome, ok, err, panic, ◌>>=◌, add_u64, map_err,
}
use distributed_omnipaxos_db.Base.HashMap
use distributed_omnipaxos_db.Base.HashMap.{HashMap}
use distributed_omnipaxos_db.Base.Utf8.{Str, str_discrete, from_utf8}
use distributed_omnipaxos_db.Varint.{IoError}
use distributed_omnipaxos_db.TxData.{
  TxOffset, TableId, RowData, InsertList, DeleteList, TxData, TxResult,
}
use distributed_omnipaxos_db.Row.{ExampleRow, serialize_example_row, deserialize_example_row}
use distributed_omnipaxos_db.Durability.{DurabilityLevel, memory, replicated}

pub data DatastoreError : Type 0 where
  serialization : DatastoreError
  durability_offset_error : DatastoreError
  insert_deserialization_error : DatastoreError
  delete_deserialization_error : DatastoreError
  not_leader : DatastoreError
  invalid_durability_offset : DatastoreError

-- `From<std::io::Error>`
abbrev pub from_io_error : IoError → DatastoreError
from_io_error _ = insert_deserialization_error

pub data Diff : Type 0 where
  insert : Str → Diff
  delete : Diff

pub record TxDiff : Type 0 where
  pub history : List (TxOffset × Diff)

pub record CommittedState : Type 0 where
  pub next_tx_offset : TxOffset
  pub replicated_tx_offset : Option TxOffset
  pub replicated_state : HashMap Str Str
  pub committed_diff : HashMap Str TxDiff

unfoldable pub new : CommittedState
new = record {
  next_tx_offset = 0;
  replicated_tx_offset = none;
  replicated_state = [];
  committed_diff = [];
}

-- `slice::last`, and `unwrap` where no error can come.
unfoldable pub last {ℓ} : {A : Type ℓ} → List A → Option A
last [] = none
last (x ∷ []) = some x
last (x ∷ y ∷ ys) = last (y ∷ ys)

abbrev pub unwrap {ℓ κ} : {E : Type ℓ} {A : Type κ} → Option A → Outcome E A
unwrap none = panic
unwrap (some a) = ok a

unfoldable pub get_latest : TxDiff → Outcome ⊥ (TxOffset × Diff)
unfolding last
get_latest tx_diff = unwrap (last tx_diff.history)

unfoldable pub insert_diff : TxDiff → TxOffset → Diff → TxDiff
insert_diff tx_diff offset diff = record { history = tx_diff.history ++ (offset, diff) ∷ [] }

-- `Diff::Insert(v) => Some(v)`, `Diff::Delete => None`
abbrev pub inserted : Diff → Option Str
inserted (insert v) = some v
inserted delete = none

-- What `CommittedState::get` does with the entry of `committed_diff` for its key.
unfoldable pub get_diff : Option TxDiff → Option Str → Outcome ⊥ (Option Str)
unfolding get_latest
get_diff none otherwise = ok otherwise
get_diff (some tx_diff) otherwise = do (_, diff) ← get_latest tx_diff; ok (inserted diff)

unfoldable pub get : CommittedState → Str → DurabilityLevel → Outcome ⊥ (Option Str)
unfolding get_diff
get s key memory =
    get_diff (HashMap.get str_discrete key s.committed_diff)
      (HashMap.get str_discrete key s.replicated_state)
get s key replicated = ok (HashMap.get str_discrete key s.replicated_state)

-- One diff written to the replicated state.
unfoldable pub apply_diff : Str → Diff → HashMap Str Str → HashMap Str Str
apply_diff key (insert value) state = HashMap.insert str_discrete key value state
apply_diff key delete state = HashMap.remove str_discrete key state

-- The `while` loop over one history: `remove(0)` takes the first entry before its offset is tested,
-- so the entry that ends the loop is gone too.
unfoldable pub drain :
    TxOffset
    → Str
    → List (TxOffset × Diff)
    → HashMap Str Str
    → List (TxOffset × Diff) × HashMap Str Str
unfolding apply_diff
drain tx_offset k [] state = ([], state)
drain tx_offset k ((offset, diff) ∷ history) state =
    let rest = drain tx_offset k history (apply_diff k diff state) in
    if leb offset tx_offset then rest else (history, state)

-- The `for` loop over `committed_diff`.
unfoldable pub drain_all :
    TxOffset → HashMap Str TxDiff → HashMap Str Str → HashMap Str TxDiff × HashMap Str Str
unfolding drain
drain_all tx_offset [] state = ([], state)
drain_all tx_offset ((k, tx_diff) ∷ diffs) state =
    let (history, state') = drain tx_offset k tx_diff.history state in
    let (diffs', state'') = drain_all tx_offset diffs state' in
    ((k, record { history = history }) ∷ diffs', state'')

abbrev pub is_empty {ℓ} : {A : Type ℓ} → List A → Bool
is_empty [] = true
is_empty (x ∷ xs) = false

abbrev pub is_pending : TxDiff → Bool
is_pending d = not (is_empty d.history)

unfoldable pub advance_replicated_durability_offset :
    TxOffset → CommittedState → Outcome DatastoreError (Unit {0}) × CommittedState
unfolding drain_all
advance_replicated_durability_offset tx_offset s =
    let (diffs, state) = drain_all tx_offset s.committed_diff s.replicated_state in
    (
      ok tt,
      record s {
        replicated_state = state;
        committed_diff = HashMap.retain is_pending diffs;
        replicated_tx_offset = some tx_offset;
      },
    )

-- `TxOffset(0)` where nothing is replicated, and else the offset behind the replicated one.
unfoldable pub next_after : Option TxOffset → Outcome DatastoreError TxOffset
next_after none = ok 0
next_after (some offset) = add_u64 offset 1

abbrev pub set_next :
    Outcome DatastoreError TxOffset
    → CommittedState
    → Outcome DatastoreError (Unit {0}) × CommittedState
set_next (ok n) s = (ok tt, record s { next_tx_offset = n })
set_next (err e) s = (err e, s)
set_next panic s = (panic, s)

-- `next_tx_offset` is assigned last, so a panic of its sum leaves it as it was.
unfoldable pub rollback_to_replicated_durability_offset :
    CommittedState → Outcome DatastoreError (Unit {0}) × CommittedState
unfolding next_after
rollback_to_replicated_durability_offset s =
    set_next (next_after s.replicated_tx_offset) (record s { committed_diff = [] })

unfoldable pub get_replicated_offset : CommittedState → Option TxOffset
get_replicated_offset s = s.replicated_tx_offset

unfoldable pub get_cur_offset : CommittedState → Option TxOffset
get_cur_offset s = if s.next_tx_offset == 0 then none else some (s.next_tx_offset - 1)
