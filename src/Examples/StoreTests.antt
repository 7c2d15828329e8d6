-- ===== src/Examples/StoreTests.antt =====
-- The unit tests of src/datastore/example_datastore.rs, on the datastore as a value that is passed on.
-- An assertion that fails panics.
use distributed_omnipaxos_db.Base.{
  ℕ, ◌≡◌, refl, Bool, true, false, ◌==◌, Option, none, some, List, [], ◌∷◌, ite, length, get_elem?,
  ℕ_discrete, Outcome, ok, err, panic, ◌>>=◌,
}
use distributed_omnipaxos_db.Base.Utf8.{Str, str_discrete, from_utf8}
use distributed_omnipaxos_db.Varint
use distributed_omnipaxos_db.Row
use distributed_omnipaxos_db.Base.HashMap
use distributed_omnipaxos_db.Durability.{memory, replicated}
use distributed_omnipaxos_db.Datastore.State
use distributed_omnipaxos_db.Datastore.State.{
  DatastoreError, CommittedState, unwrap, get_cur_offset, get_replicated_offset,
  advance_replicated_durability_offset,
}
use distributed_omnipaxos_db.Datastore.Tx.{
  begin_tx, get_tx, begin_mut_tx, get_mut_tx, set_mut_tx, delete_mut_tx, commit_mut_tx,
}
use distributed_omnipaxos_db.Datastore.Replay.{replay_transaction}
use distributed_omnipaxos_db.Examples.Data.{foo}

abbrev plain_bar : Str
plain_bar = 98 ∷ 97 ∷ 114 ∷ []

abbrev baz : Str
baz = 98 ∷ 97 ∷ 122 ∷ []

abbrev pub assert : Bool → Outcome ⊥ (Unit {0})
assert true = ok tt
assert false = panic

abbrev is_same : Option Str → Option Str → Bool
is_same none none = true
is_same (some a) (some b) = ite (str_discrete a b) true false
is_same _ _ = false

abbrev is_offset : Option ℕ → Option ℕ → Bool
is_offset none none = true
is_offset (some a) (some b) = a == b
is_offset _ _ = false

-- `Result::unwrap`, and the state beside it.
abbrev unwrapped {ℓ} :
    {A : Type ℓ} → Outcome DatastoreError A × CommittedState → Outcome ⊥ (A × CommittedState)
unwrapped (ok a, s) = ok (a, s)
unwrapped (err e, s) = panic
unwrapped (panic, s) = panic

abbrev is_ok {ℓ} : {A : Type ℓ} → Outcome DatastoreError A × CommittedState → Bool
is_ok (ok a, s) = true
is_ok _ = false

abbrev is_err {ℓ} : {A : Type ℓ} → Outcome DatastoreError A × CommittedState → Bool
is_err (err e, s) = true
is_err _ = false

-- Indexing, which panics out of range.
abbrev index {ℓ} : {A : Type ℓ} → List A → ℕ → Outcome ⊥ A
index xs i = unwrap (get_elem? xs i)

abbrev test_example_datastore : Outcome ⊥ (Unit {0})
test_example_datastore = do
  let tx = begin_mut_tx State.new
  absent ← get_mut_tx tx foo
  _ ← assert (is_same absent none)
  let tx = set_mut_tx tx foo plain_bar
  present ← get_mut_tx tx foo
  _ ← assert (is_same present (some plain_bar))
  let tx = (delete_mut_tx tx foo).1
  deleted ← get_mut_tx tx foo
  _ ← assert (is_same deleted none)
  (result, datastore) ← unwrapped (commit_mut_tx tx)
  _ ← assert (result.tx_offset == 0)
  _ ← assert (length result.tx_data.inserts == 1)
  _ ← assert (length result.tx_data.deletes == 1)
  _ ← assert (length result.tx_data.truncs == 0)
  first_inserts ← index result.tx_data.inserts 0
  first_deletes ← index result.tx_data.deletes 0
  _ ← assert (length first_inserts.inserts == 0)
  _ ← assert (length first_deletes.deletes == 1)
  key ← index first_deletes.deletes 0
  _ ← assert (is_same (some key) (some foo))
  assert (first_inserts.table_id == 0)

test_example_datastore_passes : test_example_datastore ≡ ok tt
unfolding State.new State.get begin_mut_tx get_mut_tx set_mut_tx delete_mut_tx commit_mut_tx
    HashMap.get HashMap.insert HashMap.remove str_discrete ℕ_discrete
test_example_datastore_passes = refl

abbrev test_example_datastore_replay : Outcome ⊥ (Unit {0})
test_example_datastore_replay = do
  (result1, datastore1) ←
      unwrapped (commit_mut_tx (set_mut_tx (begin_mut_tx State.new) foo plain_bar))
  let tx2 = set_mut_tx (begin_mut_tx datastore1) plain_bar baz
  let tx2 = (delete_mut_tx tx2 foo).1
  (result2, datastore1) ← unwrapped (commit_mut_tx tx2)
  (_, datastore2) ← unwrapped (replay_transaction result1.tx_data State.new)
  (_, datastore2) ← unwrapped (replay_transaction result2.tx_data datastore2)
  let tx2 = begin_tx datastore2 memory
  foo_value ← get_tx tx2 foo
  _ ← assert (is_same foo_value none)
  bar_value ← get_tx tx2 plain_bar
  assert (is_same bar_value (some baz))

-- The third test: what is not replicated yet does not show at that level.
abbrev text_example_datastore_replicated_durability : Outcome ⊥ (Unit {0})
text_example_datastore_replicated_durability = do
  _ ← assert (is_offset (get_cur_offset State.new) none)
  (result, datastore) ←
      unwrapped (commit_mut_tx (set_mut_tx (begin_mut_tx State.new) foo plain_bar))
  _ ← assert (is_offset (get_cur_offset datastore) (some 0))
  _ ← assert (is_offset (get_replicated_offset datastore) none)
  (_, datastore) ← unwrapped (advance_replicated_durability_offset result.tx_offset datastore)
  _ ← assert (is_offset (get_replicated_offset datastore) (some 0))
  inserted ← get_tx (begin_tx datastore replicated) foo
  _ ← assert (is_same inserted (some plain_bar))
  (result, datastore) ← unwrapped (commit_mut_tx (delete_mut_tx (begin_mut_tx datastore) foo).1)
  _ ← assert (is_offset datastore.replicated_tx_offset (some 0))
  kept ← get_tx (begin_tx datastore replicated) foo
  _ ← assert (is_same kept (some plain_bar))
  deleted ← get_tx (begin_tx datastore memory) foo
  _ ← assert (is_same deleted none)
  (_, datastore) ← unwrapped (advance_replicated_durability_offset result.tx_offset datastore)
  gone ← get_tx (begin_tx datastore replicated) foo
  assert (is_same gone none)

text_example_datastore_replicated_durability_passes :
    text_example_datastore_replicated_durability ≡ ok tt
unfolding State.new State.get begin_mut_tx get_mut_tx set_mut_tx delete_mut_tx commit_mut_tx
    begin_tx get_tx advance_replicated_durability_offset get_cur_offset get_replicated_offset
    HashMap.get HashMap.insert HashMap.remove HashMap.retain str_discrete ℕ_discrete
text_example_datastore_replicated_durability_passes = refl

abbrev test_example_datastore_replay_invalid_offset : Outcome ⊥ (Unit {0})
test_example_datastore_replay_invalid_offset = do
  (result, datastore) ←
      unwrapped (commit_mut_tx (set_mut_tx (begin_mut_tx State.new) foo plain_bar))
  (_, datastore) ← unwrapped (advance_replicated_durability_offset result.tx_offset datastore)
  let (replayed, datastore2) = replay_transaction result.tx_data State.new
  _ ← assert (is_ok (replayed, datastore2))
  (result, datastore) ← unwrapped (commit_mut_tx (set_mut_tx (begin_mut_tx datastore) foo baz))
  (_, datastore) ← unwrapped (advance_replicated_durability_offset result.tx_offset datastore)
  (result, datastore2) ←
      unwrapped (commit_mut_tx (set_mut_tx (begin_mut_tx datastore2) foo plain_bar))
  assert (is_err (replay_transaction result.tx_data datastore2))

test_example_datastore_replay_passes : test_example_datastore_replay ≡ ok tt
unfolding State.new State.get begin_mut_tx get_mut_tx set_mut_tx delete_mut_tx commit_mut_tx
    begin_tx get_tx replay_transaction HashMap.get HashMap.insert HashMap.remove str_discrete
    ℕ_discrete Row.deserialize_example_row Row.serialize_example_row Varint.read_varint
    Varint.write_varint Varint.read_exact from_utf8
test_example_datastore_replay_passes = refl

test_example_datastore_replay_invalid_offset_passes :
    test_example_datastore_replay_invalid_offset ≡ ok tt
unfolding State.new State.get begin_mut_tx get_mut_tx set_mut_tx delete_mut_tx commit_mut_tx
    begin_tx get_tx replay_transaction advance_replicated_durability_offset HashMap.get
    HashMap.insert HashMap.remove HashMap.retain str_discrete ℕ_discrete Row.deserialize_example_row
    Row.serialize_example_row Varint.read_varint Varint.write_varint Varint.read_exact from_utf8
test_example_datastore_replay_invalid_offset_passes = refl
