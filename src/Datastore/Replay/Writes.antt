-- ===== src/Datastore/Replay/Writes.antt =====
-- Replaying the data of a committed transaction writes that transaction's diffs
-- (src/datastore/example_datastore.rs).
use distributed_omnipaxos_db.Base.{◌≡◌, refl, Option, none, some, [], ◌∷◌, map, arith, ok}
use distributed_omnipaxos_db.Base.HashMap
use distributed_omnipaxos_db.Base.HashMap.{HashMap, AllEntries, Distinct, get-insert, get-remove}
use distributed_omnipaxos_db.Base.Utf8.{Str, str_discrete}
use distributed_omnipaxos_db.Row.{serialize_example_row}
use distributed_omnipaxos_db.Row.RoundTrip.{IsString, deserialize-serialize_example_row}
use distributed_omnipaxos_db.Datastore.State.{Diff, insert, delete}
use distributed_omnipaxos_db.Datastore.Tx.{insert_rows, delete_keys, tx_data_of}
use distributed_omnipaxos_db.Datastore.Tx.Buffer.{shown}
use distributed_omnipaxos_db.Datastore.Replay.{replay_inserts, replay_deletes, replay_writes}

-- Keys and values are strings whose lengths fit 32 bits.
abbrev pub DiffFits : Str → Diff → Type 0
DiffFits key (insert value) = IsString key × IsString value
DiffFits key delete = IsString key

abbrev pub AreStrings : HashMap Str Diff → Type 0
AreStrings = AllEntries DiffFits

pub insert_all : HashMap Str Diff → HashMap Str Str → HashMap Str Str
insert_all [] state = state
insert_all ((key, insert value) ∷ diffs) state =
    insert_all diffs (HashMap.insert str_discrete key value state)
insert_all ((key, delete) ∷ diffs) state = insert_all diffs state

pub delete_all : HashMap Str Diff → HashMap Str Str → HashMap Str Str
delete_all [] state = state
delete_all ((key, insert value) ∷ diffs) state = delete_all diffs state
delete_all ((key, delete) ∷ diffs) state = delete_all diffs (HashMap.remove str_discrete key state)

replay_inserts-rows :
    (diffs : HashMap Str Diff) (state : HashMap Str Str)
    → AreStrings diffs
    → replay_inserts (map serialize_example_row (insert_rows diffs)) state
      ≡ (ok tt, insert_all diffs state)
unfolding replay_inserts insert_rows insert_all
replay_inserts-rows [] state h = refl
replay_inserts-rows ((key, insert value) ∷ diffs) state h =
    rw
      (deserialize-serialize_example_row (record { key = key; value = value })
        (record { key = h.0.0; value = h.0.1 }))
      (replay_inserts-rows diffs (HashMap.insert str_discrete key value state) h.1)
replay_inserts-rows ((key, delete) ∷ diffs) state h = replay_inserts-rows diffs state h.1

replay_deletes-keys :
    (diffs : HashMap Str Diff) (state : HashMap Str Str)
    → AreStrings diffs
    → replay_deletes (delete_keys diffs) state ≡ (ok tt, delete_all diffs state)
unfolding replay_deletes delete_keys delete_all
replay_deletes-keys [] state h = refl
replay_deletes-keys ((key, insert value) ∷ diffs) state h = replay_deletes-keys diffs state h.1
replay_deletes-keys ((key, delete) ∷ diffs) state h =
    rw (h.0.well_formed) (replay_deletes-keys diffs (HashMap.remove str_discrete key state) h.1)

pub replay_writes-tx_data_of :
    (diffs : HashMap Str Diff) (state : HashMap Str Str)
    → AreStrings diffs
    → replay_writes (tx_data_of diffs) state ≡ (ok tt, delete_all diffs (insert_all diffs state))
unfolding replay_writes tx_data_of
replay_writes-tx_data_of diffs state h =
    rw (replay_inserts-rows diffs state h, replay_deletes-keys diffs (insert_all diffs state) h)

abbrev on_insert : Option Diff → Option Str → Option Str
on_insert (some (insert value)) base = some value
on_insert _ base = base

abbrev on_delete : Option Diff → Option Str → Option Str
on_delete (some delete) base = none
on_delete _ base = base

get-insert_all :
    (diffs : HashMap Str Diff) (state : HashMap Str Str) (j : Str)
    → Distinct str_discrete diffs
    → HashMap.get str_discrete j (insert_all diffs state)
      ≡ on_insert (HashMap.get str_discrete j diffs) (HashMap.get str_discrete j state)
unfolding insert_all HashMap.get
get-insert_all [] state j h = refl
get-insert_all ((key, insert value) ∷ diffs) state j h = ground (
  arith,
  get-insert_all diffs (HashMap.insert str_discrete key value state) j h.1,
  get-insert str_discrete key j value state,
)
get-insert_all ((key, delete) ∷ diffs) state j h = ground (arith, get-insert_all diffs state j h.1)

get-delete_all :
    (diffs : HashMap Str Diff) (state : HashMap Str Str) (j : Str)
    → Distinct str_discrete diffs
    → HashMap.get str_discrete j (delete_all diffs state)
      ≡ on_delete (HashMap.get str_discrete j diffs) (HashMap.get str_discrete j state)
unfolding delete_all HashMap.get
get-delete_all [] state j h = refl
get-delete_all ((key, insert value) ∷ diffs) state j h =
    ground (arith, get-delete_all diffs state j h.1)
get-delete_all ((key, delete) ∷ diffs) state j h = ground (
  arith,
  get-delete_all diffs (HashMap.remove str_discrete key state) j h.1,
  get-remove str_discrete key j state,
)

on_delete-on_insert :
    (o : Option Diff) (base : Option Str) → on_delete o (on_insert o base) ≡ shown o base
on_delete-on_insert none base = refl
on_delete-on_insert (some (insert value)) base = refl
on_delete-on_insert (some delete) base = refl

-- The two passes, insertions and then deletions, have the effect of the diffs.
pub get-replayed :
    (diffs : HashMap Str Diff) (state : HashMap Str Str) (j : Str)
    → Distinct str_discrete diffs
    → HashMap.get str_discrete j (delete_all diffs (insert_all diffs state))
      ≡ shown (HashMap.get str_discrete j diffs) (HashMap.get str_discrete j state)
get-replayed diffs state j h =
    rw (get-delete_all diffs (insert_all diffs state) j h, get-insert_all diffs state j h)
      (on_delete-on_insert (HashMap.get str_discrete j diffs) (HashMap.get str_discrete j state))
