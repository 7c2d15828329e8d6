-- ===== src/Examples/Store.antt =====
-- The datastore at concrete inputs: a state with two transactions in memory, and transactions on it.
use distributed_omnipaxos_db.Base.{
  ◌+◌, ◌<◌, ◌≡◌, refl, true, false, some, [], ◌∷◌, ◌++◌, arith, ok, err, if_pos, if_neg, u64_mod,
}
use distributed_omnipaxos_db.Base.HashMap
use distributed_omnipaxos_db.Base.Utf8.{str_discrete, from_utf8}
use distributed_omnipaxos_db.Durability.{memory, replicated}
use distributed_omnipaxos_db.Datastore.State.{
  insert, delete, insert_deserialization_error, delete_deserialization_error, CommittedState, new,
  get, inserted, get_replicated_offset, get_cur_offset, rollback_to_replicated_durability_offset,
}
use distributed_omnipaxos_db.Datastore.State.Views.{
  IsValid, new-IsValid, History, history_of, replicated_view, memory_view, newest, get_views,
}
use distributed_omnipaxos_db.Datastore.State.Advance.{upto, beyond, tail_of}
use distributed_omnipaxos_db.Datastore.State.Offsets.{
  advanced, next_offset, advance_lem, advance_covered, advance_loses_next, rollback_lem,
}
use distributed_omnipaxos_db.Datastore.Tx.{MutTx, tx_data_of, commit_mut_tx}
use distributed_omnipaxos_db.Datastore.Tx.Buffer.{IsOpen}
use distributed_omnipaxos_db.Datastore.Replay.{replay_transaction}
use distributed_omnipaxos_db.Datastore.Replay.Outcomes.{IsSynced}
use distributed_omnipaxos_db.Datastore.Replay.Partial.{
  inserts_of, deletes_of, rows_of, put_rows, put_lists, drop_keys, broken_row_stops,
  broken_key_stops,
}
use distributed_omnipaxos_db.Row.{ExampleRow, deserialize_example_row}
use distributed_omnipaxos_db.Row.RoundTrip.{IsRow}
use distributed_omnipaxos_db.Varint.{unexpected_eof, read_varint, read_exact}
use distributed_omnipaxos_db.Datastore.Replication.{
  Mirrors, new-Mirrors, replay-commit, committed_data, lead, follow, replay_log,
}
use distributed_omnipaxos_db.Examples.Data.{
  foo-IsString, bar-IsString, foo, bar, foo-bar, bar-foo, foo-IsString, bar-IsString, writes_both,
  overwrites, writes_both-AllFit, overwrites-AllFit,
}

-- `foo` has the value `foo` replicated, and was set to `bar` at 1 and deleted at 2.
abbrev foo_history : History
foo_history = (1, insert bar) ∷ (2, delete) ∷ []

abbrev pub in_memory : CommittedState
in_memory = record {
  next_tx_offset = 3;
  replicated_tx_offset = some 0;
  replicated_state = (foo, foo) ∷ [];
  committed_diff = (foo, record { history = foo_history }) ∷ [];
}

pub in_memory-IsValid : IsValid in_memory
unfolding HashMap.get
in_memory-IsValid = record {
  distinct = (refl, tt);
  histories = ((omega arith, (omega arith, omega arith, (omega arith, omega arith, tt))), tt);
  bounded = omega arith;
}

foo_history_of : history_of in_memory foo ≡ foo_history
unfolding HashMap.get
foo_history_of = rw (if_pos (str_discrete foo foo) refl) refl

get_views_example :
    (get in_memory foo memory ≡ ok (memory_view in_memory foo))
    × (get in_memory foo replicated ≡ ok (replicated_view in_memory foo))
get_views_example = get_views in_memory foo in_memory-IsValid

advance_lem_example :
    (replicated_view (advanced 1 in_memory) foo
      ≡ newest (upto 1 (history_of in_memory foo)) (replicated_view in_memory foo))
    × (history_of (advanced 1 in_memory) foo ≡ tail_of (beyond 1 (history_of in_memory foo)))
advance_lem_example = advance_lem 1 in_memory foo in_memory-IsValid

advance_covered_example :
    (replicated_view (advanced 2 in_memory) foo ≡ memory_view in_memory foo)
    × (history_of (advanced 2 in_memory) foo ≡ [])
    × (memory_view (advanced 2 in_memory) foo ≡ memory_view in_memory foo)
advance_covered_example =
    advance_covered 2 in_memory foo in_memory-IsValid
      (rw foo_history_of (omega arith, (omega arith, tt)))

advance_loses_next_example :
    (memory_view in_memory foo ≡ inserted delete)
    × (memory_view (advanced 1 in_memory) foo
        ≡ newest ((1, insert bar) ∷ []) (replicated_view in_memory foo))
    × (replicated_view (advanced 2 (advanced 1 in_memory)) foo
        ≡ newest ((1, insert bar) ∷ []) (replicated_view in_memory foo))
advance_loses_next_example =
    advance_loses_next 1 2 in_memory foo ((1, insert bar) ∷ []) 2 delete in_memory-IsValid
      foo_history_of (omega arith, tt) (omega arith)

rollback_lem_example :
    let (result, s') = rollback_to_replicated_durability_offset in_memory in
    (result ≡ ok tt)
    × IsValid s'
    × (memory_view s' foo ≡ replicated_view in_memory foo)
    × (replicated_view s' foo ≡ replicated_view in_memory foo)
    × (s'.next_tx_offset ≡ next_offset (some 0))
    × (s'.replicated_tx_offset ≡ some 0)
rollback_lem_example = rollback_lem in_memory foo in_memory-IsValid (omega arith)

-- A transaction on that state: it sets `bar` and deletes `foo`.
abbrev tx : MutTx
tx = record { diff = (bar, insert foo) ∷ (foo, delete) ∷ []; committed_state = in_memory }

tx-IsOpen : IsOpen tx
unfolding HashMap.get
tx-IsOpen = record {
  state = in_memory-IsValid;
  distinct = (if_neg (str_discrete foo bar) foo-bar _ _, (refl, tt));
}

-- A follower as of offset 0.
abbrev follower : CommittedState
follower = record {
  next_tx_offset = 1;
  replicated_tx_offset = some 0;
  replicated_state = (foo, foo) ∷ [];
  committed_diff = [];
}

abbrev foo_row : ExampleRow
foo_row = record { key = foo; value = bar }

abbrev bar_row : ExampleRow
bar_row = record { key = bar; value = foo }

foo_row-IsRow : IsRow foo_row
foo_row-IsRow = record { key = foo-IsString; value = bar-IsString }

bar_row-IsRow : IsRow bar_row
bar_row-IsRow = record { key = bar-IsString; value = foo-IsString }

-- The length of the key is nine bytes, and none follows.
no_row : deserialize_example_row (9 ∷ []) ≡ err unexpected_eof
unfolding deserialize_example_row read_varint read_exact
no_row = refl

broken_row_stops_example :
    replay_transaction
      (record {
        inserts =
            inserts_of (rows_of (foo_row ∷ []))
            ∷ inserts_of (rows_of (bar_row ∷ []) ++ (9 ∷ []) ∷ rows_of (foo_row ∷ []))
            ∷ [];
        deletes = [];
        truncs = [];
      })
      follower
    ≡ (
      err insert_deserialization_error,
      record follower {
        next_tx_offset = 2;
        replicated_tx_offset = some 1;
        replicated_state =
            put_rows (bar_row ∷ []) (put_lists ((foo_row ∷ []) ∷ []) ((foo, foo) ∷ []));
      },
    )
broken_row_stops_example =
    broken_row_stops ((foo_row ∷ []) ∷ []) (bar_row ∷ []) (9 ∷ []) (rows_of (foo_row ∷ [])) [] [] []
      unexpected_eof follower ((foo_row-IsRow, tt), tt) (bar_row-IsRow, tt) no_row refl
      (omega arith)

no_key : from_utf8 (255 ∷ []) ≡ false
unfolding from_utf8
no_key = refl

foo_key : from_utf8 foo ≡ true
unfolding from_utf8
foo_key = refl

broken_key_stops_example :
    replay_transaction
      (record {
        inserts = inserts_of (rows_of (bar_row ∷ [])) ∷ [];
        deletes = deletes_of (foo ∷ (255 ∷ []) ∷ bar ∷ []) ∷ [];
        truncs = [];
      })
      follower
    ≡ (
      err delete_deserialization_error,
      record follower {
        next_tx_offset = 2;
        replicated_tx_offset = some 1;
        replicated_state = drop_keys (foo ∷ []) (put_lists ((bar_row ∷ []) ∷ []) ((foo, foo) ∷ []));
      },
    )
broken_key_stops_example =
    broken_key_stops ((bar_row ∷ []) ∷ []) (foo ∷ []) (bar ∷ []) (255 ∷ []) [] [] follower
      ((bar_row-IsRow, tt), tt) (foo_key, tt) no_key refl (omega arith)

in_memory_ahead : ¬ IsSynced in_memory
in_memory_ahead e = omega (arith, e)

replay_log_example :
    let (replayed, s) = follow (committed_data (writes_both ∷ overwrites ∷ []) new) new in
    let leader = lead (writes_both ∷ overwrites ∷ []) new in
    (replayed ≡ ok tt)
    × (get s foo replicated ≡ get leader foo memory)
    × (get_replicated_offset s ≡ get_cur_offset leader)
replay_log_example =
    replay_log (writes_both ∷ overwrites ∷ []) foo (writes_both-AllFit, (overwrites-AllFit, tt))
      (omega arith)

room_new : new.next_tx_offset + 2 < u64_mod
unfolding new
room_new = omega arith

-- A transaction in progress on a new datastore.
abbrev first_tx : MutTx
first_tx = record { diff = (foo, insert bar) ∷ (bar, delete) ∷ []; committed_state = new }

first_tx-IsOpen : IsOpen first_tx
unfolding HashMap.get
first_tx-IsOpen = record {
  state = new-IsValid;
  distinct = (if_neg (str_discrete bar foo) bar-foo _ _, (refl, tt));
}

replay-commit_example :
    let (committed, leader') = commit_mut_tx first_tx in
    let (replayed, follower') = replay_transaction (tx_data_of first_tx.diff) new in
    (committed ≡ ok (record { tx_offset = new.next_tx_offset; tx_data = tx_data_of first_tx.diff }))
    × (replayed ≡ ok tt)
    × IsValid leader'
    × Mirrors leader' follower'
    × (leader'.next_tx_offset ≡ new.next_tx_offset + 1)
    × (follower'.replicated_tx_offset ≡ some new.next_tx_offset)
replay-commit_example =
    replay-commit first_tx new first_tx-IsOpen ((foo-IsString, bar-IsString), (bar-IsString, tt))
      new-Mirrors (omega (arith, room_new))
