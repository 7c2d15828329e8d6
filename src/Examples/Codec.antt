-- ===== src/Examples/Codec.antt =====
-- The binary form at concrete inputs.
use distributed_omnipaxos_db.Base.{
  ℕ, ◌+◌, ◌≡◌, ◌<◌, ◌≤◌, refl, List, [], ◌∷◌, ◌++◌, arith, length, ok, err, u32_mod, take, drop,
}
use distributed_omnipaxos_db.Varint.{write_varint, read_varint, unexpected_eof}
use distributed_omnipaxos_db.Varint.RoundTrip.{read_varint-write_varint}
use distributed_omnipaxos_db.Varint.Bounds.{read_varint_takes}
use distributed_omnipaxos_db.TxData.Serde.{
  serialize, deserialize, serialize_insert_list, serialize_delete_list, serialize_row_data,
}
use distributed_omnipaxos_db.TxData.Truncated.Data.{deserialize-cut}
use distributed_omnipaxos_db.TxData.RoundTrip.{deserialize-serialize}
use distributed_omnipaxos_db.Row.{ExampleRow, serialize_example_row, deserialize_example_row}
use distributed_omnipaxos_db.Row.RoundTrip.{deserialize-serialize_example_row}
use distributed_omnipaxos_db.Durability.Entry
use distributed_omnipaxos_db.Durability.Entry.{DatabaseLogEntry}
use distributed_omnipaxos_db.Durability.EntryRoundTrip.{deserialize-serialize_log_entry}
use distributed_omnipaxos_db.Examples.Data.{
  foo, bar, foo-IsString, bar-IsString, sample_data, sample_data-DataFits,
}

read_varint-write_varint_example :
    read_varint (write_varint [] 4294967295 ++ 1 ∷ []) ≡ ok (4294967295, 1 ∷ [])
read_varint-write_varint_example = read_varint-write_varint 4294967295 (1 ∷ []) (omega arith)

abbrev tail : List ℕ
tail = 9 ∷ []

abbrev input : List ℕ
input = 172 ∷ 2 ∷ tail

three_hundred : read_varint input ≡ ok (300, tail)
unfolding read_varint
three_hundred = refl

read_varint_takes_example :
    (300 < u32_mod) × (length tail < length input) × (length input ≤ length tail + 5)
read_varint_takes_example = read_varint_takes input 300 tail three_hundred

deserialize-serialize_example :
    deserialize (serialize sample_data [] ++ 1 ∷ []) ≡ ok (sample_data, 1 ∷ [])
deserialize-serialize_example = deserialize-serialize sample_data (1 ∷ []) sample_data-DataFits

abbrev row : ExampleRow
row = record { key = foo; value = bar }

deserialize-serialize_example_row_example :
    deserialize_example_row (serialize_example_row row) ≡ ok row
deserialize-serialize_example_row_example =
    deserialize-serialize_example_row row (record { key = foo-IsString; value = bar-IsString })

abbrev entry : DatabaseLogEntry
entry = record { tx_offset = 258; tx_data = sample_data }

deserialize-serialize_log_entry_example :
    Entry.deserialize (Entry.serialize entry [] ++ 1 ∷ []) ≡ ok (entry, 1 ∷ [])
deserialize-serialize_log_entry_example =
    deserialize-serialize_log_entry entry (1 ∷ []) (omega arith) sample_data-DataFits

-- What is left after the last byte is missing.
abbrev short : List ℕ
short = take 12 (serialize sample_data [])

deserialize-cut_example : deserialize short ≡ err unexpected_eof
unfolding serialize write_varint serialize_insert_list serialize_delete_list serialize_row_data
deserialize-cut_example =
    deserialize-cut sample_data short (drop 12 (serialize sample_data [])) sample_data-DataFits refl
      (omega arith)
