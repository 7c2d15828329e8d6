-- ===== src/Row.antt =====
-- `ExampleRow` of src/datastore/example_datastore.rs with its binary form. A `String` is its bytes,
-- which are well-formed UTF-8; `len() as u32` keeps the low 32 bits of a length.
pub mod RoundTrip
use distributed_omnipaxos_db.Base.{
  ℕ, ◌%◌, List, [], ◌++◌, length, Outcome, ok, err, ◌>>=◌, u32_mod, if◌then◌else◌,
}
use distributed_omnipaxos_db.Base.Utf8.{Str, from_utf8}
use distributed_omnipaxos_db.Varint.{IoError, invalid_data, read_exact, write_varint, read_varint}

pub record ExampleRow : Type 0 where
  pub key : Str
  pub value : Str

unfoldable pub serialize_example_row : ExampleRow → List ℕ
serialize_example_row row =
    let b1 = write_varint [] (length row.key % u32_mod) in
    let b2 = b1 ++ row.key in
    let b3 = write_varint b2 (length row.value % u32_mod) in b3 ++ row.value

-- `String::from_utf8(bytes).map_err(|_| InvalidData)`
unfoldable pub utf8_string : List ℕ → Outcome IoError Str
utf8_string bytes = if from_utf8 bytes then ok bytes else err invalid_data

-- Bytes that follow the value are ignored.
unfoldable pub deserialize_example_row : List ℕ → Outcome IoError ExampleRow
unfolding utf8_string
deserialize_example_row bytes = do
  (key_len, r1) ← read_varint bytes
  (key_bytes, r2) ← read_exact key_len r1
  key ← utf8_string key_bytes
  (value_len, r3) ← read_varint r2
  (value_bytes, r4) ← read_exact value_len r3
  value ← utf8_string value_bytes
  ok (record { key = key; value = value })
