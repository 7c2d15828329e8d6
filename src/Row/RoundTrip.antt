-- ===== src/Row/RoundTrip.antt =====
-- Reading back a row (src/datastore/example_datastore.rs).
use native.Mathlib.Nat.{mod-eq_of_lt}
use distributed_omnipaxos_db.Base.{
  ℕ, List, ◌<◌, ◌≡◌, refl, true, [], ◌++◌, append_assoc, append-nil, length, ok, u32_mod,
}
use distributed_omnipaxos_db.Base.Utf8.{Str, from_utf8}
use distributed_omnipaxos_db.Varint.{read_exact}
use distributed_omnipaxos_db.Varint.RoundTrip.{
  varint_bytes, write_varint-append, read_varint-varint_bytes,
}
use distributed_omnipaxos_db.TxData.RoundTrip.{read_exact-append}
use distributed_omnipaxos_db.Row.{ExampleRow, serialize_example_row, deserialize_example_row}

-- A `String` whose length fits 32 bits.
pub record IsString (s : Str) : Type 0 where
  pub well_formed : from_utf8 s ≡ true
  pub short : length s < u32_mod

pub record IsRow (row : ExampleRow) : Type 0 where
  pub key : IsString row.key
  pub value : IsString row.value

serialize_example_row-bytes :
    (row : ExampleRow)
    → IsRow row
    → serialize_example_row row
      ≡ varint_bytes (length row.key) ++ (row.key ++ (varint_bytes (length row.value) ++ row.value))
unfolding serialize_example_row
serialize_example_row-bytes row h =
    rw
      (
        mod-eq_of_lt h.value.short,
        mod-eq_of_lt h.key.short,
        write_varint-append _ (length row.value) h.value.short,
        write_varint-append [] (length row.key) h.key.short,
      )
      (rw
        (
          append_assoc _ (varint_bytes (length row.value)) row.value,
          append_assoc (varint_bytes (length row.key)) row.key _,
        )
        refl)

read_exact_all : (xs : List ℕ) → read_exact (length xs) xs ≡ ok (xs, [])
read_exact_all xs = rw append-nil at (read_exact-append xs [])

-- A row whose key and value are well-formed UTF-8 of less than 2 ^ 32 bytes is read back from what
-- was written for it.
pub deserialize-serialize_example_row :
    (row : ExampleRow) → IsRow row → deserialize_example_row (serialize_example_row row) ≡ ok row
unfolding deserialize_example_row
deserialize-serialize_example_row row h = rw (
  serialize_example_row-bytes row h,
  read_varint-varint_bytes (length row.key) _ h.key.short,
  read_exact-append row.key _,
  h.key.well_formed,
  read_varint-varint_bytes (length row.value) row.value h.value.short,
  read_exact_all row.value,
  h.value.well_formed,
)
