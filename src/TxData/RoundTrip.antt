-- ===== src/TxData/RoundTrip.antt =====
-- Reading back what was serialized (src/datastore/tx_data/serde.rs).
use mathlib.Core.List.{foldl}
use native.Mathlib.Nat.{mod-eq_of_lt}
use distributed_omnipaxos_db.Base.{
  ℕ, ◌%◌, ◌<◌, ◌≡◌, refl, sym, ◌∙◌, List, [], ◌∷◌, ◌++◌, append-nil, append_assoc, arith, length,
  take-append_length, drop-append_length, length-append, All, ok, ◌>>=◌, u32_mod,
}
use distributed_omnipaxos_db.Varint.{Reads, read_exact, write_varint, read_varint}
use distributed_omnipaxos_db.Varint.RoundTrip.{
  varint_bytes, write_varint-append, read_varint-varint_bytes,
}
use distributed_omnipaxos_db.TxData.{RowData, InsertList, DeleteList, TxData}
use distributed_omnipaxos_db.TxData.Shape.{
  IsU32, RowFits, InsertsFit, DeletesFit, DataFits, concat, counted, row_bytes, insert_list_bytes,
  delete_list_bytes, data_bytes,
}
use distributed_omnipaxos_db.TxData.Serde.{
  read_many, serialize_row_data, deserialize_row_data, serialize_insert_list,
  deserialize_insert_list, serialize_delete_list, deserialize_delete_list, serialize, deserialize,
}

module _ {A : Type 0} (P : A → Type 0) (bytes_of : A → List ℕ) where
  -- A loop that appends the bytes of each element appends the bytes of all.
  foldl-concat :
      (write : List ℕ → A → List ℕ)
      → ((w : List ℕ) (a : A) → P a → write w a ≡ w ++ bytes_of a)
      → (writer : List ℕ) (xs : List A) → All P xs
      → foldl write writer xs ≡ writer ++ concat bytes_of xs
  foldl-concat write step writer [] h = sym (append-nil writer)
  foldl-concat write step writer (x ∷ xs) h =
      foldl-concat write step (write writer x) xs h.1
      ∙ rw (step writer x h.0) (append_assoc writer (bytes_of x) (concat bytes_of xs))

  -- A loop of reads reads back the elements whose bytes stand in a row.
  pub read_many-concat :
      (read : Reads A)
      → ((a : A) (rest : List ℕ) → P a → read (bytes_of a ++ rest) ≡ ok (a, rest))
      → (xs : List A) (rest : List ℕ) → All P xs
      → read_many read (length xs) (concat bytes_of xs ++ rest) ≡ ok (xs, rest)
  unfolding read_many
  read_many-concat read step [] rest h = refl
  read_many-concat read step (x ∷ xs) rest h =
      rw
        (
          append_assoc (bytes_of x) (concat bytes_of xs) rest,
          step x _ h.0,
          read_many-concat read step xs rest h.1,
        )
        refl

write_count :
    (writer : List ℕ) (n : ℕ)
    → n < u32_mod
    → write_varint writer (n % u32_mod) ≡ writer ++ varint_bytes n
write_count writer n h = rw (mod-eq_of_lt h) (write_varint-append writer n h)

pub read_exact-append : (xs rest : List ℕ) → read_exact (length xs) (xs ++ rest) ≡ ok (xs, rest)
unfolding read_exact
read_exact-append xs rest =
    ground (arith, length-append xs rest, take-append_length xs rest, drop-append_length xs rest)

serialize_row_data-append :
    (w : List ℕ) (row : RowData) → RowFits row → serialize_row_data w row ≡ w ++ row_bytes row
unfolding serialize_row_data
serialize_row_data-append w row h =
    rw (write_count w (length row) h) (append_assoc w (varint_bytes (length row)) row)

pub deserialize_row_data-row_bytes :
    (row : RowData) (rest : List ℕ)
    → RowFits row
    → deserialize_row_data (row_bytes row ++ rest) ≡ ok (row, rest)
unfolding deserialize_row_data
deserialize_row_data-row_bytes row rest h =
    rw
      (
        append_assoc (varint_bytes (length row)) row rest,
        read_varint-varint_bytes (length row) (row ++ rest) h,
      )
      (read_exact-append row rest)

module _ {A : Type 0} (P : A → Type 0) (bytes_of : A → List ℕ) where
  -- A count and a loop over the elements append the counted bytes.
  write_counted :
      (write : List ℕ → A → List ℕ)
      → ((w : List ℕ) (a : A) → P a → write w a ≡ w ++ bytes_of a)
      → (writer : List ℕ) (xs : List A) → IsU32 (length xs)
      → All P xs
      → foldl write (write_varint writer (length xs % u32_mod)) xs ≡ writer ++ counted bytes_of xs
  write_counted write step writer xs n h = rw (write_count writer (length xs) n) (
      foldl-concat P bytes_of write step _ xs h
      ∙ append_assoc writer (varint_bytes (length xs)) (concat bytes_of xs))

  -- The count and the loop of reads give back the elements.
  read_counted :
      {B : Type 0} (read : Reads A) (k : List A → Reads B)
      → ((a : A) (rest : List ℕ) → P a → read (bytes_of a ++ rest) ≡ ok (a, rest))
      → (xs : List A) (rest : List ℕ) → IsU32 (length xs)
      → All P xs
      → (do
        (n, r) ← read_varint (counted bytes_of xs ++ rest)
        (ys, r') ← read_many read n r
        k ys r')
        ≡ k xs rest
  read_counted read k step xs rest n h =
      rw
        (
          append_assoc (varint_bytes (length xs)) (concat bytes_of xs) rest,
          read_varint-varint_bytes (length xs) _ n,
          read_many-concat P bytes_of read step xs rest h,
        )
        refl

serialize_insert_list-append :
    (w : List ℕ) (l : InsertList)
    → InsertsFit l
    → serialize_insert_list w l ≡ w ++ insert_list_bytes l
unfolding serialize_insert_list
serialize_insert_list-append w l h =
    write_counted RowFits row_bytes serialize_row_data serialize_row_data-append _ l.inserts h.1 h.2
    ∙ rw (write_varint-append w l.table_id h.0)
        (append_assoc w (varint_bytes l.table_id) (counted row_bytes l.inserts))

serialize_delete_list-append :
    (w : List ℕ) (l : DeleteList)
    → DeletesFit l
    → serialize_delete_list w l ≡ w ++ delete_list_bytes l
unfolding serialize_delete_list
serialize_delete_list-append w l h =
    write_counted RowFits row_bytes serialize_row_data serialize_row_data-append _ l.deletes h.1 h.2
    ∙ rw (write_varint-append w l.table_id h.0)
        (append_assoc w (varint_bytes l.table_id) (counted row_bytes l.deletes))

pub deserialize_insert_list-bytes :
    (l : InsertList) (rest : List ℕ)
    → InsertsFit l
    → deserialize_insert_list (insert_list_bytes l ++ rest) ≡ ok (l, rest)
unfolding deserialize_insert_list
deserialize_insert_list-bytes l rest h =
    rw
      (
        append_assoc (varint_bytes l.table_id) (counted row_bytes l.inserts) rest,
        read_varint-varint_bytes l.table_id _ h.0,
      )
      (read_counted RowFits row_bytes deserialize_row_data
        (λ rows r. ok (record { table_id = l.table_id; inserts = rows }, r))
        deserialize_row_data-row_bytes l.inserts rest h.1 h.2)

pub deserialize_delete_list-bytes :
    (l : DeleteList) (rest : List ℕ)
    → DeletesFit l
    → deserialize_delete_list (delete_list_bytes l ++ rest) ≡ ok (l, rest)
unfolding deserialize_delete_list
deserialize_delete_list-bytes l rest h =
    rw
      (
        append_assoc (varint_bytes l.table_id) (counted row_bytes l.deletes) rest,
        read_varint-varint_bytes l.table_id _ h.0,
      )
      (read_counted RowFits row_bytes deserialize_row_data
        (λ rows r. ok (record { table_id = l.table_id; deletes = rows }, r))
        deserialize_row_data-row_bytes l.deletes rest h.1 h.2)

-- `serialize` keeps what the writer holds and appends the bytes of the transaction.
pub serialize-append :
    (d : TxData) (writer : List ℕ) → DataFits d → serialize d writer ≡ writer ++ data_bytes d
unfolding serialize
serialize-append d w h =
    write_counted IsU32 varint_bytes write_varint write_varint-append _ d.truncs h.truncs.0
      h.truncs.1
    ∙ rw
        (
          write_counted DeletesFit delete_list_bytes serialize_delete_list
              serialize_delete_list-append _ d.deletes h.deletes.0 h.deletes.1,
          write_counted InsertsFit insert_list_bytes serialize_insert_list
              serialize_insert_list-append w d.inserts h.inserts.0 h.inserts.1,
        )
        (append_assoc _ (counted delete_list_bytes d.deletes) (counted varint_bytes d.truncs)
          ∙ append_assoc w (counted insert_list_bytes d.inserts)
              (counted delete_list_bytes d.deletes ++ counted varint_bytes d.truncs))

-- The layout of a transaction reads back as that transaction, and what follows it is left.
pub deserialize-data_bytes :
    (d : TxData) (rest : List ℕ) → DataFits d → deserialize (data_bytes d ++ rest) ≡ ok (d, rest)
unfolding deserialize
deserialize-data_bytes d rest h =
    rw
      (
        append_assoc (counted insert_list_bytes d.inserts) _ rest,
        append_assoc (counted delete_list_bytes d.deletes) (counted varint_bytes d.truncs) rest,
      )
      (read_counted InsertsFit insert_list_bytes deserialize_insert_list _
          deserialize_insert_list-bytes d.inserts _ h.inserts.0 h.inserts.1
        ∙ (read_counted DeletesFit delete_list_bytes deserialize_delete_list _
              deserialize_delete_list-bytes d.deletes _ h.deletes.0 h.deletes.1
            ∙ read_counted IsU32 varint_bytes read_varint _ read_varint-varint_bytes d.truncs rest
                h.truncs.0 h.truncs.1))

-- `deserialize` reads back the transaction that `serialize` wrote to an empty buffer, and leaves
-- what follows it, where table ids and the lengths of all lists are below 2 ^ 32.
pub deserialize-serialize :
    (d : TxData) (rest : List ℕ) → DataFits d → deserialize (serialize d [] ++ rest) ≡ ok (d, rest)
deserialize-serialize d rest h = rw (serialize-append d [] h) (deserialize-data_bytes d rest h)
