-- ===== src/TxData/Serde.antt =====
-- src/datastore/tx_data/serde.rs: the binary form of `TxData`. A serializer returns the writer with
-- what it has written; `len() as u32` keeps the low 32 bits of a length.
use mathlib.Core.List.{foldl}
use distributed_omnipaxos_db.Base.{
  ℕ, zero, suc, ◌%◌, List, [], ◌∷◌, ◌++◌, length, ok, ◌>>=◌, u32_mod,
}
use distributed_omnipaxos_db.Varint.{Reads, read_exact, write_varint, read_varint}
use distributed_omnipaxos_db.TxData.{RowData, InsertList, DeleteList, TxData}

-- `for _ in 0..n { v.push(read(reader)?) }`
unfoldable pub read_many : {A : Type 0} → Reads A → ℕ → Reads (List A)
read_many read zero bytes = ok ([], bytes)
read_many read (suc n) bytes = do
  (a, bytes') ← read bytes
  (rest, bytes'') ← read_many read n bytes'
  ok (a ∷ rest, bytes'')

unfoldable pub serialize_row_data : List ℕ → RowData → List ℕ
serialize_row_data writer row_data = write_varint writer (length row_data % u32_mod) ++ row_data

unfoldable pub deserialize_row_data : Reads RowData
deserialize_row_data reader = do (len, reader') ← read_varint reader; read_exact len reader'

unfoldable pub serialize_insert_list : List ℕ → InsertList → List ℕ
serialize_insert_list writer insert_list =
    let writer' = write_varint writer insert_list.table_id in
    let writer'' = write_varint writer' (length insert_list.inserts % u32_mod) in
    foldl serialize_row_data writer'' insert_list.inserts

unfoldable pub deserialize_insert_list : Reads InsertList
deserialize_insert_list reader = do
  (table_id, r1) ← read_varint reader
  (num_inserts, r2) ← read_varint r1
  (inserts, r3) ← read_many deserialize_row_data num_inserts r2
  ok (record { table_id = table_id; inserts = inserts }, r3)

unfoldable pub serialize_delete_list : List ℕ → DeleteList → List ℕ
serialize_delete_list writer delete_list =
    let writer' = write_varint writer delete_list.table_id in
    let writer'' = write_varint writer' (length delete_list.deletes % u32_mod) in
    foldl serialize_row_data writer'' delete_list.deletes

unfoldable pub deserialize_delete_list : Reads DeleteList
deserialize_delete_list reader = do
  (table_id, r1) ← read_varint reader
  (num_deletes, r2) ← read_varint r1
  (deletes, r3) ← read_many deserialize_row_data num_deletes r2
  ok (record { table_id = table_id; deletes = deletes }, r3)

unfoldable pub serialize : TxData → List ℕ → List ℕ
serialize tx_data writer =
    let w1 = write_varint writer (length tx_data.inserts % u32_mod) in
    let w2 = foldl serialize_insert_list w1 tx_data.inserts in
    let w3 = write_varint w2 (length tx_data.deletes % u32_mod) in
    let w4 = foldl serialize_delete_list w3 tx_data.deletes in
    let w5 = write_varint w4 (length tx_data.truncs % u32_mod) in
    foldl write_varint w5 tx_data.truncs

unfoldable pub deserialize : Reads TxData
deserialize reader = do
  (num_inserts, r1) ← read_varint reader
  (inserts, r2) ← read_many deserialize_insert_list num_inserts r1
  (num_deletes, r3) ← read_varint r2
  (deletes, r4) ← read_many deserialize_delete_list num_deletes r3
  (num_truncs, r5) ← read_varint r4
  (truncs, r6) ← read_many read_varint num_truncs r5
  ok (record { inserts = inserts; deletes = deletes; truncs = truncs }, r6)
