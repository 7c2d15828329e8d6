-- ===== src/TxData/Truncated/Data.antt =====
-- A transaction whose binary form is cut off (src/datastore/tx_data/serde.rs).
use distributed_omnipaxos_db.Base.{
  ℕ, ◌<◌, ◌≡◌, refl, sym, ◌∙◌, subst, List, [], ◌∷◌, ◌++◌, append-nil, append_assoc, length, All,
  ok, err, ◌>>=◌,
}
use distributed_omnipaxos_db.Varint.{unexpected_eof, Reads, read_varint}
use distributed_omnipaxos_db.Varint.RoundTrip.{varint_bytes, read_varint-varint_bytes}
use distributed_omnipaxos_db.TxData.{RowData, InsertList, DeleteList, TxData}
use distributed_omnipaxos_db.TxData.Shape.{
  IsU32, RowFits, InsertsFit, DeletesFit, DataFits, concat, counted, row_bytes, insert_list_bytes,
  delete_list_bytes, data_bytes,
}
use distributed_omnipaxos_db.TxData.Serde.{
  read_many, deserialize_row_data, deserialize_insert_list, deserialize_delete_list, deserialize,
}
use distributed_omnipaxos_db.TxData.RoundTrip.{
  read_many-concat, deserialize_row_data-row_bytes, deserialize_insert_list-bytes,
  deserialize_delete_list-bytes,
}
use distributed_omnipaxos_db.TxData.RoundTrip.{serialize-append}
use distributed_omnipaxos_db.TxData.Serde.{serialize}
use distributed_omnipaxos_db.TxData.Truncated.{
  Starves, Starves-nil, Starves-last, Starves-bind, read_varint-Starves, read_exact-Starves,
}

module _ {A : Type 0} (P : A → Type 0) (bytes_of : A → List ℕ) (read : Reads A)
    (gives : (a : A) (rest : List ℕ) → P a → read (bytes_of a ++ rest) ≡ ok (a, rest))
    (starves : (a : A) → P a → Starves read (bytes_of a)) where
  read_many-Starves :
      (xs : List A) → All P xs → Starves (read_many read (length xs)) (concat bytes_of xs)
  unfolding read_many
  read_many-Starves [] h = Starves-nil _
  read_many-Starves (x ∷ xs) h =
      Starves-bind read _ (bytes_of x) (concat bytes_of xs) x (starves x h.0)
        (λ rest. gives x rest h.0)
        (Starves-last (read_many read (length xs)) _ (concat bytes_of xs)
          (read_many-Starves xs h.1))

  -- A count and a loop of reads, and what is read behind them.
  counted-Starves :
      {B : Type 0} (k : List A → Reads B) (xs : List A) (ys : List ℕ)
      → IsU32 (length xs)
      → All P xs
      → Starves (k xs) ys
      → Starves
          (λ bytes. do (n, r) ← read_varint bytes; (zs, r') ← read_many read n r; k zs r')
          (counted bytes_of xs ++ ys)
  counted-Starves k xs ys n h s =
      subst (Starves _) (sym (append_assoc (varint_bytes (length xs)) (concat bytes_of xs) ys)) (
        Starves-bind read_varint _ (varint_bytes (length xs)) (concat bytes_of xs ++ ys) (length xs)
          (read_varint-Starves (length xs)) (λ rest. read_varint-varint_bytes (length xs) rest n)
          (Starves-bind (read_many read (length xs)) _ (concat bytes_of xs) ys xs
            (read_many-Starves xs h) (λ rest. read_many-concat P bytes_of read gives xs rest h) s))

  -- The last list.
  counted_last :
      {B : Type 0} (k : List A → Reads B) (xs : List A)
      → IsU32 (length xs)
      → All P xs
      → Starves
          (λ bytes. do (n, r) ← read_varint bytes; (zs, r') ← read_many read n r; k zs r')
          (counted bytes_of xs)
  counted_last k xs n h =
      subst (Starves _) (append-nil (counted bytes_of xs))
        (counted-Starves k xs [] n h (Starves-nil (k xs)))

deserialize_row_data-Starves :
    (row : RowData) → RowFits row → Starves deserialize_row_data (row_bytes row)
unfolding deserialize_row_data
deserialize_row_data-Starves row h =
    Starves-bind read_varint _ (varint_bytes (length row)) row (length row)
      (read_varint-Starves (length row)) (λ rest. read_varint-varint_bytes (length row) rest h)
      (read_exact-Starves (length row) row refl)

deserialize_insert_list-Starves :
    (l : InsertList) → InsertsFit l → Starves deserialize_insert_list (insert_list_bytes l)
unfolding deserialize_insert_list
deserialize_insert_list-Starves l h =
    Starves-bind read_varint _ (varint_bytes l.table_id) (counted row_bytes l.inserts) l.table_id
      (read_varint-Starves l.table_id) (λ rest. read_varint-varint_bytes l.table_id rest h.0)
      (counted_last RowFits row_bytes deserialize_row_data deserialize_row_data-row_bytes
        deserialize_row_data-Starves _ l.inserts h.1 h.2)

deserialize_delete_list-Starves :
    (l : DeleteList) → DeletesFit l → Starves deserialize_delete_list (delete_list_bytes l)
unfolding deserialize_delete_list
deserialize_delete_list-Starves l h =
    Starves-bind read_varint _ (varint_bytes l.table_id) (counted row_bytes l.deletes) l.table_id
      (read_varint-Starves l.table_id) (λ rest. read_varint-varint_bytes l.table_id rest h.0)
      (counted_last RowFits row_bytes deserialize_row_data deserialize_row_data-row_bytes
        deserialize_row_data-Starves _ l.deletes h.1 h.2)

-- A transaction that is cut off.
pub deserialize-Starves : (d : TxData) → DataFits d → Starves deserialize (data_bytes d)
unfolding deserialize
deserialize-Starves d h =
    counted-Starves InsertsFit insert_list_bytes deserialize_insert_list
      deserialize_insert_list-bytes deserialize_insert_list-Starves _ d.inserts _ h.inserts.0
      h.inserts.1
      (counted-Starves DeletesFit delete_list_bytes deserialize_delete_list
        deserialize_delete_list-bytes deserialize_delete_list-Starves _ d.deletes _ h.deletes.0
        h.deletes.1
        (counted_last IsU32 varint_bytes read_varint read_varint-varint_bytes
          (λ v h'. read_varint-Starves v) _ d.truncs h.truncs.0 h.truncs.1))

-- The bytes that `serialize` writes for a transaction to an empty buffer, cut off at any place
-- before their end, are refused with `UnexpectedEof`, and nothing panics, where table ids and the
-- lengths of all lists are below 2 ^ 32.
pub deserialize-cut :
    (d : TxData) (p q : List ℕ)
    → DataFits d
    → p ++ q ≡ serialize d []
    → 0 < length q
    → deserialize p ≡ err unexpected_eof
deserialize-cut d p q h whole missing =
    deserialize-Starves d h p q
      (record { whole = whole ∙ serialize-append d [] h; missing = missing })
