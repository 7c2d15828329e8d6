-- ===== src/TxData/Shape.antt =====
-- The layout of the binary form, for data whose lengths fit 32 bits.
use distributed_omnipaxos_db.Base.{ℕ, ◌<◌, List, [], ◌∷◌, ◌++◌, length, All, u32_mod}
use distributed_omnipaxos_db.Varint.RoundTrip.{varint_bytes}
use distributed_omnipaxos_db.TxData.{RowData, InsertList, DeleteList, TxData}

abbrev pub IsU32 : ℕ → Type 0
IsU32 n = n < u32_mod

abbrev pub RowFits : RowData → Type 0
RowFits row = IsU32 (length row)

abbrev pub InsertsFit : InsertList → Type 0
InsertsFit l = IsU32 l.table_id × IsU32 (length l.inserts) × All RowFits l.inserts

abbrev pub DeletesFit : DeleteList → Type 0
DeletesFit l = IsU32 l.table_id × IsU32 (length l.deletes) × All RowFits l.deletes

-- Table ids, and the number of elements of every list, are below 2 ^ 32.
pub record DataFits (d : TxData) : Type 0 where
  pub inserts : IsU32 (length d.inserts) × All InsertsFit d.inserts
  pub deletes : IsU32 (length d.deletes) × All DeletesFit d.deletes
  pub truncs : IsU32 (length d.truncs) × All IsU32 d.truncs

abbrev pub concat {ℓ} : {A : Type ℓ} → (A → List ℕ) → List A → List ℕ
concat f [] = []
concat f (x ∷ xs) = f x ++ concat f xs

-- A count, and then the elements.
abbrev pub counted {ℓ} : {A : Type ℓ} → (A → List ℕ) → List A → List ℕ
counted f xs = varint_bytes (length xs) ++ concat f xs

abbrev pub row_bytes : RowData → List ℕ
row_bytes row = varint_bytes (length row) ++ row

abbrev pub insert_list_bytes : InsertList → List ℕ
insert_list_bytes l = varint_bytes l.table_id ++ counted row_bytes l.inserts

abbrev pub delete_list_bytes : DeleteList → List ℕ
delete_list_bytes l = varint_bytes l.table_id ++ counted row_bytes l.deletes

abbrev pub data_bytes : TxData → List ℕ
data_bytes d =
    counted insert_list_bytes d.inserts
    ++ (counted delete_list_bytes d.deletes ++ counted varint_bytes d.truncs)
