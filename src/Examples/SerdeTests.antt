-- ===== src/Examples/SerdeTests.antt =====
-- The unit tests of src/datastore/tx_data/serde.rs. Writing into a vector does not fail.
use distributed_omnipaxos_db.Base.{
  ℕ, ◌≡◌, refl, Bool, true, false, ite, List, [], ◌∷◌, length, ◌==◌, ℕ_discrete, Outcome, ok, ◌>>=◌,
}
use distributed_omnipaxos_db.Base.Utf8.{str_discrete}
use distributed_omnipaxos_db.Varint.{write_varint}
use distributed_omnipaxos_db.TxData.{RowData, InsertList, TxData}
use distributed_omnipaxos_db.TxData.Serde.{serialize, serialize_insert_list, serialize_row_data}
use distributed_omnipaxos_db.Examples.StoreTests.{assert}

abbrev only_inserts : List InsertList → TxData
only_inserts inserts = record { inserts = inserts; deletes = []; truncs = [] }

abbrev inserts_at : ℕ → List RowData → InsertList
inserts_at table_id inserts = record { table_id = table_id; inserts = inserts }

abbrev same_bytes : List ℕ → List ℕ → Bool
same_bytes a b = ite (str_discrete a b) true false

abbrev all_zero : List ℕ → Outcome ⊥ (Unit {0})
all_zero [] = ok tt
all_zero (byte ∷ bytes) = do _ ← assert (byte == 0); all_zero bytes

abbrev test_serialize_empty_tx_data : Outcome ⊥ (Unit {0})
test_serialize_empty_tx_data = do
  let bytes = serialize (only_inserts []) []
  _ ← assert (length bytes == 3)
  all_zero bytes

test_serialize_empty_tx_data_passes : test_serialize_empty_tx_data ≡ ok tt
unfolding serialize write_varint
test_serialize_empty_tx_data_passes = refl

abbrev test_serialize_tx_data : Outcome ⊥ (Unit {0})
test_serialize_tx_data =
    assert
      (same_bytes (serialize (only_inserts (inserts_at 42 [] ∷ [])) []) (1 ∷ 42 ∷ 0 ∷ 0 ∷ 0 ∷ []))

test_serialize_tx_data_passes : test_serialize_tx_data ≡ ok tt
unfolding serialize serialize_insert_list write_varint str_discrete ℕ_discrete
test_serialize_tx_data_passes = refl

abbrev test_serialize_tx_data_2 : Outcome ⊥ (Unit {0})
test_serialize_tx_data_2 = assert (
    same_bytes (serialize (only_inserts (inserts_at 42 [] ∷ inserts_at 33 [] ∷ [])) [])
      (2 ∷ 42 ∷ 0 ∷ 33 ∷ 0 ∷ 0 ∷ 0 ∷ []))

test_serialize_tx_data_2_passes : test_serialize_tx_data_2 ≡ ok tt
unfolding serialize serialize_insert_list write_varint str_discrete ℕ_discrete
test_serialize_tx_data_2_passes = refl

abbrev test_serialize_tx_data_3 : Outcome ⊥ (Unit {0})
test_serialize_tx_data_3 =
    let bytes =
      serialize
        (only_inserts (
          inserts_at 42 ((1 ∷ 2 ∷ 3 ∷ 4 ∷ 5 ∷ []) ∷ [])
          ∷ inserts_at 33 ((6 ∷ 7 ∷ 8 ∷ 9 ∷ 10 ∷ []) ∷ [])
          ∷ []))
        [] in
    assert (
      same_bytes bytes
        (2 ∷ 42 ∷ 1 ∷ 5 ∷ 1 ∷ 2 ∷ 3 ∷ 4 ∷ 5 ∷ 33 ∷ 1 ∷ 5 ∷ 6 ∷ 7 ∷ 8 ∷ 9 ∷ 10 ∷ 0 ∷ 0 ∷ []))

test_serialize_tx_data_3_passes : test_serialize_tx_data_3 ≡ ok tt
unfolding serialize serialize_insert_list serialize_row_data write_varint str_discrete ℕ_discrete
test_serialize_tx_data_3_passes = refl
