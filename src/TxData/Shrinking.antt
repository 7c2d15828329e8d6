-- ===== src/TxData/Shrinking.antt =====
-- A deserializer of src/datastore/tx_data/serde.rs leaves no more than it was given.
use distributed_omnipaxos_db.Base.{
  ℕ, zero, suc, ◌+◌, ◌≤◌, ◌≡◌, refl, List, arith, length, length-drop, Outcome, ok, err, panic,
  ◌>>=◌,
}
use distributed_omnipaxos_db.Varint.{IoError, Reads, read_exact, read_varint}
use distributed_omnipaxos_db.Varint.Bounds.{read_varint_takes}
use distributed_omnipaxos_db.TxData.Serde.{
  read_many, deserialize_row_data, deserialize_insert_list, deserialize_delete_list, deserialize,
}

-- Where a read succeeds, at most `k` bytes are left.
abbrev pub Leaves : {A : Type 0} → ℕ → Outcome IoError (A × List ℕ) → Type 0
Leaves k (ok (a, rest)) = length rest ≤ k
Leaves k (err e) = Unit
Leaves k panic = Unit

abbrev pub Shrinks : {A : Type 0} → Reads A → Type 0
Shrinks read = (k : ℕ) (bytes : List ℕ) → length bytes ≤ k → Leaves k (read bytes)

pub Leaves-bind :
    {A B : Type 0} (k j : ℕ) (m : Outcome IoError (A × List ℕ))
    (f : A × List ℕ → Outcome IoError (B × List ℕ))
    → Leaves k m
    → ((a : A) (rest : List ℕ) → length rest ≤ k → Leaves j (f (a, rest)))
    → Leaves j (m >>= f)
Leaves-bind k j (ok (a, rest)) f h next = next a rest h
Leaves-bind k j (err e) f h next = tt
Leaves-bind k j panic f h next = tt

read_varint-Shrinks : Shrinks read_varint
read_varint-Shrinks k bytes le = at (read_varint bytes) refl
  where
    at : (o : Outcome IoError (ℕ × List ℕ)) → read_varint bytes ≡ o → Leaves k o
    at (ok (v, rest)) e = omega (arith, (read_varint_takes bytes v rest e).1)
    at (err x) e = tt
    at panic e = tt

pub read_exact-Leaves :
    (n k : ℕ) (bytes : List ℕ) → length bytes ≤ n + k → Leaves k (read_exact n bytes)
unfolding read_exact
read_exact-Leaves n k bytes le = ground (arith, length-drop n bytes)

module _ {A : Type 0} (read : Reads A) (shrinks : Shrinks read) where
  read_many-Shrinks : (n : ℕ) → Shrinks (read_many read n)
  unfolding read_many
  read_many-Shrinks zero k bytes le = le
  read_many-Shrinks (suc n) k bytes le =
      Leaves-bind k k _ _ (shrinks k bytes le)
        (λ a r h. Leaves-bind k k _ _ (read_many-Shrinks n k r h) (λ xs r' h'. h'))

  -- A count, that many elements, and what comes then.
  counted-Shrinks :
      {B : Type 0} (k : ℕ) (next : List A → Reads B) (bytes : List ℕ)
      → length bytes ≤ k
      → ((xs : List A) (rest : List ℕ) → length rest ≤ k → Leaves k (next xs rest))
      → Leaves k (do (n, r) ← read_varint bytes; (xs, r') ← read_many read n r; next xs r')
  counted-Shrinks k next bytes le last =
      Leaves-bind k k _ _ (read_varint-Shrinks k bytes le)
        (λ n r h. Leaves-bind k k _ _ (read_many-Shrinks n k r h) (λ xs r' h'. last xs r' h'))

deserialize_row_data-Shrinks : Shrinks deserialize_row_data
unfolding deserialize_row_data
deserialize_row_data-Shrinks k bytes le =
    Leaves-bind k k _ _ (read_varint-Shrinks k bytes le)
      (λ n r h. read_exact-Leaves n k r (omega arith))

deserialize_insert_list-Shrinks : Shrinks deserialize_insert_list
unfolding deserialize_insert_list
deserialize_insert_list-Shrinks k bytes le =
    Leaves-bind k k _ _ (read_varint-Shrinks k bytes le) (λ id r h.
      counted-Shrinks deserialize_row_data deserialize_row_data-Shrinks k _ r h (λ xs rest h'. h'))

deserialize_delete_list-Shrinks : Shrinks deserialize_delete_list
unfolding deserialize_delete_list
deserialize_delete_list-Shrinks k bytes le =
    Leaves-bind k k _ _ (read_varint-Shrinks k bytes le) (λ id r h.
      counted-Shrinks deserialize_row_data deserialize_row_data-Shrinks k _ r h (λ xs rest h'. h'))

pub deserialize-Shrinks : Shrinks deserialize
unfolding deserialize
deserialize-Shrinks k bytes le =
    counted-Shrinks deserialize_insert_list deserialize_insert_list-Shrinks k _ bytes le (λ xs r h.
      counted-Shrinks deserialize_delete_list deserialize_delete_list-Shrinks k _ r h
        (λ ys r' h'. counted-Shrinks read_varint read_varint-Shrinks k _ r' h' (λ zs r'' h''. h'')))
