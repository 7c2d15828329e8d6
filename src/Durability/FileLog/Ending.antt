-- ===== src/Durability/FileLog/Ending.antt =====
-- The bound on the iteration over the file of src/durability/example_durability.rs, whose entries take
-- eight bytes at least.
use distributed_omnipaxos_db.Base.{
  ℕ, zero, suc, ◌+◌, ◌-◌, ◌≤◌, ◌≡◌, refl, ap, some, List, [], ◌∷◌, arith, length, Outcome, ok, err,
  panic,
}
use distributed_omnipaxos_db.TxData.Shrinking.{
  Leaves, Leaves-bind, read_exact-Leaves, deserialize-Shrinks,
}
use distributed_omnipaxos_db.Varint.{IoError, read_exact}
use distributed_omnipaxos_db.TxData.Serde
use distributed_omnipaxos_db.TxData.{TxOffset, TxData}
use distributed_omnipaxos_db.Durability.Entry.{LogEntry, deserialize_log_entry}
use distributed_omnipaxos_db.Durability.FileLog.{next_entry, read_on, read_entries, iter_file}
use distributed_omnipaxos_db.Durability.FileLog.Reading.{at_end}

entry-Leaves :
    (k : ℕ) (bytes : List ℕ) → length bytes ≤ 8 + k → Leaves k (deserialize_log_entry bytes)
unfolding deserialize_log_entry
entry-Leaves k bytes le =
    Leaves-bind k k (read_exact 8 bytes) _ (read_exact-Leaves 8 k bytes le) (λ offset r h.
      Leaves-bind k k (Serde.deserialize r) _ (deserialize-Shrinks k r h) (λ d r' h'. h'))

-- Two ways of reading on agree where they agree on all that can be left.
read_on-agree :
    (k : ℕ) (o : Outcome IoError (LogEntry × List ℕ))
    (f g : List ℕ → Outcome ⊥ (List (TxOffset × TxData)))
    → Leaves k o
    → ((rest : List ℕ) → length rest ≤ k → f rest ≡ g rest)
    → read_on (next_entry o) f ≡ read_on (next_entry o) g
read_on-agree k (ok (e, rest)) f g h same =
    ap (λ m. read_on (ok (some (e, rest))) (λ _. m)) (same rest h)
read_on-agree k (err x) f g h same = refl
read_on-agree k panic f g h same = refl

agree :
    (n m : ℕ) (bytes : List ℕ)
    → length bytes ≤ n
    → length bytes ≤ m
    → read_entries n bytes ≡ read_entries m bytes
unfolding read_entries
agree zero zero bytes p q = refl
agree zero (suc m) [] p q = rw at_end refl
agree (suc n) zero [] p q = rw at_end refl
agree zero (suc m) (b ∷ bytes) p q = absurd (omega arith)
agree (suc n) zero (b ∷ bytes) p q = absurd (omega arith)
agree (suc n) (suc m) bytes p q =
    read_on-agree (length bytes - 8) (deserialize_log_entry bytes) (read_entries n) (read_entries m)
      (entry-Leaves (length bytes - 8) bytes (omega arith))
      (λ rest le. agree n m rest (omega arith) (omega arith))

-- A bound on the number of entries that is at least the number of bytes does not change what the
-- iteration over a file gives, whatever the file holds.
pub iter_file-bound :
    (n : ℕ) (bytes : List ℕ) → length bytes ≤ n → read_entries n bytes ≡ iter_file (some bytes)
unfolding iter_file
iter_file-bound n bytes le = agree n (length bytes) bytes le (omega arith)
