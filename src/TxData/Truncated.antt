-- ===== src/TxData/Truncated.antt =====
-- A binary form that is cut off (src/datastore/tx_data/serde.rs): a read ends with `UnexpectedEof`, and
-- does not panic.
pub mod Data
use mathlib.Core.Path.{ap₂}
use distributed_omnipaxos_db.Base.{
  ℕ, zero, suc, ◌+◌, ◌*◌, ◌/◌, ◌%◌, ◌^◌, ◌≤◌, ◌<◌, ◌≡◌, refl, sym, ap, ◌∙◌, subst, Bool, true,
  false, Bool-cases, inl, inr, ◌⊎◌, List, [], ◌∷◌, ◌++◌, append-nil, append_assoc, arith, length,
  length-append, All, ok, err, ◌>>=◌, Outcome, ltb, leb, ◌==◌, bit_and, if◌then◌else◌,
}
use distributed_omnipaxos_db.Base.Bits.{top_bit}
use distributed_omnipaxos_db.Varint.{
  IoError, unexpected_eof, Reads, read_exact, read_varint_loop, read_varint,
}
use distributed_omnipaxos_db.Varint.RoundTrip.{groups, varint_bytes, read_varint-varint_bytes}
use distributed_omnipaxos_db.TxData.{RowData, InsertList, DeleteList, TxData}
use distributed_omnipaxos_db.TxData.Shape.{
  IsU32, RowFits, InsertsFit, DeletesFit, DataFits, concat, counted, row_bytes, insert_list_bytes,
  delete_list_bytes, data_bytes,
}
use distributed_omnipaxos_db.TxData.Serde.{
  read_many, deserialize_row_data, deserialize_insert_list, deserialize_delete_list, deserialize,
}
use distributed_omnipaxos_db.TxData.RoundTrip.{
  read_many-concat, deserialize_row_data-row_bytes, deserialize_insert_list-bytes,
  deserialize_delete_list-bytes,
}

-- `bytes` cut off: `p` is what is left of it, and `q`, which is not empty, is missing.
pub record Cut (bytes p q : List ℕ) : Type 0 where
  pub whole : p ++ q ≡ bytes
  pub missing : 0 < length q

-- On bytes that are cut off a read ends with `UnexpectedEof`.
abbrev pub Starves : {A : Type 0} → Reads A → List ℕ → Type 0
Starves read bytes = (p q : List ℕ) → Cut bytes p q → read p ≡ err unexpected_eof

abbrev pub Gives : {A : Type 0} → Reads A → List ℕ → A → Type 0
Gives read bytes a = (rest : List ℕ) → read (bytes ++ rest) ≡ ok (a, rest)

-- A cut in two parts goes through the first, or leaves it whole.
Cut-append :
    (xs ys p q : List ℕ)
    → Cut (xs ++ ys) p q
    → ((q' : List ℕ) × Cut xs p q') ⊎ ((p' : List ℕ) × (p ≡ xs ++ p') × Cut ys p' q)
Cut-append [] ys p q c = inr (p, refl, c)
Cut-append (x ∷ xs) ys [] q c = inl (x ∷ xs, record { whole = refl; missing = omega arith })
Cut-append (x ∷ xs) ys (b ∷ p) q c =
    elim (Cut-append xs ys p q (record { whole = cc (c.whole); missing = c.missing })) [
      | inl (q', d) ↦
          inl (q', record { whole = ap₂ ◌∷◌ (cc (c.whole)) d.whole; missing = d.missing })
      | inr (p', e, d) ↦ inr (p', ap₂ ◌∷◌ (cc (c.whole)) e, d)
    ]

Cut-nil : (p q : List ℕ) → Cut [] p q → ⊥
Cut-nil [] q c = absurd (omega (arith, c.missing, ap length c.whole))
Cut-nil (b ∷ p) q c = absurd (cc (c.whole))

pub Starves-nil : {A : Type 0} (read : Reads A) → Starves read []
Starves-nil read p q c = absurd (Cut-nil p q c)

-- The last of the reads.
pub Starves-last :
    {A B : Type 0} (read : Reads A) (k : A × List ℕ → Outcome IoError (B × List ℕ)) (bytes : List ℕ)
    → Starves read bytes
    → Starves (λ r. read r >>= k) bytes
Starves-last read k bytes s p q c = rw (s p q c) refl

-- One read after another.
pub Starves-bind :
    {A B : Type 0} (read : Reads A) (k : A × List ℕ → Outcome IoError (B × List ℕ)) (xs ys : List ℕ)
    (a : A)
    → Starves read xs
    → Gives read xs a
    → Starves (λ r. k (a, r)) ys
    → Starves (λ r. read r >>= k) (xs ++ ys)
Starves-bind read k xs ys a s g t p q c = elim (Cut-append xs ys p q c) [
  | inl (q', d) ↦ rw (s p q' d) refl
  | inr (p', e, d) ↦ rw (e, g p') (t p' q d)
]

-- Bytes that each say that another one follows.
continuing :
    (bytes : List ℕ) (value shift : ℕ)
    → All (λ b. (128 ≤ b) × (b < 256)) bytes
    → shift + 7 * length bytes < 39
    → read_varint_loop bytes value shift ≡ err unexpected_eof
unfolding read_varint_loop
continuing [] value shift h room = refl
continuing (b ∷ bytes) value shift h room =
    let fits : leb 32 shift ≡ false = ground (arith, room) in
    let more : (bit_and b 0x80 == 0) ≡ false = ground (arith, top_bit b h.0.1, h.0.0) in
    rw (fits, more) (continuing bytes _ (shift + 7) h.1 (omega (arith, room)))

-- All but the last byte of a varint do.
Cut-groups :
    (k v : ℕ) (p q : List ℕ)
    → Cut (groups k v) p q
    → All (λ b. (128 ≤ b) × (b < 256)) p × (length p ≤ k)
unfolding groups
Cut-groups k v [] q c = (tt, omega arith)
Cut-groups zero v (b ∷ p) q c =
    absurd (omega (arith, c.missing, ap length c.whole, length-append p q))
Cut-groups (suc k) v (b ∷ p) q c = elim (Bool-cases (ltb v 128)) [
  | inl last ↦
      let whole : b ∷ (p ++ q) ≡ v ∷ [] = rw last at c.whole in
      absurd (omega (arith, c.missing, ap length whole, length-append p q))
  | inr more ↦
      let whole : b ∷ (p ++ q) ≡ (v % 128 + 128) ∷ groups k (v / 128) = rw more at c.whole in
      let rest = Cut-groups k (v / 128) p q (record { whole = cc whole; missing = c.missing }) in
      let byte : b ≡ v % 128 + 128 = cc whole in
      (((omega (arith, byte), omega (arith, byte)), rest.0), omega (arith, rest.1))
]

pub read_varint-Starves : (v : ℕ) → Starves read_varint (varint_bytes v)
unfolding read_varint
read_varint-Starves v p q c =
    let h = Cut-groups 4 v p q c in continuing p 0 0 h.0 (omega (arith, h.1))

pub read_exact-Starves : (n : ℕ) (bytes : List ℕ) → length bytes ≡ n → Starves (read_exact n) bytes
unfolding read_exact
read_exact-Starves n bytes e p q c =
    let short : length p < n = omega (arith, e, c.missing, ap length c.whole, length-append p q) in
    ground arith
