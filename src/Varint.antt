-- ===== src/Varint.antt =====
-- `write_varint` and `read_varint` of src/datastore/tx_data/serde.rs, with the reads of `std::io`
-- that the deserializers call. A writer is the `Vec<u8>` that has been written, and writing to it
-- cannot fail; a reader is the list of bytes that are left.
pub mod RoundTrip
pub mod Bounds
use mathlib.Core.WellFounded.{Acc}
use distributed_omnipaxos_db.Base.{
  ℕ, ◌+◌, ◌*◌, ◌/◌, ◌%◌, ◌^◌, ◌≤◌, ◌<◌, bit_and, bit_or, List, [], ◌∷◌, ◌++◌, arith, dite, dec_le,
  lt_wf, ltb, leb, ◌==◌, if◌then◌else◌, length, take, drop, Outcome, ok, err, panic, u32_mod,
}

pub data IoError : Type 0 where
  unexpected_eof invalid_data : IoError

abbrev pub Reads : Type 0 → Type 0
Reads A = List ℕ → Outcome IoError (A × List ℕ)

-- `read_exact` into a buffer of `n` bytes.
unfoldable pub read_exact : ℕ → Reads (List ℕ)
read_exact n bytes =
    if leb n (length bytes) then ok (take n bytes, drop n bytes) else err unexpected_eof

-- `value >>= 7` is a division by 128; the loop goes on while `value >= 0x80`.
write_varint_loop : List ℕ → (value : ℕ) → Acc ◌<◌ value → List ℕ
write_varint_loop writer value (Acc.intro _ smaller) =
    dite (dec_le 0x80 value)
      (λ more.
        write_varint_loop (writer ++ (bit_or (bit_and (value % 256) 0x7f) 0x80 ∷ []))
          (value / 2 ^ 7) (smaller _ (omega arith)))
      (λ _. writer ++ (value % 256 ∷ []))

unfoldable pub write_varint : List ℕ → ℕ → List ℕ
unfolding write_varint_loop lt_wf dec_le
write_varint writer value = write_varint_loop writer value (lt_wf.apply value)

-- `value |= ((byte & 0x7F) as u32) << shift`: a shift by 32 or more overflows, which is checked,
-- and the bits that leave the word are lost.
unfoldable pub read_varint_loop : List ℕ → ℕ → ℕ → Outcome IoError (ℕ × List ℕ)
read_varint_loop [] value shift = err unexpected_eof
read_varint_loop (byte ∷ rest) value shift =
    let value' = bit_or value (bit_and byte 0x7f * 2 ^ shift % u32_mod) in
    let more = read_varint_loop rest value' (shift + 7) in
    if leb 32 shift then panic else if bit_and byte 0x80 == 0 then ok (value', rest) else more

unfoldable pub read_varint : Reads ℕ
unfolding read_varint_loop
read_varint bytes = read_varint_loop bytes 0 0
