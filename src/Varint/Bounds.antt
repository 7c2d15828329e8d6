-- ===== src/Varint/Bounds.antt =====
-- What `read_varint` may return on any input (src/datastore/tx_data/serde.rs).
use native.Mathlib.Nat.{mod-lt}
use distributed_omnipaxos_db.Base.{
  ℕ, ◌+◌, ◌*◌, ◌%◌, ◌^◌, ◌≤◌, ◌<◌, ◌≡◌, List, [], ◌∷◌, bit_and, bit_or, arith, length, ok, u32_mod,
}
use distributed_omnipaxos_db.Base.Bits.{bit_or-lt}
use distributed_omnipaxos_db.Varint.{read_varint_loop, read_varint}

next_value :
    (value byte shift : ℕ)
    → value < u32_mod
    → bit_or value (bit_and byte 0x7f * 2 ^ shift % u32_mod) < u32_mod
next_value value byte shift h = bit_or-lt 32 value _ h (mod-lt _ (omega arith))

-- After `k` bytes the shift is 7 * k.
read_varint_loop_takes :
    (bytes : List ℕ) (value shift k v : ℕ) (rest : List ℕ)
    → shift ≡ 7 * k
    → value < u32_mod
    → read_varint_loop bytes value shift ≡ ok (v, rest)
    → (v < u32_mod) × (length rest < length bytes) × (length bytes + k ≤ length rest + 5)
unfolding read_varint_loop
read_varint_loop_takes [] value shift k v rest hs hv e = absurd (cc)
read_varint_loop_takes (byte ∷ bytes) value shift k v rest hs hv e = ground (
  arith,
  next_value value byte shift,
  read_varint_loop_takes bytes (bit_or value (bit_and byte 0x7f * 2 ^ shift % u32_mod)) (shift + 7)
      (k + 1) v rest,
)

-- A value that `read_varint` returns is a u32, and it took one to five bytes, whatever the input.
pub read_varint_takes :
    (bytes : List ℕ) (v : ℕ) (rest : List ℕ)
    → read_varint bytes ≡ ok (v, rest)
    → (v < u32_mod) × (length rest < length bytes) × (length bytes ≤ length rest + 5)
unfolding read_varint
read_varint_takes bytes v rest e = ground (arith, read_varint_loop_takes bytes 0 0 0 v rest)
