-- ===== src/Varint/RoundTrip.antt =====
-- `read_varint` after `write_varint` (src/datastore/tx_data/serde.rs).
use mathlib.Core.WellFounded.{Acc}
use native.Mathlib.Nat.{div-add-mod}
use native.Mathlib.Numerals.{towards_suc}
use distributed_omnipaxos_db.Base.{
  ℕ, zero, suc, ◌+◌, ◌*◌, ◌/◌, ◌%◌, ◌^◌, ◌<◌, ◌≡◌, ap, bit_and, bit_or, List, [], ◌∷◌, ◌++◌,
  append_assoc, arith, ltb, if◌then◌else◌, ok, u32_mod, lt_wf,
}
use distributed_omnipaxos_db.Base.Bits.{low_bits, top_bit, set_top_bit, bit_or_disjoint}
use distributed_omnipaxos_db.Varint.{write_varint_loop, write_varint, read_varint_loop, read_varint}

-- `value` in groups of seven bits, lowest first, with at most `k` bytes before the last.
unfoldable pub groups : ℕ → ℕ → List ℕ
groups zero value = value ∷ []
groups (suc k) value =
    let higher = groups k (value / 128) in
    if ltb value 128 then value ∷ [] else (value % 128 + 128) ∷ higher

abbrev pub varint_bytes : ℕ → List ℕ
varint_bytes = groups 4

group_byte : (value : ℕ) → bit_or (bit_and (value % 256) 0x7f) 0x80 ≡ value % 128 + 128
group_byte value =
    ground (arith, low_bits (value % 256) (omega arith), set_top_bit (value % 128) (omega arith))

write_varint_loop-groups :
    (k : ℕ) (writer : List ℕ) (value : ℕ) (w : Acc ◌<◌ value)
    → value < 128 ^ suc k
    → write_varint_loop writer value w ≡ writer ++ groups k value
unfolding write_varint_loop groups
write_varint_loop-groups zero writer value (Acc.intro _ smaller) h = ground arith
write_varint_loop-groups (suc k) writer value (Acc.intro _ smaller) h =
    let byte : List ℕ = (value % 128 + 128) ∷ [] in
    grind (
      arith,
      group_byte value,
      λ (w : Acc ◌<◌ (value / 128)).
          write_varint_loop-groups k (writer ++ byte) (value / 128) w (omega arith),
      append_assoc writer byte (groups k (value / 128)),
    )

-- `write_varint` keeps what the writer holds and appends the groups of the value.
pub write_varint-append :
    (writer : List ℕ) (value : ℕ)
    → value < u32_mod
    → write_varint writer value ≡ writer ++ varint_bytes value
unfolding write_varint
write_varint-append writer value h =
    write_varint_loop-groups 4 writer value (lt_wf.apply value) (omega arith)

shift_seven : (s : ℕ) → 2 ^ (s + 7) ≡ 128 * 2 ^ s
shift_seven s = simp towards_suc (omega arith)

module _ (value shift : ℕ) (rest : List ℕ) (room : shift < 32) (low : value < 2 ^ shift) where
  last_byte :
      (g : ℕ)
      → g < 128
      → value + g * 2 ^ shift < u32_mod
      → read_varint_loop (g ∷ rest) value shift ≡ ok (value + g * 2 ^ shift, rest)
  unfolding read_varint_loop
  last_byte g hg fits = ground (arith, low_bits g, top_bit g, bit_or_disjoint shift value g)

  inner_byte :
      (g : ℕ)
      → g < 128
      → value + g * 2 ^ shift < u32_mod
      → read_varint_loop ((g + 128) ∷ rest) value shift
        ≡ read_varint_loop rest (value + g * 2 ^ shift) (shift + 7)
  unfolding read_varint_loop
  inner_byte g hg fits =
      ground (arith, low_bits (g + 128), top_bit (g + 128), bit_or_disjoint shift value g)

  group_below : (g : ℕ) → g < 128 → value + g * 2 ^ shift < 2 ^ (shift + 7)
  group_below g hg = rw shift_seven (grind arith)

-- The lowest group of `v` and the rest, both shifted by `s`.
split_group : (v s : ℕ) → v * 2 ^ s ≡ v % 128 * 2 ^ s + v / 128 * 2 ^ (s + 7)
split_group v s = omega (
  arith,
  ap (λ (t : ℕ). t * 2 ^ s) (div-add-mod v 128),
  ap (λ (t : ℕ). v / 128 * t) (shift_seven s),
)

read_varint_loop-groups :
    (k v value shift : ℕ) (rest : List ℕ)
    → v < 128 ^ suc k
    → shift + 7 * k < 32
    → value < 2 ^ shift
    → value + v * 2 ^ shift < u32_mod
    → read_varint_loop (groups k v ++ rest) value shift ≡ ok (value + v * 2 ^ shift, rest)
unfolding groups
read_varint_loop-groups zero v value shift rest hv room low fits =
    last_byte value shift rest (omega arith) low v (omega arith) fits
read_varint_loop-groups (suc k) v value shift rest hv room low fits = ground (
  arith,
  last_byte value shift rest (omega arith) low v,
  inner_byte value shift (groups k (v / 128) ++ rest) (omega arith) low (v % 128) (omega arith),
  split_group v shift,
  read_varint_loop-groups k (v / 128) (value + v % 128 * 2 ^ shift) (shift + 7) rest (omega arith)
      (omega arith) (group_below value shift rest (omega arith) low (v % 128) (omega arith)),
)

-- What `read_varint` gives for the bytes of a u32 is that u32, and what follows them is left.
pub read_varint-varint_bytes :
    (value : ℕ) (rest : List ℕ)
    → value < u32_mod
    → read_varint (varint_bytes value ++ rest) ≡ ok (value, rest)
unfolding read_varint
read_varint-varint_bytes value rest h = ground (
  arith,
  read_varint_loop-groups 4 value 0 0 rest (omega arith) (omega arith) (omega arith) (omega arith),
)

-- `read_varint` reads back every u32 that `write_varint` wrote to an empty buffer, and leaves what
-- follows it.
pub read_varint-write_varint :
    (value : ℕ) (rest : List ℕ)
    → value < u32_mod
    → read_varint (write_varint [] value ++ rest) ≡ ok (value, rest)
read_varint-write_varint value rest h =
    rw (write_varint-append [] value h) (read_varint-varint_bytes value rest h)
