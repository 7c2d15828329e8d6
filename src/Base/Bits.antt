-- ===== src/Base/Bits.antt =====
-- `&` with 0x7f and 0x80 and `|` with 0x80 on a byte, and `|` of disjoint fields at any width, as
-- arithmetic. The library states what the native operations mean as a recursion on binary digits.
use Prim.Native.Nat.{
  ℕ, zero, suc, ◌+◌, ◌*◌, ◌/◌, ◌%◌, ◌^◌, ◌≤◌, ◌<◌, max, bit_and, bit_or, digits, bit_or-bitwise,
}
use mathlib.Core.Path.{◌≡◌, refl, ap}
use mathlib.Core.Bool.{Bool, true, ◌&&◌}
use native.Mathlib.Nat.{pow-suc}
use native.Mathlib.Omega.{arith}
use distributed_omnipaxos_db.Base.Tests.{◌==◌, ==_iff}

-- A test of every number below a bound, by evaluation.
passes : (ℕ → Bool) → ℕ → Bool
passes test zero = true
passes test (suc bound) = passes test bound && test bound

passes-at : (test : ℕ → Bool) (v bound : ℕ) → v < bound → passes test bound ≡ true → test v ≡ true
unfolding passes
passes-at test v zero below all = absurd (omega arith)
passes-at test v (suc bound) below all = ground (arith, passes-at test v bound)

low_bits_table : passes (λ x. bit_and x 0x7f == x % 128) 256 ≡ true
unfolding passes
low_bits_table = refl

top_bit_table : passes (λ x. bit_and x 0x80 == x / 128 * 128) 256 ≡ true
unfolding passes
top_bit_table = refl

set_top_table : passes (λ x. bit_or x 0x80 == x + 128) 128 ≡ true
unfolding passes
set_top_table = refl

pub low_bits : (x : ℕ) → x < 256 → bit_and x 0x7f ≡ x % 128
low_bits x h = (==_iff _ _).0 (passes-at _ x 256 h low_bits_table)

pub top_bit : (x : ℕ) → x < 256 → bit_and x 0x80 ≡ x / 128 * 128
top_bit x h = (==_iff _ _).0 (passes-at _ x 256 h top_bit_table)

pub set_top_bit : (x : ℕ) → x < 128 → bit_or x 0x80 ≡ x + 128
set_top_bit x h = (==_iff _ _).0 (passes-at _ x 128 h set_top_table)

-- The digits of `|`, with the fuel dropped.
abbrev or_digits : ℕ → ℕ → ℕ → ℕ
or_digits = digits (λ y. y) max

or_digits_fuel : (n m a b : ℕ) → a ≤ n → a ≤ m → or_digits n a b ≡ or_digits m a b
or_digits_fuel zero zero a b p q = refl
or_digits_fuel (suc n) zero zero b p q = refl
or_digits_fuel zero (suc m) zero b p q = refl
or_digits_fuel (suc n) (suc m) zero b p q = refl
or_digits_fuel (suc n) (suc m) (suc a) b p q =
    omega (arith, or_digits_fuel n m (suc a / 2) (b / 2) (omega arith) (omega arith))
or_digits_fuel n m (suc a) b p q = absurd (omega arith)

or_lowest : (a b : ℕ) → bit_or a b ≡ bit_or (a / 2) (b / 2) * 2 + max (a % 2) (b % 2)
or_lowest zero b = omega (arith, bit_or-bitwise 0 b, bit_or-bitwise 0 (b / 2))
or_lowest (suc a) b = omega (
  arith,
  bit_or-bitwise (suc a) b,
  bit_or-bitwise (suc a / 2) (b / 2),
  or_digits_fuel a (suc a / 2) (suc a / 2) (b / 2) (omega arith) (omega arith),
)

-- `low | (high << k)` is a sum where `low` fits `k` bits.
pub bit_or_disjoint :
    (k low high : ℕ) → low < 2 ^ k → bit_or low (high * 2 ^ k) ≡ low + high * 2 ^ k
bit_or_disjoint zero zero high h = omega (arith, bit_or-bitwise 0 (high * 2 ^ 0))
bit_or_disjoint zero (suc low) high h = absurd (omega arith)
bit_or_disjoint (suc k) low high h = ground (
  arith,
  pow-suc 2 k,
  ap (λ (t : ℕ). high * t) (pow-suc 2 k),
  or_lowest low (high * 2 ^ suc k),
  bit_or_disjoint k (low / 2) high (omega (arith, pow-suc 2 k)),
)

-- `|` of two `k`-bit numbers has `k` bits.
pub bit_or-lt : (k a b : ℕ) → a < 2 ^ k → b < 2 ^ k → bit_or a b < 2 ^ k
bit_or-lt zero zero zero p q = omega (arith, bit_or-bitwise 0 0)
bit_or-lt zero zero (suc b) p q = absurd (omega arith)
bit_or-lt zero (suc a) b p q = absurd (omega arith)
bit_or-lt (suc k) a b p q = ground (
  arith,
  pow-suc 2 k,
  or_lowest a b,
  bit_or-lt k (a / 2) (b / 2) (omega (arith, pow-suc 2 k)) (omega (arith, pow-suc 2 k)),
)
