-- ===== src/Base/Order.antt =====
-- Machine words: the moduli of u32 and u64, and an addition that panics on overflow, as `+` and
-- `+=` do in a build with overflow checks. `<` is well founded.
use Prim.Native.Nat.{ℕ, zero, suc, ◌+◌, ◌^◌, ◌<◌}
use mathlib.Core.Path.{◌≡◌}
use mathlib.Core.WellFounded.{Acc, WellFounded}
use native.Mathlib.Omega.{arith}
use distributed_omnipaxos_db.Base.Tests.{ltb, if◌then◌else◌}
use distributed_omnipaxos_db.Base.Fallible.{Outcome, ok, panic}

abbrev pub u32_mod : ℕ
u32_mod = 2 ^ 32

abbrev pub u64_mod : ℕ
u64_mod = 2 ^ 64

abbrev pub IsByte : ℕ → Type 0
IsByte b = b < 256

abbrev pub add_u64 {ℓ} : {E : Type ℓ} → ℕ → ℕ → Outcome E ℕ
add_u64 a b = if ltb (a + b) u64_mod then ok (a + b) else panic

pub add_u64_fits {ℓ} : {E : Type ℓ} (a b : ℕ) → a + b < u64_mod → add_u64 {E = E} a b ≡ ok (a + b)
add_u64_fits a b h = ground arith

below_accessible : (k n : ℕ) → n < k → Acc ◌<◌ n
below_accessible zero n h = absurd (omega arith)
below_accessible (suc k) n h = Acc.intro n (λ m hm. below_accessible k m (omega arith))

unfoldable pub lt_wf : WellFounded ◌<◌
unfolding below_accessible
lt_wf = record { apply = λ n. below_accessible (suc n) n (omega arith) }
