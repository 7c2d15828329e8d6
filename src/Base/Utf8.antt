-- ===== src/Base/Utf8.antt =====
-- Rust's `String` as its bytes, and `from_utf8`: the well-formed byte sequences of the Unicode
-- standard, as the documentation of `std::str` takes them.
use mathlib.Core.Bool.{Bool, true, false, ◌&&◌}
use Prim.Native.Nat.{ℕ, zero, suc}
use mathlib.Core.Path.{◌≡◌, refl, ap₂}
use mathlib.Core.List.{List, [], ◌∷◌}
use native.Mathlib.Decide.{ℕ_discrete}
use distributed_omnipaxos_db.Base.Tests.{leb, ltb, if◌then◌else◌}

abbrev pub Str : Type 0
Str = List ℕ

-- Byte by byte, so that a test on two strings can be run.
both_same : {x y : ℕ} {xs ys : Str} → Dec (x ≡ y) → Dec (xs ≡ ys) → Dec (x ∷ xs ≡ y ∷ ys)
both_same (yes e) (yes f) = yes (ap₂ ◌∷◌ e f)
both_same (yes e) (no f) = no (λ h. f (cc h))
both_same (no e) d = no (λ h. e (cc h))

unfoldable pub str_discrete : Discrete Str
unfolding both_same
str_discrete [] [] = yes refl
str_discrete [] (y ∷ ys) = no (λ h. absurd (cc h))
str_discrete (x ∷ xs) [] = no (λ h. absurd (cc h))
str_discrete (x ∷ xs) (y ∷ ys) = both_same (ℕ_discrete x y) (str_discrete xs ys)

-- `well_formed n lo hi bytes`: `n` continuation bytes are due, the next of them from `lo` to `hi`.
unfoldable pub well_formed : ℕ → ℕ → ℕ → List ℕ → Bool
well_formed zero lo hi [] = true
well_formed (suc n) lo hi [] = false
well_formed (suc n) lo hi (b ∷ bs) = leb lo b && leb b hi && well_formed n 0x80 0xbf bs
well_formed zero lo hi (b ∷ bs) =
    let ascii = well_formed 0 0 0 bs in
    let two = well_formed 1 0x80 0xbf bs in
    let e0 = well_formed 2 0xa0 0xbf bs in
    let ed = well_formed 2 0x80 0x9f bs in
    let three = well_formed 2 0x80 0xbf bs in
    let f0 = well_formed 3 0x90 0xbf bs in
    let f4 = well_formed 3 0x80 0x8f bs in
    let four = well_formed 3 0x80 0xbf bs in
    if ltb b 0x80
    then ascii
    else if ltb b 0xc2
    then false
    else if ltb b 0xe0
    then two
    else if leb b 0xe0
    then e0
    else if leb b 0xec
    then three
    else if leb b 0xed
    then ed
    else if leb b 0xef
    then three
    else if leb b 0xf0
    then f0
    else if leb b 0xf3
    then four
    else if leb b 0xf4
    then f4
    else false

unfoldable pub from_utf8 : List ℕ → Bool
unfolding well_formed
from_utf8 bytes = well_formed 0 0 0 bytes
