-- ===== src/Base/Trailing.antt =====
-- `trailing_zeros`, by the digits of a word.
use bxdb.Base.Tests.{◌==◌, if◌then◌else◌}
use Prim.Native.Nat.{ℕ, zero, suc, ◌+◌, ◌*◌, ◌/◌, ◌%◌}
use mathlib.Core.Path.{◌≡◌, ap}
use mathlib.Core.Bool.{true, false}
use native.Mathlib.Omega.{arith}

-- `trailing_zeros` of a word that is not 0.
unfoldable pub trailing_zeros : ℕ → ℕ → ℕ
trailing_zeros zero w = 0
trailing_zeros (suc n) w = if w % 2 == 1 then 0 else suc (trailing_zeros n (w / 2))

pub trailing_zeros-even : (n v : ℕ) → trailing_zeros (suc n) (v * 2) ≡ suc (trailing_zeros n v)
unfolding trailing_zeros
trailing_zeros-even n v =
    let even : (v * 2 % 2 == 1) ≡ false = ground arith in
    let half : v * 2 / 2 ≡ v = omega arith in rw even (ap (λ t. suc (trailing_zeros n t)) half)

pub trailing_zeros-odd : (n v : ℕ) → trailing_zeros (suc n) (v * 2 + 1) ≡ 0
unfolding trailing_zeros
trailing_zeros-odd n v = let odd : ((v * 2 + 1) % 2 == 1) ≡ true = ground arith in rw odd
