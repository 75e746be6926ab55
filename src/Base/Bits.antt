-- ===== src/Base/Bits.antt =====
-- Laws of `&`, `|` and `^` at variables, each by induction on the number of binary digits.
use Prim.Native.Nat.{ℕ, zero, suc, ◌+◌, ◌-◌, ◌*◌, ◌/◌, ◌%◌, ◌^◌, ◌≤◌, ◌<◌, min, max}
use Prim.Native.Nat.{bit_and, bit_or, bit_xor, digits, bitwise, differ}
use Prim.Native.Nat.{bit_and-bitwise, bit_or-bitwise, bit_xor-bitwise}
use Prim.Native.Nat.add
use mathlib.Core.Path.{◌≡◌, refl, ap, ap₂, sym, ◌∙◌}
use native.Mathlib.Nat.{two-pow-succ, one-le-pow, le_refl}
use native.Mathlib.Omega.{arith}

-- Any count of digits that covers `a` gives one result.
module _ (z : ℕ → ℕ) (f : ℕ → ℕ → ℕ) where
  digits_enough : (n m a b : ℕ) → a ≤ n → a ≤ m → digits z f n a b ≡ digits z f m a b
  digits_enough zero zero a b h k = refl
  digits_enough zero (suc m) zero b h k = refl
  digits_enough zero (suc m) (suc a) b h k = absurd (omega arith)
  digits_enough (suc n) zero zero b h k = refl
  digits_enough (suc n) zero (suc a) b h k = absurd (omega arith)
  digits_enough (suc n) (suc m) zero b h k = refl
  digits_enough (suc n) (suc m) (suc a) b h k =
      omega (arith, digits_enough n m (suc a / 2) (b / 2) (omega arith) (omega arith))

  bitwise_digit :
      (a b : ℕ)
      → bitwise z f (suc a) b ≡ bitwise z f (suc a / 2) (b / 2) * 2 + f (suc a % 2) (b % 2)
  bitwise_digit a b =
      omega (arith, digits_enough a (suc a / 2) (suc a / 2) (b / 2) (omega arith) (le_refl _))

-- The lowest digit of each operation.
pub bit_and_digit : (a b : ℕ) → bit_and a b ≡ bit_and (a / 2) (b / 2) * 2 + min (a % 2) (b % 2)
bit_and_digit zero b = simp bit_and-bitwise (omega arith)
bit_and_digit (suc a) b = simp bit_and-bitwise (bitwise_digit (λ y. 0) min a b)

bit_or_digit : (a b : ℕ) → bit_or a b ≡ bit_or (a / 2) (b / 2) * 2 + max (a % 2) (b % 2)
bit_or_digit zero b = simp bit_or-bitwise (omega arith)
bit_or_digit (suc a) b = simp bit_or-bitwise (bitwise_digit (λ y. y) max a b)

differ_zero : (y : ℕ) → differ 0 y ≡ y
differ_zero y = refl

bit_xor_digit : (a b : ℕ) → bit_xor a b ≡ bit_xor (a / 2) (b / 2) * 2 + differ (a % 2) (b % 2)
bit_xor_digit zero b = simp bit_xor-bitwise (omega (arith, differ_zero (b % 2)))
bit_xor_digit (suc a) b = simp bit_xor-bitwise (bitwise_digit (λ y. y) differ a b)

-- The operations on one digit, over the four cases.
differ_cancel : (x y : ℕ) → x < 2 → y < 2 → differ y (differ x y) ≡ x
differ_cancel zero zero h k = refl
differ_cancel zero (suc zero) h k = refl
differ_cancel (suc zero) zero h k = refl
differ_cancel (suc zero) (suc zero) h k = refl
differ_cancel (suc (suc x)) y h k = absurd (omega arith)
differ_cancel zero (suc (suc y)) h k = absurd (omega arith)
differ_cancel (suc zero) (suc (suc y)) h k = absurd (omega arith)

differ-lt-two : (x y : ℕ) → x < 2 → y < 2 → differ x y < 2
differ-lt-two zero y h k = k
differ-lt-two (suc zero) zero h k = omega arith
differ-lt-two (suc zero) (suc zero) h k = omega arith
differ-lt-two (suc zero) (suc (suc y)) h k = absurd (omega arith)
differ-lt-two (suc (suc x)) y h k = absurd (omega arith)

-- A number whose digits are `d` and below: what halving gives back.
half_digit : (q d : ℕ) → d < 2 → (q * 2 + d) / 2 ≡ q
half_digit q d h = omega arith

low_digit : (q d : ℕ) → d < 2 → (q * 2 + d) % 2 ≡ d
low_digit q d h = omega arith

bit_xor_half : (a b : ℕ) → bit_xor a b / 2 ≡ bit_xor (a / 2) (b / 2)
bit_xor_half a b =
    ap (λ t. t / 2) (bit_xor_digit a b)
    ∙ half_digit _ _ (differ-lt-two (a % 2) (b % 2) (omega arith) (omega arith))

bit_xor_low : (a b : ℕ) → bit_xor a b % 2 ≡ differ (a % 2) (b % 2)
bit_xor_low a b =
    ap (λ t. t % 2) (bit_xor_digit a b)
    ∙ low_digit _ _ (differ-lt-two (a % 2) (b % 2) (omega arith) (omega arith))

bit_xor_cancel_below : (k p b : ℕ) → p < 2 ^ k → b < 2 ^ k → bit_xor b (bit_xor p b) ≡ p
bit_xor_cancel_below zero zero zero hp hb = refl
bit_xor_cancel_below zero (suc p) b hp hb = absurd (omega arith)
bit_xor_cancel_below zero zero (suc b) hp hb = absurd (omega arith)
bit_xor_cancel_below (suc k) p b hp hb = omega (
  arith,
  bit_xor_digit b (bit_xor p b),
  ap (bit_xor (b / 2)) (bit_xor_half p b),
  ap (differ (b % 2)) (bit_xor_low p b),
  differ_cancel (p % 2) (b % 2) (omega arith) (omega arith),
  bit_xor_cancel_below k (p / 2) (b / 2) (omega (arith, two-pow-succ k))
      (omega (arith, two-pow-succ k)),
)

pub bit_xor-lt : (k p b : ℕ) → p < 2 ^ k → b < 2 ^ k → bit_xor p b < 2 ^ k
bit_xor-lt zero zero zero hp hb = omega arith
bit_xor-lt zero (suc p) b hp hb = absurd (omega arith)
bit_xor-lt zero zero (suc b) hp hb = absurd (omega arith)
bit_xor-lt (suc k) p b hp hb = omega (
  arith,
  bit_xor_half p b,
  two-pow-succ k,
  bit_xor-lt k (p / 2) (b / 2) (omega (arith, two-pow-succ k)) (omega (arith, two-pow-succ k)),
)

pub lt-two-pow : (n : ℕ) → n < 2 ^ n
lt-two-pow zero = omega arith
lt-two-pow (suc n) = omega (arith, lt-two-pow n, two-pow-succ n)

pub two-pow_mono : (k m : ℕ) → 2 ^ k ≤ 2 ^ (m + k)
two-pow_mono k zero = omega (arith, ap (λ t. 2 ^ t) (add.zero k))
two-pow_mono k (suc m) =
    omega (arith, two-pow_mono k m, two-pow-succ (m + k), ap (λ t. 2 ^ t) (add.suc m k))

-- Exclusive or with the same word twice gives the word back.
pub bit_xor_cancel : (p b : ℕ) → bit_xor b (bit_xor p b) ≡ p
bit_xor_cancel p b =
    bit_xor_cancel_below (p + b) p b
      (omega (arith, lt-two-pow p, two-pow_mono p b, ap (λ t. 2 ^ t) (swap p b)))
      (omega (arith, lt-two-pow b, two-pow_mono b p))
  where
    swap : (p b : ℕ) → b + p ≡ p + b
    swap p b = omega arith

bit_xor_zero_below : (k a : ℕ) → a < 2 ^ k → bit_xor a 0 ≡ a
bit_xor_zero_below zero zero h = refl
bit_xor_zero_below zero (suc a) h = absurd (omega arith)
bit_xor_zero_below (suc k) a h = omega (
  arith,
  bit_xor_digit a 0,
  low (a % 2) (omega arith),
  bit_xor_zero_below k (a / 2) (omega (arith, two-pow-succ k)),
)
  where
    low : (x : ℕ) → x < 2 → differ x 0 ≡ x
    low zero h = refl
    low (suc x) h = refl

pub bit_xor-zero : (a : ℕ) → bit_xor a 0 ≡ a
bit_xor-zero a = bit_xor_zero_below a a (lt-two-pow a)

-- Two words that differ nowhere are equal.
pub bit_xor-eq-zero : (p b : ℕ) → bit_xor p b ≡ 0 → p ≡ b
bit_xor-eq-zero p b h = sym (bit_xor_cancel p b) ∙ ap (bit_xor b) h ∙ bit_xor-zero b

-- `x & (2 ^ k - 1)` is the remainder by `2 ^ k`.
bit_and_zero_below : (k a : ℕ) → a < 2 ^ k → bit_and a 0 ≡ 0
bit_and_zero_below zero zero h = refl
bit_and_zero_below zero (suc a) h = absurd (omega arith)
bit_and_zero_below (suc k) a h =
    omega (arith, bit_and_digit a 0, bit_and_zero_below k (a / 2) (omega (arith, two-pow-succ k)))

bit_and_low : (k q r : ℕ) → r < 2 ^ k → bit_and (q * 2 ^ k + r) (2 ^ k - 1) ≡ r
bit_and_low zero q zero h = bit_and_zero_below _ _ (lt-two-pow _)
bit_and_low zero q (suc r) h = absurd (omega arith)
bit_and_low (suc k) q r h = omega (
  arith,
  bit_and_digit (q * 2 ^ suc k + r) (2 ^ suc k - 1),
  ap₂ bit_and (halved k q r) (mask_half k),
  doubled k q,
  bit_and_low k q (r / 2) (omega (arith, two-pow-succ k)),
  two-pow-succ k,
  one-le-pow k 2 (omega arith),
)
  where
    doubled : (k q : ℕ) → q * 2 ^ suc k ≡ 2 * (q * 2 ^ k)
    doubled k q = omega (arith, ap (λ (t : ℕ). q * t) (two-pow-succ k))

    halved : (k q r : ℕ) → (q * 2 ^ suc k + r) / 2 ≡ q * 2 ^ k + r / 2
    halved k q r = omega (arith, doubled k q)

    mask_half : (k : ℕ) → (2 ^ suc k - 1) / 2 ≡ 2 ^ k - 1
    mask_half k = omega (arith, two-pow-succ k, one-le-pow k 2 (omega arith))

pub bit_and_mask : (k a : ℕ) → bit_and a (2 ^ k - 1) ≡ a % 2 ^ k
bit_and_mask k a =
    ap (λ t. bit_and t (2 ^ k - 1)) (grind (arith, one-le-pow k 2))
    ∙ bit_and_low k (a / 2 ^ k) (a % 2 ^ k) (grind (arith, one-le-pow k 2))

bit_or_zero_below : (k a : ℕ) → a < 2 ^ k → bit_or a 0 ≡ a
bit_or_zero_below zero zero h = refl
bit_or_zero_below zero (suc a) h = absurd (omega arith)
bit_or_zero_below (suc k) a h =
    omega (arith, bit_or_digit a 0, bit_or_zero_below k (a / 2) (omega (arith, two-pow-succ k)))

-- `(q << k) | r` is a sum where `r` has `k` digits at most.
pub bit_or_shifted : (k q r : ℕ) → r < 2 ^ k → bit_or (q * 2 ^ k) r ≡ q * 2 ^ k + r
bit_or_shifted zero q zero h = bit_or_zero_below _ _ (lt-two-pow _) ∙ omega arith
bit_or_shifted zero q (suc r) h = absurd (omega arith)
bit_or_shifted (suc k) q r h = omega (
  arith,
  bit_or_digit (q * 2 ^ suc k) r,
  ap (λ t. bit_or t (r / 2)) halved,
  bit_or_shifted k q (r / 2) (omega (arith, two-pow-succ k)),
  doubled,
)
  where
    doubled : q * 2 ^ suc k ≡ 2 * (q * 2 ^ k)
    doubled = omega (arith, ap (λ (t : ℕ). q * t) (two-pow-succ k))

    halved : q * 2 ^ suc k / 2 ≡ q * 2 ^ k
    halved = omega (arith, doubled)

bit_and_self_below : (k a : ℕ) → a < 2 ^ k → bit_and a a ≡ a
bit_and_self_below zero zero h = refl
bit_and_self_below zero (suc a) h = absurd (omega arith)
bit_and_self_below (suc k) a h =
    omega (arith, bit_and_digit a a, bit_and_self_below k (a / 2) (omega (arith, two-pow-succ k)))

-- `w & (w - 1)` of an odd number clears its lowest digit.
pub bit_and_odd : (v : ℕ) → bit_and (v * 2 + 1) (v * 2) ≡ v * 2
bit_and_odd v = omega (
  arith,
  bit_and_digit (v * 2 + 1) (v * 2),
  ap₂ bit_and (half_digit v 1 (omega arith)) (half v),
  bit_and_self_below v v (lt-two-pow v),
)
  where
    half : (v : ℕ) → v * 2 / 2 ≡ v
    half v = omega arith

-- Of an even number it does so to the half.
pub bit_and_even : (v : ℕ) → 1 ≤ v → bit_and (v * 2) (v * 2 - 1) ≡ bit_and v (v - 1) * 2
bit_and_even v h =
    omega (arith, bit_and_digit (v * 2) (v * 2 - 1), ap₂ bit_and (half v) (half_pred v h))
  where
    half : (v : ℕ) → v * 2 / 2 ≡ v
    half v = omega arith

    half_pred : (v : ℕ) → 1 ≤ v → (v * 2 - 1) / 2 ≡ v - 1
    half_pred v h = omega arith

bit_or_comm_below : (k a b : ℕ) → a < 2 ^ k → b < 2 ^ k → bit_or a b ≡ bit_or b a
bit_or_comm_below zero zero zero ha hb = refl
bit_or_comm_below zero (suc a) b ha hb = absurd (omega arith)
bit_or_comm_below zero zero (suc b) ha hb = absurd (omega arith)
bit_or_comm_below (suc k) a b ha hb = omega (
  arith,
  bit_or_digit a b,
  bit_or_digit b a,
  bit_or_comm_below k (a / 2) (b / 2) (omega (arith, two-pow-succ k))
      (omega (arith, two-pow-succ k)),
)

-- A sum where the second has only digits from `k` on, and the first has `k` digits at most.
pub bit_or_above : (k q r : ℕ) → r < 2 ^ k → bit_or r (q * 2 ^ k) ≡ r + q * 2 ^ k
bit_or_above k q r h =
    bit_or_comm_below (r + q * 2 ^ k) r (q * 2 ^ k) (omega (arith, lt-two-pow (r + q * 2 ^ k)))
      (omega (arith, lt-two-pow (r + q * 2 ^ k)))
    ∙ bit_or_shifted k q r h
    ∙ omega arith
