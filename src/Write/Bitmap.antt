-- ===== src/Write/Bitmap.antt =====
-- The words of the dirty bitmap of `save_pages_with_bitmap`: the mask of the last word and the
-- loop over the bits that are set.
use bxdb.Base.{
  ℕ, zero, suc, ◌+◌, ◌-◌, ◌*◌, ◌/◌, ◌%◌, ◌^◌, ◌≤◌, ◌<◌, ◌≡◌, refl, ap, ap₂, ◌∙◌, arith, bit_and,
}
use bxdb.Base.{List, [], ◌∷◌, false, Bool-cases, inl, inr, ltb, ◌==◌, if◌then◌else◌}
use bxdb.Base.Bits.{bit_and_odd, bit_and_even}
use bxdb.Base.Trailing.{trailing_zeros, trailing_zeros-even, trailing_zeros-odd}
use native.Mathlib.Nat.{two-pow-succ}

-- `while w != 0`, with the addresses of the bits; `n` digits are looked through for the lowest
-- bit. Each round clears a bit, so that the width of the word is fuel enough.
unfoldable pub visit_bits : ℕ → ℕ → ℕ → ℕ → List ℕ
unfolding trailing_zeros
visit_bits zero n base w = []
visit_bits (suc fuel) n base w =
    let rest = visit_bits fuel n base (bit_and w (w - 1)) in
    if w == 0 then [] else (base + trailing_zeros n w) ∷ rest

unfoldable pub mask_last_word : ℕ → ℕ → ℕ → ℕ → ℕ
mask_last_word w wi expected_words total_page_count =
    let valid = total_page_count - wi * 64 in
    if wi + 1 == expected_words then (if ltb valid 64 then bit_and w (2 ^ valid - 1) else w) else w

-- The bits of a word that are set, in ascending order: the specification of the loop.
unfoldable pub set_bits : ℕ → ℕ → ℕ → List ℕ
set_bits zero base w = []
set_bits (suc k) base w =
    let rest = set_bits k (base + 1) (w / 2) in if w % 2 == 1 then base ∷ rest else rest

visit_bits-zero : (fuel n base : ℕ) → visit_bits fuel n base 0 ≡ []
unfolding visit_bits
visit_bits-zero zero n base = refl
visit_bits-zero (suc fuel) n base = refl

visit_bits-even :
    (fuel n base v : ℕ) → visit_bits fuel (suc n) base (v * 2) ≡ visit_bits fuel n (base + 1) v
unfolding visit_bits
visit_bits-even zero n base v = refl
visit_bits-even (suc fuel) n base zero = refl
visit_bits-even (suc fuel) n base (suc v) =
    let some_bit : (suc v * 2 == 0) ≡ false = ground arith in
    let some_bit' : (suc v == 0) ≡ false = ground arith in
    rw (some_bit, some_bit')
      (ap₂ ◌∷◌ (omega (arith, trailing_zeros-even n (suc v))) (
        ap (visit_bits fuel (suc n) base) (bit_and_even (suc v) (omega arith))
        ∙ visit_bits-even fuel n base (bit_and (suc v) (suc v - 1))))

visit_bits-odd :
    (fuel n base v : ℕ)
    → visit_bits (suc fuel) (suc n) base (v * 2 + 1) ≡ base ∷ visit_bits fuel n (base + 1) v
unfolding visit_bits
visit_bits-odd fuel n base v =
    let some_bit : (v * 2 + 1 == 0) ≡ false = ground arith in
    let pred : v * 2 + 1 - 1 ≡ v * 2 = omega arith in
    rw some_bit (
      ap₂ ◌∷◌ (omega (arith, trailing_zeros-odd n v)) (
        ap (visit_bits fuel (suc n) base) (ap (bit_and (v * 2 + 1)) pred ∙ bit_and_odd v)
        ∙ visit_bits-even fuel n base v))

visit_bits-set_bits_below :
    (k fuel n base w : ℕ)
    → w < 2 ^ k
    → k ≤ fuel
    → k ≤ n
    → visit_bits fuel n base w ≡ set_bits k base w
unfolding set_bits
visit_bits-set_bits_below zero fuel n base zero h f g = visit_bits-zero fuel n base
visit_bits-set_bits_below zero fuel n base (suc w) h f g = absurd (omega arith)
visit_bits-set_bits_below (suc k) zero n base w h f g = absurd (omega arith)
visit_bits-set_bits_below (suc k) (suc fuel) zero base w h f g = absurd (omega arith)
visit_bits-set_bits_below (suc k) (suc fuel) (suc n) base w h f g =
    let below : w / 2 < 2 ^ k = omega (arith, two-pow-succ k) in
    elim (Bool-cases (w % 2 == 1)) [
      | inl odd ↦
          let split : w ≡ w / 2 * 2 + 1 = ground arith in
          rw odd (
            ap (visit_bits (suc fuel) (suc n) base) split
            ∙ visit_bits-odd fuel n base (w / 2)
            ∙ ap (base ∷◌) (
                visit_bits-set_bits_below k fuel n (base + 1) (w / 2) below (omega arith)
                  (omega arith)))
      | inr even ↦
          let split : w ≡ w / 2 * 2 = ground arith in
          rw even (
            ap (visit_bits (suc fuel) (suc n) base) split
            ∙ visit_bits-even (suc fuel) n base (w / 2)
            ∙ visit_bits-set_bits_below k (suc fuel) n (base + 1) (w / 2) below (omega arith)
                (omega arith))
    ]

-- The loop over a word of 64 bits visits exactly the bits that are set, in ascending order.
pub visit_bits-set_bits : (base w : ℕ) → w < 2 ^ 64 → visit_bits 64 64 base w ≡ set_bits 64 base w
visit_bits-set_bits base w h =
    visit_bits-set_bits_below 64 64 64 base w h (omega arith) (omega arith)
