-- ===== src/Write/SaveBitmap/Bits.antt =====
-- The bits of one word of a bitmap.
use bxdb.Base.{ℕ, zero, suc, ◌+◌, ◌-◌, ◌*◌, ◌/◌, ◌%◌, ◌^◌, ◌≤◌, ◌<◌, ◌≡◌, ◌≢◌, arith}
use bxdb.Base.{List, [], ◌∷◌, ◌++◌, Bool-cases, inl, inr, ltb, ◌==◌, ==_iff, All, get_or}
use bxdb.Base.Bits.{bit_and_mask, lt-two-pow}
use bxdb.Write.Bitmap.{mask_last_word, set_bits}
use bxdb.Write.Pass.Readers.{IsDistinct}
use bxdb.Write.SaveBitmap.{words_of}
use native.Mathlib.Nat.{two-pow-succ, one-le-pow}

-- From `lo` and below `hi`.
abbrev pub IsWithin : ℕ → ℕ → ℕ → Type 0
IsWithin lo hi j = (lo ≤ j) × (j < hi)

pub All-map : (P Q : ℕ → Type 0) → ((j : ℕ) → P j → Q j) → (xs : List ℕ) → All P xs → All Q xs
All-map P Q f [] h = tt
All-map P Q f (x ∷ xs) (h, hs) = (f x h, All-map P Q f xs hs)

pub set_bits-IsWithin :
    (k m base w : ℕ) → w < 2 ^ m → All (IsWithin base (base + m)) (set_bits k base w)
unfolding set_bits
set_bits-IsWithin zero m base w h = tt
set_bits-IsWithin (suc k) zero base zero h =
    All-map (IsWithin (base + 1) (base + 1 + 0)) (IsWithin base (base + 0))
      (λ j (a, b). (omega (arith, a, b), omega (arith, a, b))) (set_bits k (base + 1) (0 / 2))
      (set_bits-IsWithin k 0 (base + 1) (0 / 2) (omega arith))
set_bits-IsWithin (suc k) zero base (suc w) h = absurd (omega arith)
set_bits-IsWithin (suc k) (suc m) base w h =
    let rest =
      All-map (IsWithin (base + 1) (base + 1 + m)) (IsWithin base (base + suc m))
        (λ j (a, b). (omega (arith, a), omega (arith, b))) (set_bits k (base + 1) (w / 2))
        (set_bits-IsWithin k m (base + 1) (w / 2) (omega (arith, two-pow-succ m))) in
    elim (Bool-cases (w % 2 == 1)) [
      | inl odd ↦ rw odd ((omega arith, omega arith), rest)
      | inr even ↦ rw even rest
    ]

pub set_bits-IsDistinct : (k base w : ℕ) → IsDistinct (set_bits k base w)
unfolding set_bits
set_bits-IsDistinct zero base w = tt
set_bits-IsDistinct (suc k) base w = elim (Bool-cases (w % 2 == 1)) [
  | inl odd ↦ rw odd (
    All-map (IsWithin (base + 1) (base + 1 + w / 2)) (λ j. j ≢ base)
        (λ j (a, b) e. omega (arith, a, e)) (set_bits k (base + 1) (w / 2))
        (set_bits-IsWithin k (w / 2) (base + 1) (w / 2) (lt-two-pow (w / 2))),
    set_bits-IsDistinct k (base + 1) (w / 2),
  )
  | inr even ↦ rw even (set_bits-IsDistinct k (base + 1) (w / 2))
]

-- The mask leaves only bits of pages below the total.
pub mask_last_word-lt :
    (w wi total : ℕ)
    → w < 2 ^ 64
    → wi < words_of total
    → (m : ℕ) × (mask_last_word w wi (words_of total) total < 2 ^ m)
      × (wi * 64 + m ≤ total)
      × (m ≤ 64)
unfolding mask_last_word
mask_last_word-lt w wi total h inside = elim (Bool-cases (wi + 1 == words_of total)) [
  | inr other ↦
      let more : wi + 1 ≢ words_of total = λ e. ground arith in
      (64, rw other h, omega (arith, inside, more), omega arith)
  | inl last ↦
      let e : wi + 1 ≡ words_of total = (==_iff (wi + 1) (words_of total)).0 last in
      elim (Bool-cases (ltb (total - wi * 64) 64)) [
        | inl part ↦ (
          total - wi * 64,
          rw (last, part)
              (rw (bit_and_mask (total - wi * 64) w)
                (grind (arith, one-le-pow (total - wi * 64) 2))),
          omega (arith, e),
          ground arith,
        )
        | inr whole ↦ (64, rw (last, whole) h, ground (arith, e), omega arith)
      ]
]

pub All-joined : (P : ℕ → Type 0) (xs ys : List ℕ) → All P xs → All P ys → All P (xs ++ ys)
All-joined P [] ys hx hy = hy
All-joined P (x ∷ xs) ys (h, hs) hy = (h, All-joined P xs ys hs hy)

pub IsDistinct-append :
    (b : ℕ) (xs ys : List ℕ)
    → All (λ j. j < b) xs
    → All (λ j. b ≤ j) ys
    → IsDistinct xs
    → IsDistinct ys
    → IsDistinct (xs ++ ys)
IsDistinct-append b [] ys below above dx dy = dy
IsDistinct-append b (x ∷ xs) ys (lt, below) above (fresh, dx) dy = (
  All-joined (λ j. j ≢ x) xs ys fresh
      (All-map (λ j. b ≤ j) (λ j. j ≢ x) (λ j h e. omega (arith, h, lt, e)) ys above),
  IsDistinct-append b xs ys below above dx dy,
)

pub get_or-lt :
    (bitmap : List ℕ) (i : ℕ) → All (λ w. w < 2 ^ 64) bitmap → get_or bitmap i 0 < 2 ^ 64
get_or-lt [] i h = omega arith
get_or-lt (w ∷ bitmap) zero (h, hs) = h
get_or-lt (w ∷ bitmap) (suc i) (h, hs) = get_or-lt bitmap i hs
