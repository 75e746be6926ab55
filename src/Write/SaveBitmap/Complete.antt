-- ===== src/Write/SaveBitmap/Complete.antt =====
-- The pages that are listed are those that the bitmap marks.
use bxdb.Base.{
  ℕ, zero, suc, ◌+◌, ◌-◌, ◌*◌, ◌/◌, ◌%◌, ◌^◌, ◌≤◌, ◌<◌, ◌≡◌, refl, ap, ap₂, ◌∙◌, arith, bit_and,
  List, [], ◌∷◌, ◌++◌, inl, inr,
}
use bxdb.Base.{Bool, true, false, Bool-cases, ◌||◌, ◌==◌, ltb, get_or, All, eq_cases}
use bxdb.Base.Bits.{bit_and_digit, two-pow_mono}
use native.Mathlib.Nat.{two-pow-succ, one-le-pow}
use bxdb.Write.Bitmap.{visit_bits, visit_bits-set_bits, set_bits, mask_last_word}
use bxdb.Write.SaveBitmap.{dirty_from, dirty_pages, words_of}
use bxdb.Write.SaveBitmap.Bits.{mask_last_word-lt, get_or-lt}

-- The bit `j` of a word.
unfoldable pub bit_at : ℕ → ℕ → Bool
bit_at zero w = w % 2 == 1
bit_at (suc j) w = bit_at j (w / 2)

unfoldable pub contains : List ℕ → ℕ → Bool
contains [] q = false
contains (x ∷ xs) q = x == q || contains xs q

bit_at-mask : (v j w : ℕ) → j < v → bit_at j (bit_and w (2 ^ v - 1)) ≡ bit_at j w
unfolding bit_at
bit_at-mask zero j w h = absurd (omega arith)
bit_at-mask (suc v) zero w h =
    ap (λ d. d == 1)
      (omega (arith, bit_and_digit w (2 ^ suc v - 1), two-pow-succ v, one-le-pow v 2))
bit_at-mask (suc v) (suc j) w h =
    let half_mask : (2 ^ suc v - 1) / 2 ≡ 2 ^ v - 1 =
      omega (arith, two-pow-succ v, one-le-pow v 2) in
    let half_word : bit_and w (2 ^ suc v - 1) / 2 ≡ bit_and (w / 2) ((2 ^ suc v - 1) / 2) =
      omega (arith, bit_and_digit w (2 ^ suc v - 1), two-pow-succ v, one-le-pow v 2) in
    ap (bit_at j) (half_word ∙ ap (bit_and (w / 2)) half_mask)
    ∙ bit_at-mask v j (w / 2) (omega arith)

contains_below : (k base w q : ℕ) → q < base → contains (set_bits k base w) q ≡ false
unfolding contains set_bits
contains_below zero base w q h = refl
contains_below (suc k) base w q h =
    let other : (base == q) ≡ false = ground arith in
    let rest = contains_below k (base + 1) (w / 2) q (omega arith) in
    elim (Bool-cases (w % 2 == 1)) [ inl e ↦ rw (e, other) rest | inr e ↦ rw e rest ]

contains_above : (k base w q : ℕ) → base + k ≤ q → contains (set_bits k base w) q ≡ false
unfolding contains set_bits
contains_above zero base w q h = refl
contains_above (suc k) base w q h =
    let other : (base == q) ≡ false = ground arith in
    let rest = contains_above k (base + 1) (w / 2) q (omega arith) in
    elim (Bool-cases (w % 2 == 1)) [ inl e ↦ rw (e, other) rest | inr e ↦ rw e rest ]

contains-set_bits : (k base w j : ℕ) → j < k → contains (set_bits k base w) (base + j) ≡ bit_at j w
unfolding contains set_bits bit_at
contains-set_bits zero base w j h = absurd (omega arith)
contains-set_bits (suc k) base w zero h =
    let here : (base == base + 0) ≡ true = ground arith in
    elim (Bool-cases (w % 2 == 1)) [
      | inl e ↦ rw (e, here) refl
      | inr e ↦ rw e (contains_below k (base + 1) (w / 2) (base + 0) (omega arith))
    ]
contains-set_bits (suc k) base w (suc j) h =
    let other : (base == base + suc j) ≡ false = ground arith in
    let rest : contains (set_bits k (base + 1) (w / 2)) (base + suc j) ≡ bit_at j (w / 2) =
      ap (contains (set_bits k (base + 1) (w / 2))) (omega arith)
      ∙ contains-set_bits k (base + 1) (w / 2) j (omega arith) in
    elim (Bool-cases (w % 2 == 1)) [ inl e ↦ rw (e, other) rest | inr e ↦ rw e rest ]

contains-append :
    (xs ys : List ℕ) (q : ℕ) → contains (xs ++ ys) q ≡ (contains xs q || contains ys q)
unfolding contains
contains-append [] ys q = refl
contains-append (x ∷ xs) ys q = elim (Bool-cases (x == q)) [
  | inl e ↦ rw e refl
  | inr e ↦ rw e (contains-append xs ys q)
]

or-false : (b : Bool) → (b || false) ≡ b
or-false true = refl
or-false false = refl

-- A mask that leaves the pages below the total keeps their bits.
bit_at-mask_last_word :
    (w wi total j : ℕ)
    → wi * 64 + j < total
    → bit_at j (mask_last_word w wi (words_of total) total) ≡ bit_at j w
unfolding mask_last_word
bit_at-mask_last_word w wi total j h = elim (Bool-cases (wi + 1 == words_of total)) [
  | inr other ↦ rw other refl
  | inl last ↦ elim (Bool-cases (ltb (total - wi * 64) 64)) [
    | inl part ↦ rw (last, part) (bit_at-mask (total - wi * 64) j w (omega arith))
    | inr whole ↦ rw (last, whole) refl
  ]
]

module _ (bitmap : List ℕ) (words_fit : All (λ w. w < 2 ^ 64) bitmap) (total : ℕ) where
  word : ℕ → List ℕ
  word wi =
      visit_bits 64 64 (wi * 64) (mask_last_word (get_or bitmap wi 0) wi (words_of total) total)

  word-set_bits :
      (wi : ℕ)
      → wi < words_of total
      → word wi
        ≡ set_bits 64 (wi * 64) (mask_last_word (get_or bitmap wi 0) wi (words_of total) total)
  unfolding word
  word-set_bits wi inside =
      let (m, lt, fits, le) =
        mask_last_word-lt (get_or bitmap wi 0) wi total (get_or-lt bitmap wi words_fit) inside in
      let wide : 2 ^ m ≤ 2 ^ 64 = omega (
        arith,
        two-pow_mono m (64 - m),
        ap (λ t. 2 ^ t) {x = 64 - m + m} {y = 64} (omega (arith, le)),
      ) in
      visit_bits-set_bits (wi * 64) (mask_last_word (get_or bitmap wi 0) wi (words_of total) total)
        (omega (arith, lt, wide))

  contains-dirty_from :
      (n wi q : ℕ)
      → wi + n ≤ words_of total
      → (q < wi * 64 → contains (dirty_from n wi bitmap (words_of total) total) q ≡ false)
        × ((i j : ℕ)
            → q ≡ i * 64 + j
            → j < 64
            → wi ≤ i
            → i < wi + n
            → q < total
            → contains (dirty_from n wi bitmap (words_of total) total) q
              ≡ bit_at j (get_or bitmap i 0))
  unfolding dirty_from contains word
  contains-dirty_from zero wi q h =
      (λ lt. refl, λ i j e jl il ih ql. absurd (omega (arith, il, ih)))
  contains-dirty_from (suc n) wi q h =
      let (before, found) = contains-dirty_from n (suc wi) q (omega (arith, h)) in
      let listed = word-set_bits wi (omega (arith, h)) in
      let masked = mask_last_word (get_or bitmap wi 0) wi (words_of total) total in
      let parts =
        contains-append (word wi) (dirty_from n (suc wi) bitmap (words_of total) total) q in
      (
        λ lt.
            parts
            ∙ ap₂ (λ a b. a || b)
                (ap (λ l. contains l q) listed ∙ contains_below 64 (wi * 64) masked q lt)
                (before (omega (arith, lt))),
        λ i j e jl il ih ql. elim (eq_cases wi i) [
          | inl same ↦
              let here : contains (word wi) q ≡ bit_at j (get_or bitmap wi 0) =
                ap (λ l. contains l q) listed
                ∙ ap (contains (set_bits 64 (wi * 64) masked)) {x = q} {y = wi * 64 + j}
                    (omega (arith, e, same))
                ∙ contains-set_bits 64 (wi * 64) masked j jl
                ∙ bit_at-mask_last_word (get_or bitmap wi 0) wi total j
                    (omega (arith, e, same, ql)) in
              parts
              ∙ ap₂ (λ a b. a || b) here (before (omega (arith, e, jl, same)))
              ∙ or-false (bit_at j (get_or bitmap wi 0))
              ∙ ap (λ k. bit_at j (get_or bitmap k 0)) same
          | inr other ↦
              parts
              ∙ ap₂ (λ a b. a || b)
                  (ap (λ l. contains l q) listed
                    ∙ contains_above 64 (wi * 64) masked q (omega (arith, e, il, other)))
                  (found i j e jl (omega (arith, il, other)) (omega (arith, ih)) ql)
        ],
      )

  -- Of the pages of the memory those are listed whose bit is set in the bitmap, and no others.
  pub dirty_pages-bit_at :
      (pa : ℕ)
      → pa < total
      → contains (dirty_pages bitmap total) pa ≡ bit_at (pa % 64) (get_or bitmap (pa / 64) 0)
  unfolding dirty_pages
  dirty_pages-bit_at pa h =
      (contains-dirty_from (words_of total) 0 pa (omega arith)).1 (pa / 64) (pa % 64) (omega arith)
        (omega arith) (omega arith) (omega (arith, h)) h
