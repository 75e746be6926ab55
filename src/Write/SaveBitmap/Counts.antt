-- ===== src/Write/SaveBitmap/Counts.antt =====
-- What a group of words counts, and the dirty pages from a group on (`save_pages_with_bitmap` of
-- bxdb-core/src/append_only.rs).
use bxdb.Base.{
  ℕ, zero, suc, ◌+◌, ◌-◌, ◌*◌, ◌/◌, ◌%◌, ◌^◌, ◌≤◌, ◌<◌, ◌≡◌, refl, sym, ap, ap₂, ◌∙◌, arith, List,
  [], ◌∷◌, ◌++◌, inl, inr, append_assoc, append-nil,
}
use bxdb.Base.{Bool-cases, leb, ◌==◌, length, get_or, length-append, All}
use bxdb.Write.Bitmap.{visit_bits, visit_bits-set_bits, set_bits, mask_last_word}
use bxdb.Base.Bits.{two-pow_mono}
use bxdb.Write.SaveBitmap.{dirty_from, words_of}
use bxdb.Write.SaveBitmap.Bits.{mask_last_word-lt, get_or-lt}
use bxdb.Write.SaveBitmap.Groups.{count_ones, slots_from, count_from, group_words}

length-set_bits : (k base w : ℕ) → length (set_bits k base w) ≡ count_ones k w
unfolding set_bits count_ones
length-set_bits zero base w = refl
length-set_bits (suc k) base w = elim (Bool-cases (w % 2 == 1)) [
  | inl odd ↦
      let one : w % 2 ≡ 1 = ground arith in
      rw odd (omega (arith, one, length-set_bits k (base + 1) (w / 2)))
  | inr even ↦
      let none_left : w % 2 ≡ 0 = ground arith in
      rw even (omega (arith, none_left, length-set_bits k (base + 1) (w / 2)))
]

pub length-zero : (xs : List ℕ) → length xs ≡ 0 → xs ≡ []
length-zero [] h = refl
length-zero (x ∷ xs) h = absurd (omega (arith, h))

pub slots_from-append :
    (xs ys : List ℕ) (i : ℕ)
    → slots_from i (xs ++ ys) ≡ slots_from i xs ++ slots_from (i + length xs) ys
unfolding slots_from
slots_from-append [] ys i = ap (λ j. slots_from j ys) {x = i} {y = i + 0} (omega arith)
slots_from-append (x ∷ xs) ys i = ap ((i, x) ∷◌) (
    slots_from-append xs ys (suc i)
    ∙ ap (λ j. slots_from (suc i) xs ++ slots_from j ys) {x = suc i + length xs}
        {y = i + suc (length xs)} (omega arith))

module _ (bitmap : List ℕ) (words_fit : All (λ w. w < 2 ^ 64) bitmap) (total : ℕ) where
  abbrev pub from : ℕ → ℕ → List ℕ
  from n wi = dirty_from n wi bitmap (words_of total) total

  abbrev word : ℕ → List ℕ
  word wi =
      visit_bits 64 64 (wi * 64) (mask_last_word (get_or bitmap wi 0) wi (words_of total) total)

  length-word :
      (wi : ℕ)
      → wi < words_of total
      → length (word wi)
        ≡ count_ones 64 (mask_last_word (get_or bitmap wi 0) wi (words_of total) total)
  length-word wi inside =
      let (m, lt, fits, le) =
        mask_last_word-lt (get_or bitmap wi 0) wi total (get_or-lt bitmap wi words_fit) inside in
      let wide : 2 ^ m ≤ 2 ^ 64 = omega (
        arith,
        two-pow_mono m (64 - m),
        ap (λ t. 2 ^ t) {x = 64 - m + m} {y = 64} (omega (arith, le)),
      ) in
      ap length (
        visit_bits-set_bits (wi * 64)
          (mask_last_word (get_or bitmap wi 0) wi (words_of total) total) (omega (arith, lt, wide)))
      ∙ length-set_bits 64 (wi * 64) (mask_last_word (get_or bitmap wi 0) wi (words_of total) total)

  -- A group counts the pages that it writes.
  length-from :
      (n wi : ℕ) → wi + n ≤ words_of total → length (from n wi) ≡ count_from bitmap total n wi
  unfolding dirty_from count_from
  length-from zero wi h = refl
  length-from (suc n) wi h =
      length-append (word wi) (from n (suc wi))
      ∙ ap₂ (λ a b. a + b) (length-word wi (omega (arith, h)))
          (length-from n (suc wi) (omega (arith, h)))

  from-append : (m n k wi wj : ℕ) → k ≡ m + n → wj ≡ wi + m → from k wi ≡ from m wi ++ from n wj
  unfolding dirty_from
  from-append zero n k wi wj hk hw =
      ap (λ t. from t wi) {x = k} {y = n} (omega (arith, hk))
      ∙ ap (from n) {x = wi} {y = wj} (omega (arith, hw))
  from-append (suc m) n zero wi wj hk hw = absurd (omega (arith, hk))
  from-append (suc m) n (suc k) wi wj hk hw =
      ap (word wi ++◌) (from-append m n k (suc wi) wj (omega (arith, hk)) (omega (arith, hw)))
      ∙ sym (append_assoc (word wi) (from m (suc wi)) (from n wj))

  -- The words from a group on.
  abbrev pub rest_of : ℕ → List ℕ
  rest_of g = from (words_of total - g * 64) (g * 64)

  pub from-zero : (n wi : ℕ) → n ≡ 0 → from n wi ≡ []
  unfolding dirty_from
  from-zero zero wi h = refl
  from-zero (suc n) wi h = absurd (omega (arith, h))

  pub rest_of-suc :
      (g : ℕ) → rest_of g ≡ from (group_words bitmap total g) (g * 64) ++ rest_of (suc g)
  rest_of-suc g = elim (Bool-cases (leb ((g + 1) * 64) (words_of total))) [
    | inl whole ↦
        let below : (g + 1) * 64 ≤ words_of total = ground arith in
        from-append (group_words bitmap total g) (words_of total - suc g * 64)
          (words_of total - g * 64) (g * 64) (suc g * 64) (omega (arith, below))
          (omega (arith, below))
    | inr part ↦
        let above : words_of total < (g + 1) * 64 = ground arith in
        ap (λ n. from n (g * 64)) {x = words_of total - g * 64} {y = group_words bitmap total g}
          (omega (arith, above))
        ∙ sym (append-nil (from (group_words bitmap total g) (g * 64)))
        ∙ ap (from (group_words bitmap total g) (g * 64) ++◌)
            (sym (from-zero (words_of total - suc g * 64) (suc g * 64) (omega (arith, above))))
  ]

  pub group_count :
      (g : ℕ)
      → length (from (group_words bitmap total g) (g * 64))
        ≡ count_from bitmap total (group_words bitmap total g) (g * 64)
  unfolding count_from dirty_from
  group_count g = elim (Bool-cases (leb (g * 64) (words_of total))) [
    | inl e ↦
        let below : g * 64 ≤ words_of total = ground arith in
        length-from (group_words bitmap total g) (g * 64) (omega (arith, below))
    | inr e ↦
        let above : words_of total < g * 64 = ground arith in
        let none_left : group_words bitmap total g ≡ 0 = omega (arith, above) in
        no_words (group_words bitmap total g) none_left
  ]
    where
      no_words : (n : ℕ) → n ≡ 0 → length (from n (g * 64)) ≡ count_from bitmap total n (g * 64)
      no_words zero h = refl
      no_words (suc n) h = absurd (omega (arith, h))

  pub length-rest_of :
      (g : ℕ)
      → length (rest_of g)
        ≡ count_from bitmap total (group_words bitmap total g) (g * 64) + length (rest_of (suc g))
  length-rest_of g =
      ap length (rest_of-suc g)
      ∙ length-append (from (group_words bitmap total g) (g * 64)) (rest_of (suc g))
      ∙ ap (λ n. n + length (rest_of (suc g))) (group_count g)
