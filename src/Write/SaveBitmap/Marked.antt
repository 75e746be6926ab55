-- ===== src/Write/SaveBitmap/Marked.antt =====
-- The pages that a bitmap marks are distinct and inside the memory, and all of them are saved.
use bxdb.Base.{ℕ, zero, suc, ◌+◌, ◌-◌, ◌*◌, ◌^◌, ◌≤◌, ◌<◌, ◌≡◌, ap, arith}
use bxdb.Base.{List, All, get_or}
use bxdb.Base.Bits.{two-pow_mono}
use bxdb.Store.Zstd.{Zstd}
use bxdb.Write.Bitmap.{visit_bits, mask_last_word, set_bits, visit_bits-set_bits}
use bxdb.Write.Pass.Readers.{IsDistinct}
use bxdb.Write.SaveBitmap.{dirty_from, dirty_pages, words_of}
use bxdb.Write.SaveBitmap.Bits.{
  IsWithin, All-map, set_bits-IsWithin, set_bits-IsDistinct, mask_last_word-lt, All-joined,
  IsDistinct-append, get_or-lt,
}

module _ (bitmap : List ℕ) (words_fit : All (λ w. w < 2 ^ 64) bitmap) (total : ℕ) where
  IsMarked : ℕ → List ℕ → Type 0
  IsMarked lo xs = IsDistinct xs × All (IsWithin lo total) xs

  two-pow-64 : (w m : ℕ) → w < 2 ^ m → m ≤ 64 → w < 2 ^ 64
  two-pow-64 w m h small =
      let full : 64 - m + m ≡ 64 = omega (arith, small) in
      omega (arith, h, two-pow_mono m (64 - m), ap (λ t. 2 ^ t) full)

  word-IsMarked :
      (wi : ℕ)
      → wi < words_of total
      → (xs : List ℕ) × (visit_bits 64 64
            (wi * 64)
            (mask_last_word (get_or bitmap wi 0) wi (words_of total) total)
          ≡ xs)
        × IsMarked (wi * 64) xs
        × All (λ j. j < suc wi * 64) xs
  unfolding IsMarked
  word-IsMarked wi inside =
      let w = mask_last_word (get_or bitmap wi 0) wi (words_of total) total in
      let (m, fits, room, small) =
        mask_last_word-lt (get_or bitmap wi 0) wi total (get_or-lt bitmap wi words_fit) inside in
      let within = set_bits-IsWithin 64 m (wi * 64) w fits in
      (
        set_bits 64 (wi * 64) w,
        visit_bits-set_bits (wi * 64) w (two-pow-64 w m fits small),
        (
          set_bits-IsDistinct 64 (wi * 64) w,
          All-map (IsWithin (wi * 64) (wi * 64 + m)) (IsWithin (wi * 64) total)
              (λ j (a, b). (a, omega (arith, b, room))) _ within,
        ),
        All-map (IsWithin (wi * 64) (wi * 64 + m)) (λ j. j < suc wi * 64)
            (λ j (a, b). omega (arith, b, small)) _ within,
      )

  dirty_from-IsMarked :
      (n wi : ℕ)
      → wi + n ≤ words_of total
      → IsMarked (wi * 64) (dirty_from n wi bitmap (words_of total) total)
  unfolding dirty_from IsMarked
  dirty_from-IsMarked zero wi h = (tt, tt)
  dirty_from-IsMarked (suc n) wi h =
      let (xs, e, (dx, hx), below) = word-IsMarked wi (omega (arith, h)) in
      let (dy, hy) = dirty_from-IsMarked n (suc wi) (omega (arith, h)) in
      rw e (
        IsDistinct-append (suc wi * 64) xs _ below
            (All-map (IsWithin (suc wi * 64) total) (λ j. suc wi * 64 ≤ j) (λ j b. b.0) _ hy) dx dy,
        All-joined (IsWithin (wi * 64) total) xs _ hx (
            All-map (IsWithin (suc wi * 64) total) (IsWithin (wi * 64) total)
              (λ j (a, b). (omega (arith, a), b)) _ hy),
      )

  -- No page is marked twice, and none outside of the memory.
  pub dirty_pages-IsMarked :
      IsDistinct (dirty_pages bitmap total) × All (λ j. j < total) (dirty_pages bitmap total)
  unfolding dirty_pages IsMarked
  dirty_pages-IsMarked =
      let (d, h) = dirty_from-IsMarked (words_of total) 0 (omega arith) in
      (d, All-map (IsWithin (0 * 64) total) (λ j. j < total) (λ j b. b.1) _ h)
