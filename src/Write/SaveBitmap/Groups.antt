-- ===== src/Write/SaveBitmap/Groups.antt =====
-- The groups of words of `save_pages_with_bitmap` (bxdb-core/src/append_only.rs): the dirty pages of
-- each group are counted, the prefix sums of the counts say where the records of a group begin,
-- and each group that has dirty pages writes its records from there on.
use bxdb.Base.{ℕ, zero, suc, ◌+◌, ◌-◌, ◌*◌, ◌/◌, ◌%◌, ◌^◌, min, List, [], ◌∷◌, ◌++◌}
use bxdb.Base.{Result, ok, err, ◌>>=◌, dirty_count, ltb, if◌then◌else◌, get_or}
use bxdb.Write.Bitmap.{mask_last_word}
use bxdb.Write.SaveBitmap.{dirty_from, words_of}

abbrev pub words_per_group : ℕ
words_per_group = 64

-- `count_ones`, over the lowest `k` digits.
unfoldable pub count_ones : ℕ → ℕ → ℕ
count_ones zero w = 0
count_ones (suc k) w = w % 2 + count_ones k (w / 2)

-- The exclusive prefix sums, and the sum of all behind them; a sum that is no `u32` is refused.
unfoldable pub prefix_sums : ℕ → List ℕ → Result (List ℕ)
prefix_sums acc [] = ok (acc ∷ [])
prefix_sums acc (c ∷ counts) =
    let rest = prefix_sums (acc + c) counts in
    if ltb (acc + c) (2 ^ 32) then (rest >>= (λ offsets. ok (acc ∷ offsets))) else err dirty_count

-- The groups that have dirty pages, from group `g` on.
unfoldable pub active_groups : ℕ → List ℕ → List ℕ
active_groups g [] = []
active_groups g (c ∷ counts) =
    let rest = active_groups (suc g) counts in if ltb 0 c then g ∷ rest else rest

-- The addresses with the slots of their records, from slot `i` on.
unfoldable pub slots_from : ℕ → List ℕ → List (ℕ × ℕ)
slots_from i [] = []
slots_from i (pa ∷ pas) = (i, pa) ∷ slots_from (suc i) pas

module _ (bitmap : List ℕ) (total : ℕ) where
  -- The loop of a group over its words.
  unfoldable pub count_from : ℕ → ℕ → ℕ
  unfolding count_ones
  count_from zero wi = 0
  count_from (suc n) wi =
      count_ones 64 (mask_last_word (get_or bitmap wi 0) wi (words_of total) total)
      + count_from n (suc wi)

  -- How many words group `g` has.
  abbrev pub group_words : ℕ → ℕ
  group_words g = min ((g + 1) * words_per_group) (words_of total) - g * words_per_group

  unfoldable pub group_counts : ℕ → ℕ → List ℕ
  unfolding count_from
  group_counts zero g = []
  group_counts (suc n) g = count_from (group_words g) (g * words_per_group) ∷ group_counts n (suc g)

  -- What the task of a group writes: the slots and the addresses of their records.
  unfoldable pub group_writes : List ℕ → ℕ → List (ℕ × ℕ)
  unfolding slots_from
  group_writes offsets g =
      slots_from (get_or offsets g 0)
        (dirty_from (group_words g) (g * words_per_group) bitmap (words_of total) total)

  unfoldable pub all_writes : List ℕ → List ℕ → List (ℕ × ℕ)
  unfolding group_writes
  all_writes offsets [] = []
  all_writes offsets (g ∷ groups) = group_writes offsets g ++ all_writes offsets groups

  abbrev pub num_groups : ℕ
  num_groups = (words_of total + words_per_group - 1) / words_per_group

  unfoldable pub grouped_writes : Result (List (ℕ × ℕ))
  unfolding group_counts prefix_sums active_groups all_writes
  grouped_writes = do
    let counts = group_counts num_groups 0
    offsets ← prefix_sums 0 counts
    ok (all_writes offsets (active_groups 0 counts))
