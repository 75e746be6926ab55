-- ===== src/Write/SaveBitmap.antt =====
-- `save_pages_with_bitmap`: its guards, the pages that the bitmap marks, and the save of them.
pub mod Bits
pub mod Complete
pub mod Groups
pub mod Counts
pub mod Slots
pub mod Marked
use bxdb.Base.{ℕ, zero, suc, ◌+◌, ◌-◌, ◌*◌, ◌/◌, ◌^◌, Option, none, some, List, [], ◌∷◌, ◌++◌, Bool}
use bxdb.Base.{Result, ok, err, ltb, leb, ◌==◌, if◌then◌else◌, length, get_or}
use bxdb.Base.{
  snapshot_id_range, snapshot_id_not_monotonic, memory_length, bitmap_too_short, dirty_count,
}
use bxdb.Chunk.Key.{max_snapshot_id}
use bxdb.Chunk.Patch.{page_size}
use bxdb.Store.Zstd.{Zstd}
use bxdb.Write.Bitmap.{visit_bits, mask_last_word}
use bxdb.Write.Save.{AppendOnlyDb, stale, write_pages}

-- The addresses in the order of the words, which is that of the slots of their records: the groups
-- of words with their prefix sums are in SaveBitmap/Groups.
unfoldable pub dirty_from : ℕ → ℕ → List ℕ → ℕ → ℕ → List ℕ
dirty_from zero wi bitmap expected_words total = []
dirty_from (suc n) wi bitmap expected_words total =
    visit_bits 64 64 (wi * 64) (mask_last_word (get_or bitmap wi 0) wi expected_words total)
    ++ dirty_from n (suc wi) bitmap expected_words total

abbrev pub words_of : ℕ → ℕ
words_of total_page_count = (total_page_count + 63) / 64

unfoldable pub dirty_pages : List ℕ → ℕ → List ℕ
unfolding dirty_from
dirty_pages bitmap total = dirty_from (words_of total) 0 bitmap (words_of total) total

unfoldable pub save_pages_with_bitmap :
    Zstd → List ℕ → List ℕ → List ℕ → ℕ → ℕ → AppendOnlyDb → AppendOnlyDb × Result (Unit {0})
unfolding dirty_pages
save_pages_with_bitmap z order memory bitmap total snapshot_id db =
    if ltb max_snapshot_id snapshot_id
    then (db, err snapshot_id_range)
    else elim (stale snapshot_id db.last_snapshot) [
      | some last ↦ (db, err (snapshot_id_not_monotonic snapshot_id last))
      | none ↦
          let taken = record db { last_snapshot = some snapshot_id } in
          let dirty = dirty_pages bitmap total in
          if length memory == total * page_size
          then (if ltb (length bitmap) (words_of total)
              then (taken, err bitmap_too_short)
              else if leb (2 ^ 32) (length dirty)
              then (taken, err dirty_count)
              else if length dirty == 0
              then (taken, ok tt)
              else write_pages z order dirty memory snapshot_id taken)
          else (taken, err memory_length)
    ]
