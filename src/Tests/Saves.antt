-- ===== src/Tests/Saves.antt =====
-- The theorems on saves.
use bxdb.Base.{◌%◌, ◌/◌, get_or}
use bxdb.Write.SaveBitmap.{dirty_pages}
use bxdb.Base.{replicate, ◌++◌}
use bxdb.Write.SaveBitmap.Groups.{
  grouped_writes, group_counts, count_from, count_ones, prefix_sums, active_groups, all_writes,
  group_writes, slots_from,
}
use bxdb.Write.SaveBitmap.Complete.{contains, bit_at, dirty_pages-bit_at}
use bxdb.Base.{
  ℕ, ◌^◌, ◌+◌, ◌≡◌, refl, arith, List, [], ◌∷◌, Option, none, ok, Result, true, replicate,
  length-replicate,
}
use bxdb.Chunk.Key.{snapshot_of}
use bxdb.Chunk.Record.{ChunkRecord}
use bxdb.Store.{Dir, BlobReaders}
use bxdb.Store.Lookup.{log_of}
use bxdb.Write.Shadow.{new_shadow, get}
use bxdb.Write.Pass.{Pass, run_pass}
use bxdb.Write.Pass.Invariant.{IsRun, run_pass-IsRun}
use bxdb.Write.Save.{AppendOnlyDb, open_db, save_all_pages, range_from}
use bxdb.Write.Save.State.{flush, IsDb}
use bxdb.Write.Save.Promise.{IsSave}
use bxdb.Write.Save.Whole.{save_all_pages-IsSave, page_at-IsPage}
use bxdb.Write.Save.Open.{opened_db, open_db-IsDb, open_db_new, opened_db-IsDb}
use bxdb.Format.{write_log_header}
use bxdb.Tests.Data.{stored, stored-IsLossless, first, first-IsLoggable, All-replicate}
use bxdb.Base.Trailing.{trailing_zeros}
use bxdb.Write.Bitmap.{visit_bits, mask_last_word, set_bits, visit_bits-set_bits}
use bxdb.Write.SaveBitmap.{dirty_pages, dirty_from}
use mathlib.Core.List.{Permᴰ}

-- The pages 0 and 1, both of sevens, are handled in the other order.
abbrev memory : List ℕ
memory = replicate 8192 7

abbrev no_files : BlobReaders
no_files i = none

abbrev log_and_blobs : (i : ℕ) → List ℕ
log_and_blobs i = []

open_db-IsDb_example :
    (db : AppendOnlyDb) × (open_db 2 0 true (log_of 5 (first ∷ []) []) log_and_blobs ≡ ok db)
    × IsDb stored no_files (first ∷ []) db
open_db-IsDb_example =
    open_db-IsDb stored no_files 2 0 true (omega arith) (omega arith) log_and_blobs (first ∷ []) 5
      (first-IsLoggable, tt) (unfold snapshot_of in omega arith, tt) (omega arith)

abbrev new_db : AppendOnlyDb
new_db = opened_db 2 0 true (write_log_header 0) log_and_blobs none

-- A new directory, with no index and no log.
abbrev no_dir : Dir
no_dir = record { index = none; log = none; blobs = no_files }

save_all_pages-IsSave_example :
    IsSave stored no_files
      (λ d. flush d no_dir)
      []
      (range_from 0 2)
      memory
      5
      new_db
      (save_all_pages stored (1 ∷ 0 ∷ []) memory 2 5 new_db)
save_all_pages-IsSave_example =
    save_all_pages-IsSave stored no_dir [] new_db memory 2 5 (1 ∷ 0 ∷ []) stored-IsLossless refl
      (opened_db-IsDb stored no_files 2 0 true (omega arith) (omega arith) log_and_blobs)
      (All-replicate 8192 7 (omega arith)) (length-replicate {A = ℕ} 8192 7) (omega arith)
      (omega arith) refl (Permᴰ.swap refl refl) (λ i. omega arith)

open_db_new_example :
    (db : AppendOnlyDb) × (open_db 2 0 true [] log_and_blobs ≡ ok db)
    × IsDb stored no_files [] db
    × (db.last_snapshot ≡ none)
open_db_new_example = open_db_new stored no_files 2 0 true (omega arith) (omega arith) log_and_blobs

abbrev no_record : ℕ → Result (Option ChunkRecord)
no_record key = ok none

abbrev new_pass : Pass
new_pass = record {
  shadow = new_shadow;
  files = λ i. record { written = []; offset = 0 };
  slots = λ pa. none;
}

run_pass-IsRun_example :
    IsRun stored no_files 2 no_record memory 5
      (1 ∷ 0 ∷ [])
      new_pass
      (run_pass stored memory 5 256 true 2 (1 ∷ 0 ∷ []) new_pass)
run_pass-IsRun_example =
    run_pass-IsRun stored stored-IsLossless no_files 2 (omega arith) (omega arith) no_record memory
      5 256 true (1 ∷ 0 ∷ []) new_pass (((λ e. omega arith), tt), (tt, tt))
      (
        page_at-IsPage memory 2 1 (All-replicate 8192 7 (omega arith))
            (length-replicate {A = ℕ} 8192 7) (omega arith),
        (
          page_at-IsPage memory 2 0 (All-replicate 8192 7 (omega arith))
              (length-replicate {A = ℕ} 8192 7) (omega arith),
          tt,
        ),
      )
      (λ i. refl) (λ i. omega arith) (unfold get new_shadow in (tt, (tt, tt)))

visit_bits-set_bits_example : visit_bits 64 64 128 (2 ^ 63 + 5) ≡ set_bits 64 128 (2 ^ 63 + 5)
visit_bits-set_bits_example = visit_bits-set_bits 128 (2 ^ 63 + 5) (omega arith)

dirty_pages-bit_at_example :
    contains (dirty_pages (5 ∷ []) 3) 2 ≡ bit_at (2 % 64) (get_or (5 ∷ []) (2 / 64) 0)
dirty_pages-bit_at_example = dirty_pages-bit_at (5 ∷ []) (omega arith, tt) 3 2 (omega arith)

-- Pages 1 and 4097 of two groups.
abbrev two_groups : List ℕ
two_groups = (2 ∷ []) ++ replicate 63 0 ++ (2 ∷ [])

writes_of_two_groups : grouped_writes two_groups 4100 ≡ ok ((0, 1) ∷ (1, 4097) ∷ [])
unfolding grouped_writes group_counts count_from count_ones prefix_sums active_groups all_writes
    group_writes slots_from dirty_from visit_bits trailing_zeros mask_last_word
writes_of_two_groups = refl
