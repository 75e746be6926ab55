-- ===== src/Tests/Pages.antt =====
-- The theorems on writing pages.
use bxdb.Base.{ℕ, ◌*◌, ◌+◌, ◌≡◌, ◌≢◌, ◌⊎◌, refl, arith, [], Option, some, none, ok, Result, true}
use bxdb.Chunk.Record.{ChunkRecord}
use bxdb.Store.{BlobReaders}
use bxdb.Write.Shadow.{Shadow, new_shadow, insert_if_newer, get, IsUpdated, get-insert_if_newer}
use bxdb.Write.{Writer, process_one}
use bxdb.Write.Page.{process_one-IsSaved}
use bxdb.Write.Saved.{IsSaved}
use bxdb.Tests.Data.{stored, stored-IsLossless, page_of, page_of-IsPage}

abbrev older : Shadow
older = insert_if_newer new_shadow 3 (3 * 524288 + 4) (page_of 6)

get-insert_if_newer_example :
    (◌≢◌ {A = ℕ} 3 3) × (get (insert_if_newer older 3 (3 * 524288 + 5) (page_of 7)) 3 ≡ get older 3)
    ⊎ (◌≡◌ {A = ℕ} 3 3)
      × IsUpdated
          (3 * 524288 + 5)
          (page_of 7)
          (get older 3)
          (get (insert_if_newer older 3 (3 * 524288 + 5) (page_of 7)) 3)
get-insert_if_newer_example = get-insert_if_newer older 3 (3 * 524288 + 5) 3 (page_of 7)

abbrev empty_files : BlobReaders
empty_files i = some []

abbrev new_writer : Writer
new_writer = record { shadow = new_shadow; blob = record { written = []; offset = 0 } }

abbrev no_lookup : ℕ → Result (Option ChunkRecord)
no_lookup key = ok none

process_one-IsSaved_example :
    IsSaved stored empty_files no_lookup 3
      (page_of 7)
      5
      1
      new_writer
      (process_one stored 3 (page_of 7) 5 1 256 true new_writer)
process_one-IsSaved_example =
    process_one-IsSaved stored stored-IsLossless empty_files no_lookup 3 (page_of 7)
      (page_of-IsPage 7 (omega arith)) 5 1 256 (omega arith) true new_writer refl (omega arith) refl
      (unfold get new_shadow in tt)
