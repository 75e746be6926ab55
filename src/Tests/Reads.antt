-- ===== src/Tests/Reads.antt =====
-- The theorems on reading pages.
use bxdb.Base.{ℕ, ◌≡◌, refl, arith, [], ◌∷◌, ◌++◌, Option, some, none, ok, Result}
use bxdb.Chunk.Record.{ChunkRecord}
use bxdb.Log.Sort.{sort_dedup}
use bxdb.Index.Mmap.{index_of}
use bxdb.Store.{BlobReaders, resolve_uncached}
use bxdb.Store.Lookup.{log_of}
use bxdb.Store.Blobs.{Grows, resolve-Grows}
use bxdb.Convert.{to_btree-log_of, max_snapshot}
use bxdb.Convert.Cached.{loads-spec_page}
use bxdb.Store.Cached.{disable_shared_cache, reader_cache, loads}
use bxdb.Base.{map, false}
use bxdb.Convert.Reads.{
  log_store, index_store, read_page, spec_page, read_page-log, read_page-to_btree,
}
use bxdb.Tests.Data.{first, log_records, log_records-IsLoggable, stored, files, page_of}

read_page-log_example :
    read_page stored
      (record { index = none; log = some (log_of 9 log_records (1 ∷ [])); blobs = files })
      3
      8
    ≡ spec_page stored files log_records 3 8
read_page-log_example =
    read_page-log stored files log_records log_records-IsLoggable 9 (omega arith) (1 ∷ [])
      (omega arith) 3 8 (omega arith) (omega arith)

read_page-to_btree_example :
    read_page stored
      (record {
        index = some (index_of (max_snapshot (sort_dedup log_records)) (sort_dedup log_records));
        log = none;
        blobs = files;
      })
      3
      8
    ≡ spec_page stored files log_records 3 8
read_page-to_btree_example =
    read_page-to_btree stored files log_records log_records-IsLoggable 9 (omega arith) (1 ∷ [])
      (omega arith) 3 8 (omega arith) (omega arith) none
      (index_of (max_snapshot (sort_dedup log_records)) (sort_dedup log_records))
      (to_btree-log_of log_records 9 (1 ∷ []) log_records-IsLoggable (omega arith) (omega arith))

-- Two more bytes in every file.
abbrev longer : BlobReaders
longer i = elim (files i) [ none ↦ none | some bytes ↦ some (bytes ++ (1 ∷ 2 ∷ [])) ]

files-longer : Grows files longer
files-longer i bytes h = (1 ∷ 2 ∷ [], rw (h, longer))

abbrev no_lookup : ℕ → Result (Option ChunkRecord)
no_lookup key = ok none

first_resolves : resolve_uncached stored files no_lookup first ≡ ok (page_of 9)
unfolding resolve_uncached
first_resolves = refl

resolve-Grows_example : resolve_uncached stored longer no_lookup first ≡ ok (page_of 9)
resolve-Grows_example =
    resolve-Grows stored files longer files-longer no_lookup no_lookup first (page_of 9)
      (λ key b h. h) first_resolves

loads-spec_page_example :
    (loads stored
        (log_store files log_records 9 (1 ∷ []))
        (reader_cache false (λ slot. []))
        ((3, 8) ∷ (3, 9) ∷ [])
      ≡ map
          (λ (call : ℕ × ℕ). spec_page stored files log_records call.0 call.1)
          ((3, 8) ∷ (3, 9) ∷ []))
    × (loads stored
          (index_store files log_records 9)
          (reader_cache false (λ slot. []))
          ((3, 8) ∷ (3, 9) ∷ [])
        ≡ map
            (λ (call : ℕ × ℕ). spec_page stored files log_records call.0 call.1)
            ((3, 8) ∷ (3, 9) ∷ []))
loads-spec_page_example =
    loads-spec_page stored files log_records log_records-IsLoggable 9 (omega arith) (1 ∷ [])
      (omega arith) false (λ slot. []) ((3, 8) ∷ (3, 9) ∷ [])
      ((omega arith, omega arith), ((omega arith, omega arith), tt))

no_cache_today : reader_cache disable_shared_cache (λ slot. []) ≡ none
unfolding reader_cache
no_cache_today = refl
