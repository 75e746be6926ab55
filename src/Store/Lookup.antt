-- ===== src/Store/Lookup.antt =====
-- Both kinds of index answer as the specification does.
use bxdb.Base.{ℕ, ◌+◌, ◌*◌, ◌-◌, ◌%◌, ◌^◌, ◌<◌, ◌≡◌, ap, ◌∙◌, arith}
use bxdb.Base.{List, ◌++◌, Result, ok, length, All, length-append, le→leb, ==_iff}
use bxdb.Chunk.Record.{ChunkRecord, IsRecord, IsLoggable}
use bxdb.Base.Bytes.{to_le_bytes}
use bxdb.Format.{
  write_header, write_log_header, write_index_header, index_file, log_file, length-write_header,
}
use bxdb.Format.{read_and_verify_header-write_header}
use bxdb.Log.Records.{write_records, write_fixed_records}
use bxdb.Log.RoundTrip.{read_log_file-write_records, length-write_fixed_records}
use bxdb.Log.Sort.{sort_dedup, sort_dedup-IsStrict, sort_dedup-All, All-mono}
use bxdb.Log.Newest.{newest, newest-sort_dedup}
use bxdb.Index.Sorted.{floor_sorted-newest, find_key}
use bxdb.Index.Exact.{exact_sorted-find_key}
use bxdb.Index.Mmap.{index_of, floor_mmap-newest, exact_mmap-find_key}
use bxdb.Store.Defs.{btree, append_only, floor, exact_lookup, build_lazy_index}
use bxdb.Store.Defs.{BlobReaders, btree_mode, append_only_mode, open_btree, open_log}
use bxdb.Store.Defs.{verify_index_header, PageStore}

-- The file of a log with its header, its records and a torn tail.
abbrev pub log_of : ℕ → List ChunkRecord → List ℕ → List ℕ
log_of max_snap records torn = write_log_header max_snap ++ (write_records records ++ torn)

abbrev pub IsRecords : List ChunkRecord → Type 0
IsRecords records = All IsRecord records

pub loggable-IsRecords : (records : List ChunkRecord) → All IsLoggable records → IsRecords records
loggable-IsRecords = All-mono IsLoggable IsRecord (λ r h. h.0)

module _ (records : List ChunkRecord) (valid : All IsLoggable records) (max_snap : ℕ)
    (max_fits : max_snap < 256 ^ 4) where
  pub build_lazy_index-log_of :
      (torn : List ℕ)
      → length torn < 22
      → build_lazy_index (log_of max_snap records torn) ≡ ok (sort_dedup records)
  unfolding build_lazy_index
  build_lazy_index-log_of torn h =
      rw (read_log_file-write_records records max_snap torn valid max_fits h)

  -- On a log, also with a torn tail of fewer than 22 bytes, the floor query answers with the newest
  -- record of the address that is not after the snapshot.
  pub floor-append_only :
      (torn : List ℕ) (pa s : ℕ)
      → length torn < 22
      → pa < 2 ^ 45
      → s < 2 ^ 19
      → floor (append_only (log_of max_snap records torn)) pa s ≡ ok (newest pa s records)
  unfolding floor
  floor-append_only torn pa s h hp hs =
      rw (read_log_file-write_records records max_snap torn valid max_fits h) (
        ap ok (
          floor_sorted-newest pa s hp hs (sort_dedup records) (sort_dedup-IsStrict records)
          ∙ newest-sort_dedup pa s records))

  pub exact_lookup-append_only :
      (torn : List ℕ) (key : ℕ)
      → length torn < 22
      → exact_lookup (append_only (log_of max_snap records torn)) key
        ≡ ok (find_key key (sort_dedup records))
  unfolding exact_lookup
  exact_lookup-append_only torn key h =
      rw (read_log_file-write_records records max_snap torn valid max_fits h)
        (ap ok (exact_sorted-find_key (sort_dedup records) key))

  sorted_valid : IsRecords (sort_dedup records)
  sorted_valid = sort_dedup-All IsRecord records (loggable-IsRecords records valid)

  -- On the index of the same records, sorted and without repeated keys, it answers the same.
  pub floor-btree :
      (pa s : ℕ)
      → pa < 2 ^ 45
      → s < 2 ^ 19
      → floor (btree (index_of max_snap (sort_dedup records)) (length (sort_dedup records))) pa s
        ≡ ok (newest pa s records)
  unfolding floor
  floor-btree pa s hp hs = ap ok (
      floor_mmap-newest (sort_dedup records) sorted_valid (sort_dedup-IsStrict records) max_snap pa
        s hp hs
      ∙ newest-sort_dedup pa s records)

  pub exact_lookup-btree :
      (key : ℕ)
      → exact_lookup
          (btree (index_of max_snap (sort_dedup records)) (length (sort_dedup records)))
          key
        ≡ ok (find_key key (sort_dedup records))
  unfolding exact_lookup
  exact_lookup-btree key = ap ok (
      exact_mmap-find_key (sort_dedup records) sorted_valid (sort_dedup-IsStrict records) max_snap
        key)

abbrev pub opened : List ChunkRecord → ℕ → BlobReaders → ℕ → Result PageStore
opened rs max_snap blobs n =
    ok (record { source = btree (index_of max_snap rs) n; blob_readers = blobs; mode = btree_mode })

-- An index file of records is opened in btree mode with the number of its records.
pub open_btree-index_of :
    (rs : List ChunkRecord) (max_snap : ℕ) (blobs : BlobReaders)
    → open_btree (index_of max_snap rs) blobs ≡ opened rs max_snap blobs (length rs)
unfolding open_btree
open_btree-index_of rs max_snap blobs =
    rw (le→leb 16 (length (index_of max_snap rs)) (omega (arith, size)), verify_index_header)
      (unfold write_header to_le_bytes in
        rw ((==_iff ((length (index_of max_snap rs) - 16) % 32) 0).1 (omega (arith, size)))
          (ap (opened rs max_snap blobs) (omega (arith, size))))
  where
    size : length (index_of max_snap rs) ≡ 16 + length rs * 32
    size = omega (
      arith,
      length-append (write_index_header max_snap) (write_fixed_records rs),
      length-write_header index_file max_snap,
      length-write_fixed_records rs,
    )

-- A log file is opened in append-only mode.
pub open_log-log_of :
    (records : List ChunkRecord) (max_snap : ℕ) (torn : List ℕ) (blobs : BlobReaders)
    → max_snap < 256 ^ 4
    → open_log (log_of max_snap records torn) blobs
      ≡ ok (record {
        source = append_only (log_of max_snap records torn);
        blob_readers = blobs;
        mode = append_only_mode;
      })
unfolding open_log
open_log-log_of records max_snap torn blobs h =
    rw (read_and_verify_header-write_header log_file max_snap (write_records records ++ torn) h)
