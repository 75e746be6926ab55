-- ===== src/Tests/Files.antt =====
-- The theorems on the files of a log and of an index, and on their queries.
use bxdb.Base.{◌≡◌, refl, arith, [], ◌∷◌, ◌++◌, some, ok, length}
use bxdb.Base.{min}
use bxdb.Purge.{retain, newest-retain}
use bxdb.Chunk.Key.{encode_key, pa_of, snapshot_of}
use bxdb.Format.{write_log_header, write_index_header}
use bxdb.Log.Records.{write_records, write_fixed_records, read_log_file, read_index}
use bxdb.Log.RoundTrip.{read_log_file-write_records, read_index-write_fixed_records}
use bxdb.Log.Sort.{
  sort_dedup, dedup_by_key, sort_by_key, insert_by_key, dedup_behind, sort_dedup-IsStrict,
  sort_dedup-All,
}
use bxdb.Log.Newest.{newest, later, newest-sort_dedup}
use bxdb.Index.{floor_mmap, exact_mmap}
use bxdb.Index.Sorted.{find_key}
use bxdb.Index.Mmap.{index_of, floor_mmap-newest, exact_mmap-find_key}
use bxdb.Chunk.Record.{IsRecord}
use bxdb.Store.Lookup.{loggable-IsRecords}
use bxdb.Base.{All}
use bxdb.Tests.Data.{first, second, other, log_records, log_records-IsLoggable}

log_records-IsRecord : All IsRecord log_records
log_records-IsRecord = loggable-IsRecords log_records log_records-IsLoggable

read_log_file-write_records_example :
    read_log_file (write_log_header 9 ++ (write_records log_records ++ (7 ∷ []))) ≡ ok log_records
read_log_file-write_records_example =
    read_log_file-write_records log_records 9 (7 ∷ []) log_records-IsLoggable (omega arith)
      (omega arith)

read_index-write_fixed_records_example :
    read_index (write_index_header 9 ++ write_fixed_records log_records) ≡ ok log_records
read_index-write_fixed_records_example =
    read_index-write_fixed_records log_records 9 log_records-IsRecord (omega arith)

newest-sort_dedup_example : newest 3 7 (sort_dedup log_records) ≡ newest 3 7 log_records
newest-sort_dedup_example = newest-sort_dedup 3 7 log_records

newest_run : newest 3 7 log_records ≡ some first
unfolding newest later pa_of snapshot_of
newest_run = refl

sorted_run : sort_dedup log_records ≡ first ∷ second ∷ other ∷ []
unfolding dedup_by_key sort_by_key insert_by_key dedup_behind
sorted_run = refl

floor_mmap-newest_example :
    floor_mmap
      (index_of 9 (sort_dedup log_records))
      (length (sort_dedup log_records))
      (encode_key 3 8)
      3
    ≡ newest 3 8 (sort_dedup log_records)
floor_mmap-newest_example =
    floor_mmap-newest (sort_dedup log_records)
      (sort_dedup-All IsRecord log_records log_records-IsRecord) (sort_dedup-IsStrict log_records) 9
      3 8 (omega arith) (omega arith)

exact_mmap-find_key_example :
    exact_mmap (index_of 9 (sort_dedup log_records)) (length (sort_dedup log_records)) second.key
    ≡ find_key second.key (sort_dedup log_records)
exact_mmap-find_key_example =
    exact_mmap-find_key (sort_dedup log_records)
      (sort_dedup-All IsRecord log_records log_records-IsRecord) (sort_dedup-IsStrict log_records) 9
      second.key

newest-retain_example : newest 3 8 (retain 6 log_records) ≡ newest 3 (min 8 6) log_records
newest-retain_example = newest-retain 3 8 6 log_records
