-- ===== src/Write/Save.antt =====
-- `save_all_pages`: the guards, the pass over all pages, the log's new records and its header.
pub mod Fresh
pub mod Log
pub mod State
pub mod Promise
pub mod Reads
pub mod Whole
pub mod Open
use bxdb.Base.{ℕ, zero, suc, ◌+◌, ◌*◌, Option, none, some, List, [], ◌∷◌, ◌++◌, Bool, true, false}
use bxdb.Base.{
  Result, ok, err, panic, ◌>>=◌, ◌>>◌, guard, ltb, leb, ◌==◌, if◌then◌else◌, length, splice,
}
use bxdb.Base.{snapshot_id_range, snapshot_id_not_monotonic, memory_length, worker_count_range}
use bxdb.Base.Bytes.{to_le_bytes}
use bxdb.Chunk.Key.{max_snapshot_id}
use bxdb.Chunk.Record.{ChunkRecord}
use bxdb.Chunk.Patch.{page_size}
use bxdb.Format.{write_log_header, read_and_verify_header, magic_log}
use bxdb.Log.Records.{write_records}
use bxdb.Store.Zstd.{Zstd}
use bxdb.Write.Shadow.{Shadow, new_shadow}
use bxdb.Write.Defs.{BlobFile}
use bxdb.Write.Pass.{Pass, run_pass}

-- `log` is all that was written to the log, flushed or not.
pub record AppendOnlyDb : Type 0 where
  pub delta_threshold : ℕ
  pub use_shadow : Bool
  pub shadow : Shadow
  pub log : List ℕ
  pub blob_count : ℕ
  pub blob_files : ℕ → BlobFile
  pub last_snapshot : Option ℕ

-- The header of a new log, or the snapshot id of an old one.
abbrev pub open_log_file : List ℕ → Result (List ℕ × Option ℕ)
open_log_file [] = ok (write_log_header 0, none)
open_log_file (b ∷ bytes) = do
  (max_snap, rest) ← read_and_verify_header (b ∷ bytes) magic_log
  ok (b ∷ bytes, some max_snap)

-- `AppendOnlyDb::open` on the bytes of the log and of the workers' files, each empty where the
-- file is new.
unfoldable pub open_db : ℕ → ℕ → Bool → List ℕ → (ℕ → List ℕ) → Result AppendOnlyDb
open_db worker_count delta_threshold use_shadow log blobs = do
  guard (leb 1 worker_count) worker_count_range
  guard (leb worker_count 255) worker_count_range
  (bytes, last) ← open_log_file log
  ok (record {
    delta_threshold = if delta_threshold == 0 then 256 else delta_threshold;
    use_shadow = use_shadow;
    shadow = new_shadow;
    log = bytes;
    blob_count = worker_count;
    blob_files = λ i. record { written = blobs i; offset = length (blobs i) };
    last_snapshot = last;
  })

abbrev pub range_from : ℕ → ℕ → List ℕ
range_from i zero = []
range_from i (suc n) = i ∷ range_from (suc i) n

-- The buffer of records, with a slot for each address of the list. A slot that was not written
-- is memory that was not initialised, which has no value here.
unfoldable pub records_buf : List ℕ → (ℕ → Option ChunkRecord) → Result (List ChunkRecord)
records_buf [] slots = ok []
records_buf (pa ∷ dirty) slots = do
  rec ← elim (slots pa) [ none ↦ panic | some r ↦ ok r ]
  rest ← records_buf dirty slots
  ok (rec ∷ rest)

-- The records at the end of the log, and the snapshot id at byte 9 of its header.
unfoldable pub append_records : List ℕ → List ChunkRecord → ℕ → List ℕ
append_records log records snapshot_id =
    splice (log ++ write_records records) 9 (to_le_bytes 4 snapshot_id)

abbrev pub stale : ℕ → Option ℕ → Option ℕ
stale snapshot_id none = none
stale snapshot_id (some last) = if leb snapshot_id last then some last else none

-- Behind the pass: the records go to the log, or the pass's error is returned.
unfoldable pub write_log :
    List ℕ → ℕ → AppendOnlyDb → Pass × Result (Unit {0}) → AppendOnlyDb × Result (Unit {0})
unfolding records_buf append_records
write_log dirty snapshot_id db (pass, ran) =
    let saved = record db { shadow = pass.shadow; blob_files = pass.files } in
    elim (ran >> records_buf dirty pass.slots) [
      | panic ↦ (saved, panic)
      | err e ↦ (saved, err e)
      | ok records ↦ (record saved { log = append_records db.log records snapshot_id }, ok tt)
    ]

module _ (z : Zstd) (order : List ℕ) where
  -- From the pass over the pages of `dirty`, which a schedule has put into an order, to the end.
  unfoldable pub write_pages : List ℕ → List ℕ → ℕ → AppendOnlyDb → AppendOnlyDb × Result (Unit {0})
  unfolding write_log
  write_pages dirty memory snapshot_id db = write_log dirty snapshot_id db (
      run_pass z memory snapshot_id db.delta_threshold db.use_shadow db.blob_count order
        (record { shadow = db.shadow; files = db.blob_files; slots = λ pa. none }))

  unfoldable pub save_all_pages : List ℕ → ℕ → ℕ → AppendOnlyDb → AppendOnlyDb × Result (Unit {0})
  unfolding write_pages
  save_all_pages memory total snapshot_id db =
      if ltb max_snapshot_id snapshot_id
      then (db, err snapshot_id_range)
      else elim (stale snapshot_id db.last_snapshot) [
        | some last ↦ (db, err (snapshot_id_not_monotonic snapshot_id last))
        | none ↦
            let taken = record db { last_snapshot = some snapshot_id } in
            if length memory == total * page_size
            then (if total == 0
                then (taken, ok tt)
                else write_pages (range_from 0 total) memory snapshot_id taken)
            else (taken, err memory_length)
      ]
