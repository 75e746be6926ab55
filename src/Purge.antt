-- ===== src/Purge.antt =====
-- bxdb-core/src/purge.rs: dropping the snapshots above a threshold. A directory is as in
-- `PageStore::open`; each file is written beside the old one and renamed.
use bxdb.Base.{ℕ, ◌+◌, ◌-◌, ◌≡◌, refl, arith, max, min, Option, none, some, List, [], ◌∷◌, ◌++◌}
use bxdb.Base.{
  Bool, true, false, Bool-cases, inl, inr, Result, ok, err, ◌>>=◌, ◌>>◌, guard, leb, ◌==◌, ◌||◌,
  ◌&&◌, not,
}
use bxdb.Base.{if◌then◌else◌, length, take, replicate, no_index_file, no_blob_file}
use bxdb.Chunk.Key.{pa_of, snapshot_of}
use bxdb.Chunk.Record.{ChunkRecord, is_zero}
use bxdb.Format.{write_index_header, write_log_header}
use bxdb.Log.Records.{read_index, read_log_file, write_records, write_fixed_records}
use bxdb.Log.Sort.{sort_dedup}
use bxdb.Log.Groups.{by_snapshot}
use bxdb.Log.Newest.{newest, later}
use bxdb.Store.{BlobReaders, Dir}
use bxdb.Convert.{max_snapshot}

-- `records.retain(|r| snapshot_of(r.key) <= snapshot_threshold)`
unfoldable pub retain : ℕ → List ChunkRecord → List ChunkRecord
retain threshold [] = []
retain threshold (r ∷ rs) =
    if leb (snapshot_of r.key) threshold then r ∷ retain threshold rs else retain threshold rs

-- The greatest end of a blob of the worker among the records, if there is one.
unfoldable pub worker_max_end : ℕ → List ChunkRecord → Option ℕ
worker_max_end worker_id [] = none
worker_max_end worker_id (r ∷ rs) =
    let rest = worker_max_end worker_id rs in
    if is_zero r.kind || not (r.worker_id == worker_id)
    then rest
    else some (elim rest [ none ↦ r.offset + r.len | some e ↦ max (r.offset + r.len) e ])

-- `set_len`, which cuts a file or fills it with zeros.
abbrev pub set_len : ℕ → List ℕ → List ℕ
set_len n bytes = take n bytes ++ replicate (n - length bytes) 0

abbrev pub truncated : Option ℕ → Option (List ℕ) → Option (List ℕ)
truncated none file = file
truncated (some n) none = none
truncated (some n) (some bytes) = some (set_len n bytes)

abbrev has_file : Option (List ℕ) → Bool
has_file none = false
has_file (some bytes) = true

-- Every file that a blob is in has to be there.
unfoldable pub files_present : BlobReaders → List ChunkRecord → Bool
files_present blobs [] = true
files_present blobs (r ∷ rs) =
    (is_zero r.kind || has_file (blobs r.worker_id)) && files_present blobs rs

unfoldable pub truncate_blobs : BlobReaders → List ChunkRecord → Result BlobReaders
unfolding files_present worker_max_end
truncate_blobs blobs records = do
  guard (files_present blobs records) no_blob_file
  ok (λ i. truncated (worker_max_end i records) (blobs i))

unfoldable pub is_used : ℕ → List ChunkRecord → Bool
is_used worker_id [] = false
is_used worker_id (r ∷ rs) = r.worker_id == worker_id || is_used worker_id rs

unfoldable pub cleanup_unused_blob_files : BlobReaders → List ChunkRecord → BlobReaders
unfolding is_used
cleanup_unused_blob_files blobs records i = if is_used i records then blobs i else none

abbrev pub write_log_file : List ChunkRecord → ℕ → List ℕ
write_log_file records max_snap = write_log_header max_snap ++ write_records (by_snapshot records)

abbrev pub write_index_file : List ChunkRecord → ℕ → List ℕ
write_index_file records max_snap = write_index_header max_snap ++ write_fixed_records records

abbrev pub read_either : Option (List ℕ) → Option (List ℕ) → Result (List ChunkRecord)
read_either (some index) log = read_index index
read_either none (some log) = do records ← read_log_file log; ok (sort_dedup records)
read_either none none = err no_index_file

abbrev replaced : List ℕ → Option (List ℕ) → Option (List ℕ)
replaced bytes none = none
replaced bytes (some old) = some bytes

-- The blob files are cut first, then the files that are there are written again.
unfoldable pub rewrite_dir : Dir → List ChunkRecord → ℕ → Result (ℕ × Dir)
unfolding truncate_blobs cleanup_unused_blob_files
rewrite_dir dir kept removed = do
  blobs ← truncate_blobs dir.blobs kept
  ok (
    removed,
    record {
      index = replaced (write_index_file kept (max_snapshot kept)) dir.index;
      log = replaced (write_log_file kept (max_snapshot kept)) dir.log;
      blobs = cleanup_unused_blob_files blobs kept;
    },
  )

-- The number of records that were removed, and the directory after.
unfoldable pub purge : Dir → ℕ → Result (ℕ × Dir)
unfolding rewrite_dir retain
purge dir snapshot_threshold = do
  records ← read_either dir.index dir.log
  let kept = retain snapshot_threshold records
  let removed = length records - length kept
  if removed == 0 then ok (0, dir) else rewrite_dir dir kept removed

-- A floor query over the records that a purge keeps is the query at the threshold where it asks
-- for a later snapshot, and the same query where it does not.
pub newest-retain :
    (pa s threshold : ℕ) (records : List ChunkRecord)
    → newest pa s (retain threshold records) ≡ newest pa (min s threshold) records
unfolding newest retain later
newest-retain pa s threshold [] = refl
newest-retain pa s threshold (r ∷ rs) = elim (Bool-cases (leb (snapshot_of r.key) threshold)) [
  | inl kept ↦
      let same : leb (snapshot_of r.key) (min s threshold) ≡ leb (snapshot_of r.key) s =
        ground arith in
      rw (kept, same, newest-retain pa s threshold rs)
  | inr dropped ↦
      let out : (pa_of r.key == pa && leb (snapshot_of r.key) (min s threshold)) ≡ false =
        ground arith in
      rw (dropped, out, newest-retain pa s threshold rs)
]
