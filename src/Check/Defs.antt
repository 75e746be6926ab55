-- ===== src/Check/Defs.antt =====
-- The report on a log and its blob files.
use bxdb.Base.{ℕ, zero, suc, ◌+◌, ◌-◌, ◌/◌, ◌%◌, ◌^◌, min, Option, none, some, List, [], ◌∷◌, ◌++◌}
use bxdb.Base.{
  Bool, false, ltb, leb, ◌==◌, ◌||◌, if◌then◌else◌, Result, ok, err, panic, ◌>>=◌, ◌>>◌, guard,
}
use bxdb.Base.{length, take, drop, slice, blob_out_of_range, delta_blob_out_of_range, no_log_file}
use bxdb.Base.Bytes.{from_le_bytes}
use bxdb.Chunk.Record.{ChunkRecord, ChunkKind, full, delta, zero_page, is_full, read_from}
use bxdb.Chunk.Patch.{page_size, page_words}
use bxdb.Format.{read_and_verify_header, magic_log}
use bxdb.Index.Sorted.{find_key}
use bxdb.Store.{BlobReaders, mmap}

-- One constructor for each message; its values are those of the record.
pub data CheckError : Type 0 where
  worker_without_file : ChunkRecord → CheckError
  full_out_of_file full_page_size full_zstd : ChunkRecord → CheckError
  delta_out_of_file delta_length delta_word_index : ChunkRecord → CheckError
  base_key_zero base_not_found base_not_full : ChunkRecord → CheckError

pub record CheckReport : Type 0 where
  pub total_records : ℕ
  pub full_count : ℕ
  pub delta_count : ℕ
  pub zero_count : ℕ
  pub errors : List CheckError
  pub blob_file_sizes : List (ℕ × ℕ)

-- The local variables of the first loop; the last record of a key is first in `full_index`.
pub record CheckState : Type 0 where
  pub report : CheckReport
  pub full_index : List ChunkRecord
  pub all_records : List ChunkRecord

-- `decompress` into at most `PAGE_SIZE + 1` bytes: the bytes, or an error of zstd.
abbrev pub BulkDecompressor : Type 0
BulkDecompressor = List ℕ → Option (List ℕ)

-- `offset.saturating_add(len)`
abbrev pub blob_end : ChunkRecord → ℕ
blob_end rec = min (rec.offset + rec.len) (2 ^ 64 - 1)

abbrev pub output_errors : ChunkRecord → Option (List ℕ) → List CheckError
output_errors rec none = full_zstd rec ∷ []
output_errors rec (some out) = if length out == page_size then [] else full_page_size rec ∷ []

-- The loop over `chunks_exact(10)` up to the first index that is out of range, with the number
-- of chunks that are left.
unfoldable pub has_bad_index : ℕ → List ℕ → Bool
has_bad_index zero blob = false
has_bad_index (suc n) blob =
    leb page_words (from_le_bytes (slice (take 10 blob) 0 2)) || has_bad_index n (drop 10 blob)

abbrev pub file_errors : ChunkRecord → Option (List ℕ) → List CheckError
file_errors rec none = worker_without_file rec ∷ []
file_errors rec (some bytes) = []

abbrev pub file_size : Option (List ℕ) → ℕ
file_size none = 0
file_size (some bytes) = length bytes

abbrev pub count : ChunkKind → CheckReport → CheckReport
count full report = record report { full_count = report.full_count + 1 }
count delta report = record report { delta_count = report.delta_count + 1 }
count zero_page report = record report { zero_count = report.zero_count + 1 }

abbrev pub index_record : ChunkKind → ChunkRecord → List ChunkRecord → List ChunkRecord
index_record delta rec full_index = full_index
index_record full rec full_index = rec ∷ full_index
index_record zero_page rec full_index = rec ∷ full_index

-- One round of the first loop, after the errors.
abbrev pub noted : CheckState → ChunkRecord → List CheckError → CheckState
noted st rec found =
    let counted = count rec.kind st.report in
    record {
      report = record counted {
        total_records = counted.total_records + 1;
        errors = counted.errors ++ found;
      };
      full_index = index_record rec.kind rec st.full_index;
      all_records = st.all_records ++ (rec ∷ []);
    }

module _ (bulk : BulkDecompressor) (blobs : BlobReaders) where
  -- The errors that are pushed for a full record.
  unfoldable pub check_full : ChunkRecord → ℕ → Result (List CheckError)
  check_full rec blob_len =
      let blob_errors = (do
        bytes ← mmap blobs rec.worker_id
        guard (leb (rec.offset + rec.len) (length bytes)) blob_out_of_range
        ok (output_errors rec (bulk (slice bytes rec.offset rec.len)))) in
      if rec.len == 0
      then ok []
      else if ltb blob_len (blob_end rec)
      then ok (full_out_of_file rec ∷ [])
      else blob_errors

  unfoldable pub check_delta : ChunkRecord → ℕ → Result (List CheckError)
  unfolding has_bad_index
  check_delta rec blob_len =
      let blob_errors = (do
        bytes ← mmap blobs rec.worker_id
        guard (leb (rec.offset + rec.len) (length bytes)) delta_blob_out_of_range
        let blob = slice bytes rec.offset rec.len
        ok (if has_bad_index (length blob / 10) blob then delta_word_index rec ∷ [] else [])) in
      if rec.len == 0
      then ok []
      else if ltb blob_len (blob_end rec)
      then ok (delta_out_of_file rec ∷ [])
      else if rec.len % 10 == 0
      then blob_errors
      else ok (delta_length rec ∷ [])

  abbrev pub kind_errors : ChunkKind → ChunkRecord → ℕ → Result (List CheckError)
  kind_errors full rec blob_len = check_full rec blob_len
  kind_errors delta rec blob_len = check_delta rec blob_len
  kind_errors zero_page rec blob_len = ok []

  -- The errors of the first loop for a record.
  unfoldable pub record_errors : ChunkRecord → Result (List CheckError)
  unfolding check_full check_delta
  record_errors rec = do
    found ← kind_errors rec.kind rec (file_size (blobs rec.worker_id))
    ok (file_errors rec (blobs rec.worker_id) ++ found)

  unfoldable pub check_record : CheckState → ChunkRecord → Result CheckState
  unfolding record_errors
  check_record st rec = do found ← record_errors rec; ok (noted st rec found)

  -- The first loop, on the same fuel as the reading of a log.
  unfoldable pub check_loop : ℕ → CheckState → List ℕ → Result CheckState
  unfolding check_record
  check_loop zero st r = panic
  check_loop (suc fuel) st r = elim (read_from r) [
    | ok (none, rest) ↦ ok st
    | ok (some rec, rest) ↦ (do st' ← check_record st rec; check_loop fuel st' rest)
    | err e ↦ err e
    | panic ↦ panic
  ]

abbrev pub base_error : ChunkRecord → Option ChunkRecord → List CheckError
base_error rec none = base_not_found rec ∷ []
base_error rec (some base) = if is_full base.kind then [] else base_not_full rec ∷ []

abbrev pub base_errors_of : ChunkKind → List ChunkRecord → ChunkRecord → List CheckError
base_errors_of full full_index rec = []
base_errors_of zero_page full_index rec = []
base_errors_of delta full_index rec =
    if rec.base_key == 0
    then base_key_zero rec ∷ []
    else base_error rec (find_key rec.base_key full_index)

-- The second loop, over all records.
unfoldable pub base_errors : List ChunkRecord → List ChunkRecord → List CheckError
base_errors full_index [] = []
base_errors full_index (rec ∷ records) =
    base_errors_of rec.kind full_index rec ++ base_errors full_index records

-- The ids of the files that are there, ascending, with their sizes.
abbrev size_entry : ℕ → Option (List ℕ) → List (ℕ × ℕ)
size_entry id none = []
size_entry id (some bytes) = (id, length bytes) ∷ []

unfoldable pub blob_sizes : ℕ → BlobReaders → List (ℕ × ℕ)
blob_sizes zero blobs = []
blob_sizes (suc id) blobs = blob_sizes id blobs ++ size_entry id (blobs id)

abbrev pub empty_report : BlobReaders → CheckReport
empty_report blobs = record {
  total_records = 0;
  full_count = 0;
  delta_count = 0;
  zero_count = 0;
  errors = [];
  blob_file_sizes = blob_sizes 256 blobs;
}

abbrev pub start_state : BlobReaders → CheckState
start_state blobs = record { report = empty_report blobs; full_index = []; all_records = [] }

-- `check`, with the log if there is one.
unfoldable pub check : BulkDecompressor → Option (List ℕ) → BlobReaders → Result CheckReport
unfolding base_errors blob_sizes
check bulk none blobs = err no_log_file
check bulk (some log) blobs = do
  (max_snap, rest) ← read_and_verify_header log magic_log
  st ← check_loop bulk blobs (length rest + 1) (start_state blobs) rest
  let report = st.report
  ok (record report { errors = report.errors ++ base_errors st.full_index st.all_records })
