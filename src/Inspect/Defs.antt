-- ===== src/Inspect/Defs.antt =====
-- The records that are browsed, the list with its filter, and the detail of a record.
use bxdb.Base.{ℕ, zero, suc, ◌+◌, ◌-◌, ◌/◌, ◌%◌, min, Option, none, some, List, [], ◌∷◌}
use bxdb.Base.{
  Bool, true, false, leb, ◌==◌, ◌&&◌, ◌||◌, if◌then◌else◌, Result, ok, err, panic, ◌>>=◌, ◌>>◌,
  guard, Error, eof, no_blob_file,
}
use bxdb.Base.{length, take, drop, slice, get_elem?}
use bxdb.Base.Bytes.{from_le_bytes}
use bxdb.Chunk.Key.{pa_of, snapshot_of}
use bxdb.Chunk.Record.{ChunkRecord, ChunkKind, full, delta, zero_page}
use bxdb.Store.{BlobReaders}

-- One constructor for each way a detail is shown; the messages have their causes alone.
pub data Detail : Type 0 where
  full_detail : List ℕ → Detail
  delta_detail : List (ℕ × ℕ) → Detail
  zero_detail : Detail
  blob_read_failed : Error → Detail
  zstd_decode_failed : Detail
  bad_delta_blob : Detail

-- The fields that the keys work on; the lines that are typed are lists of characters. What is only
-- shown (dir, mode, stats, max_snapshot, export_status) is left out.
pub record App : Type 0 where
  pub records : List ChunkRecord
  pub selected : Option ℕ
  pub detail_scroll : ℕ
  pub detail : Option (ℕ × Detail)
  pub filter_snapshot : Option ℕ
  pub filter_pa : Option ℕ
  pub filtered_indices : Option (List ℕ)
  pub filter_input : Option (List ℕ)
  pub export_input : Option (List ℕ)

abbrev pub active_of : List ChunkRecord → Option (List ℕ) → ℕ
active_of records none = length records
active_of records (some indices) = length indices

abbrev pub active_count : App → ℕ
active_count app = active_of app.records app.filtered_indices

-- `select(if count > 0 { Some(0) } else { None })`
abbrev pub first_of : ℕ → Option ℕ
first_of zero = none
first_of (suc n) = some 0

abbrev pub new_app : List ChunkRecord → App
new_app records = record {
  records = records;
  selected = first_of (length records);
  detail_scroll = 0;
  detail = none;
  filter_snapshot = none;
  filter_pa = none;
  filtered_indices = none;
  filter_input = none;
  export_input = none;
}

abbrev pub or_zero : Option ℕ → ℕ
or_zero none = 0
or_zero (some i) = i

-- The selection is set to `i`, or left where the list is empty.
abbrev pub select : App → ℕ → App
select app i =
    if active_count app == 0
    then app
    else record app { selected = some (min i (active_count app - 1)); detail_scroll = 0 }

-- `move_by`, for the negative and the positive numbers of rows.
unfoldable pub move_up : App → ℕ → App
move_up app rows = select app (or_zero app.selected - rows)

unfoldable pub move_down : App → ℕ → App
move_down app rows = select app (or_zero app.selected + rows)

unfoldable pub go_to : App → ℕ → App
go_to app i = select app i

-- An index behind the end of a vector panics.
abbrev pub index_of_list {ℓ} : {A : Type ℓ} → Option A → Result A
index_of_list none = panic
index_of_list (some a) = ok a

abbrev pub real_of : Option (List ℕ) → ℕ → Result ℕ
real_of none active_idx = ok active_idx
real_of (some indices) active_idx = index_of_list (get_elem? indices active_idx)

unfoldable pub record_at : App → ℕ → Result ChunkRecord
record_at app active_idx = do
  i ← real_of app.filtered_indices active_idx
  index_of_list (get_elem? app.records i)

-- The test of the filter on a record.
abbrev pub is_wanted : Option ℕ → ℕ → Bool
is_wanted none n = true
is_wanted (some m) n = n == m

abbrev pub matches : Option ℕ → Option ℕ → ChunkRecord → Bool
matches snap pa r = is_wanted snap (snapshot_of r.key) && is_wanted pa (pa_of r.key)

-- `enumerate`, `filter` and `map`; `i` is the index of the first record.
unfoldable pub filter_from : ℕ → Option ℕ → Option ℕ → List ChunkRecord → List ℕ
filter_from i snap pa [] = []
filter_from i snap pa (r ∷ records) =
    let rest = filter_from (suc i) snap pa records in if matches snap pa r then i ∷ rest else rest

unfoldable pub apply_filter : App → Option ℕ → Option ℕ → App
unfolding filter_from
apply_filter app snap pa =
    let indices = filter_from 0 snap pa app.records in
    record app {
      filtered_indices = some indices;
      filter_snapshot = snap;
      filter_pa = pa;
      detail = none;
      selected = first_of (length indices);
      detail_scroll = 0;
    }

unfoldable pub clear_filter : App → App
clear_filter app = record app {
  filtered_indices = none;
  filter_snapshot = none;
  filter_pa = none;
  detail = none;
  selected = first_of (length app.records);
  detail_scroll = 0;
}

-- The loop over `chunks_exact(10)`, with the number of chunks that are left.
unfoldable pub decode_chunks : ℕ → List ℕ → List (ℕ × ℕ)
decode_chunks zero blob = []
decode_chunks (suc n) blob =
    let chunk = take 10 blob in
    (from_le_bytes (slice chunk 0 2), from_le_bytes (slice chunk 2 8))
    ∷ decode_chunks n (drop 10 blob)

unfoldable pub decode_delta : List ℕ → Option (List (ℕ × ℕ))
unfolding decode_chunks
decode_delta blob =
    if length blob % 10 == 0 then some (decode_chunks (length blob / 10) blob) else none

-- `read_exact_at`, from a file that stays open. It reads nothing into an empty buffer, at whatever
-- offset.
unfoldable pub read_blob : BlobReaders → ChunkRecord → Result (List ℕ)
read_blob blobs rec = elim (blobs rec.worker_id) [
  | none ↦ err no_blob_file
  | some bytes ↦ (do
    guard (rec.len == 0 || leb (rec.offset + rec.len) (length bytes)) eof
    ok (slice bytes rec.offset rec.len))
]

abbrev full_of : Option (List ℕ) → Detail
full_of none = zstd_decode_failed
full_of (some page) = full_detail page

abbrev patch_of : Option (List (ℕ × ℕ)) → Detail
patch_of none = bad_delta_blob
patch_of (some patch) = delta_detail patch

abbrev pub shown : (List ℕ → Detail) → Result (List ℕ) → Result Detail
shown show panic = panic
shown show (err e) = ok (blob_read_failed e)
shown show (ok blob) = ok (show blob)

-- `decode_all` is zstd's.
module _ (decode_all : List ℕ → Option (List ℕ)) (blobs : BlobReaders) where
  abbrev pub detail_by_kind : ChunkKind → ChunkRecord → Result Detail
  detail_by_kind zero_page rec = ok zero_detail
  detail_by_kind full rec = shown (λ blob. full_of (decode_all blob)) (read_blob blobs rec)
  detail_by_kind delta rec = shown (λ blob. patch_of (decode_delta blob)) (read_blob blobs rec)

  unfoldable pub detail_of : ChunkRecord → Result Detail
  unfolding read_blob decode_delta
  detail_of rec = detail_by_kind rec.kind rec

  abbrev pub show_detail : App → ℕ → Result App
  show_detail app i = do
    rec ← record_at app i
    d ← detail_of rec
    ok (record app { detail = some (i, d) })

  -- Whether the detail that is there is that of the selection.
  abbrev pub is_shown : Option (ℕ × Detail) → ℕ → Bool
  is_shown none i = false
  is_shown (some (idx, d)) i = idx == i

  abbrev pub ensure_selected : App → Option ℕ → Result App
  ensure_selected app none = ok app
  ensure_selected app (some i) =
      let shown_now = show_detail app i in if is_shown app.detail i then ok app else shown_now

  unfoldable pub ensure_detail : App → Result App
  unfolding detail_of record_at
  ensure_detail app = ensure_selected app app.selected
