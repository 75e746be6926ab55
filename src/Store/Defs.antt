-- ===== src/Store/Defs.antt =====
-- `PageStore`, `BlobReaders` and the resolution of a record to its page.
use bxdb.Base.{ℕ, ◌+◌, ◌-◌, ◌/◌, ◌%◌, ◌^◌, Option, none, some, List}
use bxdb.Base.{Result, ok, err, panic, ◌>>=◌, ◌>>◌, guard, leb, ltb, ◌==◌, slice, length}
use bxdb.Base.{replicate, if◌then◌else◌, blob_out_of_range, bad_page_size, delta_blob_out_of_range}
use bxdb.Base.{delta_base_missing, delta_base_not_full, snapshot_id_range, no_index_file, bad_magic}
use bxdb.Base.{index_misaligned, index_too_short, blob_offset_overflow}
use bxdb.Chunk.Key.{encode_key, max_snapshot_id}
use bxdb.Chunk.Record.{ChunkKind, full, delta, zero_page, ChunkRecord, is_full, fixed_record_size}
use bxdb.Chunk.Patch.{page_size, apply_delta_patch_in_place}
use bxdb.Format.{bytes_eq, magic_idx, magic_log, header_size, read_and_verify_header, peek_magic}
use bxdb.Log.Records.{read_log_file}
use bxdb.Log.Sort.{sort_dedup}
use bxdb.Index.{floor_mmap, exact_mmap, floor_sorted, exact_sorted, keys_of}
use bxdb.Store.Zstd.{Zstd}

-- The mapped blob files, by worker id.
abbrev pub BlobReaders : Type 0
BlobReaders = ℕ → Option (List ℕ)

-- `mmap(worker_id)` with its `expect`.
abbrev pub mmap : BlobReaders → ℕ → Result (List ℕ)
mmap blobs worker_id = elim (blobs worker_id) [ none ↦ panic | some bytes ↦ ok bytes ]

pub data IndexMode : Type 0 where
  btree_mode append_only_mode : IndexMode

-- The bytes of `index.bxdb` with the number of records, or those of `chunks.log`.
pub data IndexSource : Type 0 where
  btree : List ℕ → ℕ → IndexSource
  append_only : List ℕ → IndexSource

pub record PageStore : Type 0 where
  pub source : IndexSource
  pub blob_readers : BlobReaders
  pub mode : IndexMode

-- The files of a database directory.
pub record Dir : Type 0 where
  pub index : Option (List ℕ)
  pub log : Option (List ℕ)
  pub blobs : BlobReaders

unfoldable pub verify_index_header : List ℕ → Result (Unit {0})
verify_index_header bytes = do
  guard (leb header_size (length bytes)) index_too_short
  guard (bytes_eq (slice bytes 0 8) magic_idx) bad_magic

unfoldable pub open_btree : List ℕ → BlobReaders → Result PageStore
unfolding verify_index_header
open_btree bytes blobs = do
  verify_index_header bytes
  let body_len = length bytes - header_size
  guard (body_len % fixed_record_size == 0) index_misaligned
  ok (record {
    source = btree bytes (body_len / fixed_record_size);
    blob_readers = blobs;
    mode = btree_mode;
  })

unfoldable pub open_log : List ℕ → BlobReaders → Result PageStore
open_log bytes blobs = do
  (max_snap, rest) ← read_and_verify_header bytes magic_log
  ok (record { source = append_only bytes; blob_readers = blobs; mode = append_only_mode })

-- `PageStore::open`: the index where there is one, else the log.
abbrev pub open_files : Option (List ℕ) → Option (List ℕ) → BlobReaders → Result PageStore
open_files (some index) log blobs = open_btree index blobs
open_files none (some log) blobs = open_log log blobs
open_files none none blobs = err no_index_file

abbrev pub open_store : Dir → Result PageStore
open_store dir = open_files dir.index dir.log dir.blobs

-- `detect_mode`
unfoldable pub detect_mode : Option (List ℕ) → Option (List ℕ) → Result IndexMode
detect_mode (some index) log = do
  magic ← peek_magic index
  guard (bytes_eq magic magic_idx) bad_magic
  ok btree_mode
detect_mode none (some log) = do
  magic ← peek_magic log
  guard (bytes_eq magic magic_log) bad_magic
  ok append_only_mode
detect_mode none none = err no_index_file

-- `build_lazy_index`: the records, one for each key and ascending; `keys` are their keys. The
-- slot that keeps the index is a memo of this.
unfoldable pub build_lazy_index : List ℕ → Result (List ChunkRecord)
build_lazy_index log = do records ← read_log_file log; ok (sort_dedup records)

unfoldable pub floor : IndexSource → ℕ → ℕ → Result (Option ChunkRecord)
unfolding build_lazy_index
floor (btree bytes n) pa snapshot_id = ok (floor_mmap bytes n (encode_key pa snapshot_id) pa)
floor (append_only log) pa snapshot_id = do
  records ← build_lazy_index log
  ok (floor_sorted (keys_of records) records (encode_key pa snapshot_id) pa)

unfoldable pub exact_lookup : IndexSource → ℕ → Result (Option ChunkRecord)
unfolding build_lazy_index
exact_lookup (btree bytes n) key = ok (exact_mmap bytes n key)
exact_lookup (append_only log) key = do
  records ← build_lazy_index log
  ok (exact_sorted (keys_of records) records key)

-- `checked_add` on 64 bits, the range test, and the length of what zstd wrote.
unfoldable pub decompress_from : Zstd → List ℕ → ChunkRecord → Result (List ℕ)
decompress_from z bytes rec = do
  guard (ltb (rec.offset + rec.len) (2 ^ 64)) blob_offset_overflow
  guard (leb (rec.offset + rec.len) (length bytes)) blob_out_of_range
  page ← z.decompress (slice bytes rec.offset rec.len)
  guard (length page == page_size) bad_page_size
  ok page

-- `mmap.as_bytes().get(start..end)`; a sum that wraps is no range of the file either.
unfoldable pub delta_from : List ℕ → ChunkRecord → Result (List ℕ)
delta_from bytes rec = do
  guard (leb (rec.offset + rec.len) (length bytes)) delta_blob_out_of_range
  ok (slice bytes rec.offset rec.len)

-- `ok_or_else(missing)?` and the test of the kind.
unfoldable pub full_base : Option ChunkRecord → Result ChunkRecord
full_base none = err delta_base_missing
full_base (some base_rec) = if is_full base_rec.kind then ok base_rec else err delta_base_not_full

-- The bytes of a delta record in its blob file.
unfoldable pub delta_blob : BlobReaders → ChunkRecord → Result (List ℕ)
unfolding delta_from
delta_blob blobs rec = do bytes ← mmap blobs rec.worker_id; delta_from bytes rec

module _ (z : Zstd) (blobs : BlobReaders) where
  unfoldable pub decompress_blob_into : ChunkRecord → Result (List ℕ)
  unfolding decompress_from
  decompress_blob_into rec = do bytes ← mmap blobs rec.worker_id; decompress_from z bytes rec

  -- `resolve_uncached`, with the index as a lookup of keys.
  abbrev pub resolve_kind :
      (ℕ → Result (Option ChunkRecord)) → ChunkKind → ChunkRecord → Result (List ℕ)
  resolve_kind lookup zero_page rec = ok (replicate page_size 0)
  resolve_kind lookup full rec = decompress_blob_into rec
  resolve_kind lookup delta rec = do
    found ← lookup rec.base_key
    base_rec ← full_base found
    base ← decompress_blob_into base_rec
    blob ← delta_blob blobs rec
    apply_delta_patch_in_place blob base

  unfoldable pub resolve_uncached :
      (ℕ → Result (Option ChunkRecord)) → ChunkRecord → Result (List ℕ)
  unfolding decompress_blob_into delta_blob full_base
  resolve_uncached lookup rec = resolve_kind lookup rec.kind rec

-- What `load_page` does with the answer of the floor query: `false` is no page.
abbrev pub resolve_found :
    (ChunkRecord → Result (List ℕ)) → Option ChunkRecord → Result (Option (List ℕ))
resolve_found resolve none = ok none
resolve_found resolve (some rec) = do page ← resolve rec; ok (some page)

-- `BtreeDb::load_page` without a shared cache, where each branch of `resolve_cached` does what
-- `resolve_uncached` does.
unfoldable pub load_page : Zstd → PageStore → ℕ → ℕ → Result (Option (List ℕ))
load_page z store pa snapshot_id = do
  guard (leb snapshot_id max_snapshot_id) snapshot_id_range
  found ← floor store.source pa snapshot_id
  resolve_found (resolve_uncached z store.blob_readers (exact_lookup store.source)) found
