-- ===== src/Store/Bulk.antt =====
-- `load_all_pages` of bxdb-core/src/append_only.rs.
use bxdb.Base.{ℕ, ◌+◌, ◌*◌, Option, none, some, List, [], ◌∷◌, Bool, true, false, ◌==◌, leb, max}
use bxdb.Base.{
  Result, ok, panic, ◌>>=◌, ◌>>◌, guard, snapshot_id_range, output_length, output_unaligned,
}
use bxdb.Chunk.Key.{max_snapshot_id}
use bxdb.Chunk.Patch.{page_size}
use bxdb.Chunk.Record.{ChunkRecord}
use bxdb.Log.Records.{read_log_file}
use bxdb.Store.Defs.{
  Dir, PageStore, IndexMode, btree_mode, append_only_mode, floor, exact_lookup, resolve_uncached,
  resolve_found, open_store,
}
use bxdb.Store.Zstd.{Zstd}
use bxdb.Store.Scan.{scan}
use bxdb.Store.Runs.{load_runs}

-- `Ok(success)`: the pages of the output, and whether each had a record.
unfoldable pub all_found : List (Option (List ℕ)) → Bool
all_found [] = true
all_found (none ∷ pages) = false
all_found (some page ∷ pages) = all_found pages

abbrev pub with_success : Result (List (Option (List ℕ))) → Result (List (Option (List ℕ)) × Bool)
with_success r = r >>= (λ pages. ok (pages, all_found pages))

abbrev pub resolve : Zstd → PageStore → ChunkRecord → Result (List ℕ)
resolve z store = resolve_uncached z store.blob_readers (exact_lookup store.source)

module _ (z : Zstd) (store : PageStore)
    (pa_offset total_page_count snapshot_id worker_count : ℕ) where
  -- A floor query for each page.
  unfoldable pub load_all_btree : Result (List (Option (List ℕ)) × Bool)
  load_all_btree = with_success (
      load_runs
        (λ i.
          floor store.source (pa_offset + i) snapshot_id
          >>= (λ found. resolve_found (resolve z store) found))
        worker_count total_page_count)

  -- One scan of the log, and then the slots, a run of them for each worker.
  unfoldable pub load_all_log : List ℕ → Result (List (Option (List ℕ)) × Bool)
  load_all_log log = do
    records ← read_log_file log
    let latest = scan pa_offset total_page_count snapshot_id records (λ slot. none)
    with_success
        (load_runs (λ i. resolve_found (resolve z store) (latest i)) worker_count total_page_count)

-- `store.log_path().expect(..)`
abbrev pub expect_log : Option (List ℕ) → Result (List ℕ)
expect_log none = panic
expect_log (some log) = ok log

abbrev pub load_by_mode :
    Zstd
    → IndexMode
    → PageStore
    → Option (List ℕ)
    → ℕ
    → ℕ
    → ℕ
    → ℕ
    → Result (List (Option (List ℕ)) × Bool)
load_by_mode z btree_mode store log pa_offset total snapshot_id workers =
    load_all_btree z store pa_offset total snapshot_id workers
load_by_mode z append_only_mode store log pa_offset total snapshot_id workers = do
  file ← expect_log log
  load_all_log z store pa_offset total snapshot_id workers file

-- `out_len` and `aligned` are the length of the output and whether its address is that of a page.
unfoldable pub load_all_pages :
    Zstd → Dir → ℕ → Bool → ℕ → ℕ → ℕ → ℕ → Result (List (Option (List ℕ)) × Bool)
unfolding load_all_btree load_all_log
load_all_pages z dir out_len aligned pa_offset total_page_count snapshot_id worker_count = do
  guard (leb snapshot_id max_snapshot_id) snapshot_id_range
  guard (out_len == total_page_count * page_size) output_length
  guard aligned output_unaligned
  store ← open_store dir
  load_by_mode z store.mode store dir.log pa_offset total_page_count snapshot_id
      (max worker_count 1)
