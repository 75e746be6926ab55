-- ===== src/Write/Save/Whole.antt =====
-- `save_all_pages` saves every page of the memory.
use bxdb.Base.{ℕ, zero, suc, ◌+◌, ◌*◌, ◌^◌, ◌≤◌, ◌<◌, ◌≡◌, refl, sym, ap, ◌∙◌, arith, none, some}
use bxdb.Base.{
  List, [], ◌∷◌, append-nil, Result, ok, length, All, false, ==_iff, ◌==◌, le→not-ltb, take, drop,
}
use bxdb.Base.{length-take, length-drop}
use bxdb.Base.Bytes.{IsByte, IsBytes}
use bxdb.Chunk.Key.{snapshot_of, max_snapshot_id}
use bxdb.Chunk.Record.{ChunkRecord}
use bxdb.Chunk.Patch.{IsPage, page_size}
use bxdb.Store.{Dir, BlobReaders}
use bxdb.Store.Zstd.{Zstd, IsLossless}
use bxdb.Write.Pass.{Pass, page_at, run_pass}
use bxdb.Write.Pass.Invariant.{run_pass-IsRun}
use bxdb.Write.Pass.Readers.{NotIn, IsDistinct}
use bxdb.Write.Pass.Schedule.{All-Permᴰ, length-Permᴰ, Permᴰ-IsDistinct}
use bxdb.Write.Save.{
  AppendOnlyDb, write_log, append_records, records_buf, stale, write_pages, save_all_pages,
  range_from,
}
use bxdb.Write.Save.State.{dir_of, flush, flush-dir_of, lookup_in, IsDb}
use bxdb.Write.Save.Reads.{buffer, after-IsDb, after-IsSave}
use bxdb.Write.Save.Promise.{IsSave}
use bxdb.Log.Sort.{All-mono}
use mathlib.Core.List.{Permᴰ}
use mathlib.Core.Path.{subst, fun_ext}
use mathlib.Core.List.Permᴰ

range_from-NotIn : (i j n : ℕ) → j < i → NotIn j (range_from i n)
range_from-NotIn i j zero h = tt
range_from-NotIn i j (suc n) h = (λ e. omega arith, range_from-NotIn (suc i) j n (omega arith))

range_from-IsDistinct : (i n : ℕ) → IsDistinct (range_from i n)
range_from-IsDistinct i zero = tt
range_from-IsDistinct i (suc n) =
    (range_from-NotIn (suc i) i n (omega arith), range_from-IsDistinct (suc i) n)

All-range_from : (P : ℕ → Type 0) (i n : ℕ) → ((j : ℕ) → j < i + n → P j) → All P (range_from i n)
All-range_from P i zero h = tt
All-range_from P i (suc n) h =
    (h i (omega arith), All-range_from P (suc i) n (λ j lt. h j (omega arith)))

All-every : (P : ℕ → Type 0) (xs : List ℕ) → ((x : ℕ) → P x) → All P xs
All-every P [] h = tt
All-every P (x ∷ xs) h = (h x, All-every P xs h)

All-take : (P : ℕ → Type 0) (n : ℕ) (xs : List ℕ) → All P xs → All P (take n xs)
All-take P zero xs h = tt
All-take P (suc n) [] h = tt
All-take P (suc n) (x ∷ xs) (h, hs) = (h, All-take P n xs hs)

All-drop : (P : ℕ → Type 0) (n : ℕ) (xs : List ℕ) → All P xs → All P (drop n xs)
All-drop P zero xs h = h
All-drop P (suc n) [] h = tt
All-drop P (suc n) (x ∷ xs) (h, hs) = All-drop P n xs hs

-- A page that lies inside the memory.
pub page_at-IsPage :
    (memory : List ℕ) (total pa : ℕ)
    → IsBytes memory
    → length memory ≡ total * 4096
    → pa < total
    → IsPage (page_at memory pa)
page_at-IsPage memory total pa bytes shape inside = (
  omega (arith, length-take 4096 (drop (pa * 4096) memory), length-drop (pa * 4096) memory),
  All-take IsByte 4096 (drop (pa * 4096) memory) (All-drop IsByte (pa * 4096) memory bytes),
)

write_pages-ran :
    (z : Zstd) (order pas memory : List ℕ) (s : ℕ) (db : AppendOnlyDb) (pass : Pass)
    (new : List ChunkRecord)
    → run_pass z memory s db.delta_threshold db.use_shadow db.blob_count order
        (record { shadow = db.shadow; files = db.blob_files; slots = λ pa. none })
      ≡ (pass, ok tt)
    → records_buf pas pass.slots ≡ ok new
    → write_pages z order pas memory s db ≡ (
      record db {
        shadow = pass.shadow;
        blob_files = pass.files;
        log = append_records db.log new s;
      },
      ok tt,
    )
unfolding write_pages
write_pages-ran z order pas memory s db pass new h e = ap (write_log pas s db) h ∙ rw (e, write_log)

module _ (z : Zstd) (lossless : IsLossless z) (others : BlobReaders) (records : List ChunkRecord)
    (db : AppendOnlyDb) (state : IsDb z others records db) (memory : List ℕ) (s : ℕ)
    (s_fits : s < 2 ^ 19) (above : All (λ r. snapshot_of r.key < s) records) (pas : List ℕ)
    (distinct : IsDistinct pas) (fits : All (λ pa. pa < 2 ^ 45) pas)
    (shapes : All (λ pa. IsPage (page_at memory pa)) pas) (order : List ℕ)
    (schedule : Permᴰ pas order)
    (room : (i : ℕ) → length (db.blob_files i).written + length pas * 8192 < 2 ^ 64) where
  taken : AppendOnlyDb
  taken = record db { last_snapshot = some s }

  pub write_pages-IsSave :
      IsSave z others
        (dir_of others)
        records
        pas
        memory
        s
        db
        (write_pages z order pas memory s (record db { last_snapshot = some s }))
  write_pages-IsSave =
      let begin : Pass = record { shadow = db.shadow; files = db.blob_files; slots = λ pa. none } in
      let r =
        run_pass-IsRun z lossless others db.blob_count state.some_worker state.few_workers
          (lookup_in records) memory s db.delta_threshold db.use_shadow order begin
          (Permᴰ-IsDistinct pas order schedule distinct) (All-Permᴰ _ pas order schedule shapes)
          state.counted (λ i. omega (arith, room i, length-Permᴰ pas order schedule))
          (All-every _ order (λ pa. state.bases pa)) in
      let saved = All-Permᴰ _ order pas (Permᴰ.symm schedule) r.pages in
      let (new, e, pairs) =
        buffer z others records db state memory s s_fits above pas distinct fits shapes r.after pas
          saved in
      after-IsSave z others records db state memory s s_fits above pas distinct fits shapes r.after
        new pairs r.grows _
        (write_pages-ran z order pas memory s (record db { last_snapshot = some s }) r.after new
          r.returns e)
        (after-IsDb z others records db state memory s s_fits above pas distinct fits shapes r.after
          new pairs r.grows r.counted
          (λ q out. (r.rest_kept q (All-Permᴰ _ pas order schedule out)).1))

suc-not-zero : (n : ℕ) → (suc n == 0) ≡ false
suc-not-zero n = ground arith

stale-lt : (s s' : ℕ) → stale s' (some s) ≡ none → s < s'
stale-lt s s' h = ground arith

-- A save of no pages takes the snapshot id.
pub empty-IsSave :
    (z : Zstd) (others : BlobReaders) (records : List ChunkRecord) (db : AppendOnlyDb)
    (memory : List ℕ) (s : ℕ)
    → IsDb z others records db
    → All (λ r. snapshot_of r.key < s) records
    → IsSave z others
        (dir_of others)
        records
        []
        memory
        s
        db
        (record db { last_snapshot = some s }, ok tt)
empty-IsSave z others records db memory s state above = record {
  after = record db { last_snapshot = some s };
  new = [];
  returns = refl;
  is_db =
      subst (λ rs. IsDb z others rs (record db { last_snapshot = some s }))
        (sym (append-nil records))
        (record {
          max_snap = state.max_snap;
          max_fits = state.max_fits;
          log_is = state.log_is;
          valid = state.valid;
          some_worker = state.some_worker;
          few_workers = state.few_workers;
          counted = state.counted;
          bases = state.bases;
          monotonic = λ s' fine.
              All-mono (λ r. snapshot_of r.key < s) (λ r. snapshot_of r.key < s')
                (λ r h. omega (arith, h, stale-lt s s' fine)) records above;
        });
  saved = tt;
  earlier_kept = λ pa s' page pa_fits lt h. h;
  untouched_kept = λ pa s' page pa_fits s'_fits out h. h;
}

-- What a save promises of the directory that a flush leaves, if there is no index.
pub IsSave-flush :
    (z : Zstd) (dir : Dir) (records : List ChunkRecord) (pas memory : List ℕ) (s : ℕ)
    (db : AppendOnlyDb) (result : AppendOnlyDb × Result (Unit {0}))
    → dir.index ≡ none
    → IsSave z dir.blobs (dir_of dir.blobs) records pas memory s db result
    → IsSave z dir.blobs (λ d. flush d dir) records pas memory s db result
IsSave-flush z dir records pas memory s db result no_index h =
    subst (λ dir_at. IsSave z dir.blobs dir_at records pas memory s db result)
      (fun_ext λ d. sym (flush-dir_of dir d no_index)) h

-- A save of the whole memory, with the pool's tasks in any order: it returns, and the database is
-- ready for the next save. In the directory that a flush after it leaves, every page of the memory
-- is read at the snapshot as it was in memory, and what could be read at earlier snapshots, in the
-- directory of a flush before it, is read as before. Nothing is said of reads without that flush.
-- The conditions: the directory has no index.bxdb, which readers take before the log; zstd is
-- lossless; the database is in the state that opening and saves leave; the snapshot id has 19 bits
-- and is not stale; the memory has the length of the pages; there are at most 2^45 pages; and the
-- blob files stay below 2^64 bytes.
pub save_all_pages-IsSave :
    (z : Zstd) (dir : Dir) (records : List ChunkRecord) (db : AppendOnlyDb) (memory : List ℕ)
    (total s : ℕ) (order : List ℕ)
    → IsLossless z
    → dir.index ≡ none
    → IsDb z dir.blobs records db
    → IsBytes memory
    → length memory ≡ total * page_size
    → total ≤ 2 ^ 45
    → s ≤ max_snapshot_id
    → stale s db.last_snapshot ≡ none
    → Permᴰ (range_from 0 total) order
    → ((i : ℕ) → length (db.blob_files i).written + length (range_from 0 total) * 8192 < 2 ^ 64)
    → IsSave z dir.blobs
        (λ d. flush d dir)
        records
        (range_from 0 total)
        memory
        s
        db
        (save_all_pages z order memory total s db)
unfolding save_all_pages
save_all_pages-IsSave z dir records db memory zero s order lossless no_index state bytes shape few
      small fine schedule room =
    rw (le→not-ltb 524287 s small, fine)
      (rw ((==_iff (length memory) 0).1 shape) (
        IsSave-flush z dir records [] memory s db _ no_index
          (empty-IsSave z dir.blobs records db memory s state (state.monotonic s fine))))
save_all_pages-IsSave z dir records db memory (suc n) s order lossless no_index state bytes shape
      few small fine schedule room =
    rw (le→not-ltb 524287 s small, fine)
      (rw ((==_iff (length memory) (suc n * 4096)).1 shape, suc-not-zero n)
        (IsSave-flush z dir records (range_from 0 (suc n)) memory s db _ no_index (
          write_pages-IsSave z lossless dir.blobs records db state memory s (omega (arith, small))
            (state.monotonic s fine) (range_from 0 (suc n)) (range_from-IsDistinct 0 (suc n))
            (All-range_from (λ pa. pa < 2 ^ 45) 0 (suc n) (λ j lt. omega (arith, lt, few)))
            (All-range_from (λ pa. IsPage (page_at memory pa)) 0 (suc n)
              (λ j lt. page_at-IsPage memory (suc n) j bytes shape (omega (arith, lt))))
            order schedule room)))
