-- ===== src/Write/Save/Open.antt =====
-- A database that was opened is in the state that saves expect.
use bxdb.Base.{
  ℕ, ◌^◌, ◌≤◌, ◌<◌, ◌≡◌, refl, sym, arith, Option, none, some, List, [], ◌++◌, append-nil,
}
use bxdb.Base.{Bool, ok, length, All, le→leb, if◌then◌else◌, ◌==◌}
use bxdb.Chunk.Key.{snapshot_of}
use bxdb.Chunk.Record.{ChunkRecord, IsLoggable}
use bxdb.Format.{write_log_header, write_header, read_and_verify_header-write_header, log_file}
use bxdb.Log.Records.{write_records}
use bxdb.Log.Sort.{All-mono}
use bxdb.Store.{BlobReaders}
use bxdb.Store.Zstd.{Zstd}
use bxdb.Store.Lookup.{log_of}
use bxdb.Write.Shadow.{new_shadow, get}
use bxdb.Write.Saved.{EntryIsBase}
use bxdb.Write.Save.{AppendOnlyDb, open_db, stale, open_log_file}
use bxdb.Write.Save.State.{lookup_in, IsDb}

abbrev pub opened_db : ℕ → ℕ → Bool → List ℕ → (ℕ → List ℕ) → Option ℕ → AppendOnlyDb
opened_db worker_count threshold use_shadow log blobs last = record {
  delta_threshold = if threshold == 0 then 256 else threshold;
  use_shadow = use_shadow;
  shadow = new_shadow;
  log = log;
  blob_count = worker_count;
  blob_files = λ i. record { written = blobs i; offset = length (blobs i) };
  last_snapshot = last;
}

stale-none : (s last : ℕ) → stale s (some last) ≡ none → last < s
stale-none s last h = ground arith

open_log_file-log_of :
    (max_snap : ℕ) (records : List ChunkRecord)
    → max_snap < 256 ^ 4
    → open_log_file (log_of max_snap records []) ≡ ok (log_of max_snap records [], some max_snap)
unfolding write_header
open_log_file-log_of max_snap records h =
    rw (read_and_verify_header-write_header log_file max_snap (write_records records ++ []) h)

module _ (z : Zstd) (others : BlobReaders) (worker_count threshold : ℕ) (use_shadow : Bool)
    (some_worker : 1 ≤ worker_count) (few_workers : worker_count ≤ 255) (blobs : ℕ → List ℕ) where
  no_entry :
      (records : List ChunkRecord) (readers : BlobReaders) (q : ℕ)
      → EntryIsBase z readers (lookup_in records) (get new_shadow q)
  unfolding get new_shadow
  no_entry records readers q = tt

  open_db-opened :
      (log bytes : List ℕ) (last : Option ℕ)
      → open_log_file log ≡ ok (bytes, last)
      → open_db worker_count threshold use_shadow log blobs
        ≡ ok (opened_db worker_count threshold use_shadow bytes blobs last)
  unfolding open_db
  open_db-opened log bytes last h =
      rw (le→leb 1 worker_count some_worker, le→leb worker_count 255 few_workers) (rw h)

  -- Opening a log of valid records, none of a later snapshot than the header's, and any blob
  -- files, with 1 to 255 workers, returns a database in the state that saves expect.
  pub open_db-IsDb :
      (records : List ChunkRecord) (max_snap : ℕ)
      → All IsLoggable records
      → All (λ r. snapshot_of r.key ≤ max_snap) records
      → max_snap < 256 ^ 4
      → (db : AppendOnlyDb) × (open_db worker_count threshold use_shadow
            (log_of max_snap records [])
            blobs
          ≡ ok db)
        × IsDb z others records db
  open_db-IsDb records max_snap valid bounded fits = (
    opened_db worker_count threshold use_shadow (log_of max_snap records []) blobs (some max_snap),
    open_db-opened _ _ _ (open_log_file-log_of max_snap records fits),
    record {
      max_snap = max_snap;
      max_fits = fits;
      log_is = refl;
      valid = valid;
      some_worker = some_worker;
      few_workers = few_workers;
      counted = λ i. refl;
      bases = λ q. no_entry records _ q;
      monotonic = λ s fine.
          All-mono (λ r. snapshot_of r.key ≤ max_snap) (λ r. snapshot_of r.key < s)
            (λ r h. omega (arith, h, stale-none s max_snap fine)) records bounded;
    },
  )

  pub opened_db-IsDb :
      IsDb z others [] (opened_db worker_count threshold use_shadow (write_log_header 0) blobs none)
  opened_db-IsDb = record {
    max_snap = 0;
    max_fits = omega arith;
    log_is = unfold write_records in sym (append-nil (write_log_header 0));
    valid = tt;
    some_worker = some_worker;
    few_workers = few_workers;
    counted = λ i. refl;
    bases = λ q. no_entry [] _ q;
    monotonic = λ s fine. tt;
  }

  -- Opening a new directory with 1 to 255 workers returns a database with no records in the
  -- state that saves expect, and no snapshot id is taken.
  pub open_db_new :
      (db : AppendOnlyDb) × (open_db worker_count threshold use_shadow [] blobs ≡ ok db)
      × IsDb z others [] db
      × (db.last_snapshot ≡ none)
  open_db_new = (
    opened_db worker_count threshold use_shadow (write_log_header 0) blobs none,
    open_db-opened [] (write_log_header 0) none refl,
    opened_db-IsDb,
    refl,
  )
