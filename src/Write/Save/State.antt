-- ===== src/Write/Save/State.antt =====
-- What a database between two saves is, over the records that its log has.
use bxdb.Base.{
  ℕ, ◌^◌, ◌≤◌, ◌<◌, ◌≡◌, ap, ◌∙◌, Option, none, some, List, [], Result, ok, >>=-eq-ok, All,
}
use bxdb.Chunk.Key.{snapshot_of}
use bxdb.Chunk.Record.{ChunkRecord, IsLoggable}
use bxdb.Log.Newest.{newest}
use bxdb.Log.Sort.{sort_dedup}
use bxdb.Index.Sorted.{find_key}
use bxdb.Store.{BlobReaders, Dir, resolve_uncached, resolve_found}
use bxdb.Store.Zstd.{Zstd}
use bxdb.Store.Lookup.{log_of}
use bxdb.Store.Blobs.{Grows, resolve-Grows}
use bxdb.Convert.Reads.{spec_page}
use bxdb.Write.Shadow.{get}
use bxdb.Write.Saved.{IsCounted, EntryIsBase}
use bxdb.Write.Pass.Readers.{readers}
use bxdb.Write.Save.{AppendOnlyDb, stale}

-- `flush`: the log and the blob files of the workers have in them what was handed to their writers.
-- Before it they have any part of that, and `dir` stands for whatever they have; the index and the
-- other blob files stay.
unfoldable pub flush : AppendOnlyDb → Dir → Dir
flush db dir = record dir {
  log = some db.log;
  blobs = readers dir.blobs db.blob_count db.blob_files;
}

-- The blob files as a flush leaves them, where `others` are the files before it.
abbrev pub disk : BlobReaders → AppendOnlyDb → BlobReaders
disk others db = readers others db.blob_count db.blob_files

-- The directory as a flush leaves it, if it has no index file.
abbrev pub dir_of : BlobReaders → AppendOnlyDb → Dir
dir_of others db = record { index = none; log = some db.log; blobs = disk others db }

pub flush-dir_of :
    (dir : Dir) (db : AppendOnlyDb) → dir.index ≡ none → flush db dir ≡ dir_of dir.blobs db
unfolding flush
flush-dir_of dir db no_index =
    ap (λ i. record { index = i; log = some db.log; blobs = disk dir.blobs db }) no_index

abbrev pub lookup_in : List ChunkRecord → ℕ → Result (Option ChunkRecord)
lookup_in records key = ok (find_key key (sort_dedup records))

-- The log is a header and the records; counters are right; each entry of the shadow is the page
-- of a full record of the log; and a snapshot id that the guard lets through is greater than
-- that of every record.
pub record IsDb (z : Zstd) (others : BlobReaders) (records : List ChunkRecord) (db : AppendOnlyDb)
    : Type 0 where
  pub max_snap : ℕ
  pub max_fits : max_snap < 256 ^ 4
  pub log_is : db.log ≡ log_of max_snap records []
  pub valid : All IsLoggable records
  pub some_worker : 0 < db.blob_count
  pub few_workers : db.blob_count ≤ 255
  pub counted : (i : ℕ) → IsCounted (db.blob_files i)
  pub bases : (q : ℕ) → EntryIsBase z (disk others db) (lookup_in records) (get db.shadow q)
  pub monotonic :
      (s : ℕ) → stale s db.last_snapshot ≡ none → All (λ r. snapshot_of r.key < s) records

-- A page that is read goes on to be read when blob files grow and the index finds more, as long
-- as the newest record is the same.
pub spec_page-Grows :
    (z : Zstd) (old_files new_files : BlobReaders) (old new : List ChunkRecord) (pa s : ℕ)
    (page : Option (List ℕ))
    → Grows old_files new_files
    → ((key : ℕ) (b : ChunkRecord)
        → lookup_in old key ≡ ok (some b)
        → lookup_in new key ≡ ok (some b))
    → newest pa s new ≡ newest pa s old
    → spec_page z old_files old pa s ≡ ok page
    → spec_page z new_files new pa s ≡ ok page
unfolding spec_page
spec_page-Grows z old_files new_files old new pa s page grows more same h =
    ap (resolve_found (resolve_uncached z new_files (lookup_in new))) same
    ∙ by_newest (newest pa s old) h
  where
    by_newest :
        (o : Option ChunkRecord)
        → resolve_found (resolve_uncached z old_files (lookup_in old)) o ≡ ok page
        → resolve_found (resolve_uncached z new_files (lookup_in new)) o ≡ ok page
    by_newest none h = h
    by_newest (some rec) h =
        let (bytes, r, rest) = >>=-eq-ok (resolve_uncached z old_files (lookup_in old) rec) _ h in
        rw
          (resolve-Grows z old_files new_files grows (lookup_in old) (lookup_in new) rec bytes more
            r)
          rest
