-- ===== src/Convert.antt =====
-- bxdb-core/src/convert.rs: the two conversions, on the bytes of the files.
pub mod Reads
pub mod Stores
pub mod Cached
pub mod Found
pub mod Bulk
pub mod ToLog
use bxdb.Base.{
  ℕ, zero, suc, ◌+◌, ◌<◌, ◌^◌, ◌≡◌, refl, ap, ◌∙◌, arith, max, Option, some, none, List, [], ◌∷◌,
}
use bxdb.Base.{◌++◌, Result, ok, err, panic, ◌>>=◌, length, All, map}
use bxdb.Base.Stream.{read_exact}
use bxdb.Chunk.Key.{snapshot_of, snapshot_of-le}
use bxdb.Chunk.Record.{ChunkRecord, IsLoggable, fixed_record_size, decode_fixed}
use bxdb.Format.{write_index_header, write_log_header, read_and_verify_header, magic_idx}
use bxdb.Log.Records.{read_log_file, write_fixed_records}
use bxdb.Log.RoundTrip.{read_log_file-write_records}
use bxdb.Log.Sort.{sort_dedup}
use bxdb.Index.Mmap.{index_of}
use bxdb.Store.Lookup.{log_of}

-- `records.iter().map(|r| snapshot_of(r.key)).max().unwrap_or(0)`
unfoldable pub max_snapshot : List ChunkRecord → ℕ
max_snapshot [] = 0
max_snapshot (r ∷ rs) = max (snapshot_of r.key) (max_snapshot rs)

-- The new `index.bxdb`. It is written to a temporary file and renamed, so that a failure before
-- leaves the directory as it was.
unfoldable pub to_btree : List ℕ → Result (List ℕ)
unfolding max_snapshot
to_btree log = do
  records ← read_log_file log
  let sorted = sort_dedup records
  ok (write_index_header (max_snapshot sorted) ++ write_fixed_records sorted)

-- A log of records becomes the index of these records, one for each key and ascending.
pub to_btree-log_of :
    (records : List ChunkRecord) (max_snap : ℕ) (torn : List ℕ)
    → All IsLoggable records
    → max_snap < 256 ^ 4
    → length torn < 22
    → to_btree (log_of max_snap records torn)
      ≡ ok (index_of (max_snapshot (sort_dedup records)) (sort_dedup records))
unfolding to_btree
to_btree-log_of records max_snap torn v h t =
    rw (read_log_file-write_records records max_snap torn v h t)

pub max_snapshot-le : (rs : List ChunkRecord) → max_snapshot rs < 2 ^ 19
unfolding max_snapshot
max_snapshot-le [] = omega arith
max_snapshot-le (r ∷ rs) = omega (arith, snapshot_of-le r.key, max_snapshot-le rs)
