-- ===== src/Tests/Data.antt =====
-- The pages, records and the zstd stand-in of the tests.
use bxdb.Base.{
  ℕ, zero, suc, ◌*◌, ◌+◌, ◌<◌, refl, arith, List, [], ◌∷◌, ok, replicate, All, some, none, ◌==◌,
  if◌then◌else◌,
}
use bxdb.Base.{length-replicate}
use bxdb.Base.Bytes.{IsByte}
use bxdb.Chunk.Record.{ChunkRecord, new_full, new_delta, new_zero, IsLoggable}
use bxdb.Chunk.Patch.{IsPage}
use bxdb.Store.{BlobReaders}
use bxdb.Store.Zstd.{Zstd, IsLossless}

pub All-replicate : (n b : ℕ) → b < 256 → All IsByte (replicate n b)
All-replicate zero b h = tt
All-replicate (suc n) b h = (h, All-replicate n b h)

abbrev pub page_of : ℕ → List ℕ
page_of b = replicate 4096 b

pub page_of-IsPage : (b : ℕ) → b < 256 → IsPage (page_of b)
page_of-IsPage b h = (length-replicate 4096 b, All-replicate 4096 b h)

-- A stand-in that stores what it is given.
abbrev pub stored : Zstd
stored = record { compress = λ p. ok p; decompress = λ p. ok p }

pub stored-IsLossless : IsLossless stored
stored-IsLossless = record {
  compressed = λ p h. p;
  compress_ok = λ p h. refl;
  compress_bound = λ p h. omega arith;
  restores = λ p h. refl;
}

-- Worker 1's file holds the page of nines; there are no other files.
abbrev pub files : BlobReaders
files i = if i == 1 then some (page_of 9) else none

-- Address 3 at snapshots 5 and 9, and address 4 at snapshot 5.
abbrev pub first : ChunkRecord
first = new_full (3 * 524288 + 5) 1 0 4096

abbrev pub second : ChunkRecord
second = new_delta (3 * 524288 + 9) 1 4096 20 (3 * 524288 + 5)

abbrev pub other : ChunkRecord
other = new_zero (4 * 524288 + 5)

abbrev pub log_records : List ChunkRecord
log_records = first ∷ other ∷ second ∷ []

pub first-IsLoggable : IsLoggable first
first-IsLoggable = (omega arith, λ h. refl)

pub second-IsLoggable : IsLoggable second
second-IsLoggable = (omega arith, λ h. cc)

pub log_records-IsLoggable : All IsLoggable log_records
log_records-IsLoggable = (first-IsLoggable, ((omega arith, λ h. refl), (second-IsLoggable, tt)))
