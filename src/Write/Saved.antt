-- ===== src/Write/Saved.antt =====
-- What `process_one` promises for one page.
use bxdb.Base.{ℕ, ◌+◌, ◌^◌, ◌≤◌, ◌<◌, ◌≡◌, refl, ap₂, arith, Option, none, some}
use bxdb.Base.{List, [], ◌∷◌, ◌++◌, ◌⊎◌, Result, ok, true}
use bxdb.Base.{length, replicate, ◌==◌, lt→ltb}
use bxdb.Base.{if◌then◌else◌}
use bxdb.Chunk.Key.{encode_key}
use bxdb.Chunk.Record.{ChunkRecord, is_full, IsLoggable}
use bxdb.Chunk.Patch.{IsPage, is_all_zero}
use bxdb.Store.{BlobReaders, decompress_blob_into}
use bxdb.Store.{resolve_uncached}
use bxdb.Store.Zstd.{Zstd}
use bxdb.Write.Shadow.{ShadowEntry, get}
use bxdb.Write.Defs.{BlobFile, Writer, append_blob}

-- The counter is the number of bytes that were written.
abbrev pub IsCounted : BlobFile → Type 0
IsCounted blob = blob.offset ≡ length blob.written

-- The blob files once the worker's file is on disk as it was written.
abbrev pub readers_after : BlobReaders → ℕ → BlobFile → BlobReaders
readers_after blobs worker_id blob i = if i == worker_id then some blob.written else blobs i

-- What an entry of the shadow promises: under its key the index has a full record of its page.
pub record IsBase (z : Zstd) (blobs : BlobReaders) (lookup : ℕ → Result (Option ChunkRecord))
    (base_key : ℕ) (base_page : List ℕ) : Type 0 where
  pub base_rec : ChunkRecord
  pub found : lookup base_key ≡ ok (some base_rec)
  pub base_key_fits : base_key < 2 ^ 64
  pub is_base_full : is_full base_rec.kind ≡ true
  pub decompresses : decompress_blob_into z blobs base_rec ≡ ok base_page
  pub base_is_page : IsPage base_page

abbrev pub EntryIsBase :
    Zstd → BlobReaders → (ℕ → Result (Option ChunkRecord)) → Option ShadowEntry → Type 0
EntryIsBase z blobs lookup none = Unit {0}
EntryIsBase z blobs lookup (some (base_key, base_page)) = IsBase z blobs lookup base_key base_page

pub is_all_zero→eq : (page : List ℕ) → is_all_zero page ≡ true → page ≡ replicate (length page) 0
unfolding is_all_zero
is_all_zero→eq [] h = refl
is_all_zero→eq (b ∷ page) h = ap₂ ◌∷◌ (ground arith) (is_all_zero→eq page (ground arith))

pub append_blob_ok :
    (blob : BlobFile) (bytes : List ℕ)
    → length bytes ≤ 8192
    → append_blob blob bytes
      ≡ ok (
        (blob.offset, length bytes),
        record { written = blob.written ++ bytes; offset = blob.offset + length bytes },
      )
unfolding append_blob
append_blob_ok blob bytes h = rw (lt→ltb (length bytes) (2 ^ 32) (omega arith))

-- What `process_one` has done on a page: it has returned a record with the key of the address
-- and the snapshot, and a worker file that is longer by the record's blob; the record resolves
-- to the page; and the shadow has changed at most under the address, to the page.
pub record IsSaved (z : Zstd) (blobs : BlobReaders) (lookup : ℕ → Result (Option ChunkRecord))
    (pa : ℕ) (page : List ℕ) (snapshot_id worker_id : ℕ) (w : Writer)
    (result : Result (ChunkRecord × Writer)) : Type 0 where
  pub rec : ChunkRecord
  pub after : Writer
  pub more : List ℕ
  pub returns : result ≡ ok (rec, after)
  pub key_is : rec.key ≡ encode_key pa snapshot_id
  pub loggable : IsLoggable rec
  pub appended : after.blob.written ≡ w.blob.written ++ more
  pub more_fits : length more ≤ 8192
  pub counted : IsCounted after.blob
  pub resolves : resolve_uncached z (readers_after blobs worker_id after.blob) lookup rec ≡ ok page
  pub shadow_kept :
      (q : ℕ)
      → (get after.shadow q ≡ get w.shadow q)
        ⊎ (get after.shadow q ≡ some (rec.key, page)) × (q ≡ pa) × (is_full rec.kind ≡ true)
