-- ===== src/Store/Cached.antt =====
-- Reading pages through the shared cache.
use bxdb.Base.{
  ℕ, Option, none, some, List, [], ◌∷◌, Result, ok, err, panic, ◌>>=◌, guard, replicate, leb,
  snapshot_id_range, Bool, true, if◌then◌else◌,
}
use bxdb.Chunk.Key.{max_snapshot_id}
use bxdb.Chunk.Patch.{page_size, apply_delta_patch_in_place}
use bxdb.Chunk.Record.{ChunkRecord, ChunkKind, full, delta, zero_page}
use bxdb.Cache.{SharedCache, get, put}
use bxdb.Cache.Identity.{init_cache}
use bxdb.Store.Zstd.{Zstd}
use bxdb.Store.Defs.{
  BlobReaders, PageStore, decompress_blob_into, delta_blob, full_base, floor, exact_lookup,
}

-- With this constant `BtreeDb::open` opens no cache.
abbrev pub disable_shared_cache : Bool
disable_shared_cache = true

-- The cache of a reader that is opened, with and without the constant: none, or the shared one,
-- here as it is created, with whatever is in its slots.
unfoldable pub reader_cache : Bool → (ℕ → List ℕ) → Option SharedCache
reader_cache disabled pages = if disabled then none else some (init_cache pages)

-- `if let Some(ref cache) = self.cache`
unfoldable pub cache_get : Option SharedCache → ℕ → Option (List ℕ) × Option SharedCache
cache_get none key = (none, none)
cache_get (some c) key = ((get c key).0, some (get c key).1)

unfoldable pub cache_put : Option SharedCache → ℕ → List ℕ → Option SharedCache
cache_put none key page = none
cache_put (some c) key page = some (put c key page)

-- A page that was decompressed goes into the cache; an error returns before that.
abbrev pub put_page :
    Option SharedCache → ℕ → Result (List ℕ) → Result (List ℕ) × Option SharedCache
put_page cache key panic = (panic, cache)
put_page cache key (err e) = (err e, cache)
put_page cache key (ok page) = (ok page, cache_put cache key page)

-- A hit is the page; after a miss the page is decompressed and put.
abbrev pub hit_or :
    Option (List ℕ) × Option SharedCache
    → ℕ
    → Result (List ℕ)
    → Result (List ℕ) × Option SharedCache
hit_or (some page, cache) key miss = (ok page, cache)
hit_or (none, cache) key miss = put_page cache key miss

module _ (z : Zstd) (blobs : BlobReaders) (lookup : ℕ → Result (Option ChunkRecord)) where
  -- The lookup of a key, the test of the kind, and the decompression.
  abbrev pub base_page : ℕ → Result (List ℕ)
  base_page key = do
    found ← lookup key
    base_rec ← full_base found
    decompress_blob_into z blobs base_rec

  unfoldable pub load_full_cached : Option SharedCache → ℕ → Result (List ℕ) × Option SharedCache
  load_full_cached cache key = hit_or (cache_get cache key) key (base_page key)

  -- The patch of a delta record, applied to its base.
  abbrev pub patched : ChunkRecord → Result (List ℕ) → Result (List ℕ)
  patched rec base = do
    page ← base
    blob ← delta_blob blobs rec
    apply_delta_patch_in_place blob page

  abbrev pub resolve_by_kind :
      Option SharedCache → ChunkKind → ChunkRecord → Result (List ℕ) × Option SharedCache
  resolve_by_kind cache zero_page rec = (ok (replicate page_size 0), cache)
  resolve_by_kind cache full rec =
      hit_or (cache_get cache rec.key) rec.key (decompress_blob_into z blobs rec)
  resolve_by_kind cache delta rec =
      let base = load_full_cached cache rec.base_key in (patched rec base.0, base.1)

  unfoldable pub resolve_cached :
      Option SharedCache → ChunkRecord → Result (List ℕ) × Option SharedCache
  unfolding load_full_cached
  resolve_cached cache rec = resolve_by_kind cache rec.kind rec

-- What is done with the answer of the floor query, an error of it included.
abbrev pub load_found :
    (Option SharedCache → ChunkRecord → Result (List ℕ) × Option SharedCache)
    → Option SharedCache
    → Result (Option ChunkRecord)
    → Result (Option (List ℕ)) × Option SharedCache
load_found resolve cache panic = (panic, cache)
load_found resolve cache (err e) = (err e, cache)
load_found resolve cache (ok none) = (ok none, cache)
load_found resolve cache (ok (some rec)) =
    let found = resolve cache rec in (found.0 >>= (λ page. ok (some page)), found.1)

-- `BtreeDb::load_page` with a cache.
unfoldable pub load_page_cached :
    Zstd → PageStore → Option SharedCache → ℕ → ℕ → Result (Option (List ℕ)) × Option SharedCache
load_page_cached z store cache pa snapshot_id =
    load_found (resolve_cached z store.blob_readers (exact_lookup store.source)) cache (
      guard (leb snapshot_id max_snapshot_id) snapshot_id_range
      >>= (λ u. floor store.source pa snapshot_id))

-- The calls of a reader, one after the other, each an address and a snapshot.
unfoldable pub loads :
    Zstd → PageStore → Option SharedCache → List (ℕ × ℕ) → List (Result (Option (List ℕ)))
loads z store cache [] = []
loads z store cache (call ∷ calls) =
    let found = load_page_cached z store cache call.0 call.1 in
    found.0 ∷ loads z store found.1 calls
