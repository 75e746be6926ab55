-- ===== src/Store/Honest.antt =====
-- Reading through the shared cache and reading without it.
use bxdb.Base.{
  ℕ, ◌≡◌, refl, sym, ap, ◌∙◌, Option, none, some, List, Result, ok, err, panic, ◌>>=◌, inl, inr,
}
use bxdb.Chunk.Patch.{apply_delta_patch_in_place}
use bxdb.Chunk.Record.{ChunkRecord, ChunkKind, full, delta, zero_page}
use bxdb.Cache.{SharedCache}
use bxdb.Cache.Coherence.{IsCache, cached, get-cached, get-keeps}
use bxdb.Cache.Hits.{cached-put, put-keeps_IsCache}
use bxdb.Store.Zstd.{Zstd}
use bxdb.Store.Defs.{
  BlobReaders, decompress_blob_into, delta_blob, full_base, resolve_uncached, resolve_kind,
}
use bxdb.Store.Cached.{
  cache_get, cache_put, put_page, hit_or, base_page, load_full_cached, patched, resolve_by_kind,
  resolve_cached,
}

module _ (z : Zstd) (blobs : BlobReaders) (lookup : ℕ → Result (Option ChunkRecord)) where
  -- The cache is in order, and each page in it is that of the full record of its key.
  pub record IsHonest (c : SharedCache) : Type 0 where
    pub sets_valid : IsCache c
    pub hits :
        (key : ℕ) (page : List ℕ)
        → cached c key ≡ some page
        → base_page z blobs lookup key ≡ ok page

  abbrev pub IsHonestIf : Option SharedCache → Type 0
  IsHonestIf none = Unit {0}
  IsHonestIf (some c) = IsHonest c

  cache_get-IsHonest :
      (cache : Option SharedCache) (key : ℕ)
      → IsHonestIf cache
      → IsHonestIf (cache_get cache key).1
        × ((page : List ℕ)
            → (cache_get cache key).0 ≡ some page
            → base_page z blobs lookup key ≡ ok page)
  unfolding cache_get
  cache_get-IsHonest none key h = (tt, λ page e. cc)
  cache_get-IsHonest (some c) key h = (
    record {
      sets_valid = (get-keeps c key key h.sets_valid).0;
      hits = λ q page e. h.hits q page (sym (get-keeps c key q h.sets_valid).1 ∙ e);
    },
    λ page e. h.hits key page (sym (get-cached c key) ∙ e),
  )

  put_page-IsHonest :
      (cache : Option SharedCache) (key : ℕ) (r : Result (List ℕ))
      → IsHonestIf cache
      → base_page z blobs lookup key ≡ r
      → ((put_page cache key r).0 ≡ r) × IsHonestIf (put_page cache key r).1
  unfolding cache_put
  put_page-IsHonest cache key panic h e = (refl, h)
  put_page-IsHonest cache key (err x) h e = (refl, h)
  put_page-IsHonest none key (ok page) h e = (refl, tt)
  put_page-IsHonest (some c) key (ok page) h e = (
    refl,
    record {
      sets_valid = put-keeps_IsCache c key page h.sets_valid;
      hits = λ q p at. elim (cached-put c key q page p h.sets_valid at) [
        | inl (here, same) ↦ ap (base_page z blobs lookup) here ∙ e ∙ ap ok (sym same)
        | inr (there, before) ↦ h.hits q p before
      ];
    },
  )

  -- A hit and a miss both answer with the page of the full record of the key.
  hit_or-IsHonest :
      (cache : Option SharedCache) (key : ℕ) (miss : Result (List ℕ))
      → IsHonestIf cache
      → base_page z blobs lookup key ≡ miss
      → ((hit_or (cache_get cache key) key miss).0 ≡ miss)
        × IsHonestIf (hit_or (cache_get cache key) key miss).1
  hit_or-IsHonest cache key miss h e =
      let (valid, right) = cache_get-IsHonest cache key h in
      by_answer (cache_get cache key).0 (cache_get cache key).1 valid
        (λ page at. sym e ∙ right page at)
    where
      by_answer :
          (o : Option (List ℕ)) (cache' : Option SharedCache)
          → IsHonestIf cache'
          → ((page : List ℕ) → o ≡ some page → miss ≡ ok page)
          → ((hit_or (o, cache') key miss).0 ≡ miss) × IsHonestIf (hit_or (o, cache') key miss).1
      by_answer (some page) cache' valid right = (sym (right page refl), valid)
      by_answer none cache' valid right = put_page-IsHonest cache' key miss valid e

  -- The index finds a full record under its key.
  abbrev pub IsIndexed : ChunkRecord → Type 0
  IsIndexed rec = lookup rec.key ≡ ok (some rec)

  base_page-full :
      (rec : ChunkRecord)
      → IsIndexed rec
      → rec.kind ≡ full
      → base_page z blobs lookup rec.key ≡ decompress_blob_into z blobs rec
  unfolding full_base
  base_page-full rec found kind = rw (found, kind) refl

  patched-resolve :
      (rec : ChunkRecord)
      → resolve_kind z blobs lookup delta rec
        ≡ patched z blobs lookup rec (base_page z blobs lookup rec.base_key)
  patched-resolve rec = by_lookup (lookup rec.base_key)
    where
      by_base :
          (r : Result ChunkRecord)
          → (r >>= λ base_rec. decompress_blob_into z blobs base_rec >>= λ base.
              delta_blob blobs rec >>= λ blob. apply_delta_patch_in_place blob base)
            ≡ patched z blobs lookup rec (r >>= λ base_rec. decompress_blob_into z blobs base_rec)
      by_base panic = refl
      by_base (err e) = refl
      by_base (ok base_rec) = refl

      by_lookup :
          (r : Result (Option ChunkRecord))
          → (r >>= λ found. full_base found >>= λ base_rec.
              decompress_blob_into z blobs base_rec >>= λ base.
              delta_blob blobs rec >>= λ blob. apply_delta_patch_in_place blob base)
            ≡ patched z blobs lookup rec (
                r >>= λ found.
                full_base found >>= λ base_rec. decompress_blob_into z blobs base_rec)
      by_lookup panic = refl
      by_lookup (err e) = refl
      by_lookup (ok found) = by_base (full_base found)

  pub resolve_cached-resolve_uncached :
      (cache : Option SharedCache) (rec : ChunkRecord)
      → IsHonestIf cache
      → IsIndexed rec
      → ((resolve_cached z blobs lookup cache rec).0 ≡ resolve_uncached z blobs lookup rec)
        × IsHonestIf (resolve_cached z blobs lookup cache rec).1
  unfolding resolve_cached resolve_uncached load_full_cached
  resolve_cached-resolve_uncached cache rec h found = by_kind rec.kind refl
    where
      by_kind :
          (k : ChunkKind)
          → rec.kind ≡ k
          → ((resolve_by_kind z blobs lookup cache k rec).0 ≡ resolve_kind z blobs lookup k rec)
            × IsHonestIf (resolve_by_kind z blobs lookup cache k rec).1
      by_kind zero_page e = (refl, h)
      by_kind full e =
          hit_or-IsHonest cache rec.key (decompress_blob_into z blobs rec) h
            (base_page-full rec found e)
      by_kind delta e =
          let (same, valid) =
            hit_or-IsHonest cache rec.base_key (base_page z blobs lookup rec.base_key) h refl in
          (ap (patched z blobs lookup rec) same ∙ sym (patched-resolve rec), valid)
