-- ===== src/Store/Loads.antt =====
-- The calls of a reader with the shared cache.
use bxdb.Base.{◌∙◌, Bool, true, false}
use bxdb.Base.{
  ℕ, ◌<◌, ◌^◌, ◌≡◌, refl, ap, ap₂, arith, Option, none, some, List, [], ◌∷◌, Result, ok, err, panic,
  ◌>>=◌, leb, map, inl, inr, Bool-cases, All,
}
use bxdb.Chunk.Key.{max_snapshot_id}
use bxdb.Chunk.Record.{ChunkRecord}
use bxdb.Cache.{SharedCache}
use bxdb.Cache.Identity.{init_cache}
use bxdb.Cache.Coherence.{get-cached}
use bxdb.Cache.History.{init_cache-IsFaithful}
use bxdb.Store.Zstd.{Zstd}
use bxdb.Store.Defs.{PageStore, floor, exact_lookup, resolve_uncached, resolve_found, load_page}
use bxdb.Store.Cached.{resolve_cached, load_found, load_page_cached, loads, reader_cache}
use bxdb.Store.Honest.{IsHonestIf, resolve_cached-resolve_uncached}

-- A record that a floor query answers with is found under its key.
abbrev pub IsConsistent : PageStore → Type 0
IsConsistent store =
    (pa s : ℕ) (rec : ChunkRecord)
    → pa < 2 ^ 45
    → s < 2 ^ 19
    → floor store.source pa s ≡ ok (some rec)
    → exact_lookup store.source rec.key ≡ ok (some rec)

module _ (z : Zstd) (store : PageStore) (consistent : IsConsistent store) where
  abbrev pub IsRight : Option SharedCache → Type 0
  IsRight cache = IsHonestIf z store.blob_readers (exact_lookup store.source) cache

  load_found-resolve_found :
      (cache : Option SharedCache) (r : Result (Option ChunkRecord))
      → IsRight cache
      → ((rec : ChunkRecord)
          → r ≡ ok (some rec)
          → exact_lookup store.source rec.key ≡ ok (some rec))
      → ((load_found (resolve_cached z store.blob_readers (exact_lookup store.source)) cache r).0
          ≡ (r
              >>= resolve_found
                  (resolve_uncached z store.blob_readers (exact_lookup store.source))))
        × IsRight
            (load_found (resolve_cached z store.blob_readers (exact_lookup store.source)) cache r).1
  load_found-resolve_found cache panic h found = (refl, h)
  load_found-resolve_found cache (err e) h found = (refl, h)
  load_found-resolve_found cache (ok none) h found = (refl, h)
  load_found-resolve_found cache (ok (some rec)) h found =
      let (same, valid) =
        resolve_cached-resolve_uncached z store.blob_readers (exact_lookup store.source) cache rec h
          (found rec refl) in
      (ap (λ t. t >>= (λ page. ok (some page))) same, valid)

  -- A load through a cache whose pages are right gives what a load without a cache gives, and
  -- leaves a cache whose pages are right.
  pub load_page_cached-load_page :
      (cache : Option SharedCache) (pa s : ℕ)
      → IsRight cache
      → pa < 2 ^ 45
      → ((load_page_cached z store cache pa s).0 ≡ load_page z store pa s)
        × IsRight (load_page_cached z store cache pa s).1
  unfolding load_page_cached load_page
  load_page_cached-load_page cache pa s h fits = elim (Bool-cases (leb s max_snapshot_id)) [
    | inr e ↦ rw e (refl, h)
    | inl e ↦ rw e (
        load_found-resolve_found cache (floor store.source pa s) h
          (λ rec at. consistent pa s rec fits (ground arith) at))
  ]

  -- The calls of a reader through a cache whose pages are right give what loads without a cache
  -- give.
  pub loads-load_page :
      (cache : Option SharedCache) (calls : List (ℕ × ℕ))
      → IsRight cache
      → All (λ call. call.0 < 2 ^ 45) calls
      → loads z store cache calls ≡ map (λ call. load_page z store call.0 call.1) calls
  unfolding loads
  loads-load_page cache [] h fits = refl
  loads-load_page cache (call ∷ calls) h (fit, fits) =
      let (same, right) = load_page_cached-load_page cache call.0 call.1 h fit in
      ap₂ (λ x xs. x ∷ xs) same
        (loads-load_page (load_page_cached z store cache call.0 call.1).1 calls right fits)

  init_cache-IsRight : (pages : ℕ → List ℕ) → IsRight (some (init_cache pages))
  init_cache-IsRight pages =
      let empty = init_cache-IsFaithful pages in
      record {
        sets_valid = empty.sets_valid;
        hits = λ key page at.
            let gone : none ≡ some page =
              empty.hits key page (get-cached (init_cache pages) key ∙ at) in
            cc gone;
      }

  pub reader_cache-IsRight :
      (disabled : Bool) (pages : ℕ → List ℕ) → IsRight (reader_cache disabled pages)
  unfolding reader_cache
  reader_cache-IsRight true pages = tt
  reader_cache-IsRight false pages = init_cache-IsRight pages
