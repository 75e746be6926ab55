-- ===== src/Convert/Cached.antt =====
-- Readers with the shared cache, over a log and over the index made of it.
use bxdb.Base.{ℕ, ◌^◌, ◌<◌, ◌≡◌, sym, ap, ap₂, refl, ◌∙◌, [], ◌∷◌}
use bxdb.Base.{List, Bool, ok, length, All, map}
use bxdb.Chunk.Record.{ChunkRecord, IsLoggable}
use bxdb.Index.Found.{find_key-newest}
use bxdb.Store.{BlobReaders, PageStore, load_page}
use bxdb.Store.Zstd.{Zstd}
use bxdb.Store.Cached.{reader_cache, loads}
use bxdb.Store.Loads.{IsConsistent, loads-load_page, reader_cache-IsRight}
use bxdb.Convert.Stores.{IsStoreOf, load_page-IsStoreOf, log_store-IsStoreOf, index_store-IsStoreOf}
use bxdb.Convert.Reads.{spec_page, log_store, index_store, ok-injective}

-- A call of a reader that fits the keys.
abbrev pub IsCall : ℕ × ℕ → Type 0
IsCall call = (call.0 < 2 ^ 45) × (call.1 < 2 ^ 19)

map-eq :
    {A : Type 0} (f g : ℕ × ℕ → A) (calls : List (ℕ × ℕ))
    → ((call : ℕ × ℕ) → IsCall call → f call ≡ g call)
    → All IsCall calls
    → map f calls ≡ map g calls
map-eq f g [] h fits = refl
map-eq f g (call ∷ calls) h (fit, fits) =
    ap₂ (λ x xs. x ∷ xs) (h call fit) (map-eq f g calls h fits)

addresses_fit : (calls : List (ℕ × ℕ)) → All IsCall calls → All (λ call. call.0 < 2 ^ 45) calls
addresses_fit [] h = tt
addresses_fit (call ∷ calls) (fit, fits) = (fit.0, addresses_fit calls fits)

IsStoreOf-IsConsistent :
    (records : List ChunkRecord) (store : PageStore) → IsStoreOf records store → IsConsistent store
IsStoreOf-IsConsistent records store h pa s rec hp hs at =
    h.lookups rec.key
    ∙ ap ok (find_key-newest pa s records rec (ok-injective (sym (h.floors pa s hp hs) ∙ at)))

loads-IsStoreOf :
    (z : Zstd) (records : List ChunkRecord) (store : PageStore) (h : IsStoreOf records store)
    (disabled : Bool) (pages : ℕ → List ℕ) (calls : List (ℕ × ℕ))
    → All IsCall calls
    → loads z store (reader_cache disabled pages) calls
      ≡ map (λ call. spec_page z store.blob_readers records call.0 call.1) calls
loads-IsStoreOf z records store h disabled pages calls fits =
    let consistent = IsStoreOf-IsConsistent records store h in
    loads-load_page z store consistent (reader_cache disabled pages) calls
      (reader_cache-IsRight z store consistent disabled pages) (addresses_fit calls fits)
    ∙ map-eq (λ call. load_page z store call.0 call.1)
        (λ call. spec_page z store.blob_readers records call.0 call.1) calls
        (λ call fit. load_page-IsStoreOf z records store h call.0 call.1 fit.0 fit.1) fits

-- Every call of a reader, whether `DISABLE_SHARED_CACHE` is true, as it now is, and it has no cache,
-- or false and it starts with an empty one, is answered by the newest record of the address that
-- is not after the snapshot, resolved without a cache, over the log and over an index of the
-- records. The conditions: records as the program makes them, a log with a torn tail of fewer than
-- 22 bytes, addresses of 45 bits and snapshot ids of 19.
pub loads-spec_page :
    (z : Zstd) (blobs : BlobReaders) (records : List ChunkRecord)
    → All IsLoggable records
    → (max_snap : ℕ) → max_snap < 256 ^ 4
    → (torn : List ℕ) → length torn < 22
    → (disabled : Bool) (pages : ℕ → List ℕ) (calls : List (ℕ × ℕ)) → All IsCall calls
    → (loads z (log_store blobs records max_snap torn) (reader_cache disabled pages) calls
        ≡ map (λ call. spec_page z blobs records call.0 call.1) calls)
      × (loads z (index_store blobs records max_snap) (reader_cache disabled pages) calls
          ≡ map (λ call. spec_page z blobs records call.0 call.1) calls)
loads-spec_page z blobs records valid max_snap max_fits torn short disabled pages calls fits = (
  loads-IsStoreOf z records (log_store blobs records max_snap torn)
      (log_store-IsStoreOf blobs records valid max_snap max_fits torn short) disabled pages calls
      fits,
  loads-IsStoreOf z records (index_store blobs records max_snap)
      (index_store-IsStoreOf blobs records valid max_snap max_fits) disabled pages calls fits,
)
