-- ===== src/Convert/Stores.antt =====
-- The stores that are opened over a log, and over the index made of it, answer alike.
use bxdb.Base.{ap, ℕ, ◌^◌, ◌<◌, ◌≡◌, List, ok, length, All}
use bxdb.Chunk.Record.{ChunkRecord, IsLoggable}
use bxdb.Log.Sort.{sort_dedup}
use bxdb.Log.Newest.{newest}
use bxdb.Index.Sorted.{find_key}
use bxdb.Store.{
  BlobReaders, PageStore, load_page, floor, exact_lookup, resolve_uncached, resolve_found,
}
use bxdb.Store.Zstd.{Zstd}
use bxdb.Store.Lookup.{floor-append_only, floor-btree, exact_lookup-append_only, exact_lookup-btree}
use bxdb.Convert.Reads.{spec_page, load_page_by, log_store, index_store}
use mathlib.Core.Path.{fun_ext}

-- A store whose queries are those over the records.
pub record IsStoreOf (records : List ChunkRecord) (store : PageStore) : Type 0 where
  pub floors :
      (pa s : ℕ) → pa < 2 ^ 45 → s < 2 ^ 19 → floor store.source pa s ≡ ok (newest pa s records)
  pub lookups : (key : ℕ) → exact_lookup store.source key ≡ ok (find_key key (sort_dedup records))

pub load_page-IsStoreOf :
    (z : Zstd) (records : List ChunkRecord) (store : PageStore)
    → IsStoreOf records store
    → (pa s : ℕ) → pa < 2 ^ 45
    → s < 2 ^ 19
    → load_page z store pa s ≡ spec_page z store.blob_readers records pa s
unfolding spec_page
load_page-IsStoreOf z records store h pa s hp hs =
    load_page_by z store pa s (newest pa s records) _ hs (h.floors pa s hp hs)
      (fun_ext λ key. h.lookups key)

-- The resolution of the newest record by the store is that of the specification.
pub resolve-IsStoreOf :
    (z : Zstd) (records : List ChunkRecord) (store : PageStore)
    → IsStoreOf records store
    → (pa s : ℕ)
    → resolve_found
        (resolve_uncached z store.blob_readers (exact_lookup store.source))
        (newest pa s records)
      ≡ spec_page z store.blob_readers records pa s
unfolding spec_page
resolve-IsStoreOf z records store h pa s =
    ap
      (λ lookup. resolve_found (resolve_uncached z store.blob_readers lookup) (newest pa s records))
      (fun_ext λ key. h.lookups key)

module _ (blobs : BlobReaders) (records : List ChunkRecord) (valid : All IsLoggable records)
    (max_snap : ℕ) (max_fits : max_snap < 256 ^ 4) where
  pub log_store-IsStoreOf :
      (torn : List ℕ) → length torn < 22 → IsStoreOf records (log_store blobs records max_snap torn)
  log_store-IsStoreOf torn short = record {
    floors = λ pa s hp hs. floor-append_only records valid max_snap max_fits torn pa s short hp hs;
    lookups = λ key. exact_lookup-append_only records valid max_snap max_fits torn key short;
  }

  pub index_store-IsStoreOf : IsStoreOf records (index_store blobs records max_snap)
  index_store-IsStoreOf = record {
    floors = λ pa s hp hs. floor-btree records valid max_snap max_fits pa s hp hs;
    lookups = λ key. exact_lookup-btree records valid max_snap max_fits key;
  }
