-- ===== src/Convert/Reads.antt =====
-- Reading before and after the conversion to a B-tree.
use bxdb.Base.{ℕ, ◌^◌, ◌<◌, ◌≡◌, sym, ap, ◌∙◌, arith, Option, some, none}
use bxdb.Base.{List, Result, ok, ◌>>=◌, length, All, le→leb}
use bxdb.Chunk.Record.{ChunkRecord, IsLoggable}
use bxdb.Log.Sort.{sort_dedup}
use bxdb.Log.Newest.{newest}
use bxdb.Index.Mmap.{index_of}
use bxdb.Index.Sorted.{find_key}
use bxdb.Store.{
  btree, append_only, append_only_mode, btree_mode, floor, exact_lookup, BlobReaders, PageStore,
  Dir,
}
use bxdb.Store.{load_page, open_store, open_btree, resolve_uncached, resolve_found}
use bxdb.Store.Zstd.{Zstd}
use bxdb.Store.Lookup.{log_of, floor-append_only, floor-btree, exact_lookup-append_only}
use bxdb.Store.Lookup.{exact_lookup-btree, open_log-log_of, open_btree-index_of}
use bxdb.Convert.{to_btree, to_btree-log_of, max_snapshot, max_snapshot-le}
use mathlib.Core.Path.{fun_ext}

pub ok-injective : {A : Type 0} {a b : A} → Result.ok a ≡ ok b → a ≡ b
ok-injective h = cc

-- `PageStore::open` and then one `load_page`.
unfoldable pub read_page : Zstd → Dir → ℕ → ℕ → Result (Option (List ℕ))
unfolding load_page
read_page z dir pa s = do store ← open_store dir; load_page z store pa s

-- The specification of a read: the newest record of the address, resolved over the records.
unfoldable pub spec_page : Zstd → BlobReaders → List ChunkRecord → ℕ → ℕ → Result (Option (List ℕ))
spec_page z blobs records pa s =
    resolve_found (resolve_uncached z blobs (λ key. ok (find_key key (sort_dedup records))))
      (newest pa s records)

pub load_page_by :
    (z : Zstd) (store : PageStore) (pa s : ℕ) (o : Option ChunkRecord)
    (lookup : ℕ → Result (Option ChunkRecord))
    → s < 2 ^ 19
    → floor store.source pa s ≡ ok o
    → exact_lookup store.source ≡ lookup
    → load_page z store pa s ≡ resolve_found (resolve_uncached z store.blob_readers lookup) o
unfolding load_page
load_page_by z store pa s o lookup h e f =
    rw (le→leb s 524287 (omega arith), e)
      (ap (λ g. resolve_found (resolve_uncached z store.blob_readers g) o) f)

-- The stores that are opened with a log of the records, and with the index made of it.
abbrev pub log_store : BlobReaders → List ChunkRecord → ℕ → List ℕ → PageStore
log_store blobs records max_snap torn = record {
  source = append_only (log_of max_snap records torn);
  blob_readers = blobs;
  mode = append_only_mode;
}

abbrev pub index_store : BlobReaders → List ChunkRecord → ℕ → PageStore
index_store blobs records top = record {
  source = btree (index_of top (sort_dedup records)) (length (sort_dedup records));
  blob_readers = blobs;
  mode = btree_mode;
}

module _ (z : Zstd) (blobs : BlobReaders) (records : List ChunkRecord)
    (valid : All IsLoggable records) (max_snap : ℕ) (max_fits : max_snap < 256 ^ 4) (torn : List ℕ)
    (short : length torn < 22) (pa s : ℕ) (pa_fits : pa < 2 ^ 45) (s_fits : s < 2 ^ 19) where
  -- Opening a directory that has only the log, and reading a page, answers with the newest
  -- record of the address that is not after the snapshot, resolved. The records are as the program
  -- makes them, a torn tail of the log has fewer than 22 bytes, the address has 45 bits and the
  -- snapshot id 19.
  pub read_page-log :
      read_page z
        (record { index = none; log = some (log_of max_snap records torn); blobs = blobs })
        pa
        s
      ≡ spec_page z blobs records pa s
  unfolding read_page spec_page
  read_page-log =
      ap (λ r. r >>= λ store. load_page z store pa s)
        (open_log-log_of records max_snap torn blobs max_fits)
      ∙ load_page_by z (log_store blobs records max_snap torn) pa s (newest pa s records) _ s_fits
          (floor-append_only records valid max_snap max_fits torn pa s short pa_fits s_fits)
          (fun_ext λ key. exact_lookup-append_only records valid max_snap max_fits torn key short)

  -- So does a directory that has the index made of it, whatever its log is.
  pub read_page-to_btree :
      (log : Option (List ℕ)) (index : List ℕ)
      → to_btree (log_of max_snap records torn) ≡ ok index
      → read_page z (record { index = some index; log = log; blobs = blobs }) pa s
        ≡ spec_page z blobs records pa s
  unfolding read_page spec_page
  read_page-to_btree log index h =
      let top = max_snapshot (sort_dedup records) in
      let top_fits : top < 256 ^ 4 = omega (arith, max_snapshot-le (sort_dedup records)) in
      let made : index ≡ index_of top (sort_dedup records) =
        ok-injective (sym h ∙ to_btree-log_of records max_snap torn valid max_fits short) in
      ap (λ t. open_btree t blobs >>= λ store. load_page z store pa s) made
      ∙ ap (λ r. r >>= λ store. load_page z store pa s)
          (open_btree-index_of (sort_dedup records) top blobs)
      ∙ load_page_by z (index_store blobs records top) pa s (newest pa s records) _ s_fits
          (floor-btree records valid top top_fits pa s pa_fits s_fits)
          (fun_ext λ key. exact_lookup-btree records valid top top_fits key)
