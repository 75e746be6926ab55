-- ===== src/Convert/Bulk.antt =====
-- The bulk load of all pages, over a log and over the index made of it.
use bxdb.Base.{ℕ, ◌+◌, Option, List, Bool}
use bxdb.Base.{Result, ok, ◌>>=◌}
use bxdb.Chunk.Record.{ChunkRecord}
use bxdb.Store.{BlobReaders}
use bxdb.Store.Zstd.{Zstd}
use bxdb.Store.Runs.{load_run}
use bxdb.Convert.Found.{have_records}
use bxdb.Convert.Reads.{spec_page}

-- A load of each page by itself, one after the other.
unfoldable pub spec_pages :
    Zstd → BlobReaders → List ChunkRecord → ℕ → ℕ → ℕ → Result (List (Option (List ℕ)))
unfolding load_run spec_page
spec_pages z blobs records pa_offset total s =
    load_run (λ i. spec_page z blobs records (pa_offset + i) s) 0 total

-- The specification of a bulk load: the pages, and whether each address has a record.
abbrev pub spec_load :
    Zstd → BlobReaders → List ChunkRecord → ℕ → ℕ → ℕ → Result (List (Option (List ℕ)) × Bool)
spec_load z blobs records pa_offset total s =
    spec_pages z blobs records pa_offset total s
    >>= (λ pages. ok (pages, have_records records pa_offset total s))
