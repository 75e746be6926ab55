-- ===== src/Lib.antt =====
-- bxdb stores page snapshots of a machine's memory: for each snapshot the pages that changed.
-- A page that was saved goes to a blob file as a zstd frame (a full record), as a patch of
-- 64-bit words against the last full page of its address (a delta record), or nowhere when it
-- is all zero. The records go to chunks.log in the order of the saves. The log may be turned
-- into index.bxdb, an array of the records ascending by key, and a page is read by the floor
-- of its key: the last record of the address that is not after the snapshot.
--
-- The files and the code they are about:
--   Base       helpers: results with panics, lists, little-endian bytes, bitwise operations
--              on the native numbers, and a reader of a byte sequence.
--   Chunk      bxdb-core/src/chunk.rs: keys (Chunk/Key), records and their two layouts
--              (Chunk/Record), XOR patches of pages (Chunk/Patch).
--   Format     bxdb-core/src/format.rs: the header of both files.
--   Log        the loops of append_only.rs, btree.rs and purge.rs that read and write all
--              records (Log/Records), the sort and dedup of the index (Log/Sort), and the
--              specification of a floor query (Log/Newest).
--   Index      bxdb-core/src/btree.rs: the binary searches over the bytes of an index and over
--              the index in memory.
--   Store      bxdb-core/src/btree.rs: PageStore, the blob files, the resolution of a record; and
--              load_all_pages of bxdb-core/src/append_only.rs: the scan of load_all_scan
--              (Store/Scan), the workers (Store/Runs) and the whole of it (Store/Bulk); reading
--              through the shared cache (Store/Cached, Store/Honest, Store/Loads).
--   Convert    bxdb-core/src/convert.rs: to_btree, to_log (Convert/ToLog), reading a page before
--              and after it (Convert/Reads), a reader with the cache (Convert/Cached) and a bulk
--              load (Convert/Found, Convert/Bulk).
--   Write      bxdb-core/src/append_only.rs: the shadow (Write/Shadow), what a save does with one
--              page (Write/Defs, Write/Page), the pass of the thread pool over the pages
--              (Write/Pass), save_all_pages with the opening of a database (Write/Save), and
--              save_pages_with_bitmap (Write/Bitmap, Write/SaveBitmap) with its groups of words
--              and their prefix sums (Write/SaveBitmap/Groups, Counts, Slots).
--   Cache      bxdb-core/src/cache.rs: the set-associative cache of full pages in shared memory:
--              its state with get and put (Cache/Defs), the search of a set (Cache/Ways,
--              Cache/Simd), replacement (Cache/Lru, Cache/Survival), what is read after a call
--              (Cache/Coherence, Cache/Puts) and in a run (Cache/History), and creation
--              (Cache/Identity).
--   Check      bxdb-core/src/check.rs: the report (Check/Defs), the check of one record
--              (Check/Records), the loop over the log (Check/Loop) and a report without errors
--              (Check/Sound).
--   Purge      bxdb-core/src/purge.rs: the records, files and blob files that a purge keeps.
--   Inspect    bxdb-inspect/src/main.rs: what the browser loads (Inspect/Load), its list, filter
--              and detail (Inspect/Defs), the parsing of a filter (Inspect/Parse), the loop over
--              the keys (Inspect/Keys), the rows of a filter (Inspect/Filter), what the parts keep
--              in order (Inspect/Rows, Inspect/State), and the runs of keys (Inspect/Run).
--   Tests      runs on concrete inputs, and the results at inputs that meet their hypotheses.
--
-- How state is modelled. A file is the list of its bytes, a directory a record of optional
-- files, and an operation a function from the old contents to Result: a value, an
-- io::Error with its kind, or a panic. An integer is a native number; where the source
-- wraps, the remainder is written out. A blob file of an open database has the bytes that
-- were handed to its writer, in their order, and its counter; the directory that readers
-- open gets them, and the log, by a flush (Write/Save/State). What the directory has
-- between two flushes, any part of that, is not said. A run of the thread pool is the
-- order in which the pages are appended: the tasks share only the blob files, each behind
-- its lock, and the shadow, which a task touches at the address of its page alone. The
-- order is a parameter, any permutation of the addresses. After an error the state is the
-- one that the pages before it have left. The shadow's shards are functions, and a shard's
-- lock makes an insertion one step. The workers of a bulk load share nothing that they
-- write, so that a run of pages is a function, and the join takes the first error in their
-- order. The constant DISABLE_SHARED_CACHE of bxdb-core/src/btree.rs, which is true,
-- leaves readers without the shared cache; the readers of Convert/Cached are modelled with
-- either value. The cache's sets and pages are functions of their numbers, and a call of
-- get or put is one step, since it holds the lock of its metadata page; the calls of all
-- processes are one sequence. The browser is a function from its state and a key to its
-- next state.
--
-- zstd and pthread are not of this repository. zstd is the parameter Zstd, with the
-- hypothesis that it is lossless on pages and that a frame of a page has at most 8192
-- bytes; the check's decompressor is a second parameter, which agrees with the first on
-- what fits a page. The calls of pthread that create the locks are a parameter with their
-- outcome.
--
-- Fuel. The loop over a log runs on the length of the file, since every record takes at
-- least 22 bytes, and the loops over an index to its end alike, since a record takes 32;
-- the binary searches run on the number of records, since each step makes the interval
-- smaller. The loop over the bits of a word runs on 64, since each round clears a bit. The
-- results are about the functions with the fuel the callers give.
--
-- Not modelled: the mapping and unmapping of files, fsync, renames and the names of files,
-- the scheduling of threads, the death of a process inside a call of the cache, timers,
-- the interfaces for C and the command line, the command that writes raw files, and of the
-- browser the drawing and the file that an export writes.
--
-- A torn tail is what a write that was cut has left of the last record of a log. Tails of
-- fewer than 22 bytes are considered: a delta record that is cut in its last 8 bytes makes
-- read_from of bxdb-core/src/chunk.rs return an error.
pub mod Base
pub mod Chunk
pub mod Format
pub mod Log
pub mod Index
pub mod Store
pub mod Convert
pub mod Cache
pub mod Check
pub mod Inspect
pub mod Write
pub mod Purge
mod Tests
