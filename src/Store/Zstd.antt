-- ===== src/Store/Zstd.antt =====
-- The zstd library, which is not part of the repository: two functions, and what its
-- documentation says of them.
use bxdb.Base.{ℕ, ◌≤◌, ◌≡◌, List, Result, ok, length}
use bxdb.Chunk.Patch.{IsPage}

-- `compress` is `compress_to_buffer` into an empty buffer of 8192 bytes; `decompress` is
-- `decompress_to_buffer` into a buffer of one page, and gives the bytes that were written.
pub record Zstd : Type 0 where
  pub compress : List ℕ → Result (List ℕ)
  pub decompress : List ℕ → Result (List ℕ)

-- A page is compressed within the bound that zstd states, and decompression restores it.
pub record IsLossless (z : Zstd) : Type 0 where
  pub compressed : (page : List ℕ) → IsPage page → List ℕ
  pub compress_ok : (page : List ℕ) (h : IsPage page) → z.compress page ≡ ok (compressed page h)
  pub compress_bound : (page : List ℕ) (h : IsPage page) → length (compressed page h) ≤ 8192
  pub restores : (page : List ℕ) (h : IsPage page) → z.decompress (compressed page h) ≡ ok page
