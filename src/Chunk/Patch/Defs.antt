-- ===== src/Chunk/Patch/Defs.antt =====
-- `compute_xor_patch`, `encode_delta_patch`, `apply_delta_patch` and `is_all_zero`.
-- A page is a list of bytes; `&mut out` is passed in and handed back, and an error drops it.
use bxdb.Base.{ℕ, zero, suc, ◌+◌, ◌*◌, ◌/◌, ◌%◌, ◌^◌, bit_xor, ◌≡◌, Bool, true, ◌&&◌}
use bxdb.Base.{List, [], ◌∷◌, ◌++◌, Result, ok, err, delta_blob_length, ◌>>◌, guard}
use bxdb.Base.{
  delta_index_out_of_range, leb, ◌==◌, if◌then◌else◌, length, take, drop, slice, splice,
}
use bxdb.Base.Bytes.{to_le_bytes, from_le_bytes, IsBytes}

abbrev pub page_size : ℕ
page_size = 4096

abbrev pub page_words : ℕ
page_words = page_size / 8

-- `[u8; PAGE_SIZE]`
abbrev pub IsPage : List ℕ → Type 0
IsPage p = (length p ≡ page_size) × IsBytes p

-- `u64::from_le_bytes(page[i * 8..(i + 1) * 8])`
abbrev pub word_at : List ℕ → ℕ → ℕ
word_at page i = from_le_bytes (slice page (i * 8) 8)

unfoldable pub encode_delta_patch : List (ℕ × ℕ) → List ℕ
encode_delta_patch [] = []
encode_delta_patch ((idx, val) ∷ patch) =
    to_le_bytes 2 idx ++ (to_le_bytes 8 val ++ encode_delta_patch patch)

-- The loop over `chunks_exact(10)`, with the number of chunks that are left.
unfoldable pub xor_chunks : ℕ → List ℕ → List ℕ → Result (List ℕ)
xor_chunks zero blob out = ok out
xor_chunks (suc n) blob out =
    let chunk = take 10 blob in
    let idx = from_le_bytes (slice chunk 0 2) in
    let xor = from_le_bytes (slice chunk 2 8) in
    let dst = to_le_bytes 8 (bit_xor (word_at out idx) xor) in
    let rest = xor_chunks n (drop 10 blob) (splice out (idx * 8) dst) in
    if leb page_words idx then err delta_index_out_of_range else rest

unfoldable pub apply_delta_xor : List ℕ → List ℕ → Result (List ℕ)
apply_delta_xor blob out = xor_chunks (length blob / 10) blob out

unfoldable pub apply_delta_patch_in_place : List ℕ → List ℕ → Result (List ℕ)
apply_delta_patch_in_place blob out = do
  guard (length blob % 10 == 0) delta_blob_length
  apply_delta_xor blob out

-- `out.copy_from_slice(base)` and then the same loop.
unfoldable pub apply_delta_patch : List ℕ → List ℕ → Result (List ℕ)
apply_delta_patch base blob = do
  guard (length blob % 10 == 0) delta_blob_length
  apply_delta_xor blob base

-- The loop over the words from index `i`, with `n` words left.
unfoldable pub xor_patch_from : ℕ → ℕ → List ℕ → List ℕ → List (ℕ × ℕ)
xor_patch_from zero i page base = []
xor_patch_from (suc n) i page base =
    let x = bit_xor (word_at page i) (word_at base i) in
    let rest = xor_patch_from n (i + 1) page base in if x == 0 then rest else (i % 2 ^ 16, x) ∷ rest

unfoldable pub compute_xor_patch : List ℕ → List ℕ → List (ℕ × ℕ)
compute_xor_patch page base = xor_patch_from page_words 0 page base

unfoldable pub is_all_zero : List ℕ → Bool
is_all_zero [] = true
is_all_zero (b ∷ page) = b == 0 && is_all_zero page
