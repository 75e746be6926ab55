-- ===== src/Check/Records.antt =====
-- The check of one record: it returns, and where it reports nothing the record's blob is sound.
use bxdb.Base.{
  ℕ, zero, suc, ◌+◌, ◌-◌, ◌/◌, ◌%◌, ◌^◌, ◌<◌, ◌≤◌, ◌≡◌, ◌≢◌, refl, ap, arith, Option, none, some,
  List, [], ◌∷◌, ◌++◌, inl, inr,
}
use bxdb.Base.{true, false, Bool-cases, Option-cases, ltb, leb, ◌==◌, ok, ◌>>=◌, le→leb}
use bxdb.Base.{length-take, length-drop, length, take, drop, slice}
use mathlib.Core.Path.{subst}
use bxdb.Base.Bytes.{from_le_bytes}
use bxdb.Chunk.Record.{ChunkRecord, ChunkKind, full, delta, zero_page}
use bxdb.Chunk.Patch.{
  page_size, page_words, xor_chunks, apply_delta_patch_in_place, apply_delta_xor,
}
use bxdb.Store.{BlobReaders, mmap, decompress_blob_into, decompress_from, delta_blob, delta_from}
use bxdb.Store.Zstd.{Zstd}
use bxdb.Check.Defs.{
  CheckError, full_out_of_file, full_page_size, full_zstd, delta_out_of_file, delta_length,
  delta_word_index, BulkDecompressor, blob_end, output_errors, has_bad_index, check_full,
  check_delta, file_errors, file_size, kind_errors, record_errors,
}

-- A blob file is shorter than the numbers of 64 bits.
abbrev pub AreFiles : BlobReaders → Type 0
AreFiles blobs = (i : ℕ) (bytes : List ℕ) → blobs i ≡ some bytes → length bytes < 2 ^ 64 - 1

-- What fits a page is decompressed into the buffer of a page as it is into a longer one.
abbrev pub IsAgreeing : Zstd → BulkDecompressor → Type 0
IsAgreeing z bulk =
    (blob out : List ℕ) → bulk blob ≡ some out → length out ≤ page_size → z.decompress blob ≡ ok out

-- The check passes over an empty blob: a full record has none, and that of a delta record starts in
-- its file.
abbrev pub IsPlaced : BlobReaders → ChunkKind → ChunkRecord → Type 0
IsPlaced blobs zero_page rec = Unit {0}
IsPlaced blobs full rec = rec.len ≢ 0
IsPlaced blobs delta rec = rec.offset ≤ file_size (blobs rec.worker_id)

-- The patch of indices that are in range is applied to any page.
xor_chunks_total :
    (n : ℕ) (blob out : List ℕ)
    → has_bad_index n blob ≡ false
    → (page : List ℕ) × (xor_chunks n blob out ≡ ok page)
unfolding has_bad_index xor_chunks
xor_chunks_total zero blob out h = (out, refl)
xor_chunks_total (suc n) blob out h =
    elim (Bool-cases (leb page_words (from_le_bytes (slice (take 10 blob) 0 2)))) [
      | inl e ↦ cc (h, e)
      | inr e ↦ rw e (xor_chunks_total n (drop 10 blob) _ (ground arith))
    ]

no_index_in_nothing :
    (bytes : List ℕ) (offset len : ℕ)
    → len ≡ 0
    → has_bad_index (length (slice bytes offset len) / 10) (slice bytes offset len) ≡ false
unfolding has_bad_index
no_index_in_nothing bytes offset len h =
    ap (λ n. has_bad_index (length (slice bytes offset n) / 10) (slice bytes offset n)) h

module _ (z : Zstd) (bulk : BulkDecompressor) (agree : IsAgreeing z bulk) (blobs : BlobReaders)
    (sizes : AreFiles blobs) where
  decompress_checked :
      (rec : ChunkRecord) (bytes out : List ℕ)
      → blobs rec.worker_id ≡ some bytes
      → rec.offset + rec.len ≤ length bytes
      → bulk (slice bytes rec.offset rec.len) ≡ some out
      → length out ≡ page_size
      → decompress_blob_into z blobs rec ≡ ok out
  unfolding decompress_blob_into decompress_from
  decompress_checked rec bytes out here inside unpacked fits =
      let small : ltb (rec.offset + rec.len) (2 ^ 64) ≡ true =
        ground (arith, sizes rec.worker_id bytes here) in
      let right : (length out == page_size) ≡ true = ground arith in
      rw
        (
          here,
          mmap,
          small,
          le→leb (rec.offset + rec.len) (length bytes) inside,
          agree (slice bytes rec.offset rec.len) out unpacked (omega (arith, fits)),
          right,
        )
        refl

  -- Without an error, a full record that is not empty is decompressed to a page.
  check_full-decompress :
      (rec : ChunkRecord)
      → (found : List CheckError) × (check_full bulk blobs rec (file_size (blobs rec.worker_id))
          ≡ ok found)
        × (found ≡ []
            → rec.len ≢ 0
            → (page : List ℕ) × (decompress_blob_into z blobs rec ≡ ok page)
              × (length page ≡ page_size))
  unfolding check_full
  check_full-decompress rec = elim (Bool-cases (rec.len == 0)) [
    | inl e ↦ rw e ([], refl, λ same real. absurd (real (ground arith)))
    | inr e ↦ elim (Option-cases (blobs rec.worker_id)) [
      | inl none_there ↦
          let beyond : ltb 0 (blob_end rec) ≡ true = ground arith in
          rw (e, none_there, beyond) (full_out_of_file rec ∷ [], refl, λ same real. cc)
      | inr (bytes, here) ↦ elim (Bool-cases (ltb (length bytes) (blob_end rec))) [
        | inl beyond ↦ rw (e, here, beyond) (full_out_of_file rec ∷ [], refl, λ same real. cc)
        | inr within ↦
            let inside : rec.offset + rec.len ≤ length bytes =
              ground (arith, sizes rec.worker_id bytes here) in
            rw (e, here, within, mmap, le→leb (rec.offset + rec.len) (length bytes) inside)
              (by_output (bulk (slice bytes rec.offset rec.len))
                (λ out unpacked fits. decompress_checked rec bytes out here inside unpacked fits))
      ]
    ]
  ]
    where
      by_output :
          (o : Option (List ℕ))
          → ((out : List ℕ)
              → o ≡ some out
              → length out ≡ page_size
              → decompress_blob_into z blobs rec ≡ ok out)
          → (found : List CheckError) × (ok (output_errors rec o) ≡ ok found)
            × (found ≡ []
                → rec.len ≢ 0
                → (page : List ℕ) × (decompress_blob_into z blobs rec ≡ ok page)
                  × (length page ≡ page_size))
      by_output none right = (full_zstd rec ∷ [], refl, λ same real. cc)
      by_output (some out) right = elim (Bool-cases (length out == page_size)) [
        | inl e ↦
            let fits : length out ≡ page_size = ground arith in
            rw e ([], refl, λ same real. (out, right out refl fits, fits))
        | inr e ↦ rw e (full_page_size rec ∷ [], refl, λ same real. cc)
      ]

  -- The blob of a delta record, for which every page has a patched one.
  abbrev pub IsPatch : ChunkRecord → Type 0
  IsPatch rec =
      (blob : List ℕ) × (delta_blob blobs rec ≡ ok blob)
      × ((base : List ℕ) → (page : List ℕ) × (apply_delta_patch_in_place blob base ≡ ok page))

  slice-IsPatch :
      (rec : ChunkRecord) (bytes : List ℕ)
      → blobs rec.worker_id ≡ some bytes
      → rec.offset + rec.len ≤ length bytes
      → rec.len % 10 ≡ 0
      → has_bad_index
          (length (slice bytes rec.offset rec.len) / 10)
          (slice bytes rec.offset rec.len)
        ≡ false
      → IsPatch rec
  unfolding delta_blob delta_from apply_delta_patch_in_place apply_delta_xor
  slice-IsPatch rec bytes here inside tens good =
      let blob = slice bytes rec.offset rec.len in
      let size : length blob ≡ rec.len = omega (
        arith,
        length-take rec.len (drop rec.offset bytes),
        length-drop rec.offset bytes,
        inside,
      ) in
      let multiple : (length blob % 10 == 0) ≡ true = ground (arith, ap (λ n. n % 10) size) in
      (
        blob,
        rw (here, mmap, le→leb (rec.offset + rec.len) (length bytes) inside) refl,
        λ base. rw multiple (xor_chunks_total (length blob / 10) blob base good),
      )

  check_delta-IsPatch :
      (rec : ChunkRecord)
      → (found : List CheckError) × (check_delta bulk blobs rec (file_size (blobs rec.worker_id))
          ≡ ok found)
        × (found ≡ []
            → (bytes : List ℕ) → blobs rec.worker_id ≡ some bytes
            → rec.offset ≤ length bytes
            → IsPatch rec)
  unfolding check_delta
  check_delta-IsPatch rec = elim (Bool-cases (rec.len == 0)) [
    | inl e ↦ rw e (
      [],
      refl,
      λ same bytes here at.
          slice-IsPatch rec bytes here (ground arith) (ground arith)
            (no_index_in_nothing bytes rec.offset rec.len (ground arith)),
    )
    | inr e ↦ elim (Option-cases (blobs rec.worker_id)) [
      | inl none_there ↦
          let beyond : ltb 0 (blob_end rec) ≡ true = ground arith in
          rw (e, none_there, beyond) (delta_out_of_file rec ∷ [], refl, λ same bytes here at. cc)
      | inr (bytes, here) ↦ elim (Bool-cases (ltb (length bytes) (blob_end rec))) [
        | inl beyond ↦
            rw (e, here, beyond) (delta_out_of_file rec ∷ [], refl, λ same bytes' here' at. cc)
        | inr within ↦ elim (Bool-cases (rec.len % 10 == 0)) [
          | inr odd ↦
              rw (e, here, within, odd) (delta_length rec ∷ [], refl, λ same bytes' here' at. cc)
          | inl tens ↦
              let inside : rec.offset + rec.len ≤ length bytes =
                ground (arith, sizes rec.worker_id bytes here) in
              let blob = slice bytes rec.offset rec.len in
              rw (e, here, within, tens, mmap, le→leb (rec.offset + rec.len) (length bytes) inside)
                (elim (Bool-cases (has_bad_index (length blob / 10) blob)) [
                  | inl bad ↦ rw bad (delta_word_index rec ∷ [], refl, λ same bytes' here' at. cc)
                  | inr good ↦ rw good (
                    [],
                    refl,
                    λ same bytes' here' at. slice-IsPatch rec bytes here inside (ground arith) good,
                  )
                ])
        ]
      ]
    ]
  ]

  abbrev pub IsSound : ChunkKind → ChunkRecord → Type 0
  IsSound zero_page rec = Unit {0}
  IsSound full rec =
      (page : List ℕ) × (decompress_blob_into z blobs rec ≡ ok page) × (length page ≡ page_size)
  IsSound delta rec = IsPatch rec

  file_errors-nil :
      (rec : ChunkRecord) (o : Option (List ℕ)) (found : List CheckError)
      → (file_errors rec o ++ found) ≡ []
      → (bytes : List ℕ) × (o ≡ some bytes) × (found ≡ [])
  file_errors-nil rec none found h = cc
  file_errors-nil rec (some bytes) found h = (bytes, refl, h)

  -- The check of a record returns, and a record without an error is sound.
  pub record_errors-IsSound :
      (rec : ChunkRecord)
      → (found : List CheckError) × (record_errors bulk blobs rec ≡ ok found)
        × (found ≡ [] → IsPlaced blobs rec.kind rec → IsSound rec.kind rec)
  unfolding record_errors
  record_errors-IsSound rec = by_kind rec.kind
    where
      by_kind :
          (k : ChunkKind)
          → (found : List CheckError) × ((kind_errors bulk blobs k rec
                  (file_size (blobs rec.worker_id))
                >>= (λ found. ok (file_errors rec (blobs rec.worker_id) ++ found)))
              ≡ ok found)
            × (found ≡ [] → IsPlaced blobs k rec → IsSound k rec)
      by_kind zero_page = (file_errors rec (blobs rec.worker_id) ++ [], refl, λ same placed. tt)
      by_kind full =
          let (found, returns, sound) = check_full-decompress rec in
          (
            file_errors rec (blobs rec.worker_id) ++ found,
            ap (λ r. r >>= (λ found. ok (file_errors rec (blobs rec.worker_id) ++ found))) returns,
            λ same placed. sound (file_errors-nil rec (blobs rec.worker_id) found same).2 placed,
          )
      by_kind delta =
          let (found, returns, sound) = check_delta-IsPatch rec in
          (
            file_errors rec (blobs rec.worker_id) ++ found,
            ap (λ r. r >>= (λ found. ok (file_errors rec (blobs rec.worker_id) ++ found))) returns,
            λ same placed.
                let (bytes, here, clean) = file_errors-nil rec (blobs rec.worker_id) found same in
                sound clean bytes here (subst (λ o. rec.offset ≤ file_size o) here placed),
          )
