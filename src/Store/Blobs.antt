-- ===== src/Store/Blobs.antt =====
-- Appending to blob files keeps what can be read from them.
use bxdb.Base.{
  ℕ, zero, suc, ◌+◌, ◌^◌, ◌≤◌, ◌≡◌, refl, sym, ap, ◌∙◌, arith, Option, none, some, true,
}
use bxdb.Base.{
  List, [], ◌∷◌, ◌++◌, append-nil, Result, Bool, Error, false, blob_out_of_range,
  blob_offset_overflow, delta_blob_out_of_range, ok, panic, guard, length, length-append, take,
}
use bxdb.Base.{slice, leb, ltb, le→leb, leb→le, >>=-eq-ok}
use bxdb.Base.{drop-append, take-append}
use bxdb.Chunk.Record.{ChunkRecord, ChunkKind, full, delta, zero_page}
use bxdb.Store.Zstd.{Zstd}
use bxdb.Store.Defs.{
  BlobReaders, mmap, decompress_blob_into, decompress_from, delta_from, resolve_kind, delta_blob,
  full_base, resolve_uncached,
}

-- Each file of the first is a prefix of the file with its id in the second.
abbrev pub Grows : BlobReaders → BlobReaders → Type 0
Grows old new =
    (i : ℕ) (bytes : List ℕ) → old i ≡ some bytes → (more : List ℕ) × (new i ≡ some (bytes ++ more))

pub Grows-refl : (blobs : BlobReaders) → Grows blobs blobs
Grows-refl blobs i bytes h = ([], h ∙ ap some (sym (append-nil bytes)))

take-prefix : {A : Type 0} (n : ℕ) (xs ys : List A) → n ≤ length xs → take n (xs ++ ys) ≡ take n xs
take-prefix zero xs ys h = refl
take-prefix (suc n) [] ys h = absurd (omega arith)
take-prefix (suc n) (x ∷ xs) ys h = ap (◌∷◌ x) (take-prefix n xs ys (omega arith))

pub slice-prefix :
    {A : Type 0} (xs ys : List A) (off n : ℕ)
    → off + n ≤ length xs
    → slice (xs ++ ys) off n ≡ slice xs off n
slice-prefix xs ys zero n h = take-prefix n xs ys (omega arith)
slice-prefix [] ys (suc off) n h = absurd (omega arith)
slice-prefix (x ∷ xs) ys (suc off) n h = slice-prefix xs ys off n (omega arith)

-- What was appended last is the slice behind the old length.
pub slice-last : {A : Type 0} (xs ys : List A) → slice (xs ++ ys) (length xs) (length ys) ≡ ys
slice-last xs ys =
    ap (take (length ys)) (drop-append (length xs) xs ys refl)
    ∙ ap (take (length ys)) (sym (append-nil ys))
    ∙ take-append (length ys) ys [] refl

guard-ok : (b : Bool) (e : Error) {u : Unit {0}} → guard b e ≡ ok u → b ≡ true
guard-ok true e h = refl
guard-ok false e h = cc

-- A blob that is inside its file reads from a longer file as before.
decompress_from_prefix :
    (z : Zstd) (bytes more : List ℕ) (rec : ChunkRecord) (page : List ℕ)
    → decompress_from z bytes rec ≡ ok page
    → decompress_from z (bytes ++ more) rec ≡ ok page
unfolding decompress_from
decompress_from_prefix z bytes more rec page h =
    let (u, small, h') =
      >>=-eq-ok (guard (ltb (rec.offset + rec.len) (2 ^ 64)) blob_offset_overflow) _ h in
    let (v, inside, rest) =
      >>=-eq-ok (guard (leb (rec.offset + rec.len) (length bytes)) blob_out_of_range) _ h' in
    let fits = leb→le _ _ (guard-ok _ _ inside) in
    rw (guard-ok _ _ small) (
      rw
        (le→leb (rec.offset + rec.len) (length (bytes ++ more))
          (omega (arith, length-append bytes more, fits)))
        (rw (slice-prefix bytes more rec.offset rec.len fits) rest))

delta_from_prefix :
    (bytes more : List ℕ) (rec : ChunkRecord) (blob : List ℕ)
    → delta_from bytes rec ≡ ok blob
    → delta_from (bytes ++ more) rec ≡ ok blob
unfolding delta_from
delta_from_prefix bytes more rec blob h =
    let (v, inside, rest) =
      >>=-eq-ok (guard (leb (rec.offset + rec.len) (length bytes)) delta_blob_out_of_range) _ h in
    let fits = leb→le _ _ (guard-ok _ _ inside) in
    rw
      (le→leb (rec.offset + rec.len) (length (bytes ++ more))
        (omega (arith, length-append bytes more, fits)))
      (rw (slice-prefix bytes more rec.offset rec.len fits) rest)

mmap-Grows :
    (old new : BlobReaders) (i : ℕ) (bytes : List ℕ)
    → Grows old new
    → mmap old i ≡ ok bytes
    → (more : List ℕ) × (mmap new i ≡ ok (bytes ++ more))
mmap-Grows old new i bytes grows = from (old i) refl
  where
    from :
        (o : Option (List ℕ))
        → old i ≡ o
        → (elim o as (λ x. Result (List ℕ)) [ none ↦ panic | some file ↦ ok file ]) ≡ ok bytes
        → (more : List ℕ) × (mmap new i ≡ ok (bytes ++ more))
    from none e h = cc
    from (some file) e h =
        let (more, e') = grows i file e in
        let same : file ≡ bytes = cc in (more, rw (e', mmap) (ap (λ t. ok (t ++ more)) same))

full_base-eq : (o : Option ChunkRecord) (b : ChunkRecord) → full_base o ≡ ok b → o ≡ some b
unfolding full_base
full_base-eq none b h = cc
full_base-eq (some x) b h = ground arith

module _ (z : Zstd) (old new : BlobReaders) (grows : Grows old new) where
  pub decompress-Grows :
      (rec : ChunkRecord) (page : List ℕ)
      → decompress_blob_into z old rec ≡ ok page
      → decompress_blob_into z new rec ≡ ok page
  unfolding decompress_blob_into
  decompress-Grows rec page h =
      let (bytes, m, rest) = >>=-eq-ok (mmap old rec.worker_id) _ h in
      let (more, m') = mmap-Grows old new rec.worker_id bytes grows m in
      rw m' (decompress_from_prefix z bytes more rec page rest)

  pub delta_blob-Grows :
      (rec : ChunkRecord) (blob : List ℕ)
      → delta_blob old rec ≡ ok blob
      → delta_blob new rec ≡ ok blob
  unfolding delta_blob
  delta_blob-Grows rec blob h =
      let (bytes, m, rest) = >>=-eq-ok (mmap old rec.worker_id) _ h in
      let (more, m') = mmap-Grows old new rec.worker_id bytes grows m in
      rw m' (delta_from_prefix bytes more rec blob rest)

  -- A record that resolves to a page goes on to resolve to that page when blob files grow, under
  -- any index that finds what the old one found.
  pub resolve-Grows :
      (lookup lookup' : ℕ → Result (Option ChunkRecord)) (rec : ChunkRecord) (page : List ℕ)
      → ((key : ℕ) (b : ChunkRecord) → lookup key ≡ ok (some b) → lookup' key ≡ ok (some b))
      → resolve_uncached z old lookup rec ≡ ok page
      → resolve_uncached z new lookup' rec ≡ ok page
  unfolding resolve_uncached
  resolve-Grows lookup lookup' rec page found = by_kind rec.kind
    where
      by_kind :
          (k : ChunkKind)
          → resolve_kind z old lookup k rec ≡ ok page
          → resolve_kind z new lookup' k rec ≡ ok page
      by_kind zero_page h = h
      by_kind full h = decompress-Grows rec page h
      by_kind delta h =
          let (o, l, h₁) = >>=-eq-ok (lookup rec.base_key) _ h in
          let (b, f, h₂) = >>=-eq-ok (full_base o) _ h₁ in
          let (base, d, h₃) = >>=-eq-ok (decompress_blob_into z old b) _ h₂ in
          let (blob, t, h₄) = >>=-eq-ok (delta_blob old rec) _ h₃ in
          let is_base = full_base-eq o b f in
          rw (found rec.base_key b (l ∙ ap ok is_base)) (
            rw
              (
                sym (ap full_base is_base) ∙ f,
                decompress-Grows b base d,
                delta_blob-Grows rec blob t,
              )
              h₄)
