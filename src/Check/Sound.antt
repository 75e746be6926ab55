-- ===== src/Check/Sound.antt =====
-- A report without errors: every record of the log resolves.
use bxdb.Base.{ℕ, ◌≡◌, ◌≢◌, refl, sym, ap, ◌∙◌, arith, some, List, [], ◌∷◌, inl, inr}
use bxdb.Base.{
  false, Bool-cases, Option-cases, ==-refl, ==_iff, ◌==◌, if◌then◌else◌, ok, All, replicate,
  some-injective,
}
use bxdb.Chunk.Record.{ChunkRecord, ChunkKind, full, delta, zero_page, is_full}
use bxdb.Chunk.Patch.{page_size}
use bxdb.Log.Sort.{sort_dedup}
use bxdb.Index.Sorted.{find_key}
use bxdb.Index.Find.{find_key-sort_dedup}
use bxdb.Store.{BlobReaders, resolve_uncached, resolve_kind, full_base}
use bxdb.Store.Zstd.{Zstd}
use bxdb.Check.Defs.{CheckError, BulkDecompressor, base_errors_of, base_errors}
use bxdb.Check.Records.{AreFiles, IsAgreeing, IsSound}
use mathlib.Core.Path.{subst}
use bxdb.Check.Defs.{base_not_full}
use bxdb.Check.Defs.{CheckReport, start_state, check}
use bxdb.Check.Records.{IsPlaced, record_errors-IsSound}
use bxdb.Format.{read_and_verify_header-write_header, log_file}
use bxdb.Log.Records.{write_records}
use bxdb.Store.Lookup.{log_of}
use bxdb.Chunk.Record.{IsLoggable}
use bxdb.Check.Loop.{errors_of, after, check_loop-write_records, append_nil, after-IsAfter}
use bxdb.Base.{length, length-append, ◌++◌, ◌+◌, ◌^◌, ◌<◌}
use bxdb.Check.Loop.{append_nil}

-- No two records of a log have the same key.
abbrev pub AreDistinct : List ChunkRecord → Type 0
AreDistinct [] = Unit {0}
AreDistinct (x ∷ xs) = All (λ y. y.key ≢ x.key) xs × AreDistinct xs

pub find_key-AreDistinct :
    (records : List ChunkRecord)
    → AreDistinct records
    → All (λ r. find_key r.key records ≡ some r) records
unfolding find_key
find_key-AreDistinct [] h = tt
find_key-AreDistinct (x ∷ xs) (hx, hs) =
    (rw (==-refl x.key) refl, behind xs (find_key-AreDistinct xs hs) hx)
  where
    behind :
        (ys : List ChunkRecord)
        → All (λ r. find_key r.key xs ≡ some r) ys
        → All (λ y. y.key ≢ x.key) ys
        → All (λ r. find_key r.key (x ∷ xs) ≡ some r) ys
    behind [] h ne = tt
    behind (y ∷ ys) (h, hs) (ne, nes) =
        let other : (x.key == y.key) ≡ false = ground arith in (rw other h, behind ys hs nes)

-- What is found has the key, and what all records of the list have.
pub find_key-All :
    (P : ChunkRecord → Type 0) (key : ℕ) (xs : List ChunkRecord) (b : ChunkRecord)
    → All P xs
    → find_key key xs ≡ some b
    → P b × (b.key ≡ key)
unfolding find_key
find_key-All P key [] b h at = cc
find_key-All P key (x ∷ xs) b (hx, hs) at = elim (Bool-cases (x.key == key)) [
  | inl e ↦
      let same : x ≡ b = some-injective (sym (rw e refl) ∙ at) in
      (subst P same hx, ap (λ r. r.key) (sym same) ∙ (==_iff x.key key).0 e)
  | inr e ↦ find_key-All P key xs b hs (sym (rw e refl) ∙ at)
]

is_full_kind :
    (k : ChunkKind) (e : CheckError) → (if is_full k then [] else (e ∷ [])) ≡ [] → k ≡ full
is_full_kind full e h = refl
is_full_kind delta e h = cc
is_full_kind zero_page e h = cc

base_errors-nil :
    (full_index records : List ChunkRecord)
    → base_errors full_index records ≡ []
    → All (λ r. base_errors_of r.kind full_index r ≡ []) records
unfolding base_errors
base_errors-nil full_index [] h = tt
base_errors-nil full_index (rec ∷ records) h =
    let (here, rest) =
      append_nil (base_errors_of rec.kind full_index rec) (base_errors full_index records) h in
    (here, base_errors-nil full_index records rest)

-- A delta record without an error has a full record as its base.
base_errors_of-found :
    (full_index : List ChunkRecord) (rec : ChunkRecord)
    → base_errors_of delta full_index rec ≡ []
    → (b : ChunkRecord) × (find_key rec.base_key full_index ≡ some b) × (b.kind ≡ full)
base_errors_of-found full_index rec h = elim (Bool-cases (rec.base_key == 0)) [
  | inl e ↦ cc (h, e)
  | inr e ↦ elim (Option-cases (find_key rec.base_key full_index)) [
    | inl gone ↦ cc (h, e, gone)
    | inr (b, at) ↦ (b, at, is_full_kind b.kind (base_not_full rec) (sym (rw (e, at) refl) ∙ h))
  ]
]

-- The record is read as a page, by the index of the records.
abbrev pub Resolves : Zstd → BlobReaders → List ChunkRecord → ChunkRecord → Type 0
Resolves z blobs records rec =
    (page : List ℕ) × (resolve_uncached z blobs (λ key. ok (find_key key (sort_dedup records))) rec
      ≡ ok page)

module _ (z : Zstd) (bulk : BulkDecompressor) (agree : IsAgreeing z bulk) (blobs : BlobReaders)
    (sizes : AreFiles blobs) (records : List ChunkRecord) (distinct : AreDistinct records) where
  -- A record of the log, found under its key and without an error.
  IsClean : ChunkRecord → Type 0
  IsClean rec =
      (find_key rec.key records ≡ some rec) × IsSound z bulk agree blobs sizes rec.kind rec

  record-IsClean :
      (rec : ChunkRecord)
      → find_key rec.key records ≡ some rec
      → errors_of z bulk agree blobs sizes rec ≡ []
      → IsPlaced blobs rec.kind rec
      → IsClean rec
  unfolding IsClean errors_of
  record-IsClean rec found clean placed =
      (found, (record_errors-IsSound z bulk agree blobs sizes rec).2 clean placed)

  resolves :
      (full_index : List ChunkRecord) (rec : ChunkRecord)
      → All IsClean full_index
      → IsClean rec
      → base_errors_of rec.kind full_index rec ≡ []
      → Resolves z blobs records rec
  unfolding resolve_uncached IsClean full_base
  resolves full_index rec clean (found, sound) no_error = by_kind rec.kind sound no_error
    where
      by_kind :
          (k : ChunkKind)
          → IsSound z bulk agree blobs sizes k rec
          → base_errors_of k full_index rec ≡ []
          → (page : List ℕ) × (resolve_kind z blobs
                (λ key. ok (find_key key (sort_dedup records)))
                k
                rec
              ≡ ok page)
      by_kind zero_page s h = (replicate page_size 0, refl)
      by_kind full (page, unpacked, size) h = (page, unpacked)
      by_kind delta (blob, read, patched) h =
          let (b, at, kind) = base_errors_of-found full_index rec h in
          let ((b_found, b_sound), b_key) =
            find_key-All IsClean rec.base_key full_index b clean at in
          let (base, unpacked, size) =
            subst (λ k. IsSound z bulk agree blobs sizes k b) kind b_sound in
          let (page, applied) = patched base in
          let looked_up : find_key rec.base_key (sort_dedup records) ≡ some b =
            find_key-sort_dedup rec.base_key records
            ∙ ap (λ key. find_key key records) (sym b_key)
            ∙ b_found in
          (page, rw (looked_up, kind, unpacked, read) applied)

  -- The check of a log returns. It counts every record under one kind, and if it reports no error
  -- every record resolves to a page. A torn tail of the log has fewer than 22 bytes, the records
  -- are as the program makes them, no two have the same key, full records are not empty, delta
  -- records start inside their files, files are shorter than 2^64 - 1 bytes, and what zstd
  -- decompresses to at most a page it decompresses into the buffer of a page as into a longer one.
  pub check-Resolves :
      All IsLoggable records
      → (max_snap : ℕ) → max_snap < 256 ^ 4
      → (torn : List ℕ) → length torn < 22
      → All (λ r. IsPlaced blobs r.kind r) records
      → (report : CheckReport) × (check bulk (some (log_of max_snap records torn)) blobs
          ≡ ok report)
        × (report.total_records ≡ length records)
        × (report.full_count + report.delta_count + report.zero_count ≡ report.total_records)
        × (report.errors ≡ [] → All (Resolves z blobs records) records)
  unfolding check
  check-Resolves valid max_snap max_fits torn short placed =
      let end = after z bulk agree blobs sizes (start_state blobs) records in
      let kept = after-IsAfter z bulk agree blobs sizes (start_state blobs) records in
      let second = base_errors end.full_index end.all_records in
      (
        record end.report { errors = end.report.errors ++ second },
        rw
            (read_and_verify_header-write_header log_file max_snap (write_records records ++ torn)
              max_fits)
            (rw
              (check_loop-write_records z bulk agree blobs sizes
                (length (write_records records ++ torn) + 1) (start_state blobs) records torn
                (omega (arith, length-append (write_records records) torn)) valid short)
              refl),
        omega (arith, kept.total),
        kept.counted refl,
        λ none_found.
            let (first_clean, second_clean) = append_nil end.report.errors second none_found in
            let (nothing, rec_clean) = kept.clean first_clean in
            let clean =
              all_clean records (find_key-AreDistinct records distinct) rec_clean placed in
            all_resolve records end.full_index (kept.indexed IsClean tt clean) clean (
              base_errors-nil end.full_index records
                (ap (base_errors end.full_index) (sym kept.listed) ∙ second_clean)),
      )
    where
      all_clean :
          (rs : List ChunkRecord)
          → All (λ r. find_key r.key records ≡ some r) rs
          → All (λ r. errors_of z bulk agree blobs sizes r ≡ []) rs
          → All (λ r. IsPlaced blobs r.kind r) rs
          → All IsClean rs
      all_clean [] f c p = tt
      all_clean (r ∷ rs) (f, fs) (c, cs) (p, ps) = (record-IsClean r f c p, all_clean rs fs cs ps)

      all_resolve :
          (rs full_index : List ChunkRecord)
          → All IsClean full_index
          → All IsClean rs
          → All (λ r. base_errors_of r.kind full_index r ≡ []) rs
          → All (Resolves z blobs records) rs
      all_resolve [] full_index indexed c b = tt
      all_resolve (r ∷ rs) full_index indexed (c, cs) (b, bs) =
          (resolves full_index r indexed c b, all_resolve rs full_index indexed cs bs)
