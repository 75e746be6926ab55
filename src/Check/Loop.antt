-- ===== src/Check/Loop.antt =====
-- The first loop over a log that was written: it returns, and what its state says of the records.
use bxdb.Base.{
  ℕ, zero, suc, ◌+◌, ◌<◌, ◌≤◌, ◌≡◌, refl, sym, ◌∙◌, arith, List, [], ◌∷◌, ◌++◌, append_assoc,
  append-nil,
}
use bxdb.Base.{ok, length, length-append, All}
use bxdb.Chunk.Record.{ChunkRecord, ChunkKind, full, delta, zero_page, IsLoggable, write_to}
use bxdb.Chunk.Record.Log.{read_from-write_to, read_from_end, length-write_to}
use bxdb.Log.Records.{write_records}
use bxdb.Store.{BlobReaders}
use bxdb.Store.Zstd.{Zstd}
use bxdb.Check.Defs.{
  CheckError, CheckReport, CheckState, BulkDecompressor, noted, count, index_record, check_record,
  check_loop,
}
use bxdb.Check.Records.{AreFiles, IsAgreeing, record_errors-IsSound}

pub append_nil : {A : Type 0} (xs ys : List A) → (xs ++ ys) ≡ [] → (xs ≡ []) × (ys ≡ [])
append_nil [] ys h = (refl, h)
append_nil (x ∷ xs) ys h = cc

module _ (z : Zstd) (bulk : BulkDecompressor) (agree : IsAgreeing z bulk) (blobs : BlobReaders)
    (sizes : AreFiles blobs) where
  unfoldable pub errors_of : ChunkRecord → List CheckError
  errors_of rec = (record_errors-IsSound z bulk agree blobs sizes rec).0

  -- The state after the rounds of the records.
  unfoldable pub after : CheckState → List ChunkRecord → CheckState
  after st [] = st
  after st (rec ∷ records) = after (noted st rec (errors_of rec)) records

  pub check_loop-write_records :
      (fuel : ℕ) (st : CheckState) (records : List ChunkRecord) (torn : List ℕ)
      → length (write_records records) < fuel
      → All IsLoggable records
      → length torn < 22
      → check_loop bulk blobs fuel st (write_records records ++ torn) ≡ ok (after st records)
  unfolding check_loop check_record write_records after errors_of
  check_loop-write_records zero st records torn h v t = absurd (omega arith)
  check_loop-write_records (suc fuel) st [] torn h v t = rw (read_from_end torn t, check_loop) refl
  check_loop-write_records (suc fuel) st (rec ∷ records) torn h (v, vs) t =
      rw (append_assoc (write_to rec) (write_records records) torn) (
        rw
          (
            read_from-write_to rec (write_records records ++ torn) v,
            check_loop,
            (record_errors-IsSound z bulk agree blobs sizes rec).1,
          )
          (check_loop-write_records fuel (noted st rec (errors_of rec)) records torn
            (omega (arith, length-append (write_to rec) (write_records records), write_to-pos rec))
            vs t))
    where
      write_to-pos : (r : ChunkRecord) → 1 ≤ length (write_to r)
      write_to-pos r = ground (arith, length-write_to r)

  -- The counters of a report: each record is counted under one kind.
  abbrev pub IsCounted : CheckReport → Type 0
  IsCounted report =
      report.full_count + report.delta_count + report.zero_count ≡ report.total_records

  -- What the rounds keep of the state.
  pub record IsAfter (st : CheckState) (records : List ChunkRecord) (end : CheckState)
      : Type 1 where
    pub clean :
        end.report.errors ≡ [] → (st.report.errors ≡ []) × All (λ r. errors_of r ≡ []) records
    pub listed : end.all_records ≡ st.all_records ++ records
    pub indexed :
        (P : ChunkRecord → Type 0) → All P st.full_index → All P records → All P end.full_index
    pub total : end.report.total_records ≡ st.report.total_records + length records
    pub counted : IsCounted st.report → IsCounted end.report

  noted-counted :
      (k : ChunkKind) (report : CheckReport)
      → ((count k report).errors ≡ report.errors)
        × ((count k report).total_records ≡ report.total_records)
        × ((count k report).full_count + (count k report).delta_count + (count k report).zero_count
            ≡ report.full_count + report.delta_count + report.zero_count + 1)
  noted-counted full report = (refl, refl, omega arith)
  noted-counted delta report = (refl, refl, omega arith)
  noted-counted zero_page report = (refl, refl, omega arith)

  index_record-All :
      (P : ChunkRecord → Type 0) (k : ChunkKind) (rec : ChunkRecord) (xs : List ChunkRecord)
      → All P xs
      → P rec
      → All P (index_record k rec xs)
  index_record-All P full rec xs h hr = (hr, h)
  index_record-All P zero_page rec xs h hr = (hr, h)
  index_record-All P delta rec xs h hr = h

  pub after-IsAfter :
      (st : CheckState) (records : List ChunkRecord) → IsAfter st records (after st records)
  unfolding after
  after-IsAfter st [] = record {
    clean = λ h. (h, tt);
    listed = sym (append-nil st.all_records);
    indexed = λ P h hs. h;
    total = omega arith;
    counted = λ h. h;
  }
  after-IsAfter st (rec ∷ records) =
      let rest = after-IsAfter (noted st rec (errors_of rec)) records in
      let (same_errors, same_total, one_more) = noted-counted rec.kind st.report in
      record {
        clean = λ h.
            let (before, hs) = rest.clean h in
            let (st_clean, rec_clean) =
              append_nil (count rec.kind st.report).errors (errors_of rec) before in
            (sym same_errors ∙ st_clean, (rec_clean, hs));
        listed = rest.listed ∙ append_assoc st.all_records (rec ∷ []) records;
        indexed =
            λ P h (hr, hs). rest.indexed P (index_record-All P rec.kind rec st.full_index h hr) hs;
        total = omega (arith, rest.total, same_total);
        counted = λ h. rest.counted (omega (arith, h, one_more, same_total));
      }
