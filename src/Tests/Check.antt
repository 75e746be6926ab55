-- ===== src/Tests/Check.antt =====
-- The theorems on the check.
use bxdb.Base.{ℕ, ◌+◌, ◌^◌, ◌<◌, ◌≡◌, refl, ap, arith, [], ◌∷◌, List, some, none, ok, All, length}
use bxdb.Base.{◌*◌, ◌-◌, Bool, ◌==◌, true, false, some-injective, length-replicate, if◌then◌else◌}
use bxdb.Chunk.Record.{ChunkRecord, new_delta}
use bxdb.Store.Lookup.{log_of}
use bxdb.Check.{worker_without_file, record_errors, CheckReport, check, BulkDecompressor}
use bxdb.Check.Records.{AreFiles, IsAgreeing}
use bxdb.Check.Sound.{check-Resolves, Resolves}
use bxdb.Tests.Data.{first, other, first-IsLoggable, stored, files, page_of}

abbrev unpack : BulkDecompressor
unpack blob = some blob

unpack-IsAgreeing : IsAgreeing stored unpack
unpack-IsAgreeing blob out e fits = ap ok (some-injective e)

files-AreFiles : AreFiles files
files-AreFiles i bytes = by_id (i == 1)
  where
    by_id :
        (b : Bool) → (if b then some (page_of 9) else none) ≡ some bytes → length bytes < 2 ^ 64 - 1
    by_id true h = omega (arith, ap length (some-injective h), length-replicate {A = ℕ} 4096 9)
    by_id false h = cc

-- A page, and a snapshot in which it did not change.
abbrev pub same_page : ChunkRecord
same_page = new_delta (3 * 524288 + 9) 1 4096 0 (3 * 524288 + 5)

abbrev checked : List ChunkRecord
checked = first ∷ same_page ∷ []

check-Resolves_example :
    (report : CheckReport) × (check unpack (some (log_of 9 checked (1 ∷ []))) files ≡ ok report)
    × (report.total_records ≡ length checked)
    × (report.full_count + report.delta_count + report.zero_count ≡ report.total_records)
    × (report.errors ≡ [] → All (Resolves stored files checked) checked)
check-Resolves_example =
    check-Resolves stored unpack unpack-IsAgreeing files files-AreFiles checked
      ((omega arith, tt), (tt, tt)) (first-IsLoggable, ((omega arith, λ h. cc), tt)) 9 (omega arith)
      (1 ∷ []) (omega arith) (omega arith, (omega arith, tt))

no_files : record_errors unpack (λ i. none) other ≡ ok (worker_without_file other ∷ [])
unfolding record_errors
no_files = refl
