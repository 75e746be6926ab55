-- ===== src/Tests/Convert.antt =====
-- The theorems on the conversion back to a log.
use bxdb.Base.{◌≡◌, refl, arith, [], ◌∷◌, ◌++◌, List, some, none, ok, ◌>>=◌, All}
use bxdb.Chunk.Record.{ChunkRecord, IsLoggable}
use bxdb.Format.{write_index_header}
use bxdb.Log.Records.{write_fixed_records}
use bxdb.Index.Mmap.{index_of}
use bxdb.Convert.{max_snapshot, to_btree}
use bxdb.Convert.Reads.{read_page, spec_page}
use bxdb.Convert.ToLog.{to_log, to_btree-to_log, read_page-to_log}
use bxdb.Tests.Data.{first, second, other, first-IsLoggable, second-IsLoggable, stored, files}

-- The records of the index, which are in another order in a log.
abbrev ascending : List ChunkRecord
ascending = first ∷ second ∷ other ∷ []

ascending-IsLoggable : All IsLoggable ascending
ascending-IsLoggable = (first-IsLoggable, (second-IsLoggable, ((omega arith, λ h. refl), tt)))

to_btree-to_log_example :
    (to_log (write_index_header 7 ++ (write_fixed_records ascending ++ (1 ∷ []))) >>= to_btree)
    ≡ ok (index_of (max_snapshot ascending) ascending)
to_btree-to_log_example =
    to_btree-to_log ascending ascending-IsLoggable
      ((omega arith, (omega arith, tt)), ((omega arith, tt), (tt, tt))) 7 (omega arith) (1 ∷ [])
      (omega arith)

read_page-to_log_example :
    (to_log (write_index_header 7 ++ (write_fixed_records ascending ++ (1 ∷ [])))
      >>= (λ log. read_page stored (record { index = none; log = some log; blobs = files }) 3 8))
    ≡ spec_page stored files ascending 3 8
read_page-to_log_example =
    read_page-to_log ascending ascending-IsLoggable
      ((omega arith, (omega arith, tt)), ((omega arith, tt), (tt, tt))) 7 (omega arith) (1 ∷ [])
      (omega arith) stored files 3 8 (omega arith) (omega arith)
