-- ===== src/Inspect/Load.antt =====
-- What the browser loads, and the counters of its title.
use bxdb.Base.{ℕ, ◌+◌, Option, none, some, List, [], ◌∷◌}
use bxdb.Base.{Result, ok, err, ◌>>=◌, no_index_file}
use bxdb.Base.{length}
use bxdb.Chunk.Record.{ChunkRecord, ChunkKind, full, delta, zero_page}
use bxdb.Format.{read_and_verify_header, magic_idx, magic_log}
use bxdb.Log.Records.{read_records}
use bxdb.Log.Sort.{sort_by_key}
use bxdb.Store.{IndexMode, btree_mode, append_only_mode}
use bxdb.Convert.ToLog.{read_to_eof}

-- The records of the index, else those of the log in the order of their keys.
unfoldable pub load_records :
    Option (List ℕ) → Option (List ℕ) → Result (IndexMode × List ChunkRecord × ℕ)
unfolding read_to_eof sort_by_key
load_records (some index) log = do
  (max_snap, rest) ← read_and_verify_header index magic_idx
  records ← read_to_eof (length rest + 1) rest
  ok (btree_mode, records, max_snap)
load_records none (some log) = do
  (max_snap, rest) ← read_and_verify_header log magic_log
  records ← read_records rest
  ok (append_only_mode, sort_by_key records, max_snap)
load_records none none = err no_index_file

-- The counters of the title.
pub record Stats : Type 0 where
  pub total : ℕ
  pub full_count : ℕ
  pub delta_count : ℕ
  pub zero_count : ℕ
  pub full_bytes : ℕ
  pub delta_bytes : ℕ

abbrev add_record : ChunkKind → ℕ → Stats → Stats
add_record full len s = record s { full_count = s.full_count + 1; full_bytes = s.full_bytes + len }
add_record delta len s = record s {
  delta_count = s.delta_count + 1;
  delta_bytes = s.delta_bytes + len;
}
add_record zero_page len s = record s { zero_count = s.zero_count + 1 }

unfoldable pub add_records : Stats → List ChunkRecord → Stats
add_records s [] = s
add_records s (r ∷ records) = add_records (add_record r.kind r.len s) records

abbrev pub from_records : List ChunkRecord → Stats
from_records records =
    add_records
      (record {
        total = length records;
        full_count = 0;
        delta_count = 0;
        zero_count = 0;
        full_bytes = 0;
        delta_bytes = 0;
      })
      records
