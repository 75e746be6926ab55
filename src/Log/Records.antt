-- ===== src/Log/Records.antt =====
-- The loops that read and write records.
use bxdb.Base.{ℕ, zero, suc, ◌+◌, ◌-◌, ◌/◌, ◌%◌, none, some, List, [], ◌∷◌, ◌++◌}
use bxdb.Base.{Result, ok, err, panic, ◌>>=◌, ◌>>◌, guard, ◌==◌, length, index_misaligned}
use bxdb.Base.Stream.{read_exact}
use bxdb.Chunk.Record.{ChunkRecord, write_to, read_from, encode_fixed, decode_fixed}
use bxdb.Chunk.Record.{fixed_record_size}
use bxdb.Format.{read_and_verify_header, magic_log, magic_idx, header_size}

-- `while let Some(rec) = ChunkRecord::read_from(&mut r)? { records.push(rec) }`. A record takes
-- 22 bytes at least, so the number of bytes and one more is fuel enough; `panic` is no fuel.
unfoldable pub read_records_loop : ℕ → List ℕ → Result (List ChunkRecord)
read_records_loop zero r = panic
read_records_loop (suc fuel) r = elim (read_from r) [
  | ok (none, rest) ↦ ok []
  | ok (some rec, rest) ↦ (do records ← read_records_loop fuel rest; ok (rec ∷ records))
  | err e ↦ err e
  | panic ↦ panic
]

unfoldable pub read_records : List ℕ → Result (List ChunkRecord)
read_records r = read_records_loop (length r + 1) r

-- Header and records of a log, as they stand in the file.
unfoldable pub read_log_file : List ℕ → Result (List ChunkRecord)
read_log_file file = do (max_snap, rest) ← read_and_verify_header file magic_log; read_records rest

-- `for rec in records { rec.write_to(w)? }`
unfoldable pub write_records : List ChunkRecord → List ℕ
write_records [] = []
write_records (rec ∷ records) = write_to rec ++ write_records records

-- `for rec in records { rec.encode_fixed(&mut buf); w.write_all(&buf)? }`
unfoldable pub write_fixed_records : List ChunkRecord → List ℕ
write_fixed_records [] = []
write_fixed_records (rec ∷ records) = encode_fixed rec ++ write_fixed_records records

-- `for _ in 0..count { r.read_exact(&mut buf)?; records.push(decode_fixed(&buf)?) }`
unfoldable pub read_fixed_records : ℕ → List ℕ → Result (List ChunkRecord)
read_fixed_records zero r = ok []
read_fixed_records (suc count) r = do
  (buf, rest) ← read_exact fixed_record_size r
  rec ← decode_fixed buf
  records ← read_fixed_records count rest
  ok (rec ∷ records)

-- `read_index` of purge.rs
unfoldable pub read_index : List ℕ → Result (List ChunkRecord)
read_index file = do
  (max_snap, rest) ← read_and_verify_header file magic_idx
  let body_len = length file - header_size
  guard (body_len % fixed_record_size == 0) index_misaligned
  read_fixed_records (body_len / fixed_record_size) rest
