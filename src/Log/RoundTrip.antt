-- ===== src/Log/RoundTrip.antt =====
-- The records that were written are the records that are read.
use bxdb.Base.{ℕ, zero, suc, ◌*◌, ◌/◌, ◌-◌, ◌%◌, ◌^◌, ◌≤◌, ◌<◌, ◌≡◌, refl, ap, ◌∙◌, arith}
use bxdb.Base.{List, [], ◌∷◌, ◌++◌, append_assoc, ok}
use bxdb.Base.{length, length-append, All, ==_iff}
use bxdb.Base.Stream.{read_exact-append}
use bxdb.Chunk.Record.{ChunkRecord, IsRecord, IsLoggable, write_to, encode_fixed}
use bxdb.Chunk.Record.Log.{read_from-write_to, read_from_end, length-write_to}
use bxdb.Chunk.Record.Fixed.{decode_fixed-encode_fixed, length-encode_fixed}
use bxdb.Format.{log_file, index_file, length-write_header}
use bxdb.Format.{read_and_verify_header-write_header, write_log_header, write_index_header}
use bxdb.Log.Records.{read_records_loop, read_records, read_log_file, write_records}
use bxdb.Log.Records.{write_fixed_records, read_fixed_records, read_index}

-- A tail of fewer than 22 bytes, such as a record that was cut in its head, is passed over.
read_records_loop-write_records :
    (fuel : ℕ) (records : List ChunkRecord) (torn : List ℕ)
    → length (write_records records) < fuel
    → All IsLoggable records
    → length torn < 22
    → read_records_loop fuel (write_records records ++ torn) ≡ ok records
unfolding read_records_loop write_records
read_records_loop-write_records zero records torn h v t = absurd (omega arith)
read_records_loop-write_records (suc fuel) [] torn h v t =
    rw (read_from_end torn t, read_records_loop)
read_records_loop-write_records (suc fuel) (rec ∷ records) torn h (v, vs) t =
    rw (append_assoc (write_to rec) (write_records records) torn) (
      rw (read_from-write_to rec (write_records records ++ torn) v, read_records_loop)
        (rw (
          read_records_loop-write_records fuel records torn
            (omega (
              arith,
              length-append (write_to rec) (write_records records),
              length-write_to-pos rec,
            ))
            vs t)))
  where
    length-write_to-pos : (r : ChunkRecord) → 1 ≤ length (write_to r)
    length-write_to-pos r = ground (arith, length-write_to r)

-- A log holds its header and its records. They are read back in order, also when the file ends
-- in a piece of fewer than 22 bytes.
pub read_log_file-write_records :
    (records : List ChunkRecord) (max_snap : ℕ) (torn : List ℕ)
    → All IsLoggable records
    → max_snap < 256 ^ 4
    → length torn < 22
    → read_log_file (write_log_header max_snap ++ (write_records records ++ torn)) ≡ ok records
unfolding read_log_file read_records
read_log_file-write_records records max_snap torn v h t =
    rw (read_and_verify_header-write_header log_file max_snap (write_records records ++ torn) h) (
      read_records_loop-write_records _ records torn
        (omega (arith, length-append (write_records records) torn)) v t)

pub length-write_fixed_records :
    (records : List ChunkRecord) → length (write_fixed_records records) ≡ length records * 32
unfolding write_fixed_records
length-write_fixed_records [] = refl
length-write_fixed_records (rec ∷ records) = omega (
  arith,
  length-append (encode_fixed rec) (write_fixed_records records),
  length-encode_fixed rec,
  length-write_fixed_records records,
)

read_fixed_records-write :
    (records : List ChunkRecord)
    → All IsRecord records
    → read_fixed_records (length records) (write_fixed_records records) ≡ ok records
unfolding read_fixed_records write_fixed_records
read_fixed_records-write [] v = refl
read_fixed_records-write (rec ∷ records) (v, vs) =
    rw
      (read_exact-append 32 (encode_fixed rec) (write_fixed_records records)
        (length-encode_fixed rec))
      (rw (decode_fixed-encode_fixed rec v) (rw (read_fixed_records-write records vs)))

-- An index holds its header and its records, and they are read back in order.
pub read_index-write_fixed_records :
    (records : List ChunkRecord) (max_snap : ℕ)
    → All IsRecord records
    → max_snap < 256 ^ 4
    → read_index (write_index_header max_snap ++ write_fixed_records records) ≡ ok records
unfolding read_index
read_index-write_fixed_records records max_snap v h =
    rw (read_and_verify_header-write_header index_file max_snap (write_fixed_records records) h) (
      rw ((==_iff (body % 32) 0).1 (omega (arith, body_eq))) (
        ap (λ n. read_fixed_records n (write_fixed_records records)) {x = body / 32}
          (omega (arith, body_eq))
        ∙ read_fixed_records-write records v))
  where
    body : ℕ
    body = length (write_index_header max_snap ++ write_fixed_records records) - 16

    body_eq : body ≡ length records * 32
    body_eq = omega (
      arith,
      length-append (write_index_header max_snap) (write_fixed_records records),
      length-write_header index_file max_snap,
      length-write_fixed_records records,
    )
