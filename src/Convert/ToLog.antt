-- ===== src/Convert/ToLog.antt =====
-- `to_log`, back from an index to a log.
use bxdb.Base.{
  ℕ, zero, suc, ◌+◌, ◌^◌, ◌<◌, ◌≡◌, refl, sym, ap, ◌∙◌, arith, some, none, List, [], ◌∷◌, ◌++◌,
  append-nil, append_assoc,
}
use bxdb.Base.{
  Result, ok, err, panic, ◌>>=◌, length, length-append, All, Error, kind_of, ErrorKind,
  unexpected_eof,
}
use bxdb.Base.Stream.{read_exact, read_exact-append, read_exact_short}
use bxdb.Chunk.Record.{
  ChunkRecord, IsRecord, IsLoggable, decode_fixed, encode_fixed, fixed_record_size,
}
use bxdb.Chunk.Record.Fixed.{decode_fixed-encode_fixed, length-encode_fixed}
use bxdb.Format.{
  read_and_verify_header, magic_idx, write_index_header, write_log_header,
  read_and_verify_header-write_header, index_file,
}
use bxdb.Log.Records.{write_records, write_fixed_records}
use bxdb.Log.Sort.{sort_by_key, sort_by_key-All, IsStrict}
use bxdb.Log.Newest.{newest, newest-sort_by_key}
use bxdb.Log.Groups.{by_snapshot, by_snapshot-All, newest-by_snapshot}
use bxdb.Index.Sorted.{find_key}
use bxdb.Index.Mmap.{index_of}
use bxdb.Index.Groups.{sort_dedup-by_snapshot}
use bxdb.Index.Find.{find_key-sort_dedup}
use bxdb.Store.{BlobReaders}
use bxdb.Store.{resolve_uncached, resolve_found}
use bxdb.Store.Zstd.{Zstd}
use bxdb.Store.Lookup.{log_of, loggable-IsRecords}
use bxdb.Convert.{max_snapshot, max_snapshot-le, to_btree, to_btree-log_of}
use bxdb.Convert.Reads.{read_page, spec_page, read_page-log}
use mathlib.Core.Path.{fun_ext}

-- `Err(e) if e.kind() == UnexpectedEof => break`, and any other error returns.
abbrev pub break_at_eof : Error → ErrorKind → Result (List ChunkRecord)
break_at_eof e unexpected_eof = ok []
break_at_eof e kind = err e

-- The loop that decodes records to the end of the file. A record takes 32 bytes, so the number
-- of bytes and one more is fuel enough; `panic` is no fuel.
unfoldable pub read_to_eof : ℕ → List ℕ → Result (List ChunkRecord)
read_to_eof zero r = panic
read_to_eof (suc fuel) r = elim (read_exact fixed_record_size r) [
  | ok (buf, rest) ↦ (do
    rec ← decode_fixed buf
    records ← read_to_eof fuel rest
    ok (rec ∷ records))
  | err e ↦ break_at_eof e (kind_of e)
  | panic ↦ panic
]

-- The new `chunks.log`: the groups of the snapshots, ascending, each ascending by key, which is
-- the stable order by snapshot of the records ascending by key.
unfoldable pub to_log : List ℕ → Result (List ℕ)
unfolding read_to_eof max_snapshot by_snapshot sort_by_key write_records
to_log index = do
  (max_snap, rest) ← read_and_verify_header index magic_idx
  records ← read_to_eof (length rest + 1) rest
  ok (write_log_header (max_snapshot records) ++ write_records (by_snapshot (sort_by_key records)))

read_to_eof-write_fixed_records :
    (fuel : ℕ) (records : List ChunkRecord) (torn : List ℕ)
    → length (write_fixed_records records) < fuel
    → All IsRecord records
    → length torn < 32
    → read_to_eof fuel (write_fixed_records records ++ torn) ≡ ok records
unfolding read_to_eof write_fixed_records
read_to_eof-write_fixed_records zero records torn h v t = absurd (omega arith)
read_to_eof-write_fixed_records (suc fuel) [] torn h v t =
    rw (read_exact_short 32 torn t, read_to_eof) refl
read_to_eof-write_fixed_records (suc fuel) (rec ∷ records) torn h (v, vs) t =
    rw (append_assoc (encode_fixed rec) (write_fixed_records records) torn) (
      rw
        (
          read_exact-append 32 (encode_fixed rec) (write_fixed_records records ++ torn)
              (length-encode_fixed rec),
          read_to_eof,
        )
        (rw (decode_fixed-encode_fixed rec v) (
          rw (
            read_to_eof-write_fixed_records fuel records torn
              (omega (
                arith,
                length-append (encode_fixed rec) (write_fixed_records records),
                length-encode_fixed rec,
              ))
              vs t))))

module _ (records : List ChunkRecord) (valid : All IsLoggable records) (strict : IsStrict records)
    (top : ℕ) (top_fits : top < 256 ^ 4) (torn : List ℕ) (short : length torn < 32) where
  to_log-index_of :
      to_log (write_index_header top ++ (write_fixed_records records ++ torn))
      ≡ ok (log_of (max_snapshot records) (by_snapshot (sort_by_key records)) [])
  unfolding to_log
  to_log-index_of =
      rw
        (read_and_verify_header-write_header index_file top (write_fixed_records records ++ torn)
          top_fits)
        (rw
          (read_to_eof-write_fixed_records (length (write_fixed_records records ++ torn) + 1)
            records torn (omega (arith, length-append (write_fixed_records records) torn))
            (loggable-IsRecords records valid) short)
          (ap (λ t. ok (write_log_header (max_snapshot records) ++ t))
            (sym (append-nil (write_records (by_snapshot (sort_by_key records)))))))

  grouped-IsLoggable : All IsLoggable (by_snapshot (sort_by_key records))
  grouped-IsLoggable =
      by_snapshot-All IsLoggable (sort_by_key records) (sort_by_key-All IsLoggable records valid)

  -- An index that is turned into a log and back is the index of its records, whatever snapshot
  -- its header had and also if it ended in a piece of fewer than 32 bytes.
  pub to_btree-to_log :
      (to_log (write_index_header top ++ (write_fixed_records records ++ torn)) >>= to_btree)
      ≡ ok (index_of (max_snapshot records) records)
  to_btree-to_log =
      ap (λ r. r >>= to_btree) to_log-index_of
      ∙ to_btree-log_of (by_snapshot (sort_by_key records)) (max_snapshot records) []
          grouped-IsLoggable (omega (arith, max_snapshot-le records)) (omega arith)
      ∙ ap (λ rs. ok (index_of (max_snapshot rs) rs)) (sort_dedup-by_snapshot records strict)

  -- A page is read from the log that `to_log` makes as it was from the index: the newest record
  -- of the address, resolved over the records of the index.
  pub read_page-to_log :
      (z : Zstd) (blobs : BlobReaders) (pa s : ℕ)
      → pa < 2 ^ 45
      → s < 2 ^ 19
      → (to_log (write_index_header top ++ (write_fixed_records records ++ torn))
          >>= (λ log. read_page z (record { index = none; log = some log; blobs = blobs }) pa s))
        ≡ spec_page z blobs records pa s
  unfolding spec_page
  read_page-to_log z blobs pa s pa_fits s_fits =
      let grouped = by_snapshot (sort_by_key records) in
      ap
        (λ r.
          r >>= (λ log. read_page z (record { index = none; log = some log; blobs = blobs }) pa s))
        to_log-index_of
      ∙ read_page-log z blobs grouped grouped-IsLoggable (max_snapshot records)
          (omega (arith, max_snapshot-le records)) [] (omega arith) pa s pa_fits s_fits
      ∙ ap
          (λ rs.
            resolve_found (resolve_uncached z blobs (λ key. ok (find_key key rs)))
              (newest pa s grouped))
          (sort_dedup-by_snapshot records strict)
      ∙ ap (resolve_found (resolve_uncached z blobs (λ key. ok (find_key key records))))
          (newest-by_snapshot pa s (sort_by_key records) ∙ newest-sort_by_key pa s records)
      ∙ ap (λ f. resolve_found (resolve_uncached z blobs f) (newest pa s records))
          (fun_ext λ key. ap ok (sym (find_key-sort_dedup key records)))
