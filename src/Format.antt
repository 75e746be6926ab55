-- ===== src/Format.antt =====
-- bxdb-core/src/format.rs: the 16-byte header of `chunks.log` and `index.bxdb`.
use bxdb.Base.{ℕ, ◌^◌, ◌<◌, ◌≡◌, ◌≢◌, refl, ap, Bool, true, false, ◌&&◌}
use bxdb.Base.{List, [], ◌∷◌, ◌++◌, Result, ok, err, bad_magic, unsupported_version, ◌>>=◌, ◌>>◌}
use bxdb.Base.{guard, ◌==◌, length, slice, get_or}
use bxdb.Base.Bytes.{to_le_bytes, from_le_bytes, from_le_bytes-to_le_bytes}
use bxdb.Base.Stream.{read_exact, read_exact-append}

-- `b"BXDBLOG\0"` and `b"BXDBIDX\0"`
abbrev pub magic_log : List ℕ
magic_log = b'B' ∷ b'X' ∷ b'D' ∷ b'B' ∷ b'L' ∷ b'O' ∷ b'G' ∷ 0 ∷ []

abbrev pub magic_idx : List ℕ
magic_idx = b'B' ∷ b'X' ∷ b'D' ∷ b'B' ∷ b'I' ∷ b'D' ∷ b'X' ∷ 0 ∷ []

abbrev pub format_version : ℕ
format_version = 1

abbrev pub header_size : ℕ
header_size = 16

-- `==` on byte slices
abbrev pub bytes_eq : List ℕ → List ℕ → Bool
bytes_eq [] [] = true
bytes_eq [] (b ∷ bs) = false
bytes_eq (a ∷ as') [] = false
bytes_eq (a ∷ as') (b ∷ bs) = a == b && bytes_eq as' bs

-- The three bytes behind the snapshot id are reserved and 0.
unfoldable pub write_header : List ℕ → ℕ → List ℕ
write_header magic max_snapshot_id =
    magic ++ (format_version ∷ (to_le_bytes 4 max_snapshot_id ++ (0 ∷ 0 ∷ 0 ∷ [])))

abbrev pub write_log_header : ℕ → List ℕ
write_log_header = write_header magic_log

abbrev pub write_index_header : ℕ → List ℕ
write_index_header = write_header magic_idx

-- The stored snapshot id, and what is left to read.
unfoldable pub read_and_verify_header : List ℕ → List ℕ → Result (ℕ × List ℕ)
read_and_verify_header r expected_magic = do
  (buf, rest) ← read_exact header_size r
  guard (bytes_eq (slice buf 0 8) expected_magic) bad_magic
  guard (get_or buf 8 0 == format_version) (unsupported_version (get_or buf 8 0))
  ok (from_le_bytes (slice buf 9 4), rest)

unfoldable pub peek_magic : List ℕ → Result (List ℕ)
peek_magic r = do (buf, rest) ← read_exact 8 r; ok buf

-- Either kind of file.
pub data FileKind : Type 0 where
  log_file index_file : FileKind

abbrev pub magic_of : FileKind → List ℕ
magic_of log_file = magic_log
magic_of index_file = magic_idx

pub length-write_header : (k : FileKind) (s : ℕ) → length (write_header (magic_of k) s) ≡ 16
unfolding write_header to_le_bytes
length-write_header log_file s = refl
length-write_header index_file s = refl

-- A header is read back under its own magic, with the snapshot id that was written, and the
-- bytes behind it stay.
pub read_and_verify_header-write_header :
    (k : FileKind) (s : ℕ) (rest : List ℕ)
    → s < 256 ^ 4
    → read_and_verify_header (write_header (magic_of k) s ++ rest) (magic_of k) ≡ ok (s, rest)
unfolding read_and_verify_header
read_and_verify_header-write_header log_file s rest h =
    rw (read_exact-append 16 (write_header magic_log s) rest (length-write_header log_file s))
      (unfold write_header to_le_bytes in ap (λ n. ok (n, rest)) (from_le_bytes-to_le_bytes 4 s h))
read_and_verify_header-write_header index_file s rest h =
    rw (read_exact-append 16 (write_header magic_idx s) rest (length-write_header index_file s))
      (unfold write_header to_le_bytes in ap (λ n. ok (n, rest)) (from_le_bytes-to_le_bytes 4 s h))

-- A log is refused where an index is expected, and an index where a log is.
pub read_and_verify_header_other :
    (k j : FileKind) (s : ℕ) (rest : List ℕ)
    → k ≢ j
    → read_and_verify_header (write_header (magic_of k) s ++ rest) (magic_of j) ≡ err bad_magic
unfolding read_and_verify_header
read_and_verify_header_other log_file log_file s rest h = absurd (h refl)
read_and_verify_header_other index_file index_file s rest h = absurd (h refl)
read_and_verify_header_other log_file index_file s rest h =
    rw (read_exact-append 16 (write_header magic_log s) rest (length-write_header log_file s))
      (unfold write_header to_le_bytes in refl)
read_and_verify_header_other index_file log_file s rest h =
    rw (read_exact-append 16 (write_header magic_idx s) rest (length-write_header index_file s))
      (unfold write_header to_le_bytes in refl)
