-- ===== src/Tests/Chunk.antt =====
-- The theorems on keys, records, patches and headers.
use bxdb.Base.{◌+◌, ◌%◌, ◌^◌, ◌<◌, ◌≡◌, ◌≢◌, refl, arith, [], ◌∷◌, ◌++◌, some, ok, err}
use bxdb.Base.{bad_magic}
use bxdb.Chunk.Key.{encode_key, pa_of, snapshot_of, encode_key_fields}
use bxdb.Chunk.Record.{write_to, read_from, encode_fixed, decode_fixed}
use bxdb.Chunk.Record.Log.{read_from-write_to}
use bxdb.Chunk.Record.Fixed.{decode_fixed-encode_fixed}
use bxdb.Chunk.Patch.{encode_delta_patch, compute_xor_patch, apply_delta_patch}
use bxdb.Chunk.Patch.{apply_delta_patch_in_place}
use bxdb.Chunk.Patch.RoundTrip.{apply_delta_patch-encode_delta_patch}
use bxdb.Format.{log_file, index_file, read_and_verify_header, write_header, magic_of}
use bxdb.Format.{read_and_verify_header-write_header, read_and_verify_header_other}
use bxdb.Tests.Data.{second, second-IsLoggable, page_of, page_of-IsPage}

encode_key_run : encode_key 3 5 ≡ 1572869
unfolding encode_key
encode_key_run = refl

-- An address of 46 bits is cut.
encode_key_fields_example :
    (encode_key (2 ^ 45 + 3) 5 < 2 ^ 64)
    × (pa_of (encode_key (2 ^ 45 + 3) 5) ≡ (2 ^ 45 + 3) % 2 ^ 45)
    × (snapshot_of (encode_key (2 ^ 45 + 3) 5) ≡ 5 % 2 ^ 19)
encode_key_fields_example = encode_key_fields (2 ^ 45 + 3) 5

read_from-write_to_example :
    read_from (write_to second ++ (1 ∷ 2 ∷ [])) ≡ ok (some second, 1 ∷ 2 ∷ [])
read_from-write_to_example = read_from-write_to second (1 ∷ 2 ∷ []) second-IsLoggable

decode_fixed-encode_fixed_example : decode_fixed (encode_fixed second) ≡ ok second
decode_fixed-encode_fixed_example = decode_fixed-encode_fixed second second-IsLoggable.0

apply_delta_patch-encode_delta_patch_example :
    (apply_delta_patch (page_of 7) (encode_delta_patch (compute_xor_patch (page_of 9) (page_of 7)))
      ≡ ok (page_of 9))
    × (apply_delta_patch_in_place
          (encode_delta_patch (compute_xor_patch (page_of 9) (page_of 7)))
          (page_of 7)
        ≡ ok (page_of 9))
apply_delta_patch-encode_delta_patch_example =
    apply_delta_patch-encode_delta_patch (page_of 9) (page_of 7) (page_of-IsPage 9 (omega arith))
      (page_of-IsPage 7 (omega arith))

read_and_verify_header-write_header_example :
    read_and_verify_header (write_header (magic_of log_file) 9 ++ (1 ∷ [])) (magic_of log_file)
    ≡ ok (9, 1 ∷ [])
read_and_verify_header-write_header_example =
    read_and_verify_header-write_header log_file 9 (1 ∷ []) (omega arith)

log-ne-index : log_file ≢ index_file
log-ne-index e = cc

read_and_verify_header_other_example :
    read_and_verify_header (write_header (magic_of log_file) 9 ++ (1 ∷ [])) (magic_of index_file)
    ≡ err bad_magic
read_and_verify_header_other_example =
    read_and_verify_header_other log_file index_file 9 (1 ∷ []) log-ne-index
