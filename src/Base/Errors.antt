-- ===== src/Base/Errors.antt =====
-- io::Result as a value, with a third outcome for a panic.
use mathlib.Core.Path.{◌≡◌, refl}
use mathlib.Core.Bool.{Bool, true, false}
use Prim.Native.Nat.{ℕ}

-- std::io::ErrorKind, as far as the code uses it.
pub data ErrorKind : Type 0 where
  invalid_input invalid_data not_found unexpected_eof other : ErrorKind

-- One constructor for each message of the code; `eof` is what `read_exact` returns.
pub data Error : Type 0 where
  eof : Error
  invalid_chunk_type : ℕ → Error
  delta_blob_length : Error
  delta_index_out_of_range : Error
  bad_magic : Error
  unsupported_version : ℕ → Error
  index_too_short : Error
  index_misaligned : Error
  no_index_file : Error
  no_blob_file : Error
  blob_out_of_range : Error
  delta_blob_out_of_range : Error
  bad_page_size : Error
  delta_base_missing : Error
  delta_base_not_full : Error
  snapshot_id_range : Error
  snapshot_id_not_monotonic : ℕ → ℕ → Error
  memory_length : Error
  bitmap_too_short : Error
  dirty_count : Error
  output_length : Error
  worker_count_range : Error
  blob_too_large : Error
  blob_offset_overflow : Error
  zstd_failed : Error
  cache_missing : Error
  cache_not_initialised : Error
  cache_bad_magic : Error
  cache_identity : Error
  worker_panicked : Error
  mutex_failed : Error
  no_log_file : Error
  output_unaligned : Error

abbrev pub kind_of : Error → ErrorKind
kind_of eof = unexpected_eof
kind_of blob_out_of_range = unexpected_eof
kind_of delta_blob_out_of_range = unexpected_eof
kind_of no_index_file = not_found
kind_of no_log_file = not_found
kind_of no_blob_file = not_found
kind_of snapshot_id_range = invalid_input
kind_of (snapshot_id_not_monotonic s l) = invalid_input
kind_of memory_length = invalid_input
kind_of bitmap_too_short = invalid_input
kind_of dirty_count = invalid_input
kind_of output_length = invalid_input
kind_of output_unaligned = invalid_input
kind_of worker_count_range = invalid_input
kind_of blob_offset_overflow = invalid_input
kind_of zstd_failed = other
kind_of cache_missing = other
kind_of cache_not_initialised = other
kind_of cache_bad_magic = other
kind_of cache_identity = other
kind_of worker_panicked = other
kind_of mutex_failed = other
kind_of e = invalid_data

-- `panic` stands for an index out of range, an `expect` or a failed conversion with `unwrap`.
pub data Result {ℓ} (A : Type ℓ) : Type ℓ where
  panic : Result A
  err : Error → Result A
  ok : A → Result A

infixl 5 ◌>>=◌ ◌>>◌
abbrev pub ◌>>=◌ {ℓ ℓ'} : {X : Type ℓ} {Y : Type ℓ'} → Result X → (X → Result Y) → Result Y
panic >>= next = panic
err e >>= next = err e
ok x >>= next = next x

abbrev pub ◌>>◌ {ℓ} : {Y : Type ℓ} → Result (Unit {0}) → Result Y → Result Y
first >> next = first >>= λ _. next

-- `if !test { return Err(e); }`
abbrev pub guard : Bool → Error → Result (Unit {0})
guard false error = err error
guard true error = ok tt

pub >>=-eq-ok {ℓ ℓ'} :
    {X : Type ℓ} {Y : Type ℓ'} (first : Result X) (next : X → Result Y) {y : Y}
    → (first >>= next) ≡ ok y
    → (x : X) × (first ≡ ok x) × (next x ≡ ok y)
>>=-eq-ok panic next h = cc
>>=-eq-ok (err e) next h = cc
>>=-eq-ok (ok x) next h = (x, refl, h)
