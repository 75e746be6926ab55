-- ===== src/Chunk/Record/Kind.antt =====
-- The record type and its encodings.
use bxdb.Base.{ℕ, ◌+◌, ◌^◌, ◌<◌, ◌≡◌, Bool, true, false, Option, none, some, List, [], ◌∷◌, ◌++◌}
use bxdb.Base.{Result, ok, err, panic, invalid_chunk_type, kind_of, ErrorKind}
use bxdb.Base.{unexpected_eof, ◌>>=◌, ◌==◌, if◌then◌else◌, slice, get_or}
use bxdb.Base.Bytes.{to_le_bytes, from_le_bytes}
use bxdb.Base.Stream.{read_exact}

pub data ChunkKind : Type 0 where
  full delta zero_page : ChunkKind

abbrev pub chunk_full : ℕ
chunk_full = 0

abbrev pub chunk_delta : ℕ
chunk_delta = 1

abbrev pub chunk_zero : ℕ
chunk_zero = 2

abbrev pub as_u8 : ChunkKind → ℕ
as_u8 full = chunk_full
as_u8 delta = chunk_delta
as_u8 zero_page = chunk_zero

unfoldable pub from_u8 : ℕ → Result ChunkKind
from_u8 v =
    if v == chunk_full
    then ok full
    else if v == chunk_delta
    then ok delta
    else if v == chunk_zero
    then ok zero_page
    else err (invalid_chunk_type v)

-- `kind == ChunkKind::Delta` and `kind == ChunkKind::Full`
abbrev pub is_delta : ChunkKind → Bool
is_delta delta = true
is_delta _ = false

abbrev pub is_full : ChunkKind → Bool
is_full full = true
is_full _ = false

abbrev pub is_zero : ChunkKind → Bool
is_zero zero_page = true
is_zero _ = false

pub record ChunkRecord : Type 0 where
  pub key : ℕ
  pub kind : ChunkKind
  pub worker_id : ℕ
  pub offset : ℕ
  pub len : ℕ
  pub base_key : ℕ

abbrev pub new_full : ℕ → ℕ → ℕ → ℕ → ChunkRecord
new_full k w o l = record { key = k; kind = full; worker_id = w; offset = o; len = l; base_key = 0 }

abbrev pub new_delta : ℕ → ℕ → ℕ → ℕ → ℕ → ChunkRecord
new_delta k w o l b = record {
  key = k;
  kind = delta;
  worker_id = w;
  offset = o;
  len = l;
  base_key = b;
}

abbrev pub new_zero : ℕ → ChunkRecord
new_zero k = record { key = k; kind = zero_page; worker_id = 0; offset = 0; len = 0; base_key = 0 }

abbrev pub log_record_base_size : ℕ
log_record_base_size = 22

abbrev pub fixed_record_size : ℕ
fixed_record_size = 32

abbrev pub encoded_len : ChunkRecord → ℕ
encoded_len r = if is_delta r.kind then log_record_base_size + 8 else log_record_base_size

-- The ranges of the Rust types: `u64`, `u8` and `u32` fields.
pub record IsRecord (r : ChunkRecord) : Type 0 where
  pub key_fits : r.key < 256 ^ 8
  pub worker_id_fits : r.worker_id < 256
  pub offset_fits : r.offset < 256 ^ 8
  pub len_fits : r.len < 256 ^ 4
  pub base_key_fits : r.base_key < 256 ^ 8

-- The log does not store the base key of a record that is no delta; the code sets it to 0.
abbrev pub IsLoggable : ChunkRecord → Type 0
IsLoggable r = IsRecord r × (is_delta r.kind ≡ false → r.base_key ≡ 0)

-- The 22 bytes that every record has in the log: `buf[..22]`.
unfoldable pub log_head : ChunkRecord → List ℕ
log_head r =
    to_le_bytes 8 r.key
    ++ (as_u8 r.kind ∷ r.worker_id ∷ (to_le_bytes 8 r.offset ++ to_le_bytes 4 r.len))

unfoldable pub write_to : ChunkRecord → List ℕ
unfolding log_head
write_to r = if is_delta r.kind then log_head r ++ to_le_bytes 8 r.base_key else log_head r

-- `let mut extra = [0u8; 8]; r.read_exact(&mut extra)?` for a delta, else 0.
unfoldable pub read_base_key : ChunkKind → List ℕ → Result (ℕ × List ℕ)
read_base_key delta r = do (extra, rest) ← read_exact 8 r; ok (from_le_bytes extra, rest)
read_base_key _ r = ok (0, r)

-- `read_from` behind the first `read_exact`.
unfoldable pub read_fields : List ℕ → List ℕ → Result (Option ChunkRecord × List ℕ)
unfolding from_u8
read_fields head r = do
  let key = from_le_bytes (slice head 0 8)
  kind ← from_u8 (get_or head 8 0)
  let worker_id = get_or head 9 0
  let offset = from_le_bytes (slice head 10 8)
  let len = from_le_bytes (slice head 18 4)
  (base_key, rest) ← read_base_key kind r
  ok (
    some (record {
      key = key;
      kind = kind;
      worker_id = worker_id;
      offset = offset;
      len = len;
      base_key = base_key;
    }),
    rest,
  )

abbrev is_eof : ErrorKind → Bool
is_eof unexpected_eof = true
is_eof _ = false

-- The record at the front and the bytes behind it. A front of fewer than 22 bytes is the end.
unfoldable pub read_from : List ℕ → Result (Option ChunkRecord × List ℕ)
read_from r = elim (read_exact log_record_base_size r) [
  | ok (head, rest) ↦ read_fields head rest
  | err e ↦ if is_eof (kind_of e) then ok (none, []) else err e
  | panic ↦ panic
]

-- The 32 bytes of a record in `index.bxdb`; bytes 30 and 31 stay 0.
unfoldable pub encode_fixed : ChunkRecord → List ℕ
encode_fixed r =
    to_le_bytes 8 r.key
    ++ (to_le_bytes 8 r.base_key
        ++ (to_le_bytes 8 r.offset
            ++ (to_le_bytes 4 r.len ++ (as_u8 r.kind ∷ r.worker_id ∷ 0 ∷ 0 ∷ []))))

unfoldable pub decode_fixed : List ℕ → Result ChunkRecord
unfolding from_u8
decode_fixed buf = do
  let key = from_le_bytes (slice buf 0 8)
  let base_key = from_le_bytes (slice buf 8 8)
  let offset = from_le_bytes (slice buf 16 8)
  let len = from_le_bytes (slice buf 24 4)
  kind ← from_u8 (get_or buf 28 0)
  let worker_id = get_or buf 29 0
  ok (record {
    key = key;
    kind = kind;
    worker_id = worker_id;
    offset = offset;
    len = len;
    base_key = base_key;
  })
