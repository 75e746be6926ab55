-- ===== src/Chunk/Record/Log.antt =====
-- The log encoding of a record is read back, also where the stream ends inside a record.
use bxdb.Base.{ℕ, ◌^◌, ◌<◌, ◌≡◌, refl, sym, ap, ◌∙◌, arith, false, if◌then◌else◌}
use bxdb.Base.{none, some, List, [], ◌++◌, append-nil, append_assoc}
use bxdb.Base.{ok, err, eof, Error, length}
use bxdb.Base.Bytes.{to_le_bytes, length-to_le_bytes, from_le_bytes-to_le_bytes}
use bxdb.Base.Stream.{read_exact-append, read_exact_short}
use bxdb.Chunk.Record.Kind.{ChunkKind, full, delta, zero_page, as_u8, is_delta, ChunkRecord}
use bxdb.Chunk.Record.Kind.{IsRecord, IsLoggable, log_head, write_to, read_base_key, from_u8}
use bxdb.Chunk.Record.Kind.{read_fields, read_from, encoded_len}

length-log_head : (r : ChunkRecord) → length (log_head r) ≡ 22
unfolding log_head to_le_bytes
length-log_head r = refl

pub length-write_to : (r : ChunkRecord) → length (write_to r) ≡ encoded_len r
unfolding write_to to_le_bytes
length-write_to r = ground arith

pub from_u8-as_u8 : (k : ChunkKind) → from_u8 (as_u8 k) ≡ ok k
unfolding from_u8
from_u8-as_u8 full = refl
from_u8-as_u8 delta = refl
from_u8-as_u8 zero_page = refl

-- What `read_fields` makes of the head of a record whose tail is read as `(tail_key, rest)`.
read_fields-log_head :
    (r : ChunkRecord) (tail_key : ℕ) (tail rest : List ℕ)
    → IsRecord r
    → read_base_key r.kind tail ≡ ok (tail_key, rest)
    → read_fields (log_head r) tail ≡ ok (some (record r { base_key = tail_key }), rest)
unfolding read_fields log_head to_le_bytes
read_fields-log_head r tail_key tail rest v h =
    let ek = from_le_bytes-to_le_bytes 8 r.key v.key_fits in
    let eo = from_le_bytes-to_le_bytes 8 r.offset v.offset_fits in
    let el = from_le_bytes-to_le_bytes 4 r.len v.len_fits in
    rw (from_u8-as_u8 r.kind, h)
      (λ i.
        ok (some (record r { key = ek i; offset = eo i; len = el i; base_key = tail_key }), rest))

read_fields-log_head_fail :
    (r : ChunkRecord) (tail : List ℕ) (e : Error)
    → read_base_key r.kind tail ≡ err e
    → read_fields (log_head r) tail ≡ err e
unfolding read_fields log_head to_le_bytes
read_fields-log_head_fail r tail e h = rw (from_u8-as_u8 r.kind, h)

read_from-log_head :
    (r : ChunkRecord) (tail_key : ℕ) (tail rest : List ℕ)
    → IsRecord r
    → read_base_key r.kind tail ≡ ok (tail_key, rest)
    → read_from (log_head r ++ tail) ≡ ok (some (record r { base_key = tail_key }), rest)
unfolding read_from
read_from-log_head r tail_key tail rest v h =
    rw (read_exact-append 22 (log_head r) tail (length-log_head r), read_from)
      (read_fields-log_head r tail_key tail rest v h)

-- The tail of a record, by its kind.
abbrev tail_of : ChunkKind → ℕ → List ℕ
tail_of delta b = to_le_bytes 8 b
tail_of _ b = []

write_to-tail : (r : ChunkRecord) → write_to r ≡ log_head r ++ tail_of r.kind r.base_key
unfolding write_to
write_to-tail r = cases r.kind
  where
    cases :
        (k : ChunkKind)
        → (if is_delta k then log_head r ++ to_le_bytes 8 r.base_key else log_head r)
          ≡ log_head r ++ tail_of k r.base_key
    cases full = sym (append-nil _)
    cases delta = refl
    cases zero_page = sym (append-nil _)

read_base_key-tail :
    (k : ChunkKind) (b : ℕ) (rest : List ℕ)
    → b < 256 ^ 8
    → (is_delta k ≡ false → b ≡ 0)
    → read_base_key k (tail_of k b ++ rest) ≡ ok (b, rest)
unfolding read_base_key
read_base_key-tail full b rest h z = rw (z refl)
read_base_key-tail zero_page b rest h z = rw (z refl)
read_base_key-tail delta b rest h z =
    rw (read_exact-append 8 (to_le_bytes 8 b) rest (length-to_le_bytes 8 b))
      (ap (λ n. ok (n, rest)) (from_le_bytes-to_le_bytes 8 b h))

-- A record is read back from the bytes that `write_to` makes of it, and the bytes behind stay.
pub read_from-write_to :
    (r : ChunkRecord) (rest : List ℕ)
    → IsLoggable r
    → read_from (write_to r ++ rest) ≡ ok (some r, rest)
read_from-write_to r rest (v, z) =
    ap read_from (
      ap (λ w. w ++ rest) (write_to-tail r)
      ∙ append_assoc (log_head r) (tail_of r.kind r.base_key) rest)
    ∙ read_from-log_head r r.base_key (tail_of r.kind r.base_key ++ rest) rest v
        (read_base_key-tail r.kind r.base_key rest v.base_key_fits z)

-- Fewer than 22 bytes are the end of the log, whether or not the writer stopped inside a record.
pub read_from_end : (s : List ℕ) → length s < 22 → read_from s ≡ ok (none, [])
unfolding read_from
read_from_end s h = rw (read_exact_short 22 s h, read_from)

-- A delta record that is cut behind its head is an error, not the end of the log.
read_from_torn_delta :
    (r : ChunkRecord) (tail : List ℕ)
    → r.kind ≡ delta
    → length tail < 8
    → read_from (log_head r ++ tail) ≡ err eof
unfolding read_from read_base_key
read_from_torn_delta r tail d h =
    rw (read_exact-append 22 (log_head r) tail (length-log_head r), read_from)
      (read_fields-log_head_fail r tail eof
        (rw (d, read_base_key) (rw (read_exact_short 8 tail h))))
