-- ===== src/Chunk/Record/Fixed.antt =====
-- The fixed encoding of a record is read back.
use bxdb.Base.{◌≡◌, refl, ok, length}
use bxdb.Base.Bytes.{to_le_bytes, from_le_bytes-to_le_bytes}
use bxdb.Chunk.Record.Kind.{ChunkRecord, IsRecord, encode_fixed, decode_fixed}
use bxdb.Chunk.Record.Log.{from_u8-as_u8}

pub length-encode_fixed : (r : ChunkRecord) → length (encode_fixed r) ≡ 32
unfolding encode_fixed to_le_bytes
length-encode_fixed r = refl

-- Every field of a record, the base key of any kind included, is read back from its 32 bytes.
pub decode_fixed-encode_fixed :
    (r : ChunkRecord) → IsRecord r → decode_fixed (encode_fixed r) ≡ ok r
unfolding decode_fixed encode_fixed to_le_bytes
decode_fixed-encode_fixed r v =
    let ek = from_le_bytes-to_le_bytes 8 r.key v.key_fits in
    let eb = from_le_bytes-to_le_bytes 8 r.base_key v.base_key_fits in
    let eo = from_le_bytes-to_le_bytes 8 r.offset v.offset_fits in
    let el = from_le_bytes-to_le_bytes 4 r.len v.len_fits in
    rw (from_u8-as_u8 r.kind)
      (λ i. ok (record r { key = ek i; base_key = eb i; offset = eo i; len = el i }))
