-- ===== src/Chunk/Key.antt =====
-- The combined key of bxdb-core/src/chunk.rs: 45 bits of address over 19 bits of snapshot id.
-- A `u64` is a number below 2 ^ 64.
use bxdb.Base.{ℕ, ◌+◌, ◌-◌, ◌*◌, ◌/◌, ◌%◌, ◌^◌, ◌≤◌, ◌<◌, bit_and, bit_or, ◌≡◌, ap₂, ◌∙◌, arith}
use bxdb.Base.Bits.{bit_and_mask, bit_or_shifted}

abbrev pub snapshot_bits : ℕ
snapshot_bits = 19

abbrev pub snapshot_mask : ℕ
snapshot_mask = 2 ^ snapshot_bits - 1

abbrev pub max_snapshot_id : ℕ
max_snapshot_id = 2 ^ snapshot_bits - 1

-- `(pa << 19) | (snapshot_id & mask)`; the shift drops what leaves the 64 bits.
unfoldable pub encode_key : ℕ → ℕ → ℕ
encode_key pa snapshot_id =
    bit_or (pa * 2 ^ snapshot_bits % 2 ^ 64) (bit_and snapshot_id snapshot_mask)

unfoldable pub pa_of : ℕ → ℕ
pa_of key = key / 2 ^ snapshot_bits

-- The mask leaves 19 bits, so the cast to `u32` changes nothing.
unfoldable pub snapshot_of : ℕ → ℕ
snapshot_of key = bit_and key snapshot_mask

pub snapshot_of-eq-mod : (key : ℕ) → snapshot_of key ≡ key % 2 ^ 19
unfolding snapshot_of
snapshot_of-eq-mod key = bit_and_mask 19 key

pub encode_key-eq : (pa s : ℕ) → encode_key pa s ≡ pa % 2 ^ 45 * 2 ^ 19 + s % 2 ^ 19
unfolding encode_key
encode_key-eq pa s =
    ap₂ bit_or (omega arith) (bit_and_mask 19 s)
    ∙ bit_or_shifted 19 (pa % 2 ^ 45) (s % 2 ^ 19) (omega arith)

pub pa_of-eq : (key : ℕ) → pa_of key ≡ key / 2 ^ 19
unfolding pa_of
pa_of-eq key = omega arith

-- Every key is below 2 ^ 64; its two fields are the address, cut to 45 bits, and the snapshot
-- id, cut to 19 bits.
pub encode_key_fields :
    (pa s : ℕ)
    → (encode_key pa s < 2 ^ 64)
      × (pa_of (encode_key pa s) ≡ pa % 2 ^ 45)
      × (snapshot_of (encode_key pa s) ≡ s % 2 ^ 19)
encode_key_fields pa s =
    let e = encode_key-eq pa s in
    (
      omega (arith, e),
      omega (arith, e, pa_of-eq (encode_key pa s)),
      omega (arith, e, snapshot_of-eq-mod (encode_key pa s)),
    )

pub encode_key-surjective :
    (key : ℕ) → key < 2 ^ 64 → encode_key (pa_of key) (snapshot_of key) ≡ key
encode_key-surjective key h =
    omega (arith, encode_key-eq (pa_of key) (snapshot_of key), pa_of-eq key, snapshot_of-eq-mod key)

pub snapshot_of-le : (key : ℕ) → snapshot_of key ≤ max_snapshot_id
snapshot_of-le key = omega (arith, snapshot_of-eq-mod key)
