-- ===== src/Cache/Slots.antt =====
-- The slots that `locate` and the ways number: inside the mapped file, and each its own.
use bxdb.Base.{ℕ, ◌*◌, ◌/◌, ◌%◌, ◌^◌, ◌<◌, ◌≡◌, ap₂, arith}
use bxdb.Base.Bits.{bit_and_mask}
use bxdb.Cache.Defs.{
  locate, slot_of, fib_mul, metadata_pages, sets_per_meta, ways_per_set, total_slots,
}

-- The metadata page is below 512 and the set below 16.
pub locate-lt : (key : ℕ) → ((locate key).0 < metadata_pages) × ((locate key).1 < sets_per_meta)
unfolding locate
locate-lt key =
    let hash = key * fib_mul % 2 ^ 64 in
    (omega (arith, bit_and_mask 9 (hash / 2 ^ 4)), omega (arith, bit_and_mask 4 hash))

-- The slot of a key and a way is one of the file's slots, and two keys of different sets, or two
-- ways of one set, never share a slot.
pub slot_of-injective :
    (key q w v : ℕ)
    → w < ways_per_set
    → v < ways_per_set
    → (slot_of (locate key).0 (locate key).1 w < total_slots)
      × (slot_of (locate key).0 (locate key).1 w ≡ slot_of (locate q).0 (locate q).1 v
          → (locate key ≡ locate q) × (w ≡ v))
slot_of-injective key q w v hw hv =
    let (a, b) = locate-lt key in
    let (c, d) = locate-lt q in
    (
      omega (arith, a, b, hw),
      λ e. (
        ap₂ (λ m i. (m, i)) (omega (arith, a, b, c, d, hw, hv, e))
            (omega (arith, a, b, c, d, hw, hv, e)),
        omega (arith, a, b, c, d, hw, hv, e),
      ),
    )
