-- ===== src/Cache/Simd.antt =====
-- The vector versions of `find_way` find what the search over the ways finds.
use bxdb.Base.{
  ℕ, zero, suc, ◌+◌, ◌*◌, ◌^◌, ◌<◌, ◌≤◌, ◌≡◌, refl, ap, ◌∙◌, arith, bit_or, Option, none, some,
  List, [], ◌∷◌,
}
use bxdb.Base.{false, Bool-cases, inl, inr, ◌==◌, if◌then◌else◌, length}
use bxdb.Base.Bits.{bit_or_above}
use bxdb.Base.Trailing.{trailing_zeros, trailing_zeros-even, trailing_zeros-odd}
use bxdb.Cache.Defs.{find_way}
use bxdb.Cache.Ways.{next_way}
use native.Mathlib.Nat.{two-pow-succ, one-le-pow, add-mul, mul_assoc}

-- All ones or all zeros in a lane, as its lowest bit.
abbrev pub lane : ℕ → ℕ → ℕ
lane k key = if k == key then 1 else 0

-- The loop over the registers of two lanes, `i` their number: `mask |= m << (i * 2)`.
unfoldable pub sse41_mask : ℕ → ℕ → ℕ → List ℕ → ℕ
sse41_mask key i mask [] = mask
sse41_mask key i mask (a ∷ []) = mask
sse41_mask key i mask (a ∷ b ∷ page_ids) =
    sse41_mask key (suc i) (bit_or mask ((lane a key + lane b key * 2) * 2 ^ (i * 2))) page_ids

-- `if mask == 0 { None } else { Some(mask.trailing_zeros()) }`
abbrev pub first_bit : ℕ → Option ℕ
first_bit mask = if mask == 0 then none else some (trailing_zeros 32 mask)

unfoldable pub find_way_sse41 : List ℕ → ℕ → Option ℕ
unfolding sse41_mask
find_way_sse41 page_ids key = first_bit (sse41_mask key 0 0 page_ids)

-- `mask |= (lo << (i * 2)) | (hi << (i * 2 + 1))`
unfoldable pub neon_mask : ℕ → ℕ → ℕ → List ℕ → ℕ
neon_mask key i mask [] = mask
neon_mask key i mask (a ∷ []) = mask
neon_mask key i mask (a ∷ b ∷ page_ids) =
    neon_mask key (suc i)
      (bit_or mask (bit_or (lane a key * 2 ^ (i * 2)) (lane b key * 2 ^ (i * 2 + 1)))) page_ids

unfoldable pub find_way_neon : List ℕ → ℕ → Option ℕ
unfolding neon_mask
find_way_neon page_ids key = first_bit (neon_mask key 0 0 page_ids)

-- The bits of the ways that have the key.
mask_of : ℕ → List ℕ → ℕ
mask_of key [] = 0
mask_of key (k ∷ page_ids) = mask_of key page_ids * 2 + lane k key

lane-lt : (k key : ℕ) → lane k key < 2
lane-lt k key = ground arith

abbrev IsEven : List ℕ → Type 0
IsEven [] = Unit {0}
IsEven (a ∷ []) = ⊥
IsEven (a ∷ b ∷ xs) = IsEven xs

four : (i : ℕ) → 2 ^ (suc i * 2) ≡ 4 * 2 ^ (i * 2)
four i =
    ap (λ t. 2 ^ t) {x = suc i * 2} {y = suc (suc (i * 2))} (omega arith)
    ∙ omega (arith, two-pow-succ (i * 2), two-pow-succ (suc (i * 2)))

pair-lt : (a b p mask : ℕ) → a < 2 → b < 2 → mask < p → mask + (a + b * 2) * p < 4 * p
pair-lt zero zero p mask ha hb h = omega arith
pair-lt (suc zero) zero p mask ha hb h = omega arith
pair-lt zero (suc zero) p mask ha hb h = omega arith
pair-lt (suc zero) (suc zero) p mask ha hb h = omega arith
pair-lt (suc (suc a)) b p mask ha hb h = absurd (omega arith)
pair-lt zero (suc (suc b)) p mask ha hb h = absurd (omega arith)
pair-lt (suc zero) (suc (suc b)) p mask ha hb h = absurd (omega arith)

spread : (mask m n p q : ℕ) → q ≡ 4 * p → mask + m * p + n * q ≡ mask + (n * 4 + m) * p
spread mask m n p q h =
    ap (λ t. mask + m * p + n * t) h ∙ omega (arith, add-mul (n * 4) m p, mul_assoc n 4 p)

sse41_mask-mask_of :
    (key i mask : ℕ) (page_ids : List ℕ)
    → IsEven page_ids
    → mask < 2 ^ (i * 2)
    → sse41_mask key i mask page_ids ≡ mask + mask_of key page_ids * 2 ^ (i * 2)
unfolding sse41_mask mask_of
sse41_mask-mask_of key i mask [] e h = omega arith
sse41_mask-mask_of key i mask (a ∷ []) e h = absurd e
sse41_mask-mask_of key i mask (a ∷ b ∷ page_ids) e h =
    let m = lane a key + lane b key * 2 in
    let p = 2 ^ (i * 2) in
    ap (λ t. sse41_mask key (suc i) t page_ids) (bit_or_above (i * 2) m mask h)
    ∙ sse41_mask-mask_of key (suc i) (mask + m * p) page_ids e (
        omega (
          arith,
          pair-lt (lane a key) (lane b key) p mask (lane-lt a key) (lane-lt b key) h,
          four i,
        ))
    ∙ spread mask m (mask_of key page_ids) p (2 ^ (suc i * 2)) (four i)
    ∙ ap (λ t. mask + t * p) (omega arith)

neon_pair :
    (a b i : ℕ) → a < 2 → bit_or (a * 2 ^ (i * 2)) (b * 2 ^ (i * 2 + 1)) ≡ (a + b * 2) * 2 ^ (i * 2)
neon_pair a b i h =
    bit_or_above (i * 2 + 1) b (a * 2 ^ (i * 2)) (small a h)
    ∙ omega (
      arith,
      twice,
      add-mul a (b * 2) (2 ^ (i * 2)),
      mul_assoc b 2 (2 ^ (i * 2)),
      ap (λ t. b * t) twice,
    )
  where
    twice : 2 ^ (i * 2 + 1) ≡ 2 * 2 ^ (i * 2)
    twice =
        ap (λ t. 2 ^ t) {x = i * 2 + 1} {y = suc (i * 2)} (omega arith)
        ∙ omega (arith, two-pow-succ (i * 2))

    small : (a : ℕ) → a < 2 → a * 2 ^ (i * 2) < 2 ^ (i * 2 + 1)
    small zero h = omega (arith, twice, one-le-pow (i * 2) 2 (omega arith))
    small (suc zero) h = omega (arith, twice, one-le-pow (i * 2) 2 (omega arith))
    small (suc (suc a)) h = absurd (omega arith)

neon_mask-sse41_mask :
    (key i mask : ℕ) (page_ids : List ℕ)
    → neon_mask key i mask page_ids ≡ sse41_mask key i mask page_ids
unfolding neon_mask sse41_mask
neon_mask-sse41_mask key i mask [] = refl
neon_mask-sse41_mask key i mask (a ∷ []) = refl
neon_mask-sse41_mask key i mask (a ∷ b ∷ page_ids) =
    ap (λ t. neon_mask key (suc i) (bit_or mask t) page_ids)
      (neon_pair (lane a key) (lane b key) i (lane-lt a key))
    ∙ neon_mask-sse41_mask key (suc i) _ page_ids

trailing_of : ℕ → ℕ → Option ℕ
trailing_of n mask = if mask == 0 then none else some (trailing_zeros n mask)

trailing_of-mask :
    (n key : ℕ) (page_ids : List ℕ)
    → length page_ids ≤ n
    → trailing_of n (mask_of key page_ids) ≡ find_way page_ids key
unfolding trailing_of mask_of find_way
trailing_of-mask n key [] h = refl
trailing_of-mask zero key (k ∷ page_ids) h = absurd (omega arith)
trailing_of-mask (suc n) key (k ∷ page_ids) h = elim (Bool-cases (k == key)) [
  | inl here ↦
      let odd : (mask_of key page_ids * 2 + 1 == 0) ≡ false = ground arith in
      rw (here, odd) (ap some (trailing_zeros-odd n (mask_of key page_ids)))
  | inr there ↦ rw there (
      shifted (mask_of key page_ids)
      ∙ ap next_way (trailing_of-mask n key page_ids (omega (arith, h)))
      ∙ by_rest (find_way page_ids key))
]
  where
    shifted :
        (m : ℕ)
        → (if m * 2 + 0 == 0 then none else some (trailing_zeros (suc n) (m * 2 + 0)))
          ≡ next_way (if m == 0 then none else some (trailing_zeros n m))
    shifted zero = refl
    shifted (suc m) =
        let some_bit : (suc m * 2 + 0 == 0) ≡ false = ground arith in
        let some_bit' : (suc m == 0) ≡ false = ground arith in
        rw (some_bit, some_bit')
          (ap some (ap (trailing_zeros (suc n)) (omega arith) ∙ trailing_zeros-even n (suc m)))

    by_rest :
        (o : Option ℕ)
        → next_way o ≡ (elim o as (λ x. Option ℕ) [ none ↦ none | some w ↦ some (suc w) ])
    by_rest none = refl
    by_rest (some w) = refl

sixteen-IsEven : (xs : List ℕ) (n : ℕ) → length xs ≡ n * 2 → IsEven xs
sixteen-IsEven [] n h = tt
sixteen-IsEven (a ∷ []) zero h = omega arith
sixteen-IsEven (a ∷ []) (suc n) h = omega arith
sixteen-IsEven (a ∷ b ∷ xs) zero h = absurd (omega arith)
sixteen-IsEven (a ∷ b ∷ xs) (suc n) h = sixteen-IsEven xs n (omega (arith, h))

-- Over the sixteen ways of a set, the versions for SSE4.1 and for NEON find the lowest way that
-- has the key, as the search from the first way on does.
pub find_way_sse41-find_way :
    (page_ids : List ℕ) (key : ℕ)
    → length page_ids ≡ 16
    → (find_way_sse41 page_ids key ≡ find_way page_ids key)
      × (find_way_neon page_ids key ≡ find_way page_ids key)
unfolding find_way_sse41 find_way_neon trailing_of
find_way_sse41-find_way page_ids key h =
    let mask : sse41_mask key 0 0 page_ids ≡ mask_of key page_ids =
      sse41_mask-mask_of key 0 0 page_ids (sixteen-IsEven page_ids 8 h) (omega arith)
      ∙ omega arith in
    let way = trailing_of-mask 32 key page_ids (omega (arith, h)) in
    (ap first_bit mask ∙ way, ap first_bit (neon_mask-sse41_mask key 0 0 page_ids ∙ mask) ∙ way)
