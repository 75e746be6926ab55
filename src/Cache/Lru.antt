-- ===== src/Cache/Lru.antt =====
-- The timestamps: the way that a replacement takes is an oldest one.
use bxdb.Base.{
  ℕ, zero, suc, ◌+◌, ◌-◌, ◌<◌, ◌≤◌, ◌≡◌, ◌≢◌, refl, sym, ap, ◌∙◌, arith, List, [], ◌∷◌, map,
}
use bxdb.Base.{Bool-cases, inl, inr, ltb, ltb→lt, length, set, get_or, All, true, false}
use mathlib.Core.Path.{subst}
use bxdb.Cache.Ways.{length-set}
use bxdb.Cache.Defs.{oldest_from, oldest, update_lru, SetMetadata}

oldest_from-less :
    (w min_ts min_w t : ℕ) (timestamps : List ℕ)
    → ltb t min_ts ≡ true
    → oldest_from w min_ts min_w (t ∷ timestamps) ≡ oldest_from (suc w) t w timestamps
unfolding oldest_from
oldest_from-less w min_ts min_w t timestamps h = rw h

oldest_from-more :
    (w min_ts min_w t : ℕ) (timestamps : List ℕ)
    → ltb t min_ts ≡ false
    → oldest_from w min_ts min_w (t ∷ timestamps) ≡ oldest_from (suc w) min_ts min_w timestamps
unfolding oldest_from
oldest_from-more w min_ts min_w t timestamps h = rw h

-- What the loop has found: a way whose timestamp is least, of those looked at and of the first.
module _ (stamp : ℕ → ℕ) where
  pub oldest_from-least :
      (w min_ts min_w : ℕ) (timestamps : List ℕ)
      → stamp min_w ≤ min_ts
      → ((i : ℕ) → i < length timestamps → stamp (w + i) ≡ get_or timestamps i 0)
      → (stamp (oldest_from w min_ts min_w timestamps) ≤ min_ts)
        × All (λ t. stamp (oldest_from w min_ts min_w timestamps) ≤ t) timestamps
  oldest_from-least w min_ts min_w [] h at = (unfold oldest_from in h, tt)
  oldest_from-least w min_ts min_w (t ∷ timestamps) h at =
      let first : stamp w ≡ t = ap stamp (omega arith) ∙ at 0 (omega arith) in
      let later = λ (i : ℕ) (lt : i < length timestamps).
        ap stamp (omega arith) ∙ at (suc i) (omega (arith, lt)) in
      elim (Bool-cases (ltb t min_ts)) [
        | inl less ↦
            let (a, b) = oldest_from-least (suc w) t w timestamps (omega (arith, first)) later in
            subst (λ r. (stamp r ≤ min_ts) × All (λ u. stamp r ≤ u) (t ∷ timestamps))
              (sym (oldest_from-less w min_ts min_w t timestamps less))
              (omega (arith, a, ltb→lt t min_ts less), (a, b))
        | inr more ↦
            let (a, b) = oldest_from-least (suc w) min_ts min_w timestamps h later in
            subst (λ r. (stamp r ≤ min_ts) × All (λ u. stamp r ≤ u) (t ∷ timestamps))
              (sym (oldest_from-more w min_ts min_w t timestamps more)) (a, (ground (arith, a), b))
      ]

-- The way is one of the set's.
oldest_from-lt :
    (w min_ts min_w : ℕ) (timestamps : List ℕ) (n : ℕ)
    → min_w < n
    → w + length timestamps ≤ n
    → oldest_from w min_ts min_w timestamps < n
unfolding oldest_from
oldest_from-lt w min_ts min_w [] n h k = h
oldest_from-lt w min_ts min_w (t ∷ timestamps) n h k = elim (Bool-cases (ltb t min_ts)) [
  | inl less ↦
      rw less (oldest_from-lt (suc w) t w timestamps n (omega (arith, k)) (omega (arith, k)))
  | inr more ↦ rw more (oldest_from-lt (suc w) min_ts min_w timestamps n h (omega (arith, k)))
]

pub oldest-lt :
    (timestamps : List ℕ) → 0 < length timestamps → oldest timestamps < length timestamps
oldest-lt timestamps h = oldest_from-lt 0 255 0 timestamps (length timestamps) h (omega arith)

-- A replacement takes a way whose timestamp is not greater than that of any way of the set.
pub oldest-least :
    (timestamps : List ℕ)
    → All (λ t. t ≤ 255) timestamps
    → All (λ t. get_or timestamps (oldest timestamps) 0 ≤ t) timestamps
oldest-least timestamps bytes =
    (oldest_from-least (λ w. get_or timestamps w 0) 0 255 0 timestamps (first timestamps bytes)
      (λ i h. ap (λ j. get_or timestamps j 0) (omega arith))).1
  where
    first : (timestamps : List ℕ) → All (λ t. t ≤ 255) timestamps → get_or timestamps 0 0 ≤ 255
    first [] h = omega arith
    first (t ∷ ts) (h, hs) = h

pub All-get_or :
    (P : ℕ → Type 0) (xs : List ℕ) (i : ℕ) → All P xs → i < length xs → P (get_or xs i 0)
All-get_or P [] i h lt = absurd (omega arith)
All-get_or P (x ∷ xs) zero (h, hs) lt = h
All-get_or P (x ∷ xs) (suc i) (h, hs) lt = All-get_or P xs i hs (omega (arith, lt))

get_or-set_self : (xs : List ℕ) (i v : ℕ) → i < length xs → get_or (set xs i v) i 0 ≡ v
get_or-set_self [] i v h = absurd (omega arith)
get_or-set_self (x ∷ xs) zero v h = refl
get_or-set_self (x ∷ xs) (suc i) v h = get_or-set_self xs i v (omega (arith, h))

get_or-set_other : (xs : List ℕ) (i j v : ℕ) → j ≢ i → get_or (set xs i v) j 0 ≡ get_or xs j 0
get_or-set_other [] i j v h = refl
get_or-set_other (x ∷ xs) zero zero v h = absurd (h refl)
get_or-set_other (x ∷ xs) zero (suc j) v h = refl
get_or-set_other (x ∷ xs) (suc i) zero v h = refl
get_or-set_other (x ∷ xs) (suc i) (suc j) v h = get_or-set_other xs i j v (λ e. h (ap suc e))

get_or-map_pred : (xs : List ℕ) (i : ℕ) → get_or (map (λ t. t - 1) xs) i 0 ≡ get_or xs i 0 - 1
get_or-map_pred [] i = refl
get_or-map_pred (x ∷ xs) zero = refl
get_or-map_pred (x ∷ xs) (suc i) = get_or-map_pred xs i

pub All-set : (P : ℕ → Type 0) (xs : List ℕ) (i v : ℕ) → P v → All P xs → All P (set xs i v)
All-set P [] i v h hs = tt
All-set P (x ∷ xs) zero v h (hx, hs) = (h, hs)
All-set P (x ∷ xs) (suc i) v h (hx, hs) = (hx, All-set P xs i v h hs)

All-map_pred : (xs : List ℕ) → All (λ t. t ≤ 255) xs → All (λ t. t ≤ 255) (map (λ t. t - 1) xs)
All-map_pred [] h = tt
All-map_pred (x ∷ xs) (h, hs) = (omega (arith, h), All-map_pred xs hs)

length-map_pred : (xs : List ℕ) → length (map (λ t. t - 1) xs) ≡ length xs
length-map_pred [] = refl
length-map_pred (x ∷ xs) = ap suc (length-map_pred xs)

-- The timestamps stay bytes, and as many.
pub update_lru-bytes :
    (s : SetMetadata) (w : ℕ)
    → All (λ t. t ≤ 255) s.timestamps
    → All (λ t. t ≤ 255) (update_lru s w).timestamps
unfolding update_lru
update_lru-bytes s w h = All-set (λ t. t ≤ 255) _ w 255 (omega arith) (All-map_pred s.timestamps h)

pub length-update_lru :
    (s : SetMetadata) (w : ℕ) → length (update_lru s w).timestamps ≡ length s.timestamps
unfolding update_lru
length-update_lru s w =
    length-set (map (λ t. t - 1) s.timestamps) w 255 ∙ length-map_pred s.timestamps

-- A way that was just accessed is not the one that the next replacement takes.
pub oldest-update_lru :
    (s : SetMetadata) (w : ℕ)
    → All (λ t. t ≤ 255) s.timestamps
    → w < length s.timestamps
    → 2 ≤ length s.timestamps
    → oldest (update_lru s w).timestamps ≢ w
unfolding update_lru
oldest-update_lru s w bytes inside two e =
    let (j, j_lt, ne) = another w in
    let stamps = (update_lru s w).timestamps in
    let least : get_or stamps w 0 ≤ get_or stamps j 0 =
      subst (λ r. get_or stamps r 0 ≤ get_or stamps j 0) e
        (All-get_or (λ t. get_or stamps (oldest stamps) 0 ≤ t) stamps j
          (oldest-least stamps (update_lru-bytes s w bytes))
          (omega (arith, length-update_lru s w, j_lt, two))) in
    let mine : get_or stamps w 0 ≡ 255 =
      get_or-set_self (map (λ t. t - 1) s.timestamps) w 255
        (omega (arith, inside, length-map_pred s.timestamps)) in
    let other : get_or stamps j 0 ≡ get_or s.timestamps j 0 - 1 =
      get_or-set_other (map (λ t. t - 1) s.timestamps) w j 255 ne
      ∙ get_or-map_pred s.timestamps j in
    let small : get_or s.timestamps j 0 ≤ 255 =
      All-get_or (λ t. t ≤ 255) s.timestamps j bytes (omega (arith, j_lt, two)) in
    omega (arith, least, mine, other, small)
  where
    another : (w : ℕ) → (j : ℕ) × (j < 2) × (j ≢ w)
    another zero = (1, omega arith, λ h. omega arith)
    another (suc w) = (0, omega arith, λ h. omega arith)
