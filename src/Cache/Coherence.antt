-- ===== src/Cache/Coherence.antt =====
-- What can be read from the cache after a `get` and after a `put`.
use bxdb.Base.{
  ℕ, ◌≤◌, ◌≡◌, ◌≢◌, refl, sym, ap, ap₂, ◌∙◌, arith, Option, none, some, List, ◌⊎◌, inl, inr,
}
use bxdb.Base.{Bool-cases, eq_cases, ◌==◌, ◌&&◌, ==-refl, if◌then◌else◌, length, All}
use bxdb.Cache.Defs.{
  SharedCache, SetMetadata, locate, find_way, update_lru, with_set, set_at, slot_at, access, get,
  empty_key,
}
use bxdb.Cache.Ways.{Once}
use bxdb.Cache.Lru.{update_lru-bytes, length-update_lru}

-- Sixteen ways in each set, timestamps that are bytes, and no key in two ways of a set.
pub record IsValidSet (s : SetMetadata) : Type 0 where
  pub ids_length : length s.page_ids ≡ 16
  pub timestamps_length : length s.timestamps ≡ 16
  pub timestamps_fit : All (λ t. t ≤ 255) s.timestamps
  pub once : (q : ℕ) → q ≢ empty_key → Once q s.page_ids

abbrev pub IsCache : SharedCache → Type 0
IsCache c = (m i : ℕ) → IsValidSet (c.sets m i)

-- The page of a key, if it is cached.
abbrev pub page_of : SharedCache → ℕ → Option ℕ → Option (List ℕ)
page_of c key none = none
page_of c key (some w) = some (c.pages (slot_at key w))

unfoldable pub cached : SharedCache → ℕ → Option (List ℕ)
cached c key =
    if key == empty_key then none else page_of c key (find_way (set_at c key).page_ids key)

pub get-cached : (c : SharedCache) (key : ℕ) → (get c key).0 ≡ cached c key
unfolding get cached
get-cached c key = elim (Bool-cases (key == empty_key)) [
  | inl e ↦ rw e
  | inr e ↦ rw e (by_way (find_way (set_at c key).page_ids key))
]
  where
    by_way : (o : Option ℕ) → (access c key o).0 ≡ page_of c key o
    by_way none = refl
    by_way (some w) = refl

pub with_set_self : (c : SharedCache) (m i : ℕ) (s : SetMetadata) → with_set c m i s m i ≡ s
with_set_self c m i s = rw (==-refl m, ==-refl i)

-- A key is in the set of another one, or its set is not touched by a write to that.
pub set_cases :
    (key q : ℕ)
    → (locate q ≡ locate key)
      ⊎ (locate q ≢ locate key)
        × ((c : SharedCache) (s : SetMetadata)
            → with_set c (locate key).0 (locate key).1 s (locate q).0 (locate q).1 ≡ set_at c q)
set_cases key q = elim (eq_cases (locate q).0 (locate key).0) [
  | inr other ↦ inr (λ e. other (ap (λ l. l.0) e), λ c s. ground arith)
  | inl m ↦ elim (eq_cases (locate q).1 (locate key).1) [
    | inr other ↦ inr (λ e. other (ap (λ l. l.1) e), λ c s. ground arith)
    | inl i ↦ inl (ap₂ (λ a b. (a, b)) m i)
  ]
]

pub with_set-IsCache :
    (c : SharedCache) (m i : ℕ) (s : SetMetadata)
    → IsCache c
    → IsValidSet s
    → (m' i' : ℕ) → IsValidSet (with_set c m i s m' i')
with_set-IsCache c m i s h hs m' i' = elim (Bool-cases (m' == m && i' == i)) [
  | inl e ↦ rw e hs
  | inr e ↦ rw e (h m' i')
]

pub update_lru-IsValidSet : (s : SetMetadata) (w : ℕ) → IsValidSet s → IsValidSet (update_lru s w)
update_lru-IsValidSet s w h = record {
  ids_length = unfold update_lru in h.ids_length;
  timestamps_length = length-update_lru s w ∙ h.timestamps_length;
  timestamps_fit = update_lru-bytes s w h.timestamps_fit;
  once = unfold update_lru in h.once;
}

-- A `get` changes timestamps alone: what is cached stays, under every key.
pub get-keeps :
    (c : SharedCache) (key q : ℕ)
    → IsCache c
    → IsCache (get c key).1 × (cached (get c key).1 q ≡ cached c q)
unfolding get cached
get-keeps c key q h = elim (Bool-cases (key == empty_key)) [
  | inl e ↦ rw e (h, refl)
  | inr e ↦ rw e (by_way (find_way (set_at c key).page_ids key))
]
  where
    same_ids :
        (w : ℕ)
        → (with_set c
            (locate key).0
            (locate key).1
            (update_lru (set_at c key) w)
            (locate q).0
            (locate q).1).page_ids
          ≡ (set_at c q).page_ids
    same_ids w = elim (set_cases key q) [
      | inr (ne, other) ↦ ap (λ s. s.page_ids) (other c (update_lru (set_at c key) w))
      | inl same ↦
          ap
            (λ l.
              (with_set c (locate key).0 (locate key).1 (update_lru (set_at c key) w) l.0
                l.1).page_ids)
            same
          ∙ ap (λ s. s.page_ids)
              (with_set_self c (locate key).0 (locate key).1 (update_lru (set_at c key) w))
          ∙ (unfold update_lru in ap (λ l. (c.sets l.0 l.1).page_ids) (sym same))
    ]

    by_way :
        (o : Option ℕ)
        → IsCache (access c key o).1
          × ((if q == empty_key
                then none
                else page_of
                    (access c key o).1
                    q
                    (find_way (set_at (access c key o).1 q).page_ids q))
              ≡ (if q == empty_key then none else page_of c q (find_way (set_at c q).page_ids q)))
    by_way none = (h, refl)
    by_way (some w) = (
      with_set-IsCache c (locate key).0 (locate key).1 (update_lru (set_at c key) w) h
          (update_lru-IsValidSet (set_at c key) w (h (locate key).0 (locate key).1)),
      ap (λ ids. if q == empty_key then none else page_of c q (find_way ids q)) (same_ids w),
    )
