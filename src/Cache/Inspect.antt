-- ===== src/Cache/Inspect.antt =====
-- The access to the cache by the numbers of its slots.
use bxdb.Base.{ℕ, ◌<◌, ◌≡◌, refl, sym, ap, ap₂, ◌∙◌, arith, Option, some, none, List, inl, inr}
use bxdb.Base.{
  suc, false, [], ◌∷◌, Bool-cases, eq_cases, ◌==◌, if◌then◌else◌, get_or, Option-cases,
  some-injective,
}
use bxdb.Cache.Defs.{
  SharedCache, locate, slot_of, find_way, get, empty_key, set_at, slot_at, total_slots, slot_key,
  read_slot_page, set_of_slot, way_of_slot, ways_per_set, sets_per_meta, total_slots,
}
use bxdb.Cache.Ways.{find_way-lt, find_way-here, find_way-there, next_way}
use bxdb.Cache.Slots.{locate-lt, slot_of-injective}
use bxdb.Cache.Coherence.{IsCache, cached, get-cached}

set_of_slot-slot_of :
    (c : SharedCache) (m i w : ℕ)
    → i < sets_per_meta
    → w < ways_per_set
    → (set_of_slot c (slot_of m i w) ≡ c.sets m i) × (way_of_slot (slot_of m i w) ≡ w)
set_of_slot-slot_of c m i w hi hw =
    (ap₂ c.sets (omega (arith, hi, hw)) (omega (arith, hi, hw)), omega (arith, hi, hw))

next_way-some : (o : Option ℕ) (w : ℕ) → next_way o ≡ some w → (v : ℕ) × (w ≡ suc v) × (o ≡ some v)
next_way-some none w h = cc
next_way-some (some v) w h = (v, sym (some-injective h), refl)

-- The way that is found holds the key.
get_or-find_way : (ids : List ℕ) (key w : ℕ) → find_way ids key ≡ some w → get_or ids w 0 ≡ key
unfolding find_way
get_or-find_way [] key w h = cc
get_or-find_way (k ∷ ids) key w h = elim (eq_cases k key) [
  | inl e ↦
      let first : w ≡ 0 = some-injective (sym h ∙ find_way-here k key ids e) in
      ap (λ v. get_or (k ∷ ids) v 0) first ∙ e
  | inr ne ↦
      let (v, is_suc, at) =
        next_way-some (find_way ids key) w (sym (find_way-there k key ids ne) ∙ h) in
      ap (λ u. get_or (k ∷ ids) u 0) is_suc ∙ get_or-find_way ids key v at
]

cached-way :
    (c : SharedCache) (key : ℕ) (page : List ℕ)
    → cached c key ≡ some page
    → ((key == empty_key) ≡ false)
      × (w : ℕ) × (find_way (set_at c key).page_ids key ≡ some w)
      × (c.pages (slot_at key w) ≡ page)
unfolding cached
cached-way c key page hit = elim (Bool-cases (key == empty_key)) [
  | inl e ↦ cc (e, hit)
  | inr e ↦ elim (Option-cases (find_way (set_at c key).page_ids key)) [
    | inl gone ↦ cc (e, gone, hit)
    | inr (w, at) ↦ (e, w, at, some-injective (sym (rw (e, at) refl) ∙ hit))
  ]
]

-- A key that `get` finds stands in a slot of the file, under which the key and the page are
-- listed.
pub slot_key-get :
    (c : SharedCache) (key : ℕ) (page : List ℕ)
    → IsCache c
    → (get c key).0 ≡ some page
    → (slot : ℕ) × (slot < total_slots)
      × (slot_key c slot ≡ some key)
      × (read_slot_page c slot ≡ page)
unfolding slot_key read_slot_page
slot_key-get c key page valid hit =
    let (real, w, at, stored) = cached-way c key page (sym (get-cached c key) ∙ hit) in
    let inside : w < 16 = omega (
      arith,
      find_way-lt (set_at c key).page_ids key w at,
      (valid (locate key).0 (locate key).1).ids_length,
    ) in
    let (set_same, way_same) =
      set_of_slot-slot_of c (locate key).0 (locate key).1 w (locate-lt key).1 inside in
    let listed : get_or (set_of_slot c (slot_at key w)).page_ids (way_of_slot (slot_at key w)) 0
        ≡ key =
      ap₂ (λ s v. get_or s.page_ids v 0) set_same way_same
      ∙ get_or-find_way (set_at c key).page_ids key w at in
    (
      slot_at key w,
      (slot_of-injective key key w w inside inside).0,
      ap (λ k. if k == empty_key then none else some k) listed ∙ rw real refl,
      stored,
    )
