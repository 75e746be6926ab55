-- ===== src/Cache/Defs.antt =====
-- The cache's sets and slots, and `get` and `put`.
use bxdb.Base.{
  ℕ, suc, ◌+◌, ◌-◌, ◌*◌, ◌/◌, ◌%◌, ◌^◌, bit_and, Option, none, some, List, [], ◌∷◌, map,
}
use bxdb.Base.{ltb, ◌==◌, ◌&&◌, if◌then◌else◌, get_or, set}

abbrev pub metadata_pages : ℕ
metadata_pages = 512

abbrev pub sets_per_meta : ℕ
sets_per_meta = 16

abbrev pub ways_per_set : ℕ
ways_per_set = 16

abbrev pub total_slots : ℕ
total_slots = metadata_pages * sets_per_meta * ways_per_set

abbrev pub empty_key : ℕ
empty_key = 0xffff_ffff_ffff_ffff

-- Both arrays have 16 elements.
pub record SetMetadata : Type 0 where
  pub page_ids : List ℕ
  pub timestamps : List ℕ

-- The sets by metadata page and index, and the pages of the slots. A set is read and written
-- under the mutex of its metadata page.
pub record SharedCache : Type 0 where
  pub sets : ℕ → ℕ → SetMetadata
  pub pages : ℕ → List ℕ

abbrev pub fib_mul : ℕ
fib_mul = 0x9e37_79b9_7f4a_7c15

-- The metadata page and the set of a key.
unfoldable pub locate : ℕ → ℕ × ℕ
locate key =
    let hash = key * fib_mul % 2 ^ 64 in
    (bit_and (hash / 2 ^ 4) (metadata_pages - 1), bit_and hash (sets_per_meta - 1))

abbrev pub slot_of : ℕ → ℕ → ℕ → ℕ
slot_of meta_idx set_idx way =
    meta_idx * (sets_per_meta * ways_per_set) + set_idx * ways_per_set + way

-- `page_ids.iter().position(|&k| k == key)`
unfoldable pub find_way : List ℕ → ℕ → Option ℕ
find_way [] key = none
find_way (k ∷ page_ids) key =
    if k == key
    then some 0
    else elim (find_way page_ids key) [ none ↦ none | some w ↦ some (suc w) ]

-- `saturating_sub(1)` of all, and 255 for the way that was accessed.
unfoldable pub update_lru : SetMetadata → ℕ → SetMetadata
update_lru s accessed = record s { timestamps = set (map (λ t. t - 1) s.timestamps) accessed 255 }

-- The loop for the way with the least timestamp, the first of these; `w` counts the ways.
unfoldable pub oldest_from : ℕ → ℕ → ℕ → List ℕ → ℕ
oldest_from w min_ts min_w [] = min_w
oldest_from w min_ts min_w (t ∷ timestamps) =
    let newer = oldest_from (suc w) t w timestamps in
    let rest = oldest_from (suc w) min_ts min_w timestamps in if ltb t min_ts then newer else rest

abbrev pub oldest : List ℕ → ℕ
oldest timestamps = oldest_from 0 255 0 timestamps

-- The way of the key, else an empty way, else the oldest.
abbrev or_else {ℓ} : {A : Type ℓ} → Option A → Option A → Option A
or_else none o = o
or_else (some a) o = some a

abbrev unwrap_or {ℓ} : {A : Type ℓ} → Option A → A → A
unwrap_or none a = a
unwrap_or (some b) a = b

unfoldable pub target_way : SetMetadata → ℕ → ℕ
target_way s key =
    unwrap_or (or_else (find_way s.page_ids key) (find_way s.page_ids empty_key))
      (oldest s.timestamps)

-- The cache with a set replaced.
abbrev pub with_set : SharedCache → ℕ → ℕ → SetMetadata → ℕ → ℕ → SetMetadata
with_set c meta_idx set_idx s m i = if m == meta_idx && i == set_idx then s else c.sets m i

abbrev pub with_page : SharedCache → ℕ → List ℕ → ℕ → List ℕ
with_page c slot page j = if j == slot then page else c.pages j

abbrev pub set_at : SharedCache → ℕ → SetMetadata
set_at c key = c.sets (locate key).0 (locate key).1

abbrev pub slot_at : ℕ → ℕ → ℕ
slot_at key way = slot_of (locate key).0 (locate key).1 way

-- A hit: the page, and the way becomes the newest.
abbrev pub access : SharedCache → ℕ → Option ℕ → Option (List ℕ) × SharedCache
access c key none = (none, c)
access c key (some w) = (
  some (c.pages (slot_at key w)),
  record c { sets = with_set c (locate key).0 (locate key).1 (update_lru (set_at c key) w) },
)

unfoldable pub get : SharedCache → ℕ → Option (List ℕ) × SharedCache
unfolding update_lru
get c key =
    if key == empty_key then (none, c) else access c key (find_way (set_at c key).page_ids key)

-- The copy of the page, and then the key and the timestamps of the way.
abbrev pub store_page : SharedCache → ℕ → List ℕ → ℕ → SharedCache
store_page c key page way =
    let s = set_at c key in
    record {
      sets =
          with_set c (locate key).0 (locate key).1
            (update_lru (record s { page_ids = set s.page_ids way key }) way);
      pages = with_page c (slot_at key way) page;
    }

unfoldable pub put : SharedCache → ℕ → List ℕ → SharedCache
unfolding update_lru target_way
put c key page =
    if key == empty_key then c else store_page c key page (target_way (set_at c key) key)

-- `slot_key`, `slot_timestamp` and `read_slot_page`, by the number of a slot.
abbrev pub set_of_slot : SharedCache → ℕ → SetMetadata
set_of_slot c global_slot =
    c.sets (global_slot / (sets_per_meta * ways_per_set))
      (global_slot % (sets_per_meta * ways_per_set) / ways_per_set)

abbrev pub way_of_slot : ℕ → ℕ
way_of_slot global_slot = global_slot % (sets_per_meta * ways_per_set) % ways_per_set

unfoldable pub slot_key : SharedCache → ℕ → Option ℕ
slot_key c global_slot =
    let key = get_or (set_of_slot c global_slot).page_ids (way_of_slot global_slot) 0 in
    if key == empty_key then none else some key

unfoldable pub slot_timestamp : SharedCache → ℕ → ℕ
slot_timestamp c global_slot =
    get_or (set_of_slot c global_slot).timestamps (way_of_slot global_slot) 0

unfoldable pub read_slot_page : SharedCache → ℕ → List ℕ
read_slot_page c global_slot = c.pages global_slot
