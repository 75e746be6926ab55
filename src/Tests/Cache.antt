-- ===== src/Tests/Cache.antt =====
-- The theorems on the cache.
use bxdb.Base.{
  ℕ, ◌<◌, ◌≡◌, ◌≢◌, ◌≤◌, refl, arith, [], ◌∷◌, List, some, none, replicate, All, get_or, ◌⊎◌,
}
use bxdb.Base.Trailing.{trailing_zeros}
use bxdb.Cache.{
  SharedCache, SetMetadata, get, put, locate, slot_of, total_slots, find_way, oldest, update_lru,
  empty_key,
}
use bxdb.Cache.Slots.{slot_of-injective}
use bxdb.Cache.Simd.{find_way_sse41, find_way_neon, find_way_sse41-find_way}
use bxdb.Cache.Lru.{oldest-least, oldest-update_lru}
use bxdb.Cache.Coherence.{cached}
use bxdb.Cache.History.{
  start, did_get, did_put, note, IsFaithful, Reach-IsFaithful, init_cache-IsFaithful,
}
use bxdb.Cache.Identity.{CacheFile, create, open_cache, init_cache}
use bxdb.Cache.Identity.Opens.{open_cache-create, open_cache_long}
use bxdb.Cache.Inspect.{slot_key-get}
use bxdb.Cache.{slot_key, read_slot_page}
use bxdb.Base.{ok, err, cache_identity, length-replicate}
use bxdb.Cache.Survival.{put-put}

abbrev blank : ℕ → List ℕ
blank slot = []

slot_of-injective_example :
    (slot_of (locate 7).0 (locate 7).1 3 < total_slots)
    × (slot_of (locate 7).0 (locate 7).1 3 ≡ slot_of (locate 8).0 (locate 8).1 3
        → (locate 7 ≡ locate 8) × (◌≡◌ {A = ℕ} 3 3))
slot_of-injective_example = slot_of-injective 7 8 3 3 (omega arith) (omega arith)

abbrev two_calls : SharedCache
two_calls = put (get (put (init_cache blank) 7 (1 ∷ [])) 7).1 8 (2 ∷ [])

Reach-IsFaithful_example : IsFaithful two_calls (note (note (λ q. none) 7 (1 ∷ [])) 8 (2 ∷ []))
Reach-IsFaithful_example =
    Reach-IsFaithful blank two_calls (note (note (λ q. none) 7 (1 ∷ [])) 8 (2 ∷ []))
      (did_put (did_get (did_put start 7 (1 ∷ [])) 7) 8 (2 ∷ []))

put-put_example : cached (put (put (init_cache blank) 7 (1 ∷ [])) 8 (2 ∷ [])) 7 ≡ some (1 ∷ [])
put-put_example =
    put-put (init_cache blank) 7 8 (1 ∷ []) (2 ∷ []) (init_cache-IsFaithful blank).sets_valid
      (omega arith) (omega arith) (omega arith)

abbrev three_ways : SetMetadata
three_ways = record { page_ids = 7 ∷ 8 ∷ 9 ∷ []; timestamps = 4 ∷ 2 ∷ 2 ∷ [] }

oldest-update_lru_example : oldest (update_lru three_ways 1).timestamps ≢ 1
oldest-update_lru_example =
    oldest-update_lru three_ways 1 (omega arith, (omega arith, (omega arith, tt))) (omega arith)
      (omega arith)

oldest-least_example :
    All (λ t. get_or (4 ∷ 2 ∷ 2 ∷ []) (oldest (4 ∷ 2 ∷ 2 ∷ [])) 0 ≤ t) (4 ∷ 2 ∷ 2 ∷ [])
oldest-least_example = oldest-least (4 ∷ 2 ∷ 2 ∷ []) (omega arith, (omega arith, (omega arith, tt)))

abbrev ways : List ℕ
ways = 5 ∷ 6 ∷ 7 ∷ 7 ∷ replicate 12 empty_key

find_way_sse41-find_way_example :
    (find_way_sse41 ways 7 ≡ find_way ways 7) × (find_way_neon ways 7 ≡ find_way ways 7)
find_way_sse41-find_way_example = find_way_sse41-find_way ways 7 refl

hit : (get two_calls 7).0 ≡ some (1 ∷ [])
unfolding get put find_way locate update_lru
hit = refl

first_way : find_way_sse41 ways 7 ≡ some 2
unfolding find_way_sse41 trailing_zeros
first_way = refl

slot_key-get_example :
    (slot : ℕ) × (slot < total_slots)
    × (slot_key two_calls slot ≡ some 7)
    × (read_slot_page two_calls slot ≡ (1 ∷ []))
slot_key-get_example =
    slot_key-get two_calls 7 (1 ∷ [])
      (Reach-IsFaithful blank two_calls (note (note (λ q. none) 7 (1 ∷ [])) 8 (2 ∷ []))
        (did_put (did_get (did_put start 7 (1 ∷ [])) 7) 8 (2 ∷ []))).sets_valid
      hit

abbrev new_file : CacheFile
new_file = record { size = 0; magic = 0; path = []; cache = init_cache blank }

open_cache-create_example :
    (made : CacheFile) × (create (ok tt) new_file (47 ∷ 97 ∷ []) ≡ ok made)
    × (open_cache (some made) (47 ∷ 97 ∷ []) ≡ ok made.cache)
    × ((made.cache ≡ init_cache blank) ⊎ (made.cache ≡ init_cache blank))
    × ((other : List ℕ)
        → other ≢ (47 ∷ 97 ∷ [])
        → open_cache (some made) other ≡ err cache_identity)
open_cache-create_example =
    open_cache-create new_file (47 ∷ 97 ∷ []) (omega arith) (omega arith, (omega arith, tt))

abbrev long_path : List ℕ
long_path = replicate 953 97

open_cache_long_example :
    ((made : CacheFile) × (create (ok tt) new_file long_path ≡ ok made))
    × ((cache : SharedCache) → open_cache (some new_file) long_path ≢ ok cache)
open_cache_long_example =
    open_cache_long new_file long_path (omega (arith, length-replicate {A = ℕ} 953 97))
