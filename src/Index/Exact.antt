-- ===== src/Index/Exact.antt =====
-- The search for a key in an ascending list.
use bxdb.Base.{ℕ, zero, suc, ◌≤◌, ◌<◌, ◌≡◌, ◌≢◌, refl, sym, ◌∙◌, arith}
use bxdb.Base.{Option, none, some, List, [], ◌∷◌, false, ◌==◌}
use bxdb.Base.{Bool-cases, inl, inr, length, get_elem?, All}
use bxdb.Chunk.Record.{ChunkRecord}
use bxdb.Log.Sort.{IsStrict}
use bxdb.Index.Defs.{at_found, keys_of, binary_search}
use bxdb.Index.Defs.{exact_sorted}
use bxdb.Index.Search.{Finds, IsAscending}
use bxdb.Index.Sorted.{find_key, key_or}

-- Exact lookups.
find_key_at :
    (rs : List ChunkRecord) (key i : ℕ)
    → IsStrict rs
    → i < length rs
    → key_or rs i ≡ key
    → find_key key rs ≡ get_elem? rs i
unfolding find_key
find_key_at [] key i h k e = absurd (omega arith)
find_key_at (r ∷ rs) key zero h k e = ground arith
find_key_at (r ∷ rs) key (suc i) (hr, hs) k e =
    let other : (r.key == key) ≡ false = ground (arith, key_above rs i hr (omega arith)) in
    rw other (find_key_at rs key i hs (omega arith) e)
  where
    key_above :
        (rs : List ChunkRecord) (i : ℕ)
        → All (λ y. r.key < y.key) rs
        → i < length rs
        → r.key < key_or rs i
    key_above [] i h k = absurd (omega arith)
    key_above (x ∷ xs) zero (h, hs) k = h
    key_above (x ∷ xs) (suc i) (h, hs) k = key_above xs i hs (omega arith)

find_key-none :
    (rs : List ChunkRecord) (key : ℕ)
    → ((i : ℕ) → i < length rs → key_or rs i ≢ key)
    → find_key key rs ≡ none
unfolding find_key
find_key-none [] key h = refl
find_key-none (r ∷ rs) key h =
    let other : (r.key == key) ≡ false = ground (arith, h 0 (omega arith)) in
    rw other (find_key-none rs key (λ i k. h (suc i) (omega arith)))

-- Whatever index an exact search ends at, it has found the record with the key.
pub at_found-Finds :
    (rs : List ChunkRecord) (key : ℕ) (o : Option ℕ)
    → IsStrict rs
    → Finds (key_or rs) (length rs) key o
    → at_found o (get_elem? rs) ≡ find_key key rs
at_found-Finds rs key none h f = sym (find_key-none rs key f)
at_found-Finds rs key (some i) h (inside, e) = sym (find_key_at rs key i h inside e)

pub exact_sorted-find_key :
    (rs : List ChunkRecord) (key : ℕ) → exact_sorted (keys_of rs) rs key ≡ find_key key rs
unfolding exact_sorted binary_search find_key
exact_sorted-find_key [] key = refl
exact_sorted-find_key (r ∷ rs) key = elim (Bool-cases (r.key == key)) [
  | inl e ↦ rw e
  | inr e ↦ rw e (shifted (binary_search (keys_of rs) key) ∙ exact_sorted-find_key rs key)
]
  where
    shifted :
        (o : Option ℕ)
        → at_found
            (elim o as (λ x. Option ℕ) [ none ↦ none | some i ↦ some (suc i) ])
            (get_elem? (r ∷ rs))
          ≡ at_found o (get_elem? rs)
    shifted none = refl
    shifted (some i) = refl

-- The keys of an ascending list ascend with the index.
pub key_or-IsAscending : (rs : List ChunkRecord) → IsStrict rs → IsAscending (key_or rs) (length rs)
key_or-IsAscending [] h i j hi hj = absurd (omega arith)
key_or-IsAscending (r ∷ rs) (hr, hs) zero zero hi hj = omega arith
key_or-IsAscending (r ∷ rs) (hr, hs) (suc i) zero hi hj = absurd (omega arith)
key_or-IsAscending (r ∷ rs) (hr, hs) zero (suc j) hi hj = first rs j hr (omega arith)
  where
    first :
        (rs : List ChunkRecord) (j : ℕ)
        → All (λ y. r.key < y.key) rs
        → j < length rs
        → r.key ≤ key_or rs j
    first [] j h k = absurd (omega arith)
    first (x ∷ xs) zero (h, hs) k = omega arith
    first (x ∷ xs) (suc j) (h, hs) k = first xs j hs (omega arith)
key_or-IsAscending (r ∷ rs) (hr, hs) (suc i) (suc j) hi hj =
    key_or-IsAscending rs hs i j (omega arith) (omega arith)
