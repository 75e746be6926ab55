-- ===== src/Index/Find.antt =====
-- The record of a key: what the index keeps of a log, and of a log that was extended.
use bxdb.Base.{ℕ, ◌≡◌, ◌≢◌, refl, ap, ◌∙◌, arith, some, List, [], ◌∷◌, ◌++◌, All, Bool, true, false}
use bxdb.Base.{Bool-cases, inl, inr, leb, ◌==◌, if◌then◌else◌}
use bxdb.Chunk.Record.{ChunkRecord}
use bxdb.Log.Sort.{insert_by_key, sort_by_key, dedup_behind, dedup_by_key, sort_dedup}
use bxdb.Index.Sorted.{find_key}

pub find_key_swap :
    (key : ℕ) (x y : ChunkRecord) (rs : List ChunkRecord)
    → x.key ≢ y.key
    → find_key key (x ∷ y ∷ rs) ≡ find_key key (y ∷ x ∷ rs)
unfolding find_key
find_key_swap key x y rs h = ground arith

find_key-insert_by_key :
    (key : ℕ) (r : ChunkRecord) (xs : List ChunkRecord)
    → find_key key (insert_by_key r xs) ≡ find_key key (r ∷ xs)
unfolding insert_by_key find_key
find_key-insert_by_key key r [] = refl
find_key-insert_by_key key r (x ∷ xs) = elim (Bool-cases (leb r.key x.key)) [
  | inl e ↦ rw e refl
  | inr e ↦ rw e (
      ap (λ t. if x.key == key then some x else t) (find_key-insert_by_key key r xs)
      ∙ find_key_swap key x r xs (ground arith))
]

pub find_key-sort_by_key :
    (key : ℕ) (rs : List ChunkRecord) → find_key key (sort_by_key rs) ≡ find_key key rs
unfolding sort_by_key find_key
find_key-sort_by_key key [] = refl
find_key-sort_by_key key (r ∷ rs) =
    find_key-insert_by_key key r (sort_by_key rs)
    ∙ ap (λ t. if r.key == key then some r else t) (find_key-sort_by_key key rs)

find_key-dedup_behind :
    (key k : ℕ) (rs : List ChunkRecord)
    → k ≢ key
    → find_key key (dedup_behind k rs) ≡ find_key key rs
unfolding dedup_behind find_key
find_key-dedup_behind key k [] h = refl
find_key-dedup_behind key k (x ∷ xs) h = elim (Bool-cases (x.key == k)) [
  | inl e ↦
      let other : (x.key == key) ≡ false = ground arith in
      rw (e, other) (find_key-dedup_behind key k xs h)
  | inr e ↦ rw e (elim (Bool-cases (x.key == key)) [
    | inl here ↦ rw here
    | inr other ↦ rw other (find_key-dedup_behind key x.key xs (ground arith))
  ])
]

find_key-dedup_by_key :
    (key : ℕ) (xs : List ChunkRecord) → find_key key (dedup_by_key xs) ≡ find_key key xs
unfolding dedup_by_key find_key
find_key-dedup_by_key key [] = refl
find_key-dedup_by_key key (x ∷ xs) = elim (Bool-cases (x.key == key)) [
  | inl here ↦ rw here
  | inr other ↦ rw other (find_key-dedup_behind key x.key xs (ground arith))
]

-- The sort and the dedup keep the first record of each key of the log.
pub find_key-sort_dedup :
    (key : ℕ) (rs : List ChunkRecord) → find_key key (sort_dedup rs) ≡ find_key key rs
find_key-sort_dedup key rs =
    find_key-dedup_by_key key (sort_by_key rs) ∙ find_key-sort_by_key key rs

-- What is found in a log is found in a longer one.
pub find_key-append :
    (key : ℕ) (xs ys : List ChunkRecord) (r : ChunkRecord)
    → find_key key xs ≡ some r
    → find_key key (xs ++ ys) ≡ some r
unfolding find_key
find_key-append key [] ys r h = cc
find_key-append key (x ∷ xs) ys r h = go (x.key == key) (find_key-append key xs ys r) h
  where
    go :
        (b : Bool)
        → (find_key key xs ≡ some r → find_key key (xs ++ ys) ≡ some r)
        → (if b then some x else find_key key xs) ≡ some r
        → (if b then some x else find_key key (xs ++ ys)) ≡ some r
    go true rest h = h
    go false rest h = rest h

-- What is not found in the first part is looked for in the second.
pub find_key-append_none :
    (key : ℕ) (xs ys : List ChunkRecord)
    → All (λ x. x.key ≢ key) xs
    → find_key key (xs ++ ys) ≡ find_key key ys
unfolding find_key
find_key-append_none key [] ys h = refl
find_key-append_none key (x ∷ xs) ys (hx, hs) =
    let other : (x.key == key) ≡ false = ground arith in
    rw other (find_key-append_none key xs ys hs)
