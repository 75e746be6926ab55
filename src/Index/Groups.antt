-- ===== src/Index/Groups.antt =====
-- The lookup of a key in a log that is grouped by snapshots, and the index that is made of it.
use bxdb.Base.{
  ℕ, ◌≤◌, ◌<◌, ◌≡◌, ◌≢◌, refl, sym, ap, ap₂, ◌∙◌, arith, none, some, List, [], ◌∷◌, All, inl, inr,
}
use bxdb.Base.{Bool-cases, eq_cases, leb, if◌then◌else◌, ◌==◌, false, ==-refl, some-injective}
use bxdb.Chunk.Key.{snapshot_of}
use bxdb.Chunk.Record.{ChunkRecord}
use mathlib.Core.Path.{subst}
use bxdb.Log.Sort.{IsStrict, sort_dedup, sort_by_key, sort_dedup-IsStrict, All-mono}
use bxdb.Log.Groups.{insert_by_snapshot, by_snapshot, keys_differ}
use bxdb.Index.Sorted.{find_key}
use bxdb.Index.Find.{find_key_swap, find_key-sort_by_key, find_key-sort_dedup}

find_key-insert_by_snapshot :
    (key : ℕ) (r : ChunkRecord) (xs : List ChunkRecord)
    → find_key key (insert_by_snapshot r xs) ≡ find_key key (r ∷ xs)
unfolding insert_by_snapshot find_key
find_key-insert_by_snapshot key r [] = refl
find_key-insert_by_snapshot key r (x ∷ xs) =
    elim (Bool-cases (leb (snapshot_of r.key) (snapshot_of x.key))) [
      | inl e ↦ rw e refl
      | inr e ↦ rw e (
          ap (λ t. if x.key == key then some x else t) (find_key-insert_by_snapshot key r xs)
          ∙ find_key_swap key x r xs (keys_differ x r e))
    ]

pub find_key-by_snapshot :
    (key : ℕ) (xs : List ChunkRecord) → find_key key (by_snapshot xs) ≡ find_key key xs
unfolding by_snapshot find_key
find_key-by_snapshot key [] = refl
find_key-by_snapshot key (x ∷ xs) =
    find_key-insert_by_snapshot key x (by_snapshot xs)
    ∙ ap (λ t. if x.key == key then some x else t) (find_key-by_snapshot key xs)

-- A key that no record has is not found.
find_key_absent :
    (key : ℕ) (xs : List ChunkRecord) → All (λ x. x.key ≢ key) xs → find_key key xs ≡ none
unfolding find_key
find_key_absent key [] h = refl
find_key_absent key (x ∷ xs) (hx, hs) =
    let other : (x.key == key) ≡ false = ground arith in rw other (find_key_absent key xs hs)

-- The first record of an ascending list is the lowest that is found.
head_le :
    (x y : ChunkRecord) (ys : List ChunkRecord)
    → All (λ r. y.key < r.key) ys
    → find_key x.key (y ∷ ys) ≡ some x
    → y.key ≤ x.key
unfolding find_key
head_le x y ys above h = elim (Bool-cases (leb y.key x.key)) [
  | inl e ↦ ground arith
  | inr e ↦
      let below : x.key < y.key = ground arith in
      let other : (y.key == x.key) ≡ false = ground arith in
      let absent = find_key_absent x.key ys (
        All-mono (λ r. y.key < r.key) (λ r. r.key ≢ x.key)
          (λ r lt e. absurd (omega (arith, lt, e, below))) ys above) in
      let found : find_key x.key ys ≡ some x = sym (rw other refl) ∙ h in cc (absent, found)
]

find_key-head : (x : ChunkRecord) (xs : List ChunkRecord) → find_key x.key (x ∷ xs) ≡ some x
unfolding find_key
find_key-head x xs = rw (==-refl x.key)

find_key_behind :
    (k : ℕ) (x : ChunkRecord) (xs : List ChunkRecord)
    → x.key ≢ k
    → find_key k (x ∷ xs) ≡ find_key k xs
unfolding find_key
find_key_behind k x xs ne = let other : (x.key == k) ≡ false = ground arith in rw other refl

find_key_tails :
    (x : ChunkRecord) (xs ys : List ChunkRecord)
    → All (λ r. x.key < r.key) xs
    → All (λ r. x.key < r.key) ys
    → ((k : ℕ) → find_key k (x ∷ xs) ≡ find_key k (x ∷ ys))
    → (k : ℕ) → find_key k xs ≡ find_key k ys
find_key_tails x xs ys hx hy same k = elim (eq_cases x.key k) [
  | inr ne ↦ sym (find_key_behind k x xs ne) ∙ same k ∙ find_key_behind k x ys ne
  | inl e ↦ find_key_absent k xs (differ e xs hx) ∙ sym (find_key_absent k ys (differ e ys hy))
]
  where
    differ :
        x.key ≡ k → (rs : List ChunkRecord) → All (λ r. x.key < r.key) rs → All (λ r. r.key ≢ k) rs
    differ e rs =
        All-mono (λ r. x.key < r.key) (λ r. r.key ≢ k)
          (λ r lt equal. absurd (omega (arith, lt, equal, e))) rs

-- Ascending lists in which the same records are found are the same.
pub find_key-IsStrict :
    (xs ys : List ChunkRecord)
    → IsStrict xs
    → IsStrict ys
    → ((k : ℕ) → find_key k xs ≡ find_key k ys)
    → xs ≡ ys
find_key-IsStrict [] [] hx hy same = refl
find_key-IsStrict [] (y ∷ ys) hx hy same =
    cc (same y.key, find_key_absent y.key [] tt, find_key-head y ys)
find_key-IsStrict (x ∷ xs) [] hx hy same =
    cc (same x.key, find_key_absent x.key [] tt, find_key-head x xs)
find_key-IsStrict (x ∷ xs) (y ∷ ys) (above_x, hx) (above_y, hy) same =
    let keys : x.key ≡ y.key = omega (
      arith,
      head_le x y ys above_y (sym (same x.key) ∙ find_key-head x xs),
      head_le y x xs above_x (same y.key ∙ find_key-head y ys),
    ) in
    let heads : x ≡ y = some-injective (
      sym (find_key-head x xs)
      ∙ same x.key
      ∙ ap (λ k. find_key k (y ∷ ys)) keys
      ∙ find_key-head y ys) in
    let tails =
      find_key_tails x xs ys above_x (subst (λ r. All (λ z. r.key < z.key) ys) (sym heads) above_y)
        (λ k. same k ∙ ap (λ r. find_key k (r ∷ ys)) (sym heads)) in
    ap₂ (λ r rs. r ∷ rs) heads (find_key-IsStrict xs ys hx hy tails)

-- The records of an index, sorted, grouped by snapshots, and made an index of again.
pub sort_dedup-by_snapshot :
    (records : List ChunkRecord)
    → IsStrict records
    → sort_dedup (by_snapshot (sort_by_key records)) ≡ records
sort_dedup-by_snapshot records h =
    find_key-IsStrict (sort_dedup (by_snapshot (sort_by_key records))) records
      (sort_dedup-IsStrict (by_snapshot (sort_by_key records))) h
      (λ k.
        find_key-sort_dedup k (by_snapshot (sort_by_key records))
        ∙ find_key-by_snapshot k (sort_by_key records)
        ∙ find_key-sort_by_key k records)
