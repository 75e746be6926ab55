-- ===== src/Log/Sort.antt =====
-- `records.sort_by_key(|r| r.key)`, which is stable, and `records.dedup_by_key(|r| r.key)`,
-- which keeps the first of a run of equal keys.
use bxdb.Base.{ℕ, ◌≤◌, ◌<◌, arith, List, [], ◌∷◌, leb, ◌==◌, if◌then◌else◌, All}
use bxdb.Base.{Bool-cases, inl, inr, leb→le}
use bxdb.Chunk.Record.{ChunkRecord}

-- In front of the first record whose key is not smaller.
unfoldable pub insert_by_key : ChunkRecord → List ChunkRecord → List ChunkRecord
insert_by_key r [] = r ∷ []
insert_by_key r (x ∷ xs) = if leb r.key x.key then r ∷ x ∷ xs else x ∷ insert_by_key r xs

unfoldable pub sort_by_key : List ChunkRecord → List ChunkRecord
sort_by_key [] = []
sort_by_key (x ∷ xs) = insert_by_key x (sort_by_key xs)

-- The rest of the list behind a record with the key `k` that was kept.
unfoldable pub dedup_behind : ℕ → List ChunkRecord → List ChunkRecord
dedup_behind k [] = []
dedup_behind k (x ∷ xs) = if x.key == k then dedup_behind k xs else x ∷ dedup_behind x.key xs

unfoldable pub dedup_by_key : List ChunkRecord → List ChunkRecord
dedup_by_key [] = []
dedup_by_key (x ∷ xs) = x ∷ dedup_behind x.key xs

-- Keys in ascending order, and in strictly ascending order.
abbrev pub IsSorted : List ChunkRecord → Type 0
IsSorted [] = Unit {0}
IsSorted (x ∷ xs) = All (λ y. x.key ≤ y.key) xs × IsSorted xs

abbrev pub IsStrict : List ChunkRecord → Type 0
IsStrict [] = Unit {0}
IsStrict (x ∷ xs) = All (λ y. x.key < y.key) xs × IsStrict xs

pub All-mono {ℓ κ} :
    {A : Type 0} (P : A → Type ℓ) (Q : A → Type κ)
    → ((a : A) → P a → Q a)
    → (xs : List A) → All P xs
    → All Q xs
All-mono P Q f [] h = tt
All-mono P Q f (x ∷ xs) (hx, hxs) = (f x hx, All-mono P Q f xs hxs)

insert_by_key-All :
    (P : ChunkRecord → Type 0) (r : ChunkRecord) (xs : List ChunkRecord)
    → P r
    → All P xs
    → All P (insert_by_key r xs)
unfolding insert_by_key
insert_by_key-All P r [] h hs = (h, tt)
insert_by_key-All P r (x ∷ xs) h (hx, hs) = elim (Bool-cases (leb r.key x.key)) [
  | inl below ↦ rw below (h, (hx, hs))
  | inr above ↦ rw above (hx, insert_by_key-All P r xs h hs)
]

-- What holds of every record holds of every record after sorting.
pub sort_by_key-All :
    (P : ChunkRecord → Type 0) (xs : List ChunkRecord) → All P xs → All P (sort_by_key xs)
unfolding sort_by_key
sort_by_key-All P [] h = tt
sort_by_key-All P (x ∷ xs) (hx, hs) =
    insert_by_key-All P x (sort_by_key xs) hx (sort_by_key-All P xs hs)

insert_by_key-IsSorted :
    (r : ChunkRecord) (xs : List ChunkRecord) → IsSorted xs → IsSorted (insert_by_key r xs)
unfolding insert_by_key
insert_by_key-IsSorted r [] h = (tt, tt)
insert_by_key-IsSorted r (x ∷ xs) (hx, hs) = elim (Bool-cases (leb r.key x.key)) [
  | inl below ↦ rw below (
    (
      leb→le r.key x.key below,
      All-mono (λ y. x.key ≤ y.key) (λ y. r.key ≤ y.key)
          (λ y h. omega (arith, leb→le r.key x.key below)) xs hx,
    ),
    (hx, hs),
  )
  | inr above ↦ rw above (
    insert_by_key-All (λ y. x.key ≤ y.key) r xs (ground arith) hx,
    insert_by_key-IsSorted r xs hs,
  )
]

pub sort_by_key-IsSorted : (xs : List ChunkRecord) → IsSorted (sort_by_key xs)
unfolding sort_by_key
sort_by_key-IsSorted [] = tt
sort_by_key-IsSorted (x ∷ xs) = insert_by_key-IsSorted x (sort_by_key xs) (sort_by_key-IsSorted xs)

dedup_behind-All :
    (P : ChunkRecord → Type 0) (k : ℕ) (xs : List ChunkRecord)
    → All P xs
    → All P (dedup_behind k xs)
unfolding dedup_behind
dedup_behind-All P k [] h = tt
dedup_behind-All P k (x ∷ xs) (hx, hs) = elim (Bool-cases (x.key == k)) [
  | inl same ↦ rw same (dedup_behind-All P k xs hs)
  | inr other ↦ rw other (hx, dedup_behind-All P x.key xs hs)
]

pub dedup_by_key-All :
    (P : ChunkRecord → Type 0) (xs : List ChunkRecord) → All P xs → All P (dedup_by_key xs)
unfolding dedup_by_key
dedup_by_key-All P [] h = tt
dedup_by_key-All P (x ∷ xs) (hx, hs) = (hx, dedup_behind-All P x.key xs hs)

-- Behind a kept key only greater keys are left.
dedup_behind-above :
    (k : ℕ) (xs : List ChunkRecord)
    → IsSorted xs
    → All (λ y. k ≤ y.key) xs
    → All (λ y. k < y.key) (dedup_behind k xs)
unfolding dedup_behind
dedup_behind-above k [] h hk = tt
dedup_behind-above k (x ∷ xs) (hx, hs) (kx, ks) = elim (Bool-cases (x.key == k)) [
  | inl same ↦ rw same (dedup_behind-above k xs hs ks)
  | inr other ↦ rw other (
    ground arith,
    All-mono (λ y. x.key < y.key) (λ y. k < y.key) (λ y h. omega arith) (dedup_behind x.key xs)
        (dedup_behind-above x.key xs hs hx),
  )
]

dedup_behind-IsStrict : (k : ℕ) (xs : List ChunkRecord) → IsSorted xs → IsStrict (dedup_behind k xs)
unfolding dedup_behind
dedup_behind-IsStrict k [] h = tt
dedup_behind-IsStrict k (x ∷ xs) (hx, hs) = elim (Bool-cases (x.key == k)) [
  | inl same ↦ rw same (dedup_behind-IsStrict k xs hs)
  | inr other ↦ rw other (dedup_behind-above x.key xs hs hx, dedup_behind-IsStrict x.key xs hs)
]

pub dedup_by_key-IsStrict : (xs : List ChunkRecord) → IsSorted xs → IsStrict (dedup_by_key xs)
unfolding dedup_by_key
dedup_by_key-IsStrict [] h = tt
dedup_by_key-IsStrict (x ∷ xs) (hx, hs) =
    (dedup_behind-above x.key xs hs hx, dedup_behind-IsStrict x.key xs hs)

-- What every reader of a log ends with: one record for each key, keys ascending.
abbrev pub sort_dedup : List ChunkRecord → List ChunkRecord
sort_dedup records = dedup_by_key (sort_by_key records)

pub sort_dedup-IsStrict : (records : List ChunkRecord) → IsStrict (sort_dedup records)
sort_dedup-IsStrict records = dedup_by_key-IsStrict _ (sort_by_key-IsSorted records)

pub sort_dedup-All :
    (P : ChunkRecord → Type 0) (records : List ChunkRecord)
    → All P records
    → All P (sort_dedup records)
sort_dedup-All P records h = dedup_by_key-All P _ (sort_by_key-All P records h)
