-- ===== src/Log/Newest.antt =====
-- The specification of a floor query (doc/architecture.md §9): of the records of an address
-- whose snapshot is not after the one asked for, the one with the latest snapshot, and the
-- first in the log where a key is there more than once.
use bxdb.Base.{ℕ, ◌≤◌, ◌≡◌, ◌≢◌, refl, sym, ap, ◌∙◌, arith, Bool, true, false}
use bxdb.Base.{◌&&◌, Option, none, some, List, [], ◌∷◌, ◌++◌, leb, ltb, ◌==◌, if◌then◌else◌, All}
use bxdb.Base.{Bool-cases, inl, inr}
use bxdb.Chunk.Key.{pa_of, snapshot_of, pa_of-eq, snapshot_of-eq-mod}
use bxdb.Chunk.Record.{ChunkRecord}
use bxdb.Log.Sort.{sort_by_key, insert_by_key, dedup_by_key, dedup_behind, sort_dedup, All-mono}

abbrev pub candidate : ℕ → ℕ → ChunkRecord → Bool
candidate pa s r = pa_of r.key == pa && leb (snapshot_of r.key) s

-- Of two answers the later one, and the first if they are of one snapshot.
unfoldable pub later : Option ChunkRecord → Option ChunkRecord → Option ChunkRecord
later none y = y
later (some x) none = some x
later (some x) (some y) = if ltb (snapshot_of x.key) (snapshot_of y.key) then some y else some x

abbrev pub candidate? : ℕ → ℕ → ChunkRecord → Option ChunkRecord
candidate? pa s r = if candidate pa s r then some r else none

unfoldable pub newest : ℕ → ℕ → List ChunkRecord → Option ChunkRecord
newest pa s [] = none
newest pa s (r ∷ rs) = later (candidate? pa s r) (newest pa s rs)

pub later-none : (x : Option ChunkRecord) → later x none ≡ x
unfolding later
later-none none = refl
later-none (some x) = refl

pub later_assoc : (x y z : Option ChunkRecord) → later (later x y) z ≡ later x (later y z)
unfolding later
later_assoc none y z = refl
later_assoc (some x) none z = refl
later_assoc (some x) (some y) none = ground arith
later_assoc (some x) (some y) (some z) = ground arith

pub newest-append :
    (pa s : ℕ) (xs ys : List ChunkRecord)
    → newest pa s (xs ++ ys) ≡ later (newest pa s xs) (newest pa s ys)
unfolding newest later
newest-append pa s [] ys = refl
newest-append pa s (x ∷ xs) ys =
    ap (later (candidate? pa s x)) (newest-append pa s xs ys)
    ∙ sym (later_assoc (candidate? pa s x) (newest pa s xs) (newest pa s ys))

-- A key is its address and its snapshot id.
key_fields : (k j : ℕ) → pa_of k ≡ pa_of j → snapshot_of k ≡ snapshot_of j → k ≡ j
key_fields k j p s =
    omega (arith, pa_of-eq k, pa_of-eq j, snapshot_of-eq-mod k, snapshot_of-eq-mod j)

-- Two records with different keys may change places.
pub later_swap :
    (pa s : ℕ) (x y : ChunkRecord)
    → x.key ≢ y.key
    → later (candidate? pa s x) (candidate? pa s y) ≡ later (candidate? pa s y) (candidate? pa s x)
unfolding later
later_swap pa s x y h = ground (arith, key_fields x.key y.key)

-- Behind a record a second one with its key does not count.
later_same :
    (pa s : ℕ) (x y : ChunkRecord)
    → y.key ≡ x.key
    → later (candidate? pa s x) (candidate? pa s y) ≡ candidate? pa s x
unfolding later
later_same pa s x y h = ground arith

newest-insert_by_key :
    (pa s : ℕ) (r : ChunkRecord) (xs : List ChunkRecord)
    → newest pa s (insert_by_key r xs) ≡ newest pa s (r ∷ xs)
unfolding newest insert_by_key
newest-insert_by_key pa s r [] = refl
newest-insert_by_key pa s r (x ∷ xs) = elim (Bool-cases (leb r.key x.key)) [
  | inl below ↦ rw below
  | inr above ↦ rw above (
      ap (later (candidate? pa s x)) (newest-insert_by_key pa s r xs)
      ∙ sym (later_assoc (candidate? pa s x) (candidate? pa s r) (newest pa s xs))
      ∙ ap (λ t. later t (newest pa s xs)) (later_swap pa s x r (λ e. ground arith))
      ∙ later_assoc (candidate? pa s r) (candidate? pa s x) (newest pa s xs))
]

pub newest-sort_by_key :
    (pa s : ℕ) (xs : List ChunkRecord) → newest pa s (sort_by_key xs) ≡ newest pa s xs
unfolding sort_by_key newest
newest-sort_by_key pa s [] = refl
newest-sort_by_key pa s (x ∷ xs) =
    newest-insert_by_key pa s x (sort_by_key xs)
    ∙ ap (later (candidate? pa s x)) (newest-sort_by_key pa s xs)

newest-dedup_behind :
    (pa s : ℕ) (r : ChunkRecord) (xs : List ChunkRecord)
    → later (candidate? pa s r) (newest pa s (dedup_behind r.key xs))
      ≡ later (candidate? pa s r) (newest pa s xs)
unfolding newest dedup_behind
newest-dedup_behind pa s r [] = refl
newest-dedup_behind pa s r (x ∷ xs) = elim (Bool-cases (x.key == r.key)) [
  | inl same ↦ rw same (
      newest-dedup_behind pa s r xs
      ∙ ap (λ t. later t (newest pa s xs)) (sym (later_same pa s r x (ground arith)))
      ∙ later_assoc (candidate? pa s r) (candidate? pa s x) (newest pa s xs))
  | inr other ↦ rw other (ap (later (candidate? pa s r)) (newest-dedup_behind pa s x xs))
]

newest-dedup_by_key :
    (pa s : ℕ) (xs : List ChunkRecord) → newest pa s (dedup_by_key xs) ≡ newest pa s xs
unfolding dedup_by_key newest
newest-dedup_by_key pa s [] = refl
newest-dedup_by_key pa s (x ∷ xs) = newest-dedup_behind pa s x xs

-- Sorting a log by key and dropping repeated keys changes no floor query.
pub newest-sort_dedup :
    (pa s : ℕ) (records : List ChunkRecord) → newest pa s (sort_dedup records) ≡ newest pa s records
newest-sort_dedup pa s records =
    newest-dedup_by_key pa s (sort_by_key records) ∙ newest-sort_by_key pa s records

-- The declarative reading: `r` is an answer if it is of the address, not after the snapshot,
-- and no record of the log is a later candidate.
abbrev pub IsBound : ℕ → ℕ → Option ChunkRecord → ChunkRecord → Type 0
IsBound pa s none r = candidate pa s r ≡ false
IsBound pa s (some b) r = candidate pa s r ≡ true → snapshot_of r.key ≤ snapshot_of b.key

IsBound-later :
    (pa s : ℕ) (x r : ChunkRecord) (o : Option ChunkRecord)
    → IsBound pa s o r
    → IsBound pa s (later (candidate? pa s x) o) r
unfolding later
IsBound-later pa s x r none h = ground arith
IsBound-later pa s x r (some b) h = ground arith

IsBound-self :
    (pa s : ℕ) (x : ChunkRecord) (o : Option ChunkRecord)
    → IsBound pa s (later (candidate? pa s x) o) x
unfolding later
IsBound-self pa s x none = ground arith
IsBound-self pa s x (some b) = ground arith

-- No record of the list is a later candidate than the newest one.
pub newest-IsBound :
    (pa s : ℕ) (records : List ChunkRecord) → All (IsBound pa s (newest pa s records)) records
unfolding newest
newest-IsBound pa s [] = tt
newest-IsBound pa s (x ∷ xs) = (
  IsBound-self pa s x (newest pa s xs),
  All-mono (IsBound pa s (newest pa s xs))
      (IsBound pa s (later (candidate? pa s x) (newest pa s xs)))
      (λ r h. IsBound-later pa s x r (newest pa s xs) h) xs (newest-IsBound pa s xs),
)

abbrev pub Holds : (ChunkRecord → Type 0) → Option ChunkRecord → Type 0
Holds P none = Unit {0}
Holds P (some r) = P r

later-Holds :
    (P : ChunkRecord → Type 0) (x y : Option ChunkRecord)
    → Holds P x
    → Holds P y
    → Holds P (later x y)
unfolding later
later-Holds P none y hx hy = hy
later-Holds P (some x) none hx hy = hx
later-Holds P (some x) (some y) hx hy =
    elim (Bool-cases (ltb (snapshot_of x.key) (snapshot_of y.key))) [
      | inl e ↦ rw e hy
      | inr e ↦ rw e hx
    ]

abbrev pub IsCandidate : ℕ → ℕ → ChunkRecord → Type 0
IsCandidate pa s r = (pa_of r.key ≡ pa) × (snapshot_of r.key ≤ s)

IsCandidate-Holds :
    (P : ChunkRecord → Type 0) (pa s : ℕ) (x : ChunkRecord)
    → P x
    → Holds (λ r. P r × IsCandidate pa s r) (candidate? pa s x)
IsCandidate-Holds P pa s x h = elim (Bool-cases (candidate pa s x)) [
  | inl e ↦ rw e (h, ground arith)
  | inr e ↦ rw e tt
]

-- The newest record is a candidate, and it has what every record of the list has.
pub newest-Holds :
    (P : ChunkRecord → Type 0) (pa s : ℕ) (records : List ChunkRecord)
    → All P records
    → Holds (λ r. P r × IsCandidate pa s r) (newest pa s records)
unfolding newest
newest-Holds P pa s [] h = tt
newest-Holds P pa s (x ∷ xs) (hx, hs) =
    later-Holds (λ r. P r × IsCandidate pa s r) (candidate? pa s x) (newest pa s xs)
      (IsCandidate-Holds P pa s x hx) (newest-Holds P pa s xs hs)

-- Where no record is a candidate there is no answer.
pub newest-none :
    (pa s : ℕ) (records : List ChunkRecord)
    → All (λ r. candidate pa s r ≡ false) records
    → newest pa s records ≡ none
unfolding newest
newest-none pa s [] h = refl
newest-none pa s (x ∷ xs) (hx, hs) = rw (hx, newest-none pa s xs hs) (unfold later in refl)
