-- ===== src/Index/Found.antt =====
-- The lookup of the key that a floor query answered with.
use bxdb.Base.{ℕ, ◌≡◌, ◌≢◌, ap, ◌∙◌, arith, Option, none, some, List, [], ◌∷◌, All, inl, inr}
use bxdb.Base.{true, false, Bool-cases, ltb, ◌==◌, ==-refl}
use bxdb.Chunk.Key.{pa_of, snapshot_of}
use bxdb.Chunk.Record.{ChunkRecord}
use bxdb.Log.Newest.{newest, later, candidate, candidate?, Holds, IsCandidate, newest-Holds}
use mathlib.Core.Path.{subst}
use bxdb.Log.Sort.{sort_dedup}
use bxdb.Index.Sorted.{find_key}
use bxdb.Index.Find.{find_key-sort_dedup}

abbrev IsFoundIn : List ChunkRecord → ChunkRecord → Type 0
IsFoundIn records r = find_key r.key records ≡ some r

find_here : (x : ChunkRecord) (xs : List ChunkRecord) → IsFoundIn (x ∷ xs) x
unfolding find_key
find_here x xs = rw (==-refl x.key)

find_behind :
    (x y : ChunkRecord) (xs : List ChunkRecord)
    → x.key ≢ y.key
    → IsFoundIn xs y
    → IsFoundIn (x ∷ xs) y
unfolding find_key
find_behind x y xs ne h = let other : (x.key == y.key) ≡ false = ground arith in rw other h

-- Two answers of one of the records, and of the rest.
later-IsFoundIn :
    (pa s : ℕ) (x : ChunkRecord) (xs : List ChunkRecord) (o : Option ChunkRecord)
    → Holds (λ r. IsFoundIn xs r × IsCandidate pa s r) o
    → Holds (IsFoundIn (x ∷ xs)) (later (candidate? pa s x) o)
unfolding later
later-IsFoundIn pa s x xs none h = elim (Bool-cases (candidate pa s x)) [
  | inl e ↦ rw e (find_here x xs)
  | inr e ↦ rw e tt
]
later-IsFoundIn pa s x xs (some y) (found, (here, before)) = elim (Bool-cases (candidate pa s x)) [
  | inl e ↦ rw e (elim (Bool-cases (ltb (snapshot_of x.key) (snapshot_of y.key))) [
    | inl lt ↦ rw lt (find_behind x y xs (λ same. absurd (differ lt (ap snapshot_of same))) found)
    | inr ge ↦ rw ge (find_here x xs)
  ])
  | inr e ↦
      rw e (
        find_behind x y xs (λ same. absurd (excluded e (ap pa_of same) (ap snapshot_of same)))
          found)
]
  where
    differ :
        ltb (snapshot_of x.key) (snapshot_of y.key) ≡ true → snapshot_of x.key ≢ snapshot_of y.key
    differ lt same = ground arith

    excluded :
        candidate pa s x ≡ false → pa_of x.key ≡ pa_of y.key → snapshot_of x.key ≢ snapshot_of y.key
    excluded e p q = ground arith

Holds-IsCandidate :
    (pa s : ℕ) (P : ChunkRecord → Type 0) (o : Option ChunkRecord)
    → Holds P o
    → Holds (λ r. Unit {0} × IsCandidate pa s r) o
    → Holds (λ r. P r × IsCandidate pa s r) o
Holds-IsCandidate pa s P none h c = tt
Holds-IsCandidate pa s P (some r) h (u, c) = (h, c)

all_Unit : (xs : List ChunkRecord) → All (λ r. Unit {0}) xs
all_Unit [] = tt
all_Unit (x ∷ xs) = (tt, all_Unit xs)

newest-IsFoundIn :
    (pa s : ℕ) (records : List ChunkRecord) → Holds (IsFoundIn records) (newest pa s records)
unfolding newest
newest-IsFoundIn pa s [] = tt
newest-IsFoundIn pa s (x ∷ xs) = later-IsFoundIn pa s x xs (newest pa s xs) (
    Holds-IsCandidate pa s (IsFoundIn xs) (newest pa s xs) (newest-IsFoundIn pa s xs)
      (newest-Holds (λ r. Unit {0}) pa s xs (all_Unit xs)))

-- The index finds the record that a floor query answered with under its key.
pub find_key-newest :
    (pa s : ℕ) (records : List ChunkRecord) (rec : ChunkRecord)
    → newest pa s records ≡ some rec
    → find_key rec.key (sort_dedup records) ≡ some rec
find_key-newest pa s records rec h =
    find_key-sort_dedup rec.key records
    ∙ subst (Holds (IsFoundIn records)) h (newest-IsFoundIn pa s records)
