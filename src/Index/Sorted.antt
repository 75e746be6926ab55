-- ===== src/Index/Sorted.antt =====
-- Lookups in an ascending list of records: the reference that both kinds of index are held to.
use bxdb.Base.{ℕ, zero, suc, ◌^◌, ◌≤◌, ◌<◌, ◌≡◌, refl, sym, ap, ◌∙◌, arith}
use bxdb.Base.{Option, none, some, List, [], ◌∷◌, true, false, leb, ◌==◌, ==_iff, if◌then◌else◌}
use bxdb.Base.{Bool-cases, inl, inr, length, get_elem?, get_or, All, leb→le, le→leb}
use bxdb.Chunk.Key.{encode_key, encode_key-eq, pa_of-eq, snapshot_of-eq-mod}
use bxdb.Chunk.Record.{ChunkRecord}
use bxdb.Log.Sort.{IsStrict, All-mono}
use bxdb.Log.Newest.{newest, candidate, candidate?, later, newest-none, Holds}
use bxdb.Index.Defs.{of_pa, before, keys_of, partition_point_le}
use bxdb.Index.Defs.{floor_sorted}
use bxdb.Index.Search.{Splits}

-- The last record before the first key above `key`.
abbrev or_first : Option ChunkRecord → ChunkRecord → Option ChunkRecord
or_first none r = some r
or_first (some x) r = some x

unfoldable pub last_le : ℕ → List ChunkRecord → Option ChunkRecord
last_le key [] = none
last_le key (r ∷ rs) = if leb r.key key then or_first (last_le key rs) r else none

-- The first record with the key.
unfoldable pub find_key : ℕ → List ChunkRecord → Option ChunkRecord
find_key key [] = none
find_key key (r ∷ rs) = if r.key == key then some r else find_key key rs

-- The key at an index.
abbrev pub key_or : List ChunkRecord → ℕ → ℕ
key_or records i = get_or (keys_of records) i 0

get_elem?_inside :
    (rs : List ChunkRecord) (i : ℕ) → i < length rs → (r : ChunkRecord) × (get_elem? rs i ≡ some r)
get_elem?_inside [] i h = absurd (omega arith)
get_elem?_inside (r ∷ rs) zero h = (r, refl)
get_elem?_inside (r ∷ rs) (suc i) h = get_elem?_inside rs i (omega arith)

-- One more record in front of a list whose last candidate is known.
before_cons :
    (r : ChunkRecord) (rs : List ChunkRecord) (q : ℕ) (o : Option ChunkRecord)
    → q ≤ length rs
    → before q (get_elem? rs) ≡ o
    → get_elem? (r ∷ rs) q ≡ or_first o r
before_cons r rs zero none h e = refl
before_cons r rs zero (some x) h e = cc
before_cons r rs (suc q) none h e = let (x, found) = get_elem?_inside rs q h in cc (found, e)
before_cons r rs (suc q) (some x) h e = e

pub before-Splits :
    (rs : List ChunkRecord) (key p : ℕ)
    → Splits (key_or rs) (length rs) key p
    → before p (get_elem? rs) ≡ last_le key rs
unfolding last_le
before-Splits [] key zero s = refl
before-Splits [] key (suc p) s = absurd (omega arith)
before-Splits (r ∷ rs) key zero s =
    let above : leb r.key key ≡ false = ground (arith, s.high 0) in rw above
before-Splits (r ∷ rs) key (suc p) s = rw (le→leb r.key key (s.low 0 (omega arith))) (
    before_cons r rs p (last_le key rs) (omega (arith, s.inside)) (
      before-Splits rs key p (record {
        inside = omega (arith, s.inside);
        low = λ i h. s.low (suc i) (omega arith);
        high = λ i h k. s.high (suc i) (omega arith) (omega arith);
      })))

partition_point_le-le :
    (rs : List ChunkRecord) (key : ℕ) → partition_point_le (keys_of rs) key ≤ length rs
unfolding partition_point_le
partition_point_le-le [] key = omega arith
partition_point_le-le (r ∷ rs) key = ground (arith, partition_point_le-le rs key)

before-partition_point_le :
    (rs : List ChunkRecord) (key : ℕ)
    → before (partition_point_le (keys_of rs) key) (get_elem? rs) ≡ last_le key rs
unfolding last_le partition_point_le
before-partition_point_le [] key = refl
before-partition_point_le (r ∷ rs) key = elim (Bool-cases (leb r.key key)) [
  | inl e ↦ rw e (
      before_cons r rs (partition_point_le (keys_of rs) key) (last_le key rs)
        (partition_point_le-le rs key) (before-partition_point_le rs key))
  | inr e ↦ rw e
]

or_first-Holds :
    (P : ChunkRecord → Type 0) (o : Option ChunkRecord) (r : ChunkRecord)
    → P r
    → Holds P o
    → Holds P (or_first o r)
or_first-Holds P none r h ho = h
or_first-Holds P (some x) r h ho = ho

-- The last record is not above the key, and it keeps a lower bound of the keys.
last_le-Holds :
    (k key : ℕ) (rs : List ChunkRecord)
    → All (λ y. k < y.key) rs
    → Holds (λ x. (k < x.key) × (x.key ≤ key)) (last_le key rs)
unfolding last_le
last_le-Holds k key [] h = tt
last_le-Holds k key (r ∷ rs) (hr, hs) = elim (Bool-cases (leb r.key key)) [
  | inl e ↦ rw e (
      or_first-Holds (λ x. (k < x.key) × (x.key ≤ key)) (last_le key rs) r (hr, leb→le r.key key e)
        (last_le-Holds k key rs hs))
  | inr e ↦ rw e tt
]

-- The floor query on an ascending list is the newest record of the address.
module _ (pa s : ℕ) (pa_fits : pa < 2 ^ 45) (s_fits : s < 2 ^ 19) where
  candidate-le : (r : ChunkRecord) → candidate pa s r ≡ true → r.key ≤ encode_key pa s
  candidate-le r h = ground (arith, encode_key-eq pa s, pa_of-eq r.key, snapshot_of-eq-mod r.key)

  not-candidate : (r : ChunkRecord) → encode_key pa s < r.key → candidate pa s r ≡ false
  not-candidate r h = elim (Bool-cases (candidate pa s r)) [
    | inl yes' ↦ absurd (omega (arith, candidate-le r yes'))
    | inr no' ↦ no'
  ]

  floor_step :
      (r : ChunkRecord) (o : Option ChunkRecord)
      → r.key ≤ encode_key pa s
      → Holds (λ x. (r.key < x.key) × (x.key ≤ encode_key pa s)) o
      → of_pa pa (or_first o r) ≡ later (candidate? pa s r) (of_pa pa o)
  unfolding later
  floor_step r none h ho =
      ground (arith, encode_key-eq pa s, pa_of-eq r.key, snapshot_of-eq-mod r.key)
  floor_step r (some x) h ho = ground (
    arith,
    encode_key-eq pa s,
    pa_of-eq r.key,
    snapshot_of-eq-mod r.key,
    pa_of-eq x.key,
    snapshot_of-eq-mod x.key,
  )

  pub of_pa-last_le :
      (rs : List ChunkRecord)
      → IsStrict rs
      → of_pa pa (last_le (encode_key pa s) rs) ≡ newest pa s rs
  unfolding last_le newest
  of_pa-last_le [] h = refl
  of_pa-last_le (r ∷ rs) (hr, hs) = elim (Bool-cases (leb r.key (encode_key pa s))) [
    | inl e ↦ rw e (
        floor_step r (last_le (encode_key pa s) rs) (leb→le r.key (encode_key pa s) e)
          (last_le-Holds r.key (encode_key pa s) rs hr)
        ∙ ap (later (candidate? pa s r)) (of_pa-last_le rs hs))
    | inr e ↦
        let above : encode_key pa s < r.key = ground arith in
        rw e (
          sym (
            newest-none pa s (r ∷ rs) (
              not-candidate r above,
              All-mono (λ y. r.key < y.key) (λ y. candidate pa s y ≡ false)
                  (λ y k. not-candidate y (omega arith)) rs hr,
            )))
  ]

  -- The lookup in the in-memory index that is built from a log.
  pub floor_sorted-newest :
      (rs : List ChunkRecord)
      → IsStrict rs
      → floor_sorted (keys_of rs) rs (encode_key pa s) pa ≡ newest pa s rs
  unfolding floor_sorted
  floor_sorted-newest rs h =
      ap (of_pa pa) (before-partition_point_le rs (encode_key pa s)) ∙ of_pa-last_le rs h

-- What every record has, the record found has, and it has the key.
pub find_key-Holds :
    (P : ChunkRecord → Type 0) (key : ℕ) (rs : List ChunkRecord)
    → All P rs
    → Holds (λ r. P r × (r.key ≡ key)) (find_key key rs)
unfolding find_key
find_key-Holds P key [] h = tt
find_key-Holds P key (r ∷ rs) (hr, hs) = elim (Bool-cases (r.key == key)) [
  | inl e ↦ rw e (hr, (==_iff r.key key).0 e)
  | inr e ↦ rw e (find_key-Holds P key rs hs)
]
