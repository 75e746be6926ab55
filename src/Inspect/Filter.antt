-- ===== src/Inspect/Filter.antt =====
-- The rows that a filter leaves.
use bxdb.Base.{
  ℕ, suc, ◌+◌, ◌≡◌, refl, ap, ap₂, ◌∙◌, arith, Option, some, List, [], ◌∷◌, map, inl, inr, ◌⊎◌,
  none,
}
use bxdb.Base.{true, false, Bool-cases, ◌==◌, ==_iff, get_elem?, All}
use bxdb.Chunk.Key.{pa_of, snapshot_of}
use bxdb.Chunk.Record.{ChunkRecord}
use bxdb.Inspect.Defs.{is_wanted, matches, filter_from, App, apply_filter}

-- A part of a filter that is given is the value that is looked for.
abbrev pub Meets : Option ℕ → ℕ → Type 0
Meets none n = Unit {0}
Meets (some m) n = n ≡ m

-- What a filter looks for: records of its snapshot and of its address.
abbrev pub IsWanted : Option ℕ → Option ℕ → ChunkRecord → Type 0
IsWanted snap pa r = Meets snap (snapshot_of r.key) × Meets pa (pa_of r.key)

-- `rows` are the records of a list that are wanted, all of them and in their order.
pub data IsFiltered (snap pa : Option ℕ) : List ChunkRecord → List ChunkRecord → Type 0 where
  nothing : IsFiltered snap pa [] []
  kept :
      {r : ChunkRecord} {records rows : List ChunkRecord}
      → IsWanted snap pa r
      → IsFiltered snap pa records rows
      → IsFiltered snap pa (r ∷ records) (r ∷ rows)
  passed :
      {r : ChunkRecord} {records rows : List ChunkRecord}
      → (IsWanted snap pa r → ⊥)
      → IsFiltered snap pa records rows
      → IsFiltered snap pa (r ∷ records) rows

-- The record at an index is one that the filter looks for.
abbrev pub IsMatch : List ChunkRecord → Option ℕ → Option ℕ → ℕ → Type 0
IsMatch records snap pa i = (r : ChunkRecord) × (get_elem? records i ≡ some r) × IsWanted snap pa r

is_wanted-Meets :
    (part : Option ℕ) (n : ℕ)
    → (is_wanted part n ≡ true) × Meets part n ⊎ (is_wanted part n ≡ false) × (Meets part n → ⊥)
is_wanted-Meets none n = inl (refl, tt)
is_wanted-Meets (some m) n = elim (Bool-cases (n == m)) [
  | inl e ↦ inl (e, (==_iff n m).0 e)
  | inr e ↦ inr (e, λ same. ground arith)
]

matches-IsWanted :
    (snap pa : Option ℕ) (r : ChunkRecord)
    → (matches snap pa r ≡ true) × IsWanted snap pa r
      ⊎ (matches snap pa r ≡ false) × (IsWanted snap pa r → ⊥)
matches-IsWanted snap pa r = elim (is_wanted-Meets snap (snapshot_of r.key)) [
  | inr (e, out) ↦ inr (rw e refl, λ h. out h.0)
  | inl (e, meets) ↦ elim (is_wanted-Meets pa (pa_of r.key)) [
    | inr (e', out) ↦ inr (rw (e, e') refl, λ h. out h.1)
    | inl (e', meets') ↦ inl (rw (e, e') refl, (meets, meets'))
  ]
]

-- `rest` is what is left of `records` from index `i` on.
filter_from-IsFiltered :
    (records : List ChunkRecord) (snap pa : Option ℕ) (i : ℕ) (rest : List ChunkRecord)
    → ((k : ℕ) → get_elem? records (i + k) ≡ get_elem? rest k)
    → (rows : List ChunkRecord) × IsFiltered snap pa rest rows
      × (map (get_elem? records) (filter_from i snap pa rest) ≡ map some rows)
      × All (IsMatch records snap pa) (filter_from i snap pa rest)
unfolding filter_from
filter_from-IsFiltered records snap pa i [] at = ([], nothing, refl, tt)
filter_from-IsFiltered records snap pa i (r ∷ rest) at =
    let here : get_elem? records i ≡ some r =
      ap (get_elem? records) {x = i} {y = i + 0} (omega arith) ∙ at 0 in
    let (rows, is_filtered, same, all) =
      filter_from-IsFiltered records snap pa (suc i) rest
        (λ k. ap (get_elem? records) {x = suc i + k} {y = i + suc k} (omega arith) ∙ at (suc k)) in
    elim (matches-IsWanted snap pa r) [
      | inl (e, wanted) ↦ (
        r ∷ rows,
        kept wanted is_filtered,
        rw e (ap₂ (λ x xs. x ∷ xs) here same),
        rw e ((r, here, wanted), all),
      )
      | inr (e, other) ↦ (rows, passed other is_filtered, rw e same, rw e all)
    ]

filtered :
    (records : List ChunkRecord) (snap pa : Option ℕ)
    → (rows : List ChunkRecord) × IsFiltered snap pa records rows
      × (map (get_elem? records) (filter_from 0 snap pa records) ≡ map some rows)
      × All (IsMatch records snap pa) (filter_from 0 snap pa records)
filtered records snap pa =
    filter_from-IsFiltered records snap pa 0 records
      (λ k. ap (get_elem? records) {x = 0 + k} {y = k} (omega arith))

pub apply_filter-IsMatch :
    (records : List ChunkRecord) (snap pa : Option ℕ)
    → All (IsMatch records snap pa) (filter_from 0 snap pa records)
apply_filter-IsMatch records snap pa =
    let (rows, is_filtered, same, all) = filtered records snap pa in all

-- The rows of a filter are the records whose snapshot and address are those of the filter, all of
-- them and in their order; a part that is not given is met by every record.
pub apply_filter-IsFiltered :
    (app : App) (snap pa : Option ℕ)
    → (indices : List ℕ) × (rows : List ChunkRecord) × ((apply_filter app snap pa).filtered_indices
        ≡ some indices)
      × (map (get_elem? app.records) indices ≡ map some rows)
      × IsFiltered snap pa app.records rows
unfolding apply_filter
apply_filter-IsFiltered app snap pa =
    let (rows, is_filtered, same, all) = filtered app.records snap pa in
    (filter_from 0 snap pa app.records, rows, refl, same, is_filtered)
