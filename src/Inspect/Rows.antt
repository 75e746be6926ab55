-- ===== src/Inspect/Rows.antt =====
-- The record of a row, and the detail of a record.
use bxdb.Base.{
  ℕ, zero, suc, ◌+◌, ◌<◌, ◌≡◌, refl, arith, Option, none, some, List, [], ◌∷◌, inl, inr,
}
use bxdb.Base.{Bool-cases, ok, ◌>>=◌, get_elem?, length, All, some-injective, leb, ◌==◌, ◌||◌}
use bxdb.Chunk.Record.{ChunkRecord, ChunkKind, full, delta, zero_page}
use bxdb.Store.{BlobReaders}
use bxdb.Inspect.Defs.{
  Detail, active_of, first_of, real_of, index_of_list, read_blob, shown, detail_by_kind, detail_of,
}
use mathlib.Core.Path.{subst}
use bxdb.Inspect.Filter.{IsMatch}

elem_inside :
    {A : Type 0} (xs : List A) (i : ℕ) → i < length xs → (a : A) × (get_elem? xs i ≡ some a)
elem_inside [] i h = absurd (omega arith)
elem_inside (x ∷ xs) zero h = (x, refl)
elem_inside (x ∷ xs) (suc i) h = elem_inside xs i (omega arith)

All-get_elem? :
    {A : Type 0} (P : A → Type 0) (xs : List A) (i : ℕ) (a : A)
    → All P xs
    → get_elem? xs i ≡ some a
    → P a
All-get_elem? P [] i a h at = cc
All-get_elem? P (x ∷ xs) zero a (h, hs) at = subst P (some-injective at) h
All-get_elem? P (x ∷ xs) (suc i) a (h, hs) at = All-get_elem? P xs i a hs at

-- A row of the list is a record, if the filter's indices are.
pub record_of_row :
    (records : List ChunkRecord) (snap pa : Option ℕ) (filtered : Option (List ℕ)) (i : ℕ)
    → ((indices : List ℕ) → filtered ≡ some indices → All (IsMatch records snap pa) indices)
    → i < active_of records filtered
    → (r : ChunkRecord) × ((real_of filtered i >>= (λ j. index_of_list (get_elem? records j)))
        ≡ ok r)
record_of_row records snap pa none i rows h =
    let (r, at) = elem_inside records i h in (r, rw at refl)
record_of_row records snap pa (some indices) i rows h =
    let (j, at) = elem_inside indices i h in
    let (r, there, wanted) =
      All-get_elem? (IsMatch records snap pa) indices i j (rows indices refl) at in
    (r, rw (at, there) refl)

pub first_of-inside : (n i : ℕ) → first_of n ≡ some i → i < n
first_of-inside zero i h = cc
first_of-inside (suc n) i h = let zero_is : 0 ≡ i = some-injective h in omega arith

pub first_of-none : (n : ℕ) → first_of n ≡ none → n ≡ 0
first_of-none zero h = refl
first_of-none (suc n) h = cc

module _ (decode_all : List ℕ → Option (List ℕ)) (blobs : BlobReaders) where
  -- A detail is shown for every record, if only that its blob cannot be read.
  pub detail_of_total : (r : ChunkRecord) → (d : Detail) × (detail_of decode_all blobs r ≡ ok d)
  unfolding detail_of read_blob
  detail_of_total r = by_kind r.kind
    where
      by_file :
          (show : List ℕ → Detail) (o : Option (List ℕ))
          → blobs r.worker_id ≡ o
          → (d : Detail) × (shown show (read_blob blobs r) ≡ ok d)
      by_file show none e = rw (e, shown) (_, refl)
      by_file show (some bytes) e =
          elim (Bool-cases (r.len == 0 || leb (r.offset + r.len) (length bytes))) [
            | inl fits ↦ rw (e, fits, shown) (_, refl)
            | inr short ↦ rw (e, short, shown) (_, refl)
          ]

      by_kind : (k : ChunkKind) → (d : Detail) × (detail_by_kind decode_all blobs k r ≡ ok d)
      by_kind zero_page = (_, refl)
      by_kind full = by_file _ (blobs r.worker_id) refl
      by_kind delta = by_file _ (blobs r.worker_id) refl
