-- ===== src/Log/Groups.antt =====
-- The records of a log that is written anew, grouped by their snapshots (bxdb-core/src/convert.rs
-- and bxdb-core/src/purge.rs).
use bxdb.Base.{ℕ, ◌≡◌, ◌≢◌, refl, sym, ap, ◌∙◌, arith, List, [], ◌∷◌, All, inl, inr}
use bxdb.Base.{Bool-cases, leb, if◌then◌else◌, false}
use bxdb.Chunk.Key.{snapshot_of}
use bxdb.Chunk.Record.{ChunkRecord}
use bxdb.Log.Newest.{newest, later, later_assoc, later_swap, candidate?}

-- The groups of the snapshots in ascending order, each in the order of the records.
unfoldable pub insert_by_snapshot : ChunkRecord → List ChunkRecord → List ChunkRecord
insert_by_snapshot r [] = r ∷ []
insert_by_snapshot r (x ∷ xs) =
    if leb (snapshot_of r.key) (snapshot_of x.key) then r ∷ x ∷ xs else x ∷ insert_by_snapshot r xs

unfoldable pub by_snapshot : List ChunkRecord → List ChunkRecord
by_snapshot [] = []
by_snapshot (r ∷ rs) = insert_by_snapshot r (by_snapshot rs)

insert_by_snapshot-All :
    (P : ChunkRecord → Type 0) (r : ChunkRecord) (xs : List ChunkRecord)
    → P r
    → All P xs
    → All P (insert_by_snapshot r xs)
unfolding insert_by_snapshot
insert_by_snapshot-All P r [] h hs = (h, tt)
insert_by_snapshot-All P r (x ∷ xs) h (hx, hs) =
    elim (Bool-cases (leb (snapshot_of r.key) (snapshot_of x.key))) [
      | inl below ↦ rw below (h, (hx, hs))
      | inr above ↦ rw above (hx, insert_by_snapshot-All P r xs h hs)
    ]

pub by_snapshot-All :
    (P : ChunkRecord → Type 0) (xs : List ChunkRecord) → All P xs → All P (by_snapshot xs)
unfolding by_snapshot
by_snapshot-All P [] h = tt
by_snapshot-All P (x ∷ xs) (hx, hs) =
    insert_by_snapshot-All P x (by_snapshot xs) hx (by_snapshot-All P xs hs)

-- Records of different snapshots have different keys.
pub keys_differ :
    (x r : ChunkRecord) → leb (snapshot_of r.key) (snapshot_of x.key) ≡ false → x.key ≢ r.key
keys_differ x r above same =
    let same_snapshot : snapshot_of x.key ≡ snapshot_of r.key = ap snapshot_of same in ground arith

newest-insert_by_snapshot :
    (pa s : ℕ) (r : ChunkRecord) (xs : List ChunkRecord)
    → newest pa s (insert_by_snapshot r xs) ≡ newest pa s (r ∷ xs)
unfolding newest insert_by_snapshot
newest-insert_by_snapshot pa s r [] = refl
newest-insert_by_snapshot pa s r (x ∷ xs) =
    elim (Bool-cases (leb (snapshot_of r.key) (snapshot_of x.key))) [
      | inl below ↦ rw below
      | inr above ↦ rw above (
          ap (later (candidate? pa s x)) (newest-insert_by_snapshot pa s r xs)
          ∙ sym (later_assoc (candidate? pa s x) (candidate? pa s r) (newest pa s xs))
          ∙ ap (λ o. later o (newest pa s xs)) (later_swap pa s x r (keys_differ x r above))
          ∙ later_assoc (candidate? pa s r) (candidate? pa s x) (newest pa s xs))
    ]

pub newest-by_snapshot :
    (pa s : ℕ) (xs : List ChunkRecord) → newest pa s (by_snapshot xs) ≡ newest pa s xs
unfolding by_snapshot newest
newest-by_snapshot pa s [] = refl
newest-by_snapshot pa s (x ∷ xs) =
    newest-insert_by_snapshot pa s x (by_snapshot xs)
    ∙ ap (later (candidate? pa s x)) (newest-by_snapshot pa s xs)
