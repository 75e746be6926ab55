-- ===== src/Write/Save/Promise.antt =====
-- What a save promises of the reads after it.
use bxdb.Base.{ℕ, ◌^◌, ◌<◌, ◌≡◌, refl, sym, ap, ◌∙◌, arith, Option, none, some, ◌⊎◌, inl, inr}
use bxdb.Base.{List, [], ◌∷◌, ◌++◌, Result, ok, All, true, Bool-cases, ◌==◌, ==_iff}
use bxdb.Chunk.Record.{ChunkRecord, ChunkKind, full, delta, zero_page, is_full}
use bxdb.Index.Find.{find_key-sort_dedup, find_key-append}
use bxdb.Store.{Dir, BlobReaders, resolve_uncached, decompress_blob_into, resolve_kind}
use bxdb.Store.Zstd.{Zstd}
use bxdb.Convert.Reads.{read_page, spec_page, read_page-log, ok-injective}
use mathlib.Core.Path.{subst}
use bxdb.Write.Pass.{page_at}
use bxdb.Write.Pass.Readers.{NotIn}
use bxdb.Write.Save.{AppendOnlyDb}
use bxdb.Write.Save.State.{disk, dir_of, lookup_in, IsDb}

pub All-append :
    (P : ChunkRecord → Type 0) (xs ys : List ChunkRecord) → All P xs → All P ys → All P (xs ++ ys)
All-append P [] ys hx hy = hy
All-append P (x ∷ xs) ys (h, hs) hy = (h, All-append P xs ys hs hy)

pub All-or-NotIn : (P : ℕ → Type 0) (xs : List ℕ) (q : ℕ) → All P xs → NotIn q xs ⊎ P q
All-or-NotIn P [] q h = inl tt
All-or-NotIn P (x ∷ xs) q (h, hs) = elim (Bool-cases (x == q)) [
  | inl e ↦ inr (subst P ((==_iff x q).0 e) h)
  | inr e ↦ elim (All-or-NotIn P xs q hs) [
    | inl out ↦ inl (λ same. ground arith, out)
    | inr p ↦ inr p
  ]
]

pub All-both : (P Q : ℕ → Type 0) (xs : List ℕ) → All P xs → All Q xs → All (λ x. P x × Q x) xs
All-both P Q [] p q = tt
All-both P Q (x ∷ xs) (p, ps) (q, qs) = ((p, q), All-both P Q xs ps qs)

pub resolve-full :
    (z : Zstd) (blobs : BlobReaders) (lookup : ℕ → Result (Option ChunkRecord)) (rec : ChunkRecord)
    → is_full rec.kind ≡ true
    → resolve_uncached z blobs lookup rec ≡ decompress_blob_into z blobs rec
unfolding resolve_uncached
resolve-full z blobs lookup rec h = by_kind rec.kind h
  where
    by_kind :
        (k : ChunkKind)
        → is_full k ≡ true
        → resolve_kind z blobs lookup k rec ≡ decompress_blob_into z blobs rec
    by_kind full h = refl
    by_kind delta h = cc
    by_kind zero_page h = cc

pub lookup_in-append :
    (old new : List ChunkRecord) (key : ℕ) (b : ChunkRecord)
    → lookup_in old key ≡ ok (some b)
    → lookup_in (old ++ new) key ≡ ok (some b)
lookup_in-append old new key b h = ap ok (
    find_key-sort_dedup key (old ++ new)
    ∙ find_key-append key old new b (sym (find_key-sort_dedup key old) ∙ ok-injective h))

-- What a save does with a database: it returns; the database is again one over its records and
-- the new ones; every page that was saved is read at its snapshot; what was read at an earlier
-- snapshot, and at any snapshot of an address that was not saved, is read as before. All reads are
-- of the directory `dir_at` that is on disk for a state of the database.
pub record IsSave (z : Zstd) (others : BlobReaders) (dir_at : AppendOnlyDb → Dir)
    (records : List ChunkRecord) (pas : List ℕ) (memory : List ℕ) (s : ℕ) (db : AppendOnlyDb)
    (result : AppendOnlyDb × Result (Unit {0})) : Type 0 where
  pub after : AppendOnlyDb
  pub new : List ChunkRecord
  pub returns : result ≡ (after, ok tt)
  pub is_db : IsDb z others (records ++ new) after
  pub saved : All (λ pa. read_page z (dir_at after) pa s ≡ ok (some (page_at memory pa))) pas
  pub earlier_kept :
      (pa s' : ℕ) (page : Option (List ℕ))
      → pa < 2 ^ 45
      → s' < s
      → read_page z (dir_at db) pa s' ≡ ok page
      → read_page z (dir_at after) pa s' ≡ ok page
  pub untouched_kept :
      (pa s' : ℕ) (page : Option (List ℕ))
      → pa < 2 ^ 45
      → s' < 2 ^ 19
      → NotIn pa pas
      → read_page z (dir_at db) pa s' ≡ ok page
      → read_page z (dir_at after) pa s' ≡ ok page

-- A database's pages are read by the specification over its records.
pub read_page-IsDb :
    (z : Zstd) (others : BlobReaders) (records : List ChunkRecord) (db : AppendOnlyDb) (pa s : ℕ)
    → IsDb z others records db
    → pa < 2 ^ 45
    → s < 2 ^ 19
    → read_page z (dir_of others db) pa s ≡ spec_page z (disk others db) records pa s
read_page-IsDb z others records db pa s h fits s_fits =
    ap (λ log. read_page z (record { index = none; log = some log; blobs = disk others db }) pa s)
      h.log_is
    ∙ read_page-log z (disk others db) records h.valid h.max_snap h.max_fits [] (omega arith) pa s
        fits s_fits
