-- ===== src/Convert/Found.antt =====
-- The answer of a bulk load (bxdb-core/src/append_only.rs): whether each page has a record.
use bxdb.Base.{
  ℕ, zero, suc, ◌+◌, ◌≡◌, refl, sym, ap, ap₂, ◌∙◌, Option, none, some, List, ◌∷◌, Bool, true, false,
  ◌&&◌,
}
use bxdb.Base.{Result, ok, err, panic, ◌>>=◌, arith}
use bxdb.Chunk.Record.{ChunkRecord}
use bxdb.Log.Newest.{newest}
use bxdb.Store.{BlobReaders, resolve_found}
use bxdb.Store.Zstd.{Zstd}
use bxdb.Store.Runs.{load_run}
use bxdb.Store.Bulk.{all_found, with_success}
use bxdb.Convert.Reads.{spec_page, ok-injective}

abbrev pub is_some {ℓ} : {A : Type ℓ} → Option A → Bool
is_some none = false
is_some (some a) = true

-- Whether each of `n` addresses from `pa` on has a record of snapshot `s` or an earlier one.
unfoldable pub have_records : List ChunkRecord → ℕ → ℕ → ℕ → Bool
have_records records pa zero s = true
have_records records pa (suc n) s =
    is_some (newest pa s records) && have_records records (suc pa) n s

all_found-cons :
    (o : Option (List ℕ)) (pages : List (Option (List ℕ)))
    → all_found (o ∷ pages) ≡ (is_some o && all_found pages)
unfolding all_found
all_found-cons none pages = refl
all_found-cons (some page) pages = refl

-- The first page of a run and the rest of it.
found-cons :
    (r : Result (Option (List ℕ))) (rest : Result (List (Option (List ℕ)))) (b bs : Bool)
    → ((o : Option (List ℕ)) → r ≡ ok o → is_some o ≡ b)
    → ((pages : List (Option (List ℕ))) → rest ≡ ok pages → all_found pages ≡ bs)
    → (pages : List (Option (List ℕ)))
    → (r >>= (λ page. rest >>= (λ pages. ok (page ∷ pages)))) ≡ ok pages
    → all_found pages ≡ (b && bs)
found-cons panic rest b bs h hs pages e = cc
found-cons (err x) rest b bs h hs pages e = cc
found-cons (ok o) panic b bs h hs pages e = cc
found-cons (ok o) (err x) b bs h hs pages e = cc
found-cons (ok o) (ok ps) b bs h hs pages e =
    ap all_found (sym (ok-injective e))
    ∙ all_found-cons o ps
    ∙ ap₂ (λ x y. x && y) (h o refl) (hs ps refl)

resolve_found-is_some :
    (resolve : ChunkRecord → Result (List ℕ)) (found : Option ChunkRecord) (o : Option (List ℕ))
    → resolve_found resolve found ≡ ok o
    → is_some o ≡ is_some found
resolve_found-is_some resolve none o e = ap is_some (sym (ok-injective e))
resolve_found-is_some resolve (some rec) o e = by_page (resolve rec) e
  where
    by_page : (r : Result (List ℕ)) → (r >>= (λ page. ok (some page))) ≡ ok o → is_some o ≡ true
    by_page panic h = cc
    by_page (err x) h = cc
    by_page (ok page) h = ap is_some (sym (ok-injective h))

answer :
    (r : Result (List (Option (List ℕ)))) (b : Bool)
    → ((pages : List (Option (List ℕ))) → r ≡ ok pages → all_found pages ≡ b)
    → with_success r ≡ (r >>= (λ pages. ok (pages, b)))
answer panic b h = refl
answer (err x) b h = refl
answer (ok pages) b h = ap (λ found. ok (pages, found)) (h pages refl)

module _ (z : Zstd) (blobs : BlobReaders) (records : List ChunkRecord) (pa_offset s : ℕ) where
  abbrev load : ℕ → Result (Option (List ℕ))
  load i = spec_page z blobs records (pa_offset + i) s

  all_found-have_records :
      (i n pa : ℕ) (pages : List (Option (List ℕ)))
      → pa ≡ pa_offset + i
      → load_run load i n ≡ ok pages
      → all_found pages ≡ have_records records pa n s
  unfolding load_run have_records all_found spec_page
  all_found-have_records i zero pa pages at e = ap all_found (sym (ok-injective e))
  all_found-have_records i (suc n) pa pages at e =
      found-cons (load i) (load_run load (suc i) n) (is_some (newest pa s records))
        (have_records records (suc pa) n s) first
        (λ ps. all_found-have_records (suc i) n (suc pa) ps (omega arith)) pages e
    where
      first : (o : Option (List ℕ)) → load i ≡ ok o → is_some o ≡ is_some (newest pa s records)
      first o e =
          resolve_found-is_some _ (newest (pa_offset + i) s records) o e
          ∙ ap (λ a. is_some (newest a s records)) (sym at)

  -- The flag of a run of pages is whether each of their addresses has a record.
  pub with_success-have_records :
      (total : ℕ)
      → with_success (load_run load 0 total)
        ≡ (load_run load 0 total >>= (λ pages. ok (pages, have_records records pa_offset total s)))
  with_success-have_records total =
      answer (load_run load 0 total) (have_records records pa_offset total s)
        (λ pages e. all_found-have_records 0 total pa_offset pages (omega arith) e)
