-- ===== src/Write/Pass/Readers.antt =====
-- The blob files of a run as they grow.
use bxdb.Base.{ℕ, ◌<◌, ◌≡◌, ◌≢◌, sym, ap, ◌∙◌, arith, Option, none, some}
use bxdb.Base.{List, [], ◌∷◌, ◌++◌, append-nil, append_assoc, Result, All, true, false}
use bxdb.Base.{Bool-cases, inl, inr, ◌==◌, ==_iff, ==-refl, ltb, lt→ltb, if◌then◌else◌}
use bxdb.Base.{some-injective}
use bxdb.Chunk.Record.{ChunkRecord}
use bxdb.Store.{BlobReaders}
use bxdb.Store.Zstd.{Zstd}
use bxdb.Store.Blobs.{Grows, decompress-Grows}
use bxdb.Write.Shadow.{ShadowEntry}
use bxdb.Write.Defs.{BlobFile}
use bxdb.Write.Saved.{EntryIsBase, readers_after}
use bxdb.Write.Pass.{update}
use mathlib.Core.Path.{fun_ext}

-- The blob files that are read after a flush: those of this session, and those with greater ids.
abbrev pub readers : BlobReaders → ℕ → (ℕ → BlobFile) → BlobReaders
readers others blob_count files i = if ltb i blob_count then some (files i).written else others i

abbrev pub NotIn : ℕ → List ℕ → Type 0
NotIn q order = All (λ x. x ≢ q) order

abbrev pub IsDistinct : List ℕ → Type 0
IsDistinct [] = Unit {0}
IsDistinct (x ∷ xs) = NotIn x xs × IsDistinct xs

pub Grows-trans : (a b c : BlobReaders) → Grows a b → Grows b c → Grows a c
Grows-trans a b c g h i bytes e =
    let (more, e₁) = g i bytes e in
    let (rest, e₂) = h i (bytes ++ more) e₁ in
    (more ++ rest, e₂ ∙ ap some (append_assoc bytes more rest))

pub EntryIsBase-Grows :
    (z : Zstd) (old new : BlobReaders) (lookup : ℕ → Result (Option ChunkRecord))
    (entry : Option ShadowEntry)
    → Grows old new
    → EntryIsBase z old lookup entry
    → EntryIsBase z new lookup entry
EntryIsBase-Grows z old new lookup none grows h = tt
EntryIsBase-Grows z old new lookup (some (base_key, base_page)) grows h = record {
  base_rec = h.base_rec;
  found = h.found;
  base_key_fits = h.base_key_fits;
  is_base_full = h.is_base_full;
  decompresses = decompress-Grows z old new grows h.base_rec base_page h.decompresses;
  base_is_page = h.base_is_page;
}

pub readers-update :
    (others : BlobReaders) (blob_count : ℕ) (files : ℕ → BlobFile) (wid : ℕ) (blob : BlobFile)
    → wid < blob_count
    → readers_after (readers others blob_count files) wid blob
      ≡ readers others blob_count (update files wid blob)
readers-update others blob_count files wid blob h = fun_ext λ i. at i
  where
    at :
        (i : ℕ)
        → readers_after (readers others blob_count files) wid blob i
          ≡ readers others blob_count (update files wid blob) i
    at i = elim (Bool-cases (i == wid)) [
      | inl e ↦ let same : i ≡ wid = (==_iff i wid).0 e in rw (e, lt→ltb i blob_count (omega arith))
      | inr e ↦ rw e
    ]

pub update-same {ℓ} : {A : Type ℓ} (f : ℕ → A) (i : ℕ) (a : A) → update f i a i ≡ a
update-same f i a = rw (==-refl i)

pub update-other {ℓ} : {A : Type ℓ} (f : ℕ → A) (i j : ℕ) (a : A) → j ≢ i → update f i a j ≡ f j
update-other f i j a h = elim (Bool-cases (j == i)) [
  | inl e ↦ absurd (h ((==_iff j i).0 e))
  | inr e ↦ rw e
]

pub readers_inside :
    (others : BlobReaders) (blob_count : ℕ) (files : ℕ → BlobFile) (i : ℕ)
    → ltb i blob_count ≡ true
    → readers others blob_count files i ≡ some (files i).written
readers_inside others blob_count files i h = rw h

readers_outside :
    (others : BlobReaders) (blob_count : ℕ) (files : ℕ → BlobFile) (i : ℕ)
    → ltb i blob_count ≡ false
    → readers others blob_count files i ≡ others i
readers_outside others blob_count files i h = rw h

update-written :
    (files : ℕ → BlobFile) (wid i : ℕ) (blob : BlobFile) (more : List ℕ)
    → blob.written ≡ (files wid).written ++ more
    → (rest : List ℕ) × ((update files wid blob i).written ≡ (files i).written ++ rest)
update-written files wid i blob more e = elim (Bool-cases (i == wid)) [
  | inr off ↦ ([], rw off (sym (append-nil (files i).written)))
  | inl on ↦
      let same : wid ≡ i = sym ((==_iff i wid).0 on) in
      (more, rw on (e ∙ ap (λ j. (files j).written ++ more) same))
]

pub readers-Grows :
    (others : BlobReaders) (blob_count : ℕ) (files : ℕ → BlobFile) (wid : ℕ) (blob : BlobFile)
    (more : List ℕ)
    → blob.written ≡ (files wid).written ++ more
    → Grows (readers others blob_count files) (readers others blob_count (update files wid blob))
readers-Grows others blob_count files wid blob more e i bytes h =
    elim (Bool-cases (ltb i blob_count)) [
      | inr out ↦ (
        [],
        readers_outside others blob_count (update files wid blob) i out
            ∙ sym (readers_outside others blob_count files i out)
            ∙ h
            ∙ ap some (sym (append-nil bytes)),
      )
      | inl in_range ↦
          let (rest, e') = update-written files wid i blob more e in
          let old : (files i).written ≡ bytes =
            some-injective (sym (readers_inside others blob_count files i in_range) ∙ h) in
          (
            rest,
            readers_inside others blob_count (update files wid blob) i in_range
                ∙ ap some (e' ∙ ap (λ t. t ++ rest) old),
          )
    ]
