-- ===== src/Write/Pass/Invariant.antt =====
-- A run over pages, in whatever order, saves every page.
use bxdb.Base.{ℕ, ◌+◌, ◌*◌, ◌%◌, ◌^◌, ◌≤◌, ◌<◌, ◌≡◌, ◌≢◌, refl, sym, ap, ◌∙◌, arith, Option, some}
use bxdb.Base.{List, [], ◌∷◌, Result, ok, length, length-append, All, Bool, true}
use bxdb.Base.{Bool-cases, inl, inr, ◌⊎◌, ◌==◌, ==_iff, lt→ltb}
use bxdb.Chunk.Key.{encode_key}
use bxdb.Chunk.Record.{ChunkRecord, IsLoggable, is_full}
use bxdb.Chunk.Patch.{IsPage}
use bxdb.Store.{BlobReaders, resolve_uncached}
use bxdb.Store.Zstd.{Zstd, IsLossless}
use bxdb.Store.Blobs.{Grows, Grows-refl, resolve-Grows}
use bxdb.Write.Shadow.{get}
use bxdb.Write.Defs.{Writer, process_one}
use bxdb.Write.Page.{process_one-IsSaved}
use bxdb.Write.Saved.{IsCounted, EntryIsBase, IsSaved}
use bxdb.Write.Pass.{Pass, update, page_at, save_page, run_pass}
use mathlib.Core.Path.{subst}
use bxdb.Write.Pass.Readers.{
  readers, NotIn, IsDistinct, Grows-trans, EntryIsBase-Grows, readers-update, update-same,
  update-other, readers_inside, readers-Grows,
}

-- What a page has after a run: a record in its slot, valid, under its key, that resolves to the
-- page; and the shadow has at its address what it had, or the page of that record, a full one.
pub record PageSaved (z : Zstd) (others : BlobReaders) (blob_count : ℕ)
    (lookup : ℕ → Result (Option ChunkRecord)) (memory : List ℕ) (snapshot_id : ℕ)
    (before after : Pass) (pa : ℕ) : Type 0 where
  pub rec : ChunkRecord
  pub in_slot : after.slots pa ≡ some rec
  pub key_is : rec.key ≡ encode_key pa snapshot_id
  pub loggable : IsLoggable rec
  pub resolves :
      resolve_uncached z (readers others blob_count after.files) lookup rec ≡ ok (page_at memory pa)
  pub shadow_kept :
      (get after.shadow pa ≡ get before.shadow pa)
      ⊎ (get after.shadow pa ≡ some (rec.key, page_at memory pa)) × (is_full rec.kind ≡ true)

-- What a run over the pages of a list does.
pub record IsRun (z : Zstd) (others : BlobReaders) (blob_count : ℕ)
    (lookup : ℕ → Result (Option ChunkRecord)) (memory : List ℕ) (snapshot_id : ℕ) (order : List ℕ)
    (before : Pass) (result : Pass × Result (Unit {0})) : Type 0 where
  pub after : Pass
  pub returns : result ≡ (after, ok tt)
  pub counted : (i : ℕ) → IsCounted (after.files i)
  pub grows : Grows (readers others blob_count before.files) (readers others blob_count after.files)
  pub longer :
      (i : ℕ)
      → length (after.files i).written ≤ length (before.files i).written + length order * 8192
  pub pages : All (PageSaved z others blob_count lookup memory snapshot_id before after) order
  pub rest_kept :
      (q : ℕ)
      → NotIn q order
      → (after.slots q ≡ before.slots q) × (get after.shadow q ≡ get before.shadow q)

pub All-zip :
    (P Q R : ℕ → Type 0) (xs : List ℕ)
    → ((x : ℕ) → P x → Q x → R x)
    → All P xs
    → All Q xs
    → All R xs
All-zip P Q R [] f p q = tt
All-zip P Q R (x ∷ xs) f (p, ps) (q, qs) = (f x p q, All-zip P Q R xs f ps qs)

module _ (z : Zstd) (lossless : IsLossless z) (others : BlobReaders) (blob_count : ℕ)
    (some_worker : 0 < blob_count) (few_workers : blob_count ≤ 255)
    (lookup : ℕ → Result (Option ChunkRecord)) (memory : List ℕ) (snapshot_id threshold : ℕ)
    (use_shadow : Bool) where
  abbrev files_of : Pass → BlobReaders
  files_of pass = readers others blob_count pass.files

  abbrev SavedPage : Pass → Pass → ℕ → Type 0
  SavedPage = PageSaved z others blob_count lookup memory snapshot_id

  abbrev run : List ℕ → Pass → Pass × Result (Unit {0})
  run = run_pass z memory snapshot_id threshold use_shadow blob_count

  -- One page.
  record IsStep (pa : ℕ) (before : Pass) : Type 0 where
    step_after : Pass
    step_returns :
        save_page z memory snapshot_id threshold use_shadow blob_count pa before ≡ ok step_after
    step_counted : (i : ℕ) → IsCounted (step_after.files i)
    step_grows : Grows (files_of before) (files_of step_after)
    step_longer :
        (i : ℕ) → length (step_after.files i).written ≤ length (before.files i).written + 8192
    step_saved : SavedPage before step_after pa
    step_kept :
        (q : ℕ)
        → q ≢ pa
        → (step_after.slots q ≡ before.slots q) × (get step_after.shadow q ≡ get before.shadow q)

  after_step : Pass → ℕ → ℕ → ChunkRecord → Writer → Pass
  after_step before pa wid rec w = record {
    shadow = w.shadow;
    files = update before.files wid w.blob;
    slots = update before.slots pa (some rec);
  }

  IsStep-IsSaved :
      (pa : ℕ) (before : Pass)
      → ((i : ℕ) → IsCounted (before.files i))
      → (pa % blob_count < blob_count)
      → IsSaved z
          (files_of before)
          lookup
          pa
          (page_at memory pa)
          snapshot_id
          (pa % blob_count)
          (record { shadow = before.shadow; blob = before.files (pa % blob_count) })
          (process_one z pa
            (page_at memory pa)
            snapshot_id
            (pa % blob_count)
            threshold
            use_shadow
            (record { shadow = before.shadow; blob = before.files (pa % blob_count) }))
      → IsStep pa before
  unfolding save_page after_step
  IsStep-IsSaved pa before counted wid_lt s =
      let wid = pa % blob_count in
      let byte : wid % 2 ^ 8 ≡ wid = omega arith in
      record {
        step_after = after_step before pa wid s.rec s.after;
        step_returns = rw (byte, s.returns);
        step_counted =
            λ i. elim (Bool-cases (i == wid)) [ inl e ↦ rw e s.counted | inr e ↦ rw e (counted i) ];
        step_grows =
            readers-Grows others blob_count before.files wid s.after.blob s.more s.appended;
        step_longer = λ i. elim (Bool-cases (i == wid)) [
          | inl e ↦ rw e (
              omega (
                arith,
                s.more_fits,
                ap length s.appended,
                length-append (before.files wid).written s.more,
                ap (λ j. length (before.files j).written) ((==_iff i wid).0 e),
              ))
          | inr e ↦ rw e (omega arith)
        ];
        step_saved = record {
          rec = s.rec;
          in_slot = update-same before.slots pa (some s.rec);
          key_is = s.key_is;
          loggable = s.loggable;
          resolves =
              ap (λ r. resolve_uncached z r lookup s.rec)
                (sym (readers-update others blob_count before.files wid s.after.blob wid_lt))
              ∙ s.resolves;
          shadow_kept = elim (s.shadow_kept pa) [ inl e ↦ inl e | inr (e, same, f) ↦ inr (e, f) ];
        };
        step_kept = λ q h. (
          update-other before.slots pa q (some s.rec) h,
          elim (s.shadow_kept q) [ inl e ↦ e | inr (e, same, f) ↦ absurd (h same) ],
        );
      }

  step :
      (pa : ℕ) (before : Pass)
      → IsPage (page_at memory pa)
      → ((i : ℕ) → IsCounted (before.files i))
      → ((i : ℕ) → length (before.files i).written + 8192 < 2 ^ 64)
      → EntryIsBase z (files_of before) lookup (get before.shadow pa)
      → IsStep pa before
  step pa before page counted room base =
      let wid = pa % blob_count in
      let wid_lt : wid < blob_count = grind arith in
      IsStep-IsSaved pa before counted wid_lt (
        process_one-IsSaved z lossless (files_of before) lookup pa (page_at memory pa) page
          snapshot_id wid threshold (omega arith) use_shadow
          (record { shadow = before.shadow; blob = before.files wid }) (counted wid) (room wid)
          (readers_inside others blob_count before.files wid (lt→ltb wid blob_count wid_lt)) base)

  -- What was saved before the rest of a run is saved after it.
  SavedPage-later :
      (pa : ℕ) (before mid after : Pass)
      → Grows (files_of mid) (files_of after)
      → (after.slots pa ≡ mid.slots pa) × (get after.shadow pa ≡ get mid.shadow pa)
      → SavedPage before mid pa
      → SavedPage before after pa
  SavedPage-later pa before mid after grows (slot, entry) s = record {
    rec = s.rec;
    in_slot = slot ∙ s.in_slot;
    key_is = s.key_is;
    loggable = s.loggable;
    resolves =
        resolve-Grows z (files_of mid) (files_of after) grows lookup lookup s.rec
          (page_at memory pa) (λ key b h. h) s.resolves;
    shadow_kept = elim s.shadow_kept [ inl e ↦ inl (entry ∙ e) | inr (e, f) ↦ inr (entry ∙ e, f) ];
  }

  -- What a run has saved from a state in which the page's entry was the same.
  SavedPage-earlier :
      (pa : ℕ) (before mid after : Pass)
      → get mid.shadow pa ≡ get before.shadow pa
      → SavedPage mid after pa
      → SavedPage before after pa
  SavedPage-earlier pa before mid after entry s = record {
    rec = s.rec;
    in_slot = s.in_slot;
    key_is = s.key_is;
    loggable = s.loggable;
    resolves = s.resolves;
    shadow_kept = elim s.shadow_kept [ inl e ↦ inl (e ∙ entry) | inr h ↦ inr h ];
  }

  abbrev IsRunHere : List ℕ → Pass → Type 0
  IsRunHere order before =
      IsRun z others blob_count lookup memory snapshot_id order before (run order before)

  run_pass-cons :
      (pa : ℕ) (order : List ℕ) (before mid : Pass)
      → save_page z memory snapshot_id threshold use_shadow blob_count pa before ≡ ok mid
      → run_pass z memory snapshot_id threshold use_shadow blob_count (pa ∷ order) before
        ≡ run_pass z memory snapshot_id threshold use_shadow blob_count order mid
  unfolding run_pass
  run_pass-cons pa order before mid e = rw (e, run_pass)

  run-cons :
      (pa : ℕ) (order : List ℕ) (before : Pass)
      → NotIn pa order
      → (s : IsStep pa before) → IsRunHere order s.step_after
      → IsRunHere (pa ∷ order) before
  run-cons pa order before fresh s r = record {
    after = r.after;
    returns = run_pass-cons pa order before s.step_after s.step_returns ∙ r.returns;
    counted = r.counted;
    grows =
        Grows-trans (files_of before) (files_of s.step_after) (files_of r.after) s.step_grows
          r.grows;
    longer = λ i. omega (arith, r.longer i, s.step_longer i);
    pages = (
      SavedPage-later pa before s.step_after r.after r.grows (r.rest_kept pa fresh) s.step_saved,
      All-zip _ _ _ order
          (λ q ne h. SavedPage-earlier q before s.step_after r.after (s.step_kept q ne).1 h) fresh
          r.pages,
    );
    rest_kept = λ q (ne, others_ne).
        let (a, b) = r.rest_kept q others_ne in
        let (c, d) = s.step_kept q (λ e. ne (sym e)) in (a ∙ c, b ∙ d);
  }

  -- A run over distinct pages returns, whatever their order: each page has a record in its slot
  -- that resolves to it, the blob files have grown, and the slots and the shadow's entries of
  -- other addresses are as they were. The conditions are those of the state: zstd is lossless,
  -- there are 1 to 255 workers, counters are right and there is room, and each page's entry in
  -- the shadow is the page of a full record in the index.
  pub run_pass-IsRun :
      (order : List ℕ) (before : Pass)
      → IsDistinct order
      → All (λ pa. IsPage (page_at memory pa)) order
      → ((i : ℕ) → IsCounted (before.files i))
      → ((i : ℕ) → length (before.files i).written + length order * 8192 < 2 ^ 64)
      → All (λ pa. EntryIsBase z (files_of before) lookup (get before.shadow pa)) order
      → IsRun z others blob_count lookup memory snapshot_id order before
          (run_pass z memory snapshot_id threshold use_shadow blob_count order before)
  unfolding run_pass
  run_pass-IsRun [] before distinct pages counted room bases = record {
    after = before;
    returns = refl;
    counted = counted;
    grows = Grows-refl (files_of before);
    longer = λ i. omega arith;
    pages = tt;
    rest_kept = λ q h. (refl, refl);
  }
  run_pass-IsRun (pa ∷ order) before (fresh, distinct) (page, pages) counted room (base, bases) =
      let s = step pa before page counted (λ i. omega (arith, room i)) base in
      run-cons pa order before fresh s (
        run_pass-IsRun order s.step_after distinct pages s.step_counted
          (λ i. omega (arith, room i, s.step_longer i))
          (All-zip _ _ _ order
            (λ q ne h.
              subst (EntryIsBase z (files_of s.step_after) lookup) (sym (s.step_kept q ne).1) (
                EntryIsBase-Grows z (files_of before) (files_of s.step_after) lookup
                  (get before.shadow q) s.step_grows h))
            fresh bases))
