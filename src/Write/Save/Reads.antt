-- ===== src/Write/Save/Reads.antt =====
-- What can be read after a save.
use bxdb.Base.{ℕ, ◌^◌, ◌<◌, ◌≡◌, refl, sym, ap, ◌∙◌, arith, Option, none, some, inl, inr}
use bxdb.Base.{List, [], ◌∷◌, ◌++◌, Result, ok, All, true}
use bxdb.Chunk.Key.{encode_key, snapshot_of}
use bxdb.Chunk.Record.{ChunkRecord, is_full, IsLoggable}
use bxdb.Chunk.Patch.{IsPage}
use bxdb.Log.Newest.{newest}
use bxdb.Log.Sort.{All-mono}
use bxdb.Index.Sorted.{find_key}
use bxdb.Index.Find.{find_key-sort_dedup}
use bxdb.Store.{BlobReaders, resolve_uncached, resolve_found}
use bxdb.Store.Zstd.{Zstd}
use bxdb.Store.Blobs.{Grows, Grows-refl, resolve-Grows, decompress-Grows}
use bxdb.Convert.Reads.{read_page, spec_page}
use mathlib.Core.Path.{subst}
use bxdb.Write.Shadow.{ShadowEntry, get}
use bxdb.Write.Saved.{IsCounted, EntryIsBase}
use bxdb.Write.Pass.{Pass, page_at}
use bxdb.Write.Pass.Invariant.{PageSaved, All-zip}
use bxdb.Write.Pass.Readers.{readers, NotIn, IsDistinct}
use bxdb.Write.Save.{AppendOnlyDb, records_buf, append_records, stale}
use bxdb.Write.Save.State.{disk, dir_of, lookup_in, IsDb, spec_page-Grows}
use bxdb.Write.Save.Log.{append_records-log_of}
use bxdb.Write.Save.Fresh.{
  Pairs, All-Pairs, IsFresh, fresh_snapshot, Pairs-IsFresh, newest-fresh, find_key-fresh,
  newest-earlier, newest-untouched,
}
use bxdb.Write.Save.Promise.{
  All-append, All-or-NotIn, All-both, resolve-full, lookup_in-append, IsSave, read_page-IsDb,
}

module _ (z : Zstd) (others : BlobReaders) (records : List ChunkRecord) (db : AppendOnlyDb)
    (state : IsDb z others records db) (memory : List ℕ) (s : ℕ) (s_fits : s < 2 ^ 19)
    (above : All (λ r. snapshot_of r.key < s) records) (pas : List ℕ) (distinct : IsDistinct pas)
    (fits : All (λ pa. pa < 2 ^ 45) pas) (shapes : All (λ pa. IsPage (page_at memory pa)) pas)
    (pass : Pass) where
  abbrev pub start : Pass
  start = record { shadow = db.shadow; files = db.blob_files; slots = λ pa. none }

  abbrev pub Saved : ℕ → Type 0
  Saved = PageSaved z others db.blob_count (lookup_in records) memory s start pass

  abbrev pub HasRecord : ℕ → ChunkRecord → Type 0
  HasRecord pa r = (p : Saved pa) × (p.rec ≡ r)

  pub HasRecord-key : (pa : ℕ) (r : ChunkRecord) → HasRecord pa r → r.key ≡ encode_key pa s
  HasRecord-key pa r (p, e) = ap (λ x. x.key) (sym e) ∙ p.key_is

  -- The buffer, read in the order of the addresses.
  pub buffer :
      (xs : List ℕ)
      → All Saved xs
      → (new : List ChunkRecord) × (records_buf xs pass.slots ≡ ok new) × Pairs HasRecord xs new
  unfolding records_buf
  buffer [] h = ([], refl, tt)
  buffer (pa ∷ xs) (p, ps) =
      let (new, e, h) = buffer xs ps in (p.rec ∷ new, rw (p.in_slot, e), ((p, refl), h))

  module _ (new : List ChunkRecord) (pairs : Pairs HasRecord pas new)
      (grows : Grows (disk others db) (readers others db.blob_count pass.files)) where
    abbrev files : BlobReaders
    files = readers others db.blob_count pass.files

    abbrev Fresh : ℕ → Type 0
    Fresh = IsFresh s s_fits HasRecord HasRecord-key new

    fresh : All Fresh pas
    fresh = Pairs-IsFresh s s_fits HasRecord HasRecord-key pas new distinct fits pairs

    resolves_now :
        (pa : ℕ) (p : Saved pa)
        → resolve_uncached z files (lookup_in (records ++ new)) p.rec ≡ ok (page_at memory pa)
    resolves_now pa p =
        resolve-Grows z files files (Grows-refl files) (lookup_in records)
          (lookup_in (records ++ new)) p.rec (page_at memory pa) (lookup_in-append records new)
          p.resolves

    -- A page that was saved is what the newest record resolves to.
    saved_now :
        (pa : ℕ)
        → Fresh pa
        → spec_page z files (records ++ new) pa s ≡ ok (some (page_at memory pa))
    unfolding spec_page
    saved_now pa f =
        let (p, e) = f.related in
        ap (resolve_found (resolve_uncached z files (lookup_in (records ++ new))))
          (newest-fresh s s_fits HasRecord HasRecord-key records new pa above f ∙ ap some (sym e))
        ∙ rw (resolves_now pa p)

    -- An entry of the shadow is the page of a full record: of an old one, or of the new one.
    base_now :
        (entry entry' : Option ShadowEntry) (pa : ℕ)
        → EntryIsBase z (disk others db) (lookup_in records) entry
        → entry' ≡ entry
        → EntryIsBase z files (lookup_in (records ++ new)) entry'
    base_now none entry' pa h e =
        subst (EntryIsBase z files (lookup_in (records ++ new))) (sym e) tt
    base_now (some (base_key, base_page)) entry' pa h e =
        subst (EntryIsBase z files (lookup_in (records ++ new))) (sym e) (record {
          base_rec = h.base_rec;
          found = lookup_in-append records new base_key h.base_rec h.found;
          base_key_fits = h.base_key_fits;
          is_base_full = h.is_base_full;
          decompresses =
              decompress-Grows z (disk others db) files grows h.base_rec base_page h.decompresses;
          base_is_page = h.base_is_page;
        })

    base-Fresh :
        (pa : ℕ)
        → IsPage (page_at memory pa)
        → (f : Fresh pa) → (p : Saved pa) → p.rec ≡ f.rec
        → is_full p.rec.kind ≡ true
        → EntryIsBase z files (lookup_in (records ++ new)) (some (p.rec.key, page_at memory pa))
    base-Fresh pa shape f p e is_full_rec = record {
      base_rec = p.rec;
      found = ap ok (
          find_key-sort_dedup p.rec.key (records ++ new)
          ∙ ap (λ r. find_key r.key (records ++ new)) e
          ∙ find_key-fresh s s_fits HasRecord HasRecord-key records new pa above f
          ∙ ap some (sym e));
      base_key_fits = omega (arith, p.loggable.0.key_fits);
      is_base_full = is_full_rec;
      decompresses =
          sym (resolve-full z files (lookup_in (records ++ new)) p.rec is_full_rec)
          ∙ resolves_now pa p;
      base_is_page = shape;
    }

    bases_now :
        (q : ℕ)
        → (NotIn q pas → get pass.shadow q ≡ get db.shadow q)
        → EntryIsBase z files (lookup_in (records ++ new)) (get pass.shadow q)
    bases_now q kept =
        elim (All-or-NotIn (λ pa. Fresh pa × IsPage (page_at memory pa)) pas q
          (All-both Fresh (λ pa. IsPage (page_at memory pa)) pas fresh shapes)) [
            | inl out ↦ base_now (get db.shadow q) (get pass.shadow q) q (state.bases q) (kept out)
            | inr (f, shape) ↦
                let (p, e) = f.related in
                elim p.shadow_kept [
                  | inl same ↦ base_now (get db.shadow q) (get pass.shadow q) q (state.bases q) same
                  | inr (now, is_full_rec) ↦
                      subst (EntryIsBase z files (lookup_in (records ++ new))) (sym now)
                        (base-Fresh q shape f p e is_full_rec)
                ]
          ]

    abbrev pub db_after : AppendOnlyDb
    db_after = record db {
      shadow = pass.shadow;
      blob_files = pass.files;
      log = append_records db.log new s;
      last_snapshot = some s;
    }

    pub after-IsDb :
        ((i : ℕ) → IsCounted (pass.files i))
        → ((q : ℕ) → NotIn q pas → get pass.shadow q ≡ get db.shadow q)
        → IsDb z others (records ++ new) db_after
    after-IsDb counted kept = record {
      max_snap = s;
      max_fits = omega arith;
      log_is =
          ap (λ log. append_records log new s) state.log_is
          ∙ append_records-log_of state.max_snap s records new;
      valid = All-append IsLoggable records new state.valid (
          All-Pairs HasRecord IsLoggable pas new (λ pa r (p, e). subst IsLoggable e p.loggable)
            pairs);
      some_worker = state.some_worker;
      few_workers = state.few_workers;
      counted = counted;
      bases = λ q. bases_now q (kept q);
      monotonic = λ s' fine. monotonic_now s' (stale-lt s' fine);
    }
      where
        stale-lt : (s' : ℕ) → stale s' (some s) ≡ none → s < s'
        stale-lt s' h = ground arith

        monotonic_now : (s' : ℕ) → s < s' → All (λ r. snapshot_of r.key < s') (records ++ new)
        monotonic_now s' lt =
            All-append (λ r. snapshot_of r.key < s') records new
              (All-mono (λ r. snapshot_of r.key < s) (λ r. snapshot_of r.key < s')
                (λ r h. omega (arith, h, lt)) records above)
              (All-Pairs HasRecord (λ r. snapshot_of r.key < s') pas new
                (λ pa r h.
                  omega (arith, fresh_snapshot s s_fits HasRecord HasRecord-key pa r h, lt))
                pairs)

    pub after-IsSave :
        (result : AppendOnlyDb × Result (Unit {0}))
        → result ≡ (db_after, ok tt)
        → IsDb z others (records ++ new) db_after
        → IsSave z others (dir_of others) records pas memory s db result
    after-IsSave result e is_db = record {
      after = db_after;
      new = new;
      returns = e;
      is_db = is_db;
      saved =
          All-zip _ _ _ pas
            (λ pa pa_fits f.
              read_page-IsDb z others (records ++ new) db_after pa s is_db pa_fits s_fits
              ∙ saved_now pa f)
            fits fresh;
      earlier_kept = λ pa s' page pa_fits lt h.
          kept pa s' page pa_fits (omega (arith, lt, s_fits))
            (newest-earlier s s_fits HasRecord HasRecord-key records new pas pa s' pairs lt) h;
      untouched_kept = λ pa s' page pa_fits s'_fits out h.
          kept pa s' page pa_fits s'_fits
            (newest-untouched s s_fits HasRecord HasRecord-key records new pas pa s' fits pairs out)
            h;
    }
      where
        kept :
            (pa s' : ℕ) (page : Option (List ℕ))
            → pa < 2 ^ 45
            → s' < 2 ^ 19
            → newest pa s' (records ++ new) ≡ newest pa s' records
            → read_page z (dir_of others db) pa s' ≡ ok page
            → read_page z (dir_of others db_after) pa s' ≡ ok page
        kept pa s' page pa_fits s'_fits same h =
            read_page-IsDb z others (records ++ new) db_after pa s' is_db pa_fits s'_fits
            ∙ spec_page-Grows z (disk others db) files records (records ++ new) pa s' page grows
                (lookup_in-append records new) same
                (sym (read_page-IsDb z others records db pa s' state pa_fits s'_fits) ∙ h)
