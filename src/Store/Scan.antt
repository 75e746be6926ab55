-- ===== src/Store/Scan.antt =====
-- The scan of `load_all_scan` (bxdb-core/src/append_only.rs): one pass over the log for all
-- addresses. Its workers are those of Store/Runs, and the whole of it is `load_all_log` of
-- Store/Bulk.
use bxdb.Base.{
  ℕ, ◌+◌, ◌-◌, ◌<◌, ◌≡◌, refl, sym, ap, ◌∙◌, arith, Option, none, some, List, [], ◌∷◌, Bool, true,
  false,
}
use bxdb.Base.{ltb, leb, ◌==◌, ==_iff, ◌||◌, if◌then◌else◌, Bool-cases, inl, inr}
use bxdb.Chunk.Key.{pa_of, snapshot_of}
use bxdb.Chunk.Record.{ChunkRecord}
use bxdb.Log.Newest.{newest, later, candidate?, later_assoc, later-none}

-- `latest`: the slot of a record is replaced by a later record.
abbrev pub replace : Option ChunkRecord → ChunkRecord → Option ChunkRecord
replace none rec = some rec
replace (some prev) rec =
    if ltb (snapshot_of prev.key) (snapshot_of rec.key) then some rec else some prev

module _ (pa_offset total_page_count snapshot_id : ℕ) where
  -- What one record does to the slots.
  unfoldable pub scan_record : ChunkRecord → (ℕ → Option ChunkRecord) → ℕ → Option ChunkRecord
  scan_record rec latest slot =
      let pa = pa_of rec.key in
      if ltb pa pa_offset || leb (pa_offset + total_page_count) pa
      then latest slot
      else if ltb snapshot_id (snapshot_of rec.key)
      then latest slot
      else if slot == pa - pa_offset
      then replace (latest slot) rec
      else latest slot

  unfoldable pub scan : List ChunkRecord → (ℕ → Option ChunkRecord) → ℕ → Option ChunkRecord
  unfolding scan_record
  scan [] latest = latest
  scan (rec ∷ records) latest = scan records (scan_record rec latest)

  replace-later : (o : Option ChunkRecord) (rec : ChunkRecord) → replace o rec ≡ later o (some rec)
  unfolding later
  replace-later none rec = refl
  replace-later (some prev) rec = refl

  scan_record-candidate :
      (rec : ChunkRecord) (latest : ℕ → Option ChunkRecord) (i : ℕ)
      → i < total_page_count
      → scan_record rec latest i ≡ later (latest i) (candidate? (pa_offset + i) snapshot_id rec)
  unfolding scan_record
  scan_record-candidate rec latest i h = elim (Bool-cases (pa_of rec.key == pa_offset + i)) [
    | inl same ↦
        let pa_is : pa_of rec.key ≡ pa_offset + i =
          (==_iff (pa_of rec.key) (pa_offset + i)).0 same in
        let above : ltb (pa_of rec.key) pa_offset ≡ false = ground arith in
        let below : leb (pa_offset + total_page_count) (pa_of rec.key) ≡ false = ground arith in
        let here : (i == pa_of rec.key - pa_offset) ≡ true = ground arith in
        elim (Bool-cases (leb (snapshot_of rec.key) snapshot_id)) [
          | inl old ↦
              let not_later : ltb snapshot_id (snapshot_of rec.key) ≡ false = ground arith in
              rw (same, above, below, here, old, not_later) (replace-later (latest i) rec)
          | inr new ↦
              let is_later : ltb snapshot_id (snapshot_of rec.key) ≡ true = ground arith in
              rw (same, above, below, here, new, is_later) (sym (later-none (latest i)))
        ]
    | inr other ↦ rw other (elim (Bool-cases (i == pa_of rec.key - pa_offset)) [
      | inl here ↦
          let outside : ltb (pa_of rec.key) pa_offset ≡ true = ground arith in
          rw outside (sym (later-none (latest i)))
      | inr elsewhere ↦ rw elsewhere (
          always
            (ltb (pa_of rec.key) pa_offset || leb (pa_offset + total_page_count) (pa_of rec.key))
            (ltb snapshot_id (snapshot_of rec.key)) (latest i)
          ∙ sym (later-none (latest i)))
    ])
  ]
    where
      always :
          (b c : Bool) (o : Option ChunkRecord)
          → (if b then o else if c then o else if false then replace o rec else o) ≡ o
      always true c o = refl
      always false true o = refl
      always false false o = refl

  -- After the scan a slot has the newest record of its address, or what was in it if that is
  -- not older.
  pub scan-newest :
      (records : List ChunkRecord) (latest : ℕ → Option ChunkRecord) (i : ℕ)
      → i < total_page_count
      → scan records latest i ≡ later (latest i) (newest (pa_offset + i) snapshot_id records)
  unfolding scan newest
  scan-newest [] latest i h = sym (later-none (latest i))
  scan-newest (rec ∷ records) latest i h =
      scan-newest records (scan_record rec latest) i h
      ∙ ap (λ o. later o (newest (pa_offset + i) snapshot_id records))
          (scan_record-candidate rec latest i h)
      ∙ later_assoc (latest i) (candidate? (pa_offset + i) snapshot_id rec)
          (newest (pa_offset + i) snapshot_id records)
