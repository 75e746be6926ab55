-- ===== src/Write/Page.antt =====
-- A page that `process_one` has written is read back from its record.
use bxdb.Base.{ℕ, ◌+◌, ◌^◌, ◌≤◌, ◌<◌, ◌≡◌, refl, sym, ap, ◌∙◌, arith, Option, none, some}
use bxdb.Base.{
  List, [], ◌++◌, append-nil, ◌⊎◌, Result, ok, ◌>>=◌, Bool, true, false, Bool-cases, inl, inr,
}
use bxdb.Base.{length, length-append, replicate, leb, ◌==◌, ==-refl, ==_iff, le→leb, lt→ltb}
use bxdb.Base.{if◌then◌else◌}
use bxdb.Base.{some-injective}
use bxdb.Chunk.Key.{encode_key, encode_key_fields}
use bxdb.Chunk.Record.{ChunkRecord, new_full, new_delta, new_zero}
use bxdb.Chunk.Patch.{IsPage, is_all_zero, compute_xor_patch, encode_delta_patch}
use bxdb.Chunk.Patch.RoundTrip.{apply_delta_patch-encode_delta_patch, length-compute_xor_patch}
use bxdb.Store.{BlobReaders, mmap, decompress_blob_into, delta_blob}
use bxdb.Store.{full_base, resolve_uncached}
use bxdb.Store.Zstd.{Zstd, IsLossless}
use bxdb.Store.Blobs.{Grows, slice-last, decompress-Grows}
use bxdb.Write.Shadow.{ShadowEntry, get, insert_if_newer, get-insert_cases}
use bxdb.Write.Defs.{BlobFile, Writer, append_blob, write_full, write_against, process_one}
use bxdb.Write.Saved.{
  IsCounted, readers_after, IsBase, EntryIsBase, is_all_zero→eq, append_blob_ok, IsSaved,
}

module _ (z : Zstd) (lossless : IsLossless z) (blobs : BlobReaders)
    (lookup : ℕ → Result (Option ChunkRecord)) (pa : ℕ) (page : List ℕ) (is_page : IsPage page)
    (snapshot_id worker_id threshold : ℕ) (worker_fits : worker_id < 256) (use_shadow : Bool)
    (w : Writer) (counted : IsCounted w.blob) (room : length w.blob.written + 8192 < 2 ^ 64)
    (mapped : blobs worker_id ≡ some w.blob.written) where
  Saved : Result (ChunkRecord × Writer) → Type 0
  Saved = IsSaved z blobs lookup pa page snapshot_id worker_id w

  mmap_after :
      (blob : BlobFile) → mmap (readers_after blobs worker_id blob) worker_id ≡ ok blob.written
  mmap_after blob = rw (==-refl worker_id, mmap)

  -- The worker's file is longer, and the other files are as they were.
  Grows-after :
      (blob : BlobFile) (more : List ℕ)
      → blob.written ≡ w.blob.written ++ more
      → Grows blobs (readers_after blobs worker_id blob)
  Grows-after blob more e i bytes h = elim (Bool-cases (i == worker_id)) [
    | inl same ↦
        let here : i ≡ worker_id = (==_iff i worker_id).0 same in
        let old : w.blob.written ≡ bytes = some-injective (sym mapped ∙ ap blobs (sym here) ∙ h) in
        (more, rw same (ap some (e ∙ ap (λ t. t ++ more) old)))
    | inr other ↦ ([], rw other (h ∙ ap some (sym (append-nil bytes))))
  ]

  appended_blob : List ℕ → BlobFile
  appended_blob bytes = record {
    written = w.blob.written ++ bytes;
    offset = w.blob.offset + length bytes;
  }

  appended-IsCounted : (bytes : List ℕ) → IsCounted (appended_blob bytes)
  unfolding appended_blob
  appended-IsCounted bytes = omega (arith, counted, length-append w.blob.written bytes)

  -- The bytes that were appended are read back by their offset and length.
  decompress_appended :
      (bytes : List ℕ) (rec : ChunkRecord) (restored : List ℕ)
      → rec.worker_id ≡ worker_id
      → rec.offset ≡ w.blob.offset
      → rec.len ≡ length bytes
      → length bytes ≤ 8192
      → z.decompress bytes ≡ ok restored
      → IsPage restored
      → decompress_blob_into z (readers_after blobs worker_id (appended_blob bytes)) rec
        ≡ ok restored
  unfolding decompress_blob_into appended_blob
  decompress_appended bytes rec restored hw ho hl small h shape =
      rw (hw, mmap_after (appended_blob bytes))
        (rw (ho ∙ counted, hl)
          (rw (lt→ltb (length w.blob.written + length bytes) (2 ^ 64) (omega arith)) (
            rw
              (le→leb (length w.blob.written + length bytes) (length (w.blob.written ++ bytes))
                (omega (arith, length-append w.blob.written bytes)))
              (rw (slice-last w.blob.written bytes, h)
                (rw ((==_iff (length restored) 4096).1 shape.0))))))

  delta_appended :
      (bytes : List ℕ) (rec : ChunkRecord)
      → rec.worker_id ≡ worker_id
      → rec.offset ≡ w.blob.offset
      → rec.len ≡ length bytes
      → delta_blob (readers_after blobs worker_id (appended_blob bytes)) rec ≡ ok bytes
  unfolding delta_blob appended_blob
  delta_appended bytes rec hw ho hl =
      rw (hw, mmap_after (appended_blob bytes))
        (rw (ho ∙ counted, hl)
          (rw
            (le→leb (length w.blob.written + length bytes) (length (w.blob.written ++ bytes))
              (omega (arith, length-append w.blob.written bytes)))
            (ap ok (slice-last w.blob.written bytes))))

  kept :
      (b : Bool) (key q : ℕ)
      → (get (if b then insert_if_newer w.shadow pa key page else w.shadow) q ≡ get w.shadow q)
        ⊎ (get (if b then insert_if_newer w.shadow pa key page else w.shadow) q ≡ some (key, page))
          × (q ≡ pa)
          × (true ≡ true)
  kept false key q = inl refl
  kept true key q = elim (get-insert_cases w.shadow pa key q page) [
    | inl same ↦ inl same
    | inr (new, here) ↦ inr (new, here, refl)
  ]

  write_full-Saved : Saved (write_full z pa page snapshot_id worker_id threshold use_shadow w)
  unfolding Saved write_full
  write_full-Saved =
      let key = encode_key pa snapshot_id in
      let bytes = lossless.compressed page is_page in
      let small = lossless.compress_bound page is_page in
      let rec = new_full key worker_id w.blob.offset (length bytes) in
      record {
        rec = rec;
        after = record {
          shadow = if use_shadow then insert_if_newer w.shadow pa key page else w.shadow;
          blob = appended_blob bytes;
        };
        more = bytes;
        returns =
            rw (lossless.compress_ok page is_page)
              (rw (append_blob_ok w.blob bytes small) (unfold appended_blob in refl));
        key_is = refl;
        appended = unfold appended_blob in refl;
        loggable = (
          record {
            key_fits = omega (arith, (encode_key_fields pa snapshot_id).0);
            worker_id_fits = worker_fits;
            offset_fits = omega (arith, counted, room);
            len_fits = omega (arith, small);
            base_key_fits = omega arith;
          },
          λ h. refl,
        );
        more_fits = small;
        counted = appended-IsCounted bytes;
        resolves =
            unfold resolve_uncached in
            decompress_appended bytes rec page refl refl refl small (lossless.restores page is_page)
              is_page;
        shadow_kept = kept use_shadow key;
      }

  write_delta-Saved :
      (base_key : ℕ) (base_page : List ℕ)
      → IsBase z blobs lookup base_key base_page
      → Saved (
          append_blob w.blob (encode_delta_patch (compute_xor_patch page base_page))
          >>= λ ((offset, len), blob). ok (
            new_delta (encode_key pa snapshot_id) worker_id offset len base_key,
            record w { blob = blob },
          ))
  unfolding Saved
  write_delta-Saved base_key base_page base =
      let bytes = encode_delta_patch (compute_xor_patch page base_page) in
      let small : length bytes ≤ 8192 = omega (arith, length-compute_xor_patch page base_page) in
      let rec =
        new_delta (encode_key pa snapshot_id) worker_id w.blob.offset (length bytes) base_key in
      let readers = readers_after blobs worker_id (appended_blob bytes) in
      record {
        rec = rec;
        after = record w { blob = appended_blob bytes };
        more = bytes;
        returns = rw (append_blob_ok w.blob bytes small) (unfold appended_blob in refl);
        key_is = refl;
        appended = unfold appended_blob in refl;
        loggable = (
          record {
            key_fits = omega (arith, (encode_key_fields pa snapshot_id).0);
            worker_id_fits = worker_fits;
            offset_fits = omega (arith, counted, room);
            len_fits = omega (arith, small);
            base_key_fits = base.base_key_fits;
          },
          λ h. cc,
        );
        more_fits = small;
        counted = appended-IsCounted bytes;
        resolves =
            unfold resolve_uncached in
            rw base.found (
              unfold full_base in
              rw base.is_base_full (
                rw
                  (
                    decompress-Grows z blobs readers
                        (Grows-after (appended_blob bytes) bytes (unfold appended_blob in refl))
                        base.base_rec base_page base.decompresses,
                    delta_appended bytes rec refl refl refl,
                  )
                  (apply_delta_patch-encode_delta_patch page base_page is_page
                    base.base_is_page).1));
        shadow_kept = λ q. inl refl;
      }

  write_against-Saved :
      (entry : Option ShadowEntry)
      → EntryIsBase z blobs lookup entry
      → Saved (write_against z pa page snapshot_id worker_id threshold use_shadow entry w)
  unfolding write_against
  write_against-Saved none h = write_full-Saved
  write_against-Saved (some (base_key, base_page)) h =
      elim (Bool-cases (leb (length (compute_xor_patch page base_page)) threshold)) [
        | inl small ↦ rw small (write_delta-Saved base_key base_page h)
        | inr large ↦ rw large write_full-Saved
      ]

  zero-Saved : is_all_zero page ≡ true → Saved (ok (new_zero (encode_key pa snapshot_id), w))
  unfolding Saved
  zero-Saved h = record {
    rec = new_zero (encode_key pa snapshot_id);
    after = w;
    more = [];
    returns = refl;
    key_is = refl;
    appended = sym (append-nil w.blob.written);
    loggable = (
      record {
        key_fits = omega (arith, (encode_key_fields pa snapshot_id).0);
        worker_id_fits = omega arith;
        offset_fits = omega arith;
        len_fits = omega arith;
        base_key_fits = omega arith;
      },
      λ h. refl,
    );
    more_fits = omega arith;
    counted = counted;
    resolves =
        unfold resolve_uncached in
        ap ok (sym (is_all_zero→eq page h ∙ ap (λ n. replicate n 0) (is_page.0)));
    shadow_kept = λ q. inl refl;
  }

  -- A page of any content, written with or without the shadow, is saved: `process_one` returns a
  -- record under the key of the address and the snapshot, appends its blob to the worker's file,
  -- and the record resolves to the page over the files as they are then. The shadow has changed
  -- at most under the address, and there to the full record's page. The conditions are those of
  -- the state: zstd is lossless, the file's counter is right and leaves room, and the shadow's
  -- entry of the address is the page of a full record in the index.
  pub process_one-IsSaved :
      EntryIsBase z blobs lookup (get w.shadow pa)
      → IsSaved z blobs lookup pa page snapshot_id worker_id w
          (process_one z pa page snapshot_id worker_id threshold use_shadow w)
  unfolding process_one Saved
  process_one-IsSaved h = elim (Bool-cases (is_all_zero page)) [
    | inl e ↦ rw e (zero-Saved e)
    | inr e ↦ rw e (choose use_shadow)
  ]
    where
      choose :
          (b : Bool)
          → Saved (
              if b
              then write_against z pa page snapshot_id worker_id threshold use_shadow
                  (get w.shadow pa)
                  w
              else write_full z pa page snapshot_id worker_id threshold use_shadow w)
      choose true = write_against-Saved (get w.shadow pa) h
      choose false = write_full-Saved
