-- ===== src/Index/Mmap.antt =====
-- The lookups in the bytes of `index.bxdb`.
use bxdb.Base.{ℕ, zero, suc, ◌+◌, ◌*◌, ◌^◌, ◌≤◌, ◌<◌, ◌≡◌, refl, sym, ap, ◌∙◌, arith, some}
use bxdb.Base.{List, [], ◌∷◌, ◌++◌, length, none, Option, get_elem?, All, take, drop, drop-append}
use bxdb.Base.{take-append, drop-drop, drop-nil}
use bxdb.Base.Bytes.{to_le_bytes, from_le_bytes, from_le_bytes-to_le_bytes}
use bxdb.Chunk.Key.{encode_key}
use bxdb.Chunk.Record.{ChunkRecord, IsRecord, encode_fixed, decode_fixed}
use bxdb.Chunk.Record.Fixed.{decode_fixed-encode_fixed, length-encode_fixed}
use bxdb.Format.{write_index_header, index_file, length-write_header}
use bxdb.Log.Records.{write_fixed_records}
use bxdb.Log.Sort.{IsStrict}
use bxdb.Log.Newest.{newest}
use bxdb.Index.Defs.{read_key_at, read_record_at, ok_of, before, of_pa, at_found, floor_mmap}
use bxdb.Index.Defs.{exact_mmap, floor_loop, exact_loop}
use bxdb.Index.Search.{Finds, floor_loop_all-Splits, exact_loop_all-Finds}
use bxdb.Index.Sorted.{key_or, find_key, before-Splits, of_pa-last_le}
use bxdb.Index.Exact.{at_found-Finds}
use bxdb.Index.Exact.{key_or-IsAscending}
use mathlib.Core.Path.{fun_ext}

-- Record `i + 1` of a body is record `i` behind the first 32 bytes.
drop_record :
    (r : ChunkRecord) (rest : List ℕ) (i : ℕ)
    → drop (suc i * 32) (encode_fixed r ++ rest) ≡ drop (i * 32) rest
drop_record r rest i =
    ap (λ k. drop k (encode_fixed r ++ rest)) {y = 32 + i * 32} (omega arith)
    ∙ sym (drop-drop (i * 32) 32 (encode_fixed r ++ rest))
    ∙ ap (drop (i * 32)) (drop-append 32 (encode_fixed r) rest (length-encode_fixed r))

read_key_at-write :
    (rs : List ChunkRecord) (i : ℕ)
    → All IsRecord rs
    → read_key_at (write_fixed_records rs) i ≡ key_or rs i
unfolding read_key_at write_fixed_records
read_key_at-write [] i h =
    ap (λ t. from_le_bytes (take 8 t)) (drop-nil (i * 32)) ∙ unfold from_le_bytes in refl
read_key_at-write (r ∷ rs) zero (hr, hs) =
    unfold encode_fixed to_le_bytes in from_le_bytes-to_le_bytes 8 r.key hr.key_fits
read_key_at-write (r ∷ rs) (suc i) (hr, hs) =
    ap (λ t. from_le_bytes (take 8 t)) (drop_record r (write_fixed_records rs) i)
    ∙ read_key_at-write rs i hs

read_record_at-write :
    (rs : List ChunkRecord) (i : ℕ)
    → All IsRecord rs
    → i < length rs
    → ok_of (read_record_at (write_fixed_records rs) i) ≡ get_elem? rs i
unfolding read_record_at write_fixed_records
read_record_at-write [] i h k = absurd (omega arith)
read_record_at-write (r ∷ rs) zero (hr, hs) k =
    ap (λ t. ok_of (decode_fixed t))
      (take-append 32 (encode_fixed r) (write_fixed_records rs) (length-encode_fixed r))
    ∙ ap ok_of (decode_fixed-encode_fixed r hr)
read_record_at-write (r ∷ rs) (suc i) (hr, hs) k =
    ap (λ t. ok_of (decode_fixed (take 32 t))) (drop_record r (write_fixed_records rs) i)
    ∙ read_record_at-write rs i hs (omega arith)

before_inside :
    (f g : ℕ → Option ChunkRecord) (n p : ℕ)
    → ((i : ℕ) → i < n → f i ≡ g i)
    → p ≤ n
    → before p f ≡ before p g
before_inside f g n zero h k = refl
before_inside f g n (suc p) h k = h p k

at_found_inside :
    (f g : ℕ → Option ChunkRecord) (key_at : ℕ → ℕ) (n key : ℕ) (o : Option ℕ)
    → ((i : ℕ) → i < n → f i ≡ g i)
    → Finds key_at n key o
    → at_found o f ≡ at_found o g
at_found_inside f g key_at n key none h k = refl
at_found_inside f g key_at n key (some i) h (k, e) = h i k

-- The file that `to_btree` and `purge` write for a list of records.
abbrev pub index_of : ℕ → List ChunkRecord → List ℕ
index_of max_snap rs = write_index_header max_snap ++ write_fixed_records rs

module _ (rs : List ChunkRecord) (valid : All IsRecord rs) (strict : IsStrict rs)
    (max_snap : ℕ) where
  body : drop 16 (index_of max_snap rs) ≡ write_fixed_records rs
  body =
      drop-append 16 (write_index_header max_snap) (write_fixed_records rs)
        (length-write_header index_file max_snap)

  keys : read_key_at (drop 16 (index_of max_snap rs)) ≡ key_or rs
  keys = ap read_key_at body ∙ fun_ext λ i. read_key_at-write rs i valid

  records :
      (i : ℕ)
      → i < length rs
      → ok_of (read_record_at (drop 16 (index_of max_snap rs)) i) ≡ get_elem? rs i
  records i h = ap (λ t. ok_of (read_record_at t i)) body ∙ read_record_at-write rs i valid h

  -- The floor query on the bytes of an index is the newest record of the address.
  pub floor_mmap-newest :
      (pa s : ℕ)
      → pa < 2 ^ 45
      → s < 2 ^ 19
      → floor_mmap (index_of max_snap rs) (length rs) (encode_key pa s) pa ≡ newest pa s rs
  unfolding floor_mmap
  floor_mmap-newest pa s hp hs =
      let key = encode_key pa s in
      let splits =
        floor_loop_all-Splits (key_or rs) (length rs) (key_or-IsAscending rs strict) key in
      ap
        (λ f. of_pa pa (
          before (floor_loop f key (length rs) 0 (length rs))
            (λ i. ok_of (read_record_at (drop 16 (index_of max_snap rs)) i))))
        keys
      ∙ ap (of_pa pa) (
          before_inside _ (get_elem? rs) (length rs) _ records splits.inside
          ∙ before-Splits rs key _ splits)
      ∙ of_pa-last_le pa s hp hs rs strict

  -- The exact lookup in the bytes of an index finds the record with the key.
  pub exact_mmap-find_key :
      (key : ℕ) → exact_mmap (index_of max_snap rs) (length rs) key ≡ find_key key rs
  unfolding exact_mmap
  exact_mmap-find_key key =
      let finds = exact_loop_all-Finds (key_or rs) (length rs) (key_or-IsAscending rs strict) key in
      ap
        (λ f.
          at_found (exact_loop f key (length rs) 0 (length rs))
            (λ i. ok_of (read_record_at (drop 16 (index_of max_snap rs)) i)))
        keys
      ∙ at_found_inside _ (get_elem? rs) (key_or rs) (length rs) key _ records finds
      ∙ at_found-Finds rs key _ strict finds
