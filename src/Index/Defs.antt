-- ===== src/Index/Defs.antt =====
-- `floor_mmap`, `exact_mmap`, `floor_sorted`, `exact_sorted` and what they read.
use bxdb.Base.{ℕ, zero, suc, ◌+◌, ◌-◌, ◌*◌, ◌/◌, Option, none, some, List, [], ◌∷◌}
use bxdb.Base.{Result, ok, leb, ltb, ◌==◌, if◌then◌else◌, slice, drop, get_elem?, map}
use bxdb.Base.Bytes.{from_le_bytes}
use bxdb.Chunk.Key.{pa_of}
use bxdb.Chunk.Record.{ChunkRecord, decode_fixed, fixed_record_size}
use bxdb.Format.{header_size}

unfoldable pub read_key_at : List ℕ → ℕ → ℕ
read_key_at body idx = from_le_bytes (slice body (idx * fixed_record_size) 8)

unfoldable pub read_record_at : List ℕ → ℕ → Result ChunkRecord
read_record_at body idx = decode_fixed (slice body (idx * fixed_record_size) fixed_record_size)

-- `.ok()`; a panic is none of its inputs here, since `decode_fixed` has none.
abbrev pub ok_of {ℓ} : {A : Type ℓ} → Result A → Option A
ok_of (ok a) = some a
ok_of _ = none

-- `while lo < hi`, with the keys as a function of the index. The range shrinks in each round,
-- so that its size is fuel enough.
unfoldable pub floor_loop : (ℕ → ℕ) → ℕ → ℕ → ℕ → ℕ → ℕ
floor_loop key_at key zero lo hi = lo
floor_loop key_at key (suc fuel) lo hi =
    let mid = lo + (hi - lo) / 2 in
    let above = floor_loop key_at key fuel (mid + 1) hi in
    let below = floor_loop key_at key fuel lo mid in
    if ltb lo hi then (if leb (key_at mid) key then above else below) else lo

-- `if pa_of(rec.key) == pa { Some(rec) } else { None }`
abbrev pub of_pa : ℕ → Option ChunkRecord → Option ChunkRecord
of_pa pa none = none
of_pa pa (some rec) = if pa_of rec.key == pa then some rec else none

-- What is at the index before `lo`, if there is one.
abbrev pub before {ℓ} : {A : Type ℓ} → ℕ → (ℕ → Option A) → Option A
before zero at = none
before (suc idx) at = at idx

unfoldable pub floor_mmap : List ℕ → ℕ → ℕ → ℕ → Option ChunkRecord
floor_mmap bytes n key pa =
    let body = drop header_size bytes in
    let lo = floor_loop (read_key_at body) key n 0 n in
    of_pa pa (before lo (λ idx. ok_of (read_record_at body idx)))

-- The loop of `exact_mmap`: the index that it stops at with an equal key.
unfoldable pub exact_loop : (ℕ → ℕ) → ℕ → ℕ → ℕ → ℕ → Option ℕ
exact_loop key_at key zero lo hi = none
exact_loop key_at key (suc fuel) lo hi =
    let mid = lo + (hi - lo) / 2 in
    let above = exact_loop key_at key fuel (mid + 1) hi in
    let below = exact_loop key_at key fuel lo mid in
    let next = if ltb (key_at mid) key then above else below in
    let found = if key_at mid == key then some mid else next in if ltb lo hi then found else none

abbrev pub at_found {ℓ} : {A : Type ℓ} → Option ℕ → (ℕ → Option A) → Option A
at_found none at = none
at_found (some i) at = at i

unfoldable pub exact_mmap : List ℕ → ℕ → ℕ → Option ChunkRecord
exact_mmap bytes n key =
    let body = drop header_size bytes in
    at_found (exact_loop (read_key_at body) key n 0 n) (λ idx. ok_of (read_record_at body idx))

-- `keys.partition_point(|&k| k <= key)` of the standard library: on keys that are partitioned
-- by the test, the number of those that pass it.
unfoldable pub partition_point_le : List ℕ → ℕ → ℕ
partition_point_le [] key = 0
partition_point_le (k ∷ keys) key = if leb k key then suc (partition_point_le keys key) else 0

-- `keys.binary_search(&key)` of the standard library: on ascending keys, an index with the key.
unfoldable pub binary_search : List ℕ → ℕ → Option ℕ
binary_search [] key = none
binary_search (k ∷ keys) key =
    if k == key
    then some 0
    else elim (binary_search keys key) [ none ↦ none | some i ↦ some (suc i) ]

unfoldable pub floor_sorted : List ℕ → List ChunkRecord → ℕ → ℕ → Option ChunkRecord
unfolding partition_point_le
floor_sorted keys records key pa =
    of_pa pa (before (partition_point_le keys key) (get_elem? records))

unfoldable pub exact_sorted : List ℕ → List ChunkRecord → ℕ → Option ChunkRecord
unfolding binary_search
exact_sorted keys records key = at_found (binary_search keys key) (get_elem? records)

-- `records.iter().map(|r| r.key).collect()`
abbrev pub keys_of : List ChunkRecord → List ℕ
keys_of records = map (λ r. r.key) records
