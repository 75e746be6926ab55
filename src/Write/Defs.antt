-- ===== src/Write/Defs.antt =====
-- `append_blob` and `process_one`.
use bxdb.Base.{ℕ, ◌+◌, ◌^◌, Option, none, some, List, ◌++◌, Bool, Result, ok, ◌>>=◌, ◌>>◌}
use bxdb.Base.{guard, blob_too_large, ltb, leb, if◌then◌else◌, length}
use bxdb.Chunk.Key.{encode_key}
use bxdb.Chunk.Record.{ChunkRecord, new_full, new_delta, new_zero}
use bxdb.Chunk.Patch.{is_all_zero, compute_xor_patch, encode_delta_patch}
use bxdb.Store.Zstd.{Zstd}
use bxdb.Write.Shadow.{Shadow, ShadowEntry, get, insert_if_newer}

-- A blob file behind its lock: the bytes that were handed to its writer, in their order, and the
-- counter. The file itself, which readers open, has them after a `flush` (Save/State).
pub record BlobFile : Type 0 where
  pub written : List ℕ
  pub offset : ℕ

-- The offset and length of what was appended. The bytes are written before the length is
-- tested; an error drops the handle's state here, and the caller's call fails.
unfoldable pub append_blob : BlobFile → List ℕ → Result ((ℕ × ℕ) × BlobFile)
append_blob blob bytes = do
  guard (ltb (length bytes) (2 ^ 32)) blob_too_large
  ok (
    (blob.offset, length bytes),
    record { written = blob.written ++ bytes; offset = blob.offset + length bytes },
  )

-- What `process_one` reads and changes.
pub record Writer : Type 0 where
  pub shadow : Shadow
  pub blob : BlobFile

module _ (z : Zstd) (pa : ℕ) (page : List ℕ) (snapshot_id worker_id threshold : ℕ)
    (use_shadow : Bool) where
  -- The full record: compress, append, and put the page into the shadow.
  unfoldable pub write_full : Writer → Result (ChunkRecord × Writer)
  write_full w = do
    let key = encode_key pa snapshot_id
    bytes ← z.compress page
    ((offset, len), blob) ← append_blob w.blob bytes
    let shadow = if use_shadow then insert_if_newer w.shadow pa key page else w.shadow
    ok (new_full key worker_id offset len, record { shadow = shadow; blob = blob })

  -- The patch against a base where it is small enough, else the full record.
  unfoldable pub write_against : Option ShadowEntry → Writer → Result (ChunkRecord × Writer)
  write_against none w = write_full w
  write_against (some (base_key, base_page)) w =
      let patch = compute_xor_patch page base_page in
      let small = append_blob w.blob (encode_delta_patch patch) >>= λ ((offset, len), blob). ok (
        new_delta (encode_key pa snapshot_id) worker_id offset len base_key,
        record w { blob = blob },
      ) in
      if leb (length patch) threshold then small else write_full w

  unfoldable pub process_one : Writer → Result (ChunkRecord × Writer)
  unfolding write_full write_against
  process_one w =
      if is_all_zero page
      then ok (new_zero (encode_key pa snapshot_id), w)
      else if use_shadow
      then write_against (get w.shadow pa) w
      else write_full w
