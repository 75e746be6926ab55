-- ===== src/Write/Pass.antt =====
-- The parallel pass of `save_all_pages` and `save_pages_with_bitmap`. Each page is handled by one
-- task and touches the shadow only at its own address, so that a run of the pool is told by the
-- order in which the pages append to their files: a list of addresses, in any order.
pub mod Readers
pub mod Invariant
pub mod Schedule
use bxdb.Base.{
  ℕ, ◌*◌, ◌%◌, ◌^◌, Option, none, some, List, [], ◌∷◌, Result, ok, err, panic, ◌>>=◌, ◌==◌, slice,
  Bool,
}
use bxdb.Base.{if◌then◌else◌}
use bxdb.Chunk.Record.{ChunkRecord}
use bxdb.Chunk.Patch.{page_size}
use bxdb.Store.Zstd.{Zstd}
use bxdb.Write.Shadow.{Shadow}
use bxdb.Write.Defs.{BlobFile, Writer, process_one}

-- `slots` is the buffer of records, by the address that a slot is for; `none` is a slot that was
-- not written.
pub record Pass : Type 0 where
  pub shadow : Shadow
  pub files : ℕ → BlobFile
  pub slots : ℕ → Option ChunkRecord

abbrev pub update {ℓ} : {A : Type ℓ} → (ℕ → A) → ℕ → A → ℕ → A
update f i a j = if j == i then a else f j

abbrev pub page_at : List ℕ → ℕ → List ℕ
page_at memory pa = slice memory (pa * page_size) page_size

module _ (z : Zstd) (memory : List ℕ) (snapshot_id threshold : ℕ) (use_shadow : Bool)
    (blob_count : ℕ) where
  -- The body of the loop over the pages.
  unfoldable pub save_page : ℕ → Pass → Result Pass
  save_page pa pass = do
    let wid = pa % blob_count
    (rec, w) ←
        process_one z pa (page_at memory pa) snapshot_id (wid % 2 ^ 8) threshold use_shadow
          (record { shadow = pass.shadow; blob = pass.files wid })
    ok (record {
      shadow = w.shadow;
      files = update pass.files wid w.blob;
      slots = update pass.slots pa (some rec);
    })

  -- The pages in their order. An error ends the run; what was done before it stays.
  unfoldable pub run_pass : List ℕ → Pass → Pass × Result (Unit {0})
  unfolding save_page
  run_pass [] pass = (pass, ok tt)
  run_pass (pa ∷ order) pass = elim (save_page pa pass) [
    | panic ↦ (pass, panic)
    | err e ↦ (pass, err e)
    | ok after ↦ run_pass order after
  ]
