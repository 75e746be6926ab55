-- ===== src/Inspect/Run.antt =====
-- Every run of keys of the browser (`event_loop` of bxdb-inspect/src/main.rs).
use bxdb.Base.{ℕ, ◌≡◌, Option, none, some, List, ◌⊎◌}
use bxdb.Base.{Result, ok}
use bxdb.Store.{BlobReaders}
use bxdb.Inspect.Defs.{App, Detail}
use bxdb.Inspect.State.{IsApp}

module _ (decode_all : List ℕ → Option (List ℕ)) (blobs : BlobReaders) where
  abbrev Valid : App → Type 0
  Valid app = IsApp decode_all blobs app

  -- A key that does not leave the loop gives a state that is in order, and no key panics.
  IsNext : Result (Option App) → Type 0
  IsNext r = (r ≡ ok none) ⊎ (next : App) × (r ≡ ok (some next)) × Valid next

  -- The screen shows the detail of the row that is selected.
  abbrev pub IsDrawn : App → Type 0
  IsDrawn app =
      (app.selected ≡ none)
      ⊎ (i : ℕ) × (d : Detail) × (app.selected ≡ some i) × (app.detail ≡ some (i, d))
