-- ===== src/Inspect/State.antt =====
-- The state of the browser: its rows, its selection and its detail, and what each change of the
-- state does to them (bxdb-inspect/src/main.rs).
use bxdb.Base.{ℕ, ◌-◌, ◌<◌, ◌≡◌, refl, sym, ap, ◌∙◌, arith, min, Option, none, some, List, inl, inr}
use bxdb.Base.{Bool-cases, ◌==◌, ==_iff, if◌then◌else◌, ok, length, All, some-injective}
use bxdb.Chunk.Record.{ChunkRecord}
use bxdb.Store.{BlobReaders}
use bxdb.Inspect.Defs.{
  App, Detail, active_count, new_app, select, record_at, filter_from, apply_filter, clear_filter,
  detail_of, show_detail, is_shown, ensure_selected, ensure_detail,
}
use mathlib.Core.Path.{subst}
use bxdb.Inspect.Filter.{IsMatch, apply_filter-IsMatch}
use bxdb.Inspect.Rows.{record_of_row, first_of-inside, first_of-none, detail_of_total}

module _ (decode_all : List ℕ → Option (List ℕ)) (blobs : BlobReaders) where
  -- The rows are records of the snapshot and the address of the filter, a row is selected if there
  -- is one, and the detail is that of its row.
  pub record IsApp (app : App) : Type 0 where
    pub rows :
        (indices : List ℕ)
        → app.filtered_indices ≡ some indices
        → All (IsMatch app.records app.filter_snapshot app.filter_pa) indices
    pub inside : (i : ℕ) → app.selected ≡ some i → i < active_count app
    pub unselected : app.selected ≡ none → active_count app ≡ 0
    pub detail_right :
        (i : ℕ) (d : Detail)
        → app.detail ≡ some (i, d)
        → (r : ChunkRecord) × (record_at app i ≡ ok r) × (detail_of decode_all blobs r ≡ ok d)

  pub select-IsApp : (app : App) (i : ℕ) → IsApp app → IsApp (select app i)
  unfolding record_at
  select-IsApp app i h = elim (Bool-cases (active_count app == 0)) [
    | inl e ↦ rw e h
    | inr e ↦ rw e (record {
      rows = h.rows;
      inside =
          λ j at. let same : min i (active_count app - 1) ≡ j = some-injective at in ground arith;
      unselected = λ at. cc;
      detail_right = h.detail_right;
    })
  ]

  pub apply_filter-IsApp : (app : App) (snap pa : Option ℕ) → IsApp (apply_filter app snap pa)
  unfolding apply_filter
  apply_filter-IsApp app snap pa = record {
    rows = λ indices e.
        subst (All (IsMatch app.records snap pa)) (some-injective e)
          (apply_filter-IsMatch app.records snap pa);
    inside = λ i at. first_of-inside (length (filter_from 0 snap pa app.records)) i at;
    unselected = λ at. first_of-none (length (filter_from 0 snap pa app.records)) at;
    detail_right = λ i d at. cc;
  }

  pub clear_filter-IsApp : (app : App) → IsApp (clear_filter app)
  unfolding clear_filter
  clear_filter-IsApp app = record {
    rows = λ indices e. cc;
    inside = λ i at. first_of-inside (length app.records) i at;
    unselected = λ at. first_of-none (length app.records) at;
    detail_right = λ i d at. cc;
  }

  pub new_app-IsApp : (records : List ChunkRecord) → IsApp (new_app records)
  new_app-IsApp records = record {
    rows = λ indices e. cc;
    inside = λ i at. first_of-inside (length records) i at;
    unselected = λ at. first_of-none (length records) at;
    detail_right = λ i d at. cc;
  }

  -- After a drawing the detail is there for the selection.
  pub ensure_detail-IsApp :
      (app : App)
      → IsApp app
      → (app' : App) × (ensure_detail decode_all blobs app ≡ ok app')
        × IsApp app'
        × (app'.selected ≡ app.selected)
        × ((i : ℕ) → app.selected ≡ some i → (d : Detail) × (app'.detail ≡ some (i, d)))
  unfolding ensure_detail record_at
  ensure_detail-IsApp app h = by_selection app.selected refl
    where
      drawn :
          (i : ℕ) (r : ChunkRecord) (d : Detail)
          → record_at app i ≡ ok r
          → detail_of decode_all blobs r ≡ ok d
          → IsApp (record app { detail = some (i, d) })
      drawn i r d at shown_d = record {
        rows = h.rows;
        inside = h.inside;
        unselected = h.unselected;
        detail_right = λ j d' e.
            let pair : (i, d) ≡ (j, d') = some-injective e in
            (
              r,
              ap (λ k. record_at app k) (sym (ap (λ p. p.0) pair)) ∙ at,
              shown_d ∙ ap ok (ap (λ p. p.1) pair),
            );
      }

      fresh :
          (i : ℕ)
          → app.selected ≡ some i
          → (app' : App) × (show_detail decode_all blobs app i ≡ ok app')
            × IsApp app'
            × (app'.selected ≡ app.selected)
            × ((j : ℕ) → some i ≡ some j → (d : Detail) × (app'.detail ≡ some (j, d)))
      fresh i sel =
          let (r, at) =
            record_of_row app.records app.filter_snapshot app.filter_pa app.filtered_indices i
              h.rows (h.inside i sel) in
          let (d, shown_d) = detail_of_total decode_all blobs r in
          (
            record app { detail = some (i, d) },
            rw (at, shown_d) refl,
            drawn i r d at shown_d,
            refl,
            λ j e. (d, ap (λ k. some (k, d)) (some-injective e)),
          )

      by_detail :
          (i : ℕ) (o : Option (ℕ × Detail))
          → app.selected ≡ some i
          → app.detail ≡ o
          → (app' : App) × ((if is_shown decode_all blobs o i
                then ok app
                else show_detail decode_all blobs app i)
              ≡ ok app')
            × IsApp app'
            × (app'.selected ≡ app.selected)
            × ((j : ℕ) → some i ≡ some j → (d : Detail) × (app'.detail ≡ some (j, d)))
      by_detail i none sel e = fresh i sel
      by_detail i (some (k, d)) sel e = elim (Bool-cases (k == i)) [
        | inl same ↦ rw same (
          app,
          refl,
          h,
          refl,
          λ j e'. (d, e ∙ ap (λ n. some (n, d)) ((==_iff k i).0 same ∙ some-injective e')),
        )
        | inr other ↦ rw other (fresh i sel)
      ]

      by_selection :
          (o : Option ℕ)
          → app.selected ≡ o
          → (app' : App) × (ensure_selected decode_all blobs app o ≡ ok app')
            × IsApp app'
            × (app'.selected ≡ app.selected)
            × ((i : ℕ) → o ≡ some i → (d : Detail) × (app'.detail ≡ some (i, d)))
      by_selection none e = (app, refl, h, refl, λ i at. cc)
      by_selection (some i) e = by_detail i app.detail e refl

  -- The scrolling of the detail and the lines that are typed change no row.
  pub lines-IsApp :
      (app : App) (scroll : ℕ) (filter_line export_line : Option (List ℕ))
      → IsApp app
      → IsApp (record app {
        detail_scroll = scroll;
        filter_input = filter_line;
        export_input = export_line;
      })
  unfolding record_at
  lines-IsApp app scroll filter_line export_line h = record {
    rows = h.rows;
    inside = h.inside;
    unselected = h.unselected;
    detail_right = h.detail_right;
  }

  -- A selected row is a record.
  pub selected_record :
      (app : App) (i : ℕ)
      → IsApp app
      → app.selected ≡ some i
      → (r : ChunkRecord) × (record_at app i ≡ ok r)
  unfolding record_at
  selected_record app i h sel =
      record_of_row app.records app.filter_snapshot app.filter_pa app.filtered_indices i h.rows
        (h.inside i sel)
