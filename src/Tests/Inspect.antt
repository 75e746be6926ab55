-- ===== src/Tests/Inspect.antt =====
-- The theorems on the browser.
use bxdb.Base.{ℕ, ◌≡◌, refl, [], ◌∷◌, List, Option, some, none, map, false, get_elem?}
use bxdb.Chunk.Key.{pa_of}
use bxdb.Chunk.Record.{ChunkRecord}
use bxdb.Inspect.{
  KeyCode, KeyModifiers, char, enter, down, end_key, new_app, apply_filter, filter_from,
}
use bxdb.Inspect.Parse.{
  parse_filter_input, split_whitespace, parse_tokens, from_str_radix, from_digits, all_chars,
}
use bxdb.Inspect.{from_records, add_records, decode_delta}
use bxdb.Inspect.Filter.{IsFiltered, apply_filter-IsFiltered}
use bxdb.Tests.Data.{log_records}

abbrev unpack : List ℕ → Option (List ℕ)
unpack blob = some blob

abbrev plain : KeyModifiers
plain = record { shift = false; control = false; others = false }

-- `f`, `0x3`, Enter, down, `e`, `/`, Enter, `f`, End
abbrev keys : List (KeyCode × KeyModifiers)
keys =
    map (λ k. (k, plain))
      (char 102
        ∷ char 48
        ∷ char 120
        ∷ char 51
        ∷ enter
        ∷ down
        ∷ char 101
        ∷ char 47
        ∷ enter
        ∷ char 102
        ∷ end_key
        ∷ [])

apply_filter-IsFiltered_example :
    (indices : List ℕ) × (rows : List ChunkRecord) × ((apply_filter
        (new_app log_records)
        none
        (some 3)).filtered_indices
      ≡ some indices)
    × (map (get_elem? log_records) indices ≡ map some rows)
    × IsFiltered none (some 3) log_records rows
apply_filter-IsFiltered_example = apply_filter-IsFiltered (new_app log_records) none (some 3)

address_3 : parse_filter_input (48 ∷ 120 ∷ 51 ∷ 32 ∷ 49 ∷ 50 ∷ []) ≡ (some 12, some 3)
unfolding parse_filter_input split_whitespace parse_tokens from_str_radix from_digits all_chars
address_3 = refl

rows_of_3 : filter_from 0 none (some 3) log_records ≡ (0 ∷ 2 ∷ [])
unfolding filter_from pa_of
rows_of_3 = refl

bytes_of_deltas : (from_records log_records).delta_bytes ≡ 20
unfolding add_records
bytes_of_deltas = refl

half_a_patch : decode_delta (1 ∷ 2 ∷ []) ≡ none
unfolding decode_delta
half_a_patch = refl
