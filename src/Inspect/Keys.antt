-- ===== src/Inspect/Keys.antt =====
-- `event_loop` of bxdb-inspect/src/main.rs: what the keys do, in the list and in the two lines.
use bxdb.Base.{ℕ, ◌+◌, ◌-◌, min, Option, none, some, List, [], ◌∷◌, ◌++◌}
use bxdb.Base.{Bool, true, false, not, leb, ltb, ◌==◌, ◌&&◌, ◌||◌, if◌then◌else◌, Result, ok, ◌>>=◌}
use bxdb.Chunk.Record.{is_full}
use bxdb.Store.{BlobReaders}
use bxdb.Inspect.Defs.{
  App, move_up, move_down, go_to, record_at, apply_filter, clear_filter, ensure_detail,
}
use bxdb.Inspect.Parse.{is_hexdigit, parse_filter_input}

pub data KeyCode : Type 0 where
  esc enter backspace up down page_up page_down home end_key other_key : KeyCode
  char : ℕ → KeyCode

-- `others` is whether any other modifier is held.
pub record KeyModifiers : Type 0 where
  pub shift : Bool
  pub control : Bool
  pub others : Bool

-- `KeyModifiers::CONTROL`, and nothing else.
abbrev pub is_control_key : KeyModifiers → Bool
is_control_key m = m.control && not m.shift && not m.others

-- `String::pop`
unfoldable pub pop : List ℕ → List ℕ
pop [] = []
pop (c ∷ []) = []
pop (c ∷ d ∷ cs) = let rest = pop (d ∷ cs) in c ∷ rest

abbrev pub utf8_length : ℕ → ℕ
utf8_length c = if ltb c 0x80 then 1 else if ltb c 0x800 then 2 else if ltb c 0x10000 then 3 else 4

-- `String::len`
unfoldable pub byte_length : List ℕ → ℕ
byte_length [] = 0
byte_length (c ∷ cs) = utf8_length c + byte_length cs

abbrev pub is_given : Option ℕ → Option ℕ → Bool
is_given none none = false
is_given none (some p) = true
is_given (some s) pa = true

-- Enter in the line of the filter, which is closed.
unfoldable pub enter_filter : App → List ℕ → App
unfolding apply_filter clear_filter parse_filter_input
enter_filter app [] = clear_filter (record app { filter_input = none })
enter_filter app (c ∷ cs) =
    let parts = parse_filter_input (c ∷ cs) in
    let closed = record app { filter_input = none } in
    if is_given parts.0 parts.1 then apply_filter closed parts.0 parts.1 else closed

unfoldable pub filter_key : App → List ℕ → KeyCode → App
unfolding enter_filter pop byte_length
filter_key app line esc = record app { filter_input = none }
filter_key app line enter = enter_filter app line
filter_key app line backspace = record app { filter_input = some (pop line) }
filter_key app line (char c) =
    if (is_hexdigit c || c == 120 || c == 88 || c == 32) && ltb (byte_length line) 40
    then record app { filter_input = some (line ++ (c ∷ [])) }
    else app
filter_key app line _ = app

-- `char::is_control`
abbrev pub is_control : ℕ → Bool
is_control c = ltb c 32 || leb 127 c && ltb c 160

-- Enter writes the file, which changes nothing but the status that is shown.
unfoldable pub export_key : App → List ℕ → KeyCode → App
unfolding pop byte_length
export_key app line esc = record app { export_input = none }
export_key app line enter = record app { export_input = none }
export_key app line backspace = record app { export_input = some (pop line) }
export_key app line (char c) =
    if not (is_control c) && ltb (byte_length line) 255
    then record app { export_input = some (line ++ (c ∷ [])) }
    else app
export_key app line _ = app

-- The key `f`.
unfoldable pub toggle_filter : App → App
unfolding clear_filter
toggle_filter app =
    if is_given app.filter_snapshot app.filter_pa
    then clear_filter app
    else record app { filter_input = some [] }

-- The key `e`.
abbrev pub export_of : App → Option ℕ → Result App
export_of app none = ok app
export_of app (some i) = do
  rec ← record_at app i
  ok (if is_full rec.kind then record app { export_input = some [] } else app)

unfoldable pub open_export : App → Result App
unfolding record_at
open_export app = export_of app app.selected

abbrev pub go_on : App → Result (Option App)
go_on app = ok (some app)

abbrev pub scroll_up : App → ℕ → App
scroll_up app n = record app { detail_scroll = app.detail_scroll - n }

-- `saturating_add` on a `u16`
abbrev pub scroll_down : App → ℕ → App
scroll_down app n = record app { detail_scroll = min (app.detail_scroll + n) 65535 }

-- The characters, in the order of the arms; `none` leaves the loop.
unfoldable pub char_key : App → ℕ → KeyModifiers → Result (Option App)
unfolding move_up move_down go_to toggle_filter open_export
char_key app c m =
    if c == 113 || c == 99 && is_control_key m
    then ok none
    else if c == 102
    then go_on (toggle_filter app)
    else if c == 101
    then (open_export app >>= go_on)
    else if c == 107 && not m.shift
    then go_on (move_up app 1)
    else if c == 106 && not m.shift
    then go_on (move_down app 1)
    else if c == 103
    then go_on (go_to app 0)
    else if c == 71
    then go_on (go_to app 0xffff_ffff_ffff_ffff)
    else if c == 75
    then go_on (scroll_up app 1)
    else if c == 74
    then go_on (scroll_down app 1)
    else if c == 117 && is_control_key m
    then go_on (scroll_up app 10)
    else if c == 100 && is_control_key m
    then go_on (scroll_down app 10)
    else go_on app

unfoldable pub list_key : App → KeyCode → KeyModifiers → Result (Option App)
unfolding char_key move_up move_down go_to
list_key app esc m = ok none
list_key app (char c) m = char_key app c m
list_key app up m = go_on (move_up app 1)
list_key app down m = go_on (move_down app 1)
list_key app page_up m = go_on (move_up app 10)
list_key app page_down m = go_on (move_down app 10)
list_key app home m = go_on (go_to app 0)
list_key app end_key m = go_on (go_to app 0xffff_ffff_ffff_ffff)
list_key app _ m = go_on app

-- The line of the filter comes before that of the export, and both before the list.
abbrev pub key_in :
    Option (List ℕ) → Option (List ℕ) → App → KeyCode → KeyModifiers → Result (Option App)
key_in (some line) export_line app k m = go_on (filter_key app line k)
key_in none (some line) app k m = go_on (export_key app line k)
key_in none none app k m = list_key app k m

unfoldable pub on_key : App → KeyCode → KeyModifiers → Result (Option App)
unfolding filter_key export_key list_key
on_key app k m = key_in app.filter_input app.export_input app k m

abbrev pub unless_left : (App → Result App) → App → Option App → Result App
unless_left continue app none = ok app
unless_left continue app (some next) = continue next

-- The loop over the presses of keys: each round draws the screen first. At the end of the list it
-- waits for the next press.
unfoldable pub event_loop :
    (List ℕ → Option (List ℕ)) → BlobReaders → App → List (KeyCode × KeyModifiers) → Result App
unfolding ensure_detail on_key
event_loop decode_all blobs app [] = ensure_detail decode_all blobs app
event_loop decode_all blobs app ((k, m) ∷ keys) = do
  drawn ← ensure_detail decode_all blobs app
  next ← on_key drawn k m
  unless_left (λ a. event_loop decode_all blobs a keys) drawn next
