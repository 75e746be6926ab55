-- ===== src/Inspect/Parse.antt =====
-- `parse_filter_input` of bxdb-inspect/src/main.rs. Characters are their code points.
use bxdb.Base.{ℕ, ◌+◌, ◌-◌, ◌*◌, ◌^◌, Option, none, some, List, [], ◌∷◌, ◌++◌}
use bxdb.Base.{Bool, true, ltb, leb, ◌==◌, ◌&&◌, ◌||◌, if◌then◌else◌}

-- The whitespace of ASCII; the line that is parsed has no other than spaces.
abbrev pub is_space : ℕ → Bool
is_space c = c == 32 || leb 9 c && leb c 13

abbrev push_token : List ℕ → List (List ℕ) → List (List ℕ)
push_token [] tokens = tokens
push_token (c ∷ token) tokens = (c ∷ token) ∷ tokens

-- `split_whitespace`, with the characters of the token that has begun.
unfoldable pub split_whitespace : List ℕ → List ℕ → List (List ℕ)
split_whitespace token [] = push_token token []
split_whitespace token (c ∷ line) =
    let begun = split_whitespace (token ++ (c ∷ [])) line in
    let ended = push_token token (split_whitespace [] line) in if is_space c then ended else begun

abbrev pub is_digit : ℕ → Bool
is_digit c = leb 48 c && leb c 57

abbrev pub is_hexdigit : ℕ → Bool
is_hexdigit c = is_digit c || leb 65 c && leb c 70 || leb 97 c && leb c 102

-- The value of a digit, in either case.
abbrev pub digit_value : ℕ → ℕ
digit_value c = if leb 97 c then c - 87 else if leb 65 c then c - 55 else c - 48

unfoldable pub all_chars : (ℕ → Bool) → List ℕ → Bool
all_chars test [] = true
all_chars test (c ∷ cs) = test c && all_chars test cs

-- The digits of a number below `bound`, after those of `acc`.
unfoldable pub from_digits : ℕ → ℕ → (ℕ → Bool) → ℕ → List ℕ → Option ℕ
from_digits radix bound is_one acc [] = some acc
from_digits radix bound is_one acc (c ∷ cs) =
    let next = acc * radix + digit_value c in
    let rest = from_digits radix bound is_one next cs in
    if is_one c && ltb next bound then rest else none

-- `from_str_radix` of an unsigned type: no digits are an error, and one `+` may stand before them.
unfoldable pub from_str_radix : ℕ → ℕ → (ℕ → Bool) → List ℕ → Option ℕ
unfolding from_digits
from_str_radix radix bound is_one [] = none
from_str_radix radix bound is_one (c ∷ []) = from_digits radix bound is_one 0 (c ∷ [])
from_str_radix radix bound is_one (c ∷ d ∷ cs) =
    if c == 43
    then from_digits radix bound is_one 0 (d ∷ cs)
    else from_digits radix bound is_one 0 (c ∷ d ∷ cs)

-- `if let Ok(n) = ..`
abbrev pub or_before : Option ℕ → Option ℕ → Option ℕ
or_before before none = before
or_before before (some n) = some n

-- The characters behind `0x` or `0X`.
abbrev pub hex_of : List ℕ → Option (List ℕ)
hex_of [] = none
hex_of (c ∷ []) = none
hex_of (c ∷ d ∷ cs) = if c == 48 && (d == 120 || d == 88) then some cs else none

abbrev pub parse_as : Option (List ℕ) → List ℕ → Option ℕ → Option ℕ → Option ℕ × Option ℕ
parse_as (some cs) token snap pa = (snap, or_before pa (from_str_radix 16 (2 ^ 64) is_hexdigit cs))
parse_as none token snap pa =
    if all_chars is_digit token
    then (or_before snap (from_str_radix 10 (2 ^ 32) is_digit token), pa)
    else (snap, pa)

unfoldable pub parse_tokens : List (List ℕ) → Option ℕ → Option ℕ → Option ℕ × Option ℕ
unfolding from_str_radix all_chars
parse_tokens [] snap pa = (snap, pa)
parse_tokens (token ∷ tokens) snap pa =
    let parts = parse_as (hex_of token) token snap pa in parse_tokens tokens parts.0 parts.1

unfoldable pub parse_filter_input : List ℕ → Option ℕ × Option ℕ
unfolding split_whitespace parse_tokens
parse_filter_input line = parse_tokens (split_whitespace [] line) none none
