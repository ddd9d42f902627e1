-- ===== src/Dictionary.antt =====
-- The dictionaries of afl-2.57b/afl-fuzz.c: the parser of load_extras_file, for the bytes of a line
-- up to the first NUL. The character classes are those of the C locale.
pub mod Parse
pub mod Load
pub mod Auto
pub mod Tests
use aflgo.Common.{
  ℕ, zero, suc, ◌+◌, ◌-◌, ◌*◌, ◌^◌, ◌%◌, ◌==◌, ltb, leb, min, max, if◌then◌else◌, Bool, true, false,
  ◌&&◌, ◌||◌, Option, none, some, List, [], ◌∷◌, ◌++◌, length,
}
use aflgo.Stages.Extras.{max_dict_file}

-- The calls of FATAL.
pub data Problem : Type 0 where
  malformed_pair : Problem
  malformed_keyword : Problem
  empty_keyword : Problem
  non_printable : Problem
  invalid_escape : Problem
  too_big : Problem

-- What a line gives.
pub data Line : Type 0 where
  skipped : Line
  token : List ℕ → Line
  fatal : Problem → Line

abbrev pub between : ℕ → ℕ → ℕ → Bool
between lo hi c = leb lo c && leb c hi

abbrev pub isspace : ℕ → Bool
isspace c = c == 32 || between 9 13 c

abbrev pub isdigit : ℕ → Bool
isdigit c = between 48 57 c

abbrev pub isalnum : ℕ → Bool
isalnum c = isdigit c || between 65 90 c || between 97 122 c

abbrev pub isxdigit : ℕ → Bool
isxdigit c = isdigit c || between 65 70 c || between 97 102 c

-- `strchr(hexdigits, tolower(c)) - hexdigits`
abbrev pub hex_value : ℕ → ℕ
hex_value c = if isdigit c then c - 48 else if between 65 70 c then c - 55 else c - 87

abbrev pub drop_while : (ℕ → Bool) → List ℕ → List ℕ
drop_while p [] = []
drop_while p (c ∷ cs) = elim (p c) [ true ↦ drop_while p cs | false ↦ c ∷ cs ]

-- The loop on `rptr`.
abbrev pub trim_right : List ℕ → List ℕ
trim_right [] = []
trim_right (c ∷ cs) = elim (trim_right cs) [
  | [] ↦ (if isspace c then [] else c ∷ [])
  | d ∷ ds ↦ c ∷ d ∷ ds
]

-- The line without the quote that ends it.
abbrev pub consume_quote : List ℕ → Option (List ℕ)
consume_quote [] = none
consume_quote (c ∷ cs) = elim cs [
  | [] ↦ (if c == b'"' then some [] else none)
  | d ∷ ds ↦ elim (consume_quote cs) [ none ↦ none | some s ↦ some (c ∷ s) ]
]

-- `atoi` as a u32, as the comparison with `dict_level` takes it.
abbrev digits_value : ℕ → List ℕ → ℕ
digits_value acc [] = acc
digits_value acc (c ∷ cs) = elim (isdigit c) [
  | true ↦ digits_value (acc * 10 + (c - 48)) cs
  | false ↦ acc
]

abbrev signed_value : List ℕ → ℕ
signed_value [] = 0
signed_value (c ∷ cs) =
    if c == b'-'
    then (2 ^ 32 - digits_value 0 cs % 2 ^ 32) % 2 ^ 32
    else if c == b'+'
    then digits_value 0 cs
    else digits_value 0 (c ∷ cs)

abbrev atoi : List ℕ → ℕ
atoi s = signed_value (drop_while isspace s) % 2 ^ 32

-- The loop that undoes the escapes, a byte at a time: what has been read of an escape so far.
pub data Mode : Type 0 where
  plain : Mode
  slash : Mode
  hex : Mode
  hex_digit : ℕ → Mode
  failed : Problem → Mode

abbrev pub step : Mode → ℕ → Mode
step plain c =
    if between 1 31 c || leb 128 c
    then failed non_printable
    else if c == b'\\'
    then slash
    else plain
step slash c =
    if c == b'\\' || c == b'"' then plain else if c == b'x' then hex else failed invalid_escape
step hex c = if isxdigit c then hex_digit c else failed invalid_escape
step (hex_digit d) c = if isxdigit c then plain else failed invalid_escape
step (failed p) c = failed p

-- The byte that `*(wptr++)` stores.
abbrev pub stored : Mode → ℕ → List ℕ
stored plain c = if between 1 31 c || leb 128 c || c == b'\\' then [] else c ∷ []
stored slash c = if c == b'\\' || c == b'"' then c ∷ [] else []
stored hex c = []
stored (hex_digit d) c = if isxdigit c then (hex_value d * 16 + hex_value c) ∷ [] else []
stored (failed p) c = []

abbrev pub finish : Mode → Line
finish plain = token []
finish (failed p) = fatal p
finish mode = fatal invalid_escape

abbrev pub prepend : List ℕ → Line → Line
prepend bs (token t) = token (bs ++ t)
prepend bs skipped = skipped
prepend bs (fatal p) = fatal p

unfoldable pub unescape : Mode → List ℕ → Line
unescape mode [] = finish mode
unescape mode (c ∷ cs) = prepend (stored mode c) (unescape (step mode c) cs)

-- A keyword that is too long is fatal.
abbrev pub limit_size : Line → Line
limit_size (token t) = if ltb max_dict_file (length t) then fatal too_big else token t
limit_size skipped = skipped
limit_size (fatal p) = fatal p

-- Behind the quote that opens the keyword.
abbrev pub keyword : List ℕ → Line
keyword [] = fatal empty_keyword
keyword (c ∷ cs) = limit_size (unescape plain (c ∷ cs))

-- From the whitespace and = signs on.
unfoldable pub parse_value : List ℕ → Line
parse_value s = elim (drop_while (λ c. isspace c || c == b'=') s) [
  | [] ↦ fatal malformed_keyword
  | c ∷ value ↦ if c == b'"' then keyword value else fatal malformed_keyword
]

-- The level behind an @.
unfoldable pub parse_level : ℕ → List ℕ → Line
parse_level dict_level [] = parse_value []
parse_level dict_level (c ∷ cs) =
    if c == b'@'
    then (if ltb dict_level (atoi cs) then skipped else parse_value (drop_while isdigit cs))
    else parse_value (c ∷ cs)

unfoldable pub parse_pair : ℕ → List ℕ → Line
parse_pair dict_level s = elim (consume_quote s) [
  | none ↦ fatal malformed_pair
  | some pair ↦ parse_level dict_level (drop_while (λ c. isalnum c || c == b'_') pair)
]

unfoldable pub parse_line : ℕ → List ℕ → Line
parse_line dict_level line = elim (trim_right (drop_while isspace line)) [
  | [] ↦ skipped
  | c ∷ cs ↦ if c == b'#' then skipped else parse_pair dict_level (c ∷ cs)
]

-- The tokens of a file, or the problem and the number of its line.
pub data Loaded : Type 0 where
  loads : List (List ℕ) → Loaded
  stops : Problem → ℕ → Loaded

-- The loop over the lines; `extras` are the tokens so far.
unfoldable pub load_lines : ℕ → ℕ → List (List ℕ) → List (List ℕ) → Loaded
load_lines dict_level cur_line extras [] = loads extras
load_lines dict_level cur_line extras (line ∷ lines) = elim (parse_line dict_level line) [
  | skipped ↦ load_lines dict_level (cur_line + 1) extras lines
  | token t ↦ load_lines dict_level (cur_line + 1) (extras ++ (t ∷ [])) lines
  | fatal p ↦ stops p (cur_line + 1)
]

unfoldable pub load_extras_file : ℕ → List (List ℕ) → List (List ℕ) → Loaded
load_extras_file dict_level extras lines = load_lines dict_level 0 extras lines
