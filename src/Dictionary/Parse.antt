-- ===== src/Dictionary/Parse.antt =====
-- Keywords that are printed with their escapes are parsed back.
use aflgo.Common.{
  ℕ, ◌+◌, ◌*◌, ◌/◌, ◌%◌, ◌<◌, ◌≡◌, refl, ap, ◌∙◌, arith, ltb, leb, ◌==◌, ==_iff, if◌then◌else◌,
  Bool, true, false, Bool-cases, inl, inr, ◌&&◌, ◌||◌, &&_parts, ||_off, some, List, [], ◌∷◌, ◌++◌,
  length, All, all_below, all_below_sound,
}
use aflgo.Bitmap.Memory.{IsByte, IsBytes}
use aflgo.Stages.Extras.{max_dict_file}
use aflgo.Dictionary.{
  Line, skipped, token, fatal, empty_keyword, too_big, between, isspace, isalnum, isxdigit,
  hex_value, drop_while, trim_right, consume_quote, plain, prepend, unescape, limit_size, keyword,
  parse_value, parse_level, parse_pair, parse_line,
}

-- The reference: a byte as itself, behind a backslash, or as two hexadecimal digits.
abbrev pub hex_char : ℕ → ℕ
hex_char n = if ltb n 10 then 48 + n else 87 + n

abbrev pub escaped : ℕ → List ℕ
escaped b =
    if b == b'\\' || b == b'"'
    then b'\\' ∷ b ∷ []
    else if between 32 127 b
    then b ∷ []
    else b'\\' ∷ b'x' ∷ hex_char (b / 16) ∷ hex_char (b % 16) ∷ []

abbrev pub encode : List ℕ → List ℕ
encode [] = []
encode (b ∷ bs) = escaped b ++ encode bs

-- A line `label="keyword"`.
abbrev pub printed : List ℕ → List ℕ → List ℕ
printed label tok = (label ++ (b'=' ∷ b'"' ∷ encode tok)) ++ (b'"' ∷ [])

hex_check : ℕ → Bool
hex_check n = isxdigit (hex_char n) && hex_value (hex_char n) == n

hex_back : (n : ℕ) → n < 16 → (isxdigit (hex_char n) ≡ true) × (hex_value (hex_char n) ≡ n)
unfolding hex_check all_below
hex_back n small =
    let parts =
      &&_parts (isxdigit (hex_char n)) (hex_value (hex_char n) == n)
        (all_below_sound 16 hex_check n refl small) in
    (parts.0, (==_iff (hex_value (hex_char n)) n).0 parts.1)

prepend_nil : (l : Line) → prepend [] l ≡ l
prepend_nil skipped = refl
prepend_nil (token t) = refl
prepend_nil (fatal p) = refl

unescape-escaped :
    (b : ℕ) (rest : List ℕ)
    → IsByte b
    → unescape plain (escaped b ++ rest) ≡ prepend (b ∷ []) (unescape plain rest)
unfolding unescape
unescape-escaped b rest small =
    let back : b / 16 * 16 + b % 16 ≡ b = omega arith in
    let hi = hex_back (b / 16) (omega arith) in
    let lo = hex_back (b % 16) (omega arith) in
    elim (Bool-cases (b == b'\\' || b == b'"')) [
      | inl special ↦ rw (special, special) (prepend_nil (prepend (b ∷ []) (unescape plain rest)))
      | inr normal ↦ rw normal (elim (Bool-cases (between 32 127 b)) [
        | inl shown ↦
            let control : between 1 31 b ≡ false = ground arith in
            let wide : leb 128 b ≡ false = ground arith in
            rw (shown, control, wide, (||_off (b == b'\\') (b == b'"') normal).0) refl
        | inr hidden ↦
            rw (hidden, hi.0, lo.0, hi.1, lo.1, back)
              (prepend_nil _ ∙ prepend_nil _ ∙ prepend_nil (prepend (b ∷ []) (unescape plain rest)))
      ])
    ]

unescape-encode : (tok : List ℕ) → IsBytes tok → unescape plain (encode tok) ≡ token tok
unfolding unescape
unescape-encode [] h = refl
unescape-encode (b ∷ tok) h =
    unescape-escaped b (encode tok) h.0 ∙ ap (prepend (b ∷ [])) (unescape-encode tok h.1)

-- What the parser makes of a printed keyword.
abbrev pub expected : List ℕ → Line
expected [] = fatal empty_keyword
expected (b ∷ tok) = if ltb max_dict_file (length (b ∷ tok)) then fatal too_big else token (b ∷ tok)

keyword_lem :
    (value : List ℕ) (b : ℕ) (tok : List ℕ)
    → unescape plain value ≡ token (b ∷ tok)
    → keyword value ≡ expected (b ∷ tok)
unfolding unescape
keyword_lem [] b tok h = absurd (cc h)
keyword_lem (c ∷ value) b tok h = ap limit_size h

keyword-encode : (tok : List ℕ) → IsBytes tok → keyword (encode tok) ≡ expected tok
keyword-encode [] h = refl
keyword-encode (b ∷ tok) h = keyword_lem (encode (b ∷ tok)) b tok (unescape-encode (b ∷ tok) h)

trim_right-quote : (xs : List ℕ) → trim_right (xs ++ (b'"' ∷ [])) ≡ xs ++ (b'"' ∷ [])
trim_right-quote [] = refl
trim_right-quote (x ∷ []) = refl
trim_right-quote (x ∷ y ∷ xs) = rw (trim_right-quote (y ∷ xs)) refl

consume_quote-quote : (xs : List ℕ) → consume_quote (xs ++ (b'"' ∷ [])) ≡ some xs
consume_quote-quote [] = refl
consume_quote-quote (x ∷ []) = refl
consume_quote-quote (x ∷ y ∷ xs) = rw (consume_quote-quote (y ∷ xs)) refl

drop_while-append :
    (p : ℕ → Bool) (xs ys : List ℕ)
    → All (λ c. p c ≡ true) xs
    → drop_while p (xs ++ ys) ≡ drop_while p ys
drop_while-append p [] ys h = refl
drop_while-append p (x ∷ xs) ys h = rw h.0 (drop_while-append p xs ys h.1)

-- A label of letters and digits.
abbrev pub IsLabel : List ℕ → Type 0
IsLabel label = All (λ c. isalnum c ≡ true) label

label_chars : (label : List ℕ) → IsLabel label → All (λ c. (isalnum c || c == b'_') ≡ true) label
label_chars [] h = tt
label_chars (c ∷ label) h = (rw (h.0) refl, label_chars label h.1)

parse_pair-printed :
    (dict_level : ℕ) (label tok : List ℕ)
    → IsLabel label
    → IsBytes tok
    → parse_pair dict_level (printed label tok) ≡ expected tok
unfolding parse_pair parse_level parse_value
parse_pair-printed dict_level label tok h g =
    rw
      (
        consume_quote-quote (label ++ (b'=' ∷ b'"' ∷ encode tok)),
        drop_while-append (λ c. isalnum c || c == b'_') label (b'=' ∷ b'"' ∷ encode tok)
            (label_chars label h),
        parse_pair,
      )
      (keyword-encode tok g)

-- A keyword of bytes, printed behind a label of letters and digits with its quotes, backslashes and other bytes that are not
-- printable escaped, is parsed back at each dictionary level, unless it is empty or longer than 128 bytes; then
-- the parser stops, with the problem that says so.
pub parse_line-printed :
    (dict_level : ℕ) (label tok : List ℕ)
    → IsLabel label
    → IsBytes tok
    → parse_line dict_level (printed label tok) ≡ expected tok
unfolding parse_line
parse_line-printed dict_level [] tok h g =
    rw (trim_right-quote (b'=' ∷ b'"' ∷ encode tok), parse_line)
      (parse_pair-printed dict_level [] tok h g)
parse_line-printed dict_level (c ∷ label) tok h g =
    let no_space : isspace c ≡ false = ground arith in
    let no_comment : (c == b'#') ≡ false = ground arith in
    rw
      (no_space, trim_right-quote (c ∷ label ++ (b'=' ∷ b'"' ∷ encode tok)), no_comment, parse_line)
      (parse_pair-printed dict_level (c ∷ label) tok h g)
