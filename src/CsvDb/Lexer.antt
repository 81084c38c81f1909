-- ===== src/CsvDb/Lexer.antt =====
-- `tokenize` of src/agent/tools/csv_db/predicate.rs, and `str::parse::<i64>`.
-- The loop over the characters takes fuel; the length of the input is enough. An index `i` of the
-- source is the length of the input less that of the rest.
pub mod Total
use personal_productivity_ai.Common.{
  ℕ, zero, suc, ◌+◌, ◌-◌, ◌*◌, ◌^◌, Bool, true, false, not, ◌&&◌, ◌||◌, Option, none, some, List,
  [], ◌∷◌, length, leb, ◌==◌, if◌then◌else◌,
}
use personal_productivity_ai.Common.Text.{Text, codes, text_eq}
use personal_productivity_ai.Common.Trim.{is_whitespace}
use personal_productivity_ai.Common.Int.{ℤ, pos, sub_ℕ}
use personal_productivity_ai.CsvDb.Value.{
  Float, Unicode, Value, Token, ident, str, eq, ne, lt, le, gt, ge, conj, disj, negation, plus,
  minus, star, slash, lparen, rparen, Error, unclosed_string, invalid_float, invalid_int,
  single_equals, single_ampersand, single_bar, unexpected_char, Outcome, ok, err, panic,
  out_of_fuel, ◌>>=◌,
}

unfoldable pub is_digit : ℕ → Bool
is_digit c = leb b'0' c && leb c b'9'

parse_digits : ℕ → Text → Option ℕ
unfolding is_digit
parse_digits acc [] = some acc
parse_digits acc (c ∷ s) = if is_digit c then parse_digits (acc * 10 + (c - b'0')) s else none

unsigned : Text → Option ℕ
unfolding parse_digits
unsigned [] = none
unsigned (c ∷ s) = parse_digits 0 (c ∷ s)

abbrev up_to : ℕ → (ℕ → ℤ) → Option ℕ → Option ℤ
up_to bound f none = none
up_to bound f (some n) = if leb n bound then some (f n) else none

-- `s.parse::<i64>().ok()`
unfoldable pub parse_i64 : Text → Option ℤ
unfolding unsigned
parse_i64 [] = none
parse_i64 (c ∷ s) =
    if c == b'-'
    then up_to (2 ^ 63) (sub_ℕ 0) (unsigned s)
    else up_to (2 ^ 63 - 1) pos (unsigned (if c == b'+' then s else c ∷ s))

abbrev push_char : ℕ → Option (Text × Text) → Option (Text × Text)
push_char c none = none
push_char c (some (s, rest)) = some (c ∷ s, rest)

-- The loop of a string literal: its text, and what stands behind the closing quote.
unfoldable pub scan_string : ℕ → Text → Option (Text × Text)
scan_string quote [] = none
scan_string quote (c ∷ []) = if c == quote then some ([], []) else none
scan_string quote (c ∷ d ∷ s) =
    let escaped = push_char d (scan_string quote s) in
    let plain = push_char c (scan_string quote (d ∷ s)) in
    if c == b'\\' then escaped else if c == quote then some ([], d ∷ s) else plain

pub record Number : Type 0 where
  pub digits : Text
  pub is_float : Bool
  pub rest : Text

-- The loop of a number: digits, and at most one dot.
unfoldable pub scan_number : Bool → Text → Number
unfolding is_digit
scan_number is_float [] = record { digits = []; is_float = is_float; rest = [] }
scan_number is_float (c ∷ s) =
    let more = scan_number (is_float || c == b'.') s in
    if is_digit c || (c == b'.' && not is_float)
    then record more { digits = c ∷ more.digits }
    else record { digits = []; is_float = is_float; rest = c ∷ s }

-- The longest prefix whose characters pass the test, and the rest.
unfoldable pub span : (ℕ → Bool) → Text → Text × Text
span p [] = ([], [])
span p (c ∷ s) = let (a, b) = span p s in if p c then (c ∷ a, b) else ([], c ∷ s)

abbrev starts_with : ℕ → Text → Bool
starts_with c [] = false
starts_with c (d ∷ s) = d == c

abbrev behind : Text → Text
behind [] = []
behind (c ∷ s) = s

module _ (f : Float) (u : Unicode) where
  open f use {F, parse_float}

  abbrev Lexed : Type 0
  Lexed = Outcome F (Token F × Text)

  -- One character, or two where the second is `second`.
  abbrev one_or_two : ℕ → Text → Token F → Lexed → Lexed
  one_or_two second s double single = if starts_with second s then ok (double, behind s) else single

  abbrev string_token : Option (Text × Text) → Lexed
  string_token none = err unclosed_string
  string_token (some (s, rest)) = ok (str s, rest)

  abbrev int_token : Text → Option ℤ → Lexed
  int_token rest none = err invalid_int
  int_token rest (some n) = ok (Token.int n, rest)

  abbrev float_token : Text → Option F → Lexed
  float_token rest none = err invalid_float
  float_token rest (some x) = ok (Token.float x, rest)

  unfoldable pub number_token : Number → Lexed
  unfolding parse_i64
  number_token n =
      if n.is_float
      then float_token n.rest (parse_float n.digits)
      else int_token n.rest (parse_i64 n.digits)

  unfoldable pub keyword : Text → Token F
  unfolding text_eq
  keyword word =
      let lower = u.to_lowercase word in
      if text_eq lower (codes "true")
      then Token.bool true
      else if text_eq lower (codes "false")
      then Token.bool false
      else if text_eq lower (codes "and")
      then conj
      else if text_eq lower (codes "or")
      then disj
      else if text_eq lower (codes "not")
      then negation
      else ident word

  is_word_char : ℕ → Bool
  is_word_char c = u.is_alphanumeric c || c == b'_'

  unfoldable pub word_token : Text × Text → Lexed
  unfolding keyword
  word_token (word, rest) = ok (keyword word, rest)

  -- The token at a character that is no white space, with what stands behind it.
  unfoldable pub lex_token : ℕ → ℕ → Text → Lexed
  unfolding is_digit scan_string scan_number span number_token word_token is_word_char
  lex_token i c s =
      if c == b'('
      then ok (lparen, s)
      else if c == b')'
      then ok (rparen, s)
      else if c == b'+'
      then ok (plus, s)
      else if c == b'-'
      then ok (minus, s)
      else if c == b'*'
      then ok (star, s)
      else if c == b'/'
      then ok (slash, s)
      else if c == b'='
      then one_or_two b'=' s eq (err (single_equals i))
      else if c == b'!'
      then one_or_two b'=' s ne (ok (negation, s))
      else if c == b'<'
      then one_or_two b'=' s le (ok (lt, s))
      else if c == b'>'
      then one_or_two b'=' s ge (ok (gt, s))
      else if c == b'&'
      then one_or_two b'&' s conj (err (single_ampersand i))
      else if c == b'|'
      then one_or_two b'|' s disj (err (single_bar i))
      else if c == b'"' || c == b'\''
      then string_token (scan_string c s)
      else if is_digit c
      then number_token (scan_number false (c ∷ s))
      else if u.is_alphabetic c || c == b'_'
      then word_token (span is_word_char (c ∷ s))
      else err (unexpected_char c i)

  tokenize_from : ℕ → ℕ → Text → Outcome F (List (Token F))
  unfolding is_whitespace lex_token
  tokenize_from fuel len [] = ok []
  tokenize_from zero len (c ∷ s) = out_of_fuel
  tokenize_from (suc fuel) len (c ∷ s) =
      let skip = tokenize_from fuel len s in
      let more = (do
        (t, rest) ← lex_token (len - length (c ∷ s)) c s
        ts ← tokenize_from fuel len rest
        ok (t ∷ ts)) in
      if is_whitespace c then skip else more

  unfoldable pub tokenize : Text → Outcome F (List (Token F))
  unfolding tokenize_from
  tokenize input = tokenize_from (length input) (length input) input
