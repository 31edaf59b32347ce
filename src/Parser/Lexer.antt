-- ===== src/Parser/Lexer.antt =====
-- internal/parser/lexer.go: the lexer. The source's byte offset is the text that is left; the text is valid
-- UTF-8. `is_letter` and `is_decimal` are `unicode.IsLetter` and `unicode.IsDigit` on code points,
-- `quote` is the verb %q of fmt. An error has
-- its position and its message; the file name, which is printed before them, is left out, like that of tokens.
pub mod Located
pub mod Tokenized
use Prim.Native.Char.{Char, code}
use agentspec.Base.{
  ℕ, zero, suc, ◌+◌, String, List, [], ◌∷◌, Option, none, some, Bool, true, false, not, ◌&&◌, ◌||◌,
  if◌then◌else◌, eqb, leb, str_append,
}
use agentspec.Parser.{
  Token, TokenType, eof, newline, ident, string, number, l_brace, r_brace, l_bracket, r_bracket,
  l_paren, r_paren, comma, dot, colon, equal, not_equal, greater, greater_eq, less, less_eq,
  lookup_keyword,
}

-- Where the lexer stands: the text that is left, the line and the column.
pub record Cursor : Type 0 where
  pub rest : String
  pub line : ℕ
  pub col : ℕ

pub record LexError : Type 0 where
  pub line : ℕ
  pub column : ℕ
  pub message : String

pub data Lexed : Type 0 where
  token : Token → Cursor → Lexed
  failed : LexError → Lexed

pub data Tokens : Type 0 where
  tokens : List Token → Tokens
  lex_failed : LexError → Tokens

abbrev pub line_after : Char → ℕ → ℕ
line_after c line = if eqb (code c) 10 then line + 1 else line

abbrev pub col_after : Char → ℕ → ℕ
col_after c col = if eqb (code c) 10 then 1 else col + 1

-- The cursor behind a character.
abbrev pub behind : Char → String → ℕ → ℕ → Cursor
behind c s line col = record { rest = s; line = line_after c line; col = col_after c col }

-- The character that `peek` reads, 0 at the end.
abbrev pub peek : String → ℕ
peek String.[] = 0
peek (String.◌∷◌ c s) = code c

unfoldable pub is_digit : ℕ → Bool
is_digit n = leb 48 n && leb n 57

unfoldable pub is_blank : ℕ → Bool
is_blank n = eqb n 32 || (eqb n 9 || eqb n 13)

-- The start of a comment: "#", or "/" before another one.
unfoldable pub starts_comment : ℕ → String → Bool
starts_comment n s = eqb n 35 || (eqb n 47 && eqb (peek s) 47)

-- The loop over blanks and comments; in a comment up to the end of the line.
pub skip : Bool → String → ℕ → ℕ → Cursor
skip inside String.[] line col = record { rest = String.[]; line = line; col = col }
skip inside (String.◌∷◌ c s) line col =
    let inner = skip true s (line_after c line) (col_after c col) in
    let outer = skip false s (line_after c line) (col_after c col) in
    let stop : Cursor = record { rest = String.◌∷◌ c s; line = line; col = col } in
    if inside
    then if eqb (code c) 10 then stop else inner
    else if is_blank (code c)
    then outer
    else if starts_comment (code c) s
    then inner
    else stop

abbrev pub with_char : Char → String × Cursor → String × Cursor
with_char c (literal, end) = (String.◌∷◌ c literal, end)

-- The loops of numbers and identifiers: the characters that pass, and where they end.
pub span : (ℕ → Bool) → String → ℕ → ℕ → String × Cursor
span p String.[] line col = (String.[], record { rest = String.[]; line = line; col = col })
span p (String.◌∷◌ c s) line col =
    let more = span p s (line_after c line) (col_after c col) in
    if p (code c)
    then with_char c more
    else (String.[], record { rest = String.◌∷◌ c s; line = line; col = col })

-- What the loop of a string ends with.
pub data Scanned : Type 0 where
  closed : String → Cursor → Scanned
  open_escape : ℕ → ℕ → Scanned
  open_string : Scanned

abbrev pub with_text : (String → String) → Scanned → Scanned
with_text f (closed literal end) = closed (f literal) end
with_text f (open_escape line col) = open_escape line col
with_text f open_string = open_string

-- What an escape stands for, before the rest of the literal.
unfoldable pub escape : Char → String → String
escape c literal =
    if eqb (code c) 110
    then String.◌∷◌ "\n" literal
    else if eqb (code c) 116
    then String.◌∷◌ "\t" literal
    else if eqb (code c) 92 || eqb (code c) 34
    then String.◌∷◌ c literal
    else String.◌∷◌ "\\" (String.◌∷◌ c literal)

-- The loop of a string, after a backslash or not.
pub string_body : Bool → String → ℕ → ℕ → Scanned
string_body true String.[] line col = open_escape line col
string_body false String.[] line col = open_string
string_body true (String.◌∷◌ c s) line col =
    with_text (escape c) (string_body false s (line_after c line) (col_after c col))
string_body false (String.◌∷◌ c s) line col =
    let escaped = string_body true s (line_after c line) (col_after c col) in
    let plain = string_body false s (line_after c line) (col_after c col) in
    if eqb (code c) 34
    then closed String.[] (behind c s line col)
    else if eqb (code c) 92
    then escaped
    else with_text (λ literal. String.◌∷◌ c literal) plain

abbrev pub make_token : TokenType → String → ℕ → ℕ → Cursor → Lexed
make_token type literal line col next =
    token (record { type = type; literal = literal; line = line; column = col }) next

-- The tokens of one character.
unfoldable pub single : ℕ → Option TokenType
single n =
    if eqb n 10
    then some newline
    else if eqb n 123
    then some l_brace
    else if eqb n 125
    then some r_brace
    else if eqb n 91
    then some l_bracket
    else if eqb n 93
    then some r_bracket
    else if eqb n 40
    then some l_paren
    else if eqb n 41
    then some r_paren
    else if eqb n 44
    then some comma
    else if eqb n 46
    then some dot
    else if eqb n 58
    then some colon
    else none

-- The operators that "=" may complete: the type with it, and the type without it if there is one.
unfoldable pub operator : ℕ → Option (TokenType × Option TokenType)
operator n =
    if eqb n 61
    then some (equal, none)
    else if eqb n 33
    then some (not_equal, none)
    else if eqb n 62
    then some (greater_eq, some greater)
    else if eqb n 60
    then some (less_eq, some less)
    else none

unfoldable pub number_part : ℕ → Bool
number_part n = is_digit n || (eqb n 46 || eqb n 45)

unfoldable pub starts_number : ℕ → String → Bool
starts_number n s = is_digit n || (eqb n 45 && is_digit (peek s))

abbrev pub string_token : ℕ → ℕ → Scanned → Lexed
string_token line col (closed literal next) = make_token string literal line col next
string_token line col (open_escape l c) =
    failed (record { line = l; column = c; message = "unterminated string escape" })
string_token line col open_string =
    failed (record { line = line; column = col; message = "unterminated string" })

abbrev pub span_token : (String → TokenType) → ℕ → ℕ → String × Cursor → Lexed
span_token type line col (literal, next) = make_token (type literal) literal line col next

-- The errors of the operators that need their "=".
unfoldable pub unexpected : ℕ → String
unexpected n =
    if eqb n 61 then "unexpected character '=' (did you mean '=='?)" else "unexpected character '!'"

-- After an operator's first character.
unfoldable pub operator_token : Char → String → ℕ → ℕ → TokenType → Option TokenType → Lexed
operator_token c String.[] line col both none =
    failed (record { line = line; column = col; message = unexpected (code c) })
operator_token c String.[] line col both (some alone) =
    make_token alone (String.◌∷◌ c String.[]) line col (behind c String.[] line col)
operator_token c (String.◌∷◌ d s) line col both alone =
    if eqb (code d) 61
    then make_token both (String.◌∷◌ c (String.◌∷◌ d String.[])) line col
        (behind d s (line_after c line) (col_after c col))
    else elim alone [
      | none ↦ failed (record { line = line; column = col; message = unexpected (code c) })
      | some type ↦
          make_token type (String.◌∷◌ c String.[]) line col (behind c (String.◌∷◌ d s) line col)
    ]

abbrev pub size : String → ℕ
size String.[] = 0
size (String.◌∷◌ c s) = suc (size s)

module _ (is_letter is_decimal : ℕ → Bool) (quote : Char → String) where
  unfoldable pub is_ident_start : ℕ → Bool
  is_ident_start n = is_letter n || eqb n 95

  unfoldable pub is_ident_part : ℕ → Bool
  is_ident_part n = is_letter n || (is_decimal n || (eqb n 95 || eqb n 45))

  unfoldable pub other_token : Char → String → ℕ → ℕ → Option (TokenType × Option TokenType) → Lexed
  other_token c s line col (some (both, alone)) = operator_token c s line col both alone
  other_token c s line col none =
      if is_ident_start (code c)
      then span_token lookup_keyword line col (span is_ident_part (String.◌∷◌ c s) line col)
      else failed (record {
        line = line;
        column = col;
        message = str_append "unexpected character " (quote c);
      })

  -- The `switch` of `nextToken` on a character and what follows it.
  unfoldable pub scan_token : Char → String → ℕ → ℕ → Option TokenType → Lexed
  scan_token c s line col (some type) =
      make_token type (String.◌∷◌ c String.[]) line col (behind c s line col)
  scan_token c s line col none =
      if eqb (code c) 34
      then string_token line col (string_body false s (line_after c line) (col_after c col))
      else if starts_number (code c) s
      then span_token (λ literal. number) line col (span number_part (String.◌∷◌ c s) line col)
      else other_token c s line col (operator (code c))

  abbrev pub add_token : Token → Option Tokens → Option Tokens
  add_token t none = none
  add_token t (some (tokens ts)) = some (tokens (t ∷ ts))
  add_token t (some (lex_failed e)) = some (lex_failed e)

  abbrev pub after_token : (Cursor → ℕ → ℕ → Option Tokens) → Lexed → Option Tokens
  after_token again (failed e) = some (lex_failed e)
  after_token again (token t next) = add_token t (again next t.line t.column)

  -- A token after blanks, or the end: its position is the start of the token before it, which is what
  -- `startLn` and `startCl` still hold.
  abbrev pub next_token : (Cursor → ℕ → ℕ → Option Tokens) → ℕ → ℕ → String → ℕ → ℕ → Option Tokens
  next_token again ln cl String.[] line col =
      some (tokens (record { type = eof; literal = ""; line = ln; column = cl } ∷ []))
  next_token again ln cl (String.◌∷◌ c s) line col =
      after_token again (scan_token c s line col (single (code c)))

  -- The loop of `Tokenize`, on fuel.
  pub tokenize_from : ℕ → Cursor → ℕ → ℕ → Option Tokens
  tokenize_from zero at ln cl = none
  tokenize_from (suc fuel) at ln cl =
      let again = tokenize_from fuel in
      let start = skip false at.rest at.line at.col in
      next_token again ln cl start.rest start.line start.col

  -- The fuel is one more than the characters.
  unfoldable pub tokenize : String → Option Tokens
  unfolding skip span string_body tokenize_from
  tokenize input = tokenize_from (suc (size input)) (record { rest = input; line = 1; col = 1 }) 0 0
