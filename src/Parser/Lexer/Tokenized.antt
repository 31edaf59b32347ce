-- ===== src/Parser/Lexer/Tokenized.antt =====
-- The tokens of a text stand where they say, and the lexer ends.
use agentspec.Parser.{Token, eof}
use agentspec.Base.{ℕ, List, Option, ◌≡◌, some, ◌∷◌, []}
use agentspec.Parser.Lexer.{Cursor, Tokens, tokens, lex_failed}
use Prim.Native.Char.{Char}
use agentspec.Parser.Lexer.Located.{Later, Stands}

-- The tokens of a text from a cursor: each stands behind the one before it, and "EOF", which carries the
-- position that the token before it has, comes at the end of the text.
pub data Lexes : Cursor → ℕ → ℕ → List Token → Type 0 where
  ends :
      (a b : Cursor) (ln cl : ℕ)
      → Later a b
      → b.rest ≡ ""
      → Lexes a ln cl (record { type = eof; literal = ""; line = ln; column = cl } ∷ [])
  more :
      (a b next : Cursor) (ln cl : ℕ) (t : Token) (ts : List Token)
      → Later a b
      → Stands b t next
      → Lexes next t.line t.column ts
      → Lexes a ln cl (t ∷ ts)

-- The result is an error or such tokens.
pub Lexing : Cursor → ℕ → ℕ → Tokens → Type 0
Lexing a ln cl (tokens ts) = Lexes a ln cl ts
Lexing a ln cl (lex_failed e) = Unit

abbrev Ends : Cursor → ℕ → ℕ → Option Tokens → Type 0
Ends a ln cl o = (r : Tokens) × (o ≡ some r) × Lexing a ln cl r
