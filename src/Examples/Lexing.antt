-- ===== src/Examples/Lexing.antt =====
-- internal/parser/lexer.go on a short text; letters are the ASCII ones.
use Prim.Native.Char.{Char}
use agentspec.Base.{ℕ, String, [], ◌∷◌, some, Bool, ◌||◌, ◌&&◌, leb, ◌≡◌, refl}
use agentspec.Parser.{eof, newline, string, l_brace, keyword, ident, Token}
use agentspec.Parser.Lexer.{tokenize, tokens, is_digit}

abbrev letter : ℕ → Bool
letter n = (leb 65 n && leb n 90) || (leb 97 n && leb n 122)

abbrev digit : ℕ → Bool
digit n = leb 48 n && leb n 57

abbrev quote : Char → String
quote c = "?"

abbrev input : String
input = "agent x { # note\n"

lexed :
    tokenize letter digit quote input
    ≡ some (
        tokens (
          record { type = keyword "agent"; literal = "agent"; line = 1; column = 1 }
          ∷ record { type = ident; literal = "x"; line = 1; column = 7 }
          ∷ record { type = l_brace; literal = "{"; line = 1; column = 9 }
          ∷ record { type = newline; literal = "\n"; line = 1; column = 17 }
          ∷ record { type = eof; literal = ""; line = 1; column = 17 }
          ∷ []))
unfolding tokenize agentspec.Parser.Lexer.is_blank agentspec.Parser.Lexer.starts_comment
    agentspec.Parser.Lexer.scan_token agentspec.Parser.Lexer.single
    agentspec.Parser.Lexer.starts_number is_digit agentspec.Parser.Lexer.other_token
    agentspec.Parser.Lexer.operator agentspec.Parser.Lexer.is_ident_start
    agentspec.Parser.Lexer.is_ident_part agentspec.Parser.lookup_keyword
lexed = refl
