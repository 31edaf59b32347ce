-- ===== src/Parser.antt =====
-- internal/parser/token.go: the tokens of the language. The token type of a keyword is named by its spelling,
-- as each keyword has a type of its own.
pub mod Lexer
use agentspec.Base.{ℕ, String, List, [], ◌∷◌, Bool, true, false, ◌==◌, if◌then◌else◌}

pub data TokenType : Type 0 where
  eof newline ident string number : TokenType
  l_brace r_brace l_bracket r_bracket l_paren r_paren comma dot colon : TokenType
  equal not_equal greater greater_eq less less_eq : TokenType
  keyword : String → TokenType

pub record Token : Type 0 where
  pub type : TokenType
  pub literal : String
  pub line : ℕ
  pub column : ℕ

pub keywords : List String
keywords =
    "package" ∷ "version" ∷ "lang" ∷ "prompt" ∷ "skill" ∷ "agent" ∷ "binding" ∷ "uses" ∷ "model"
    ∷ "input" ∷ "output" ∷ "execution" ∷ "description" ∷ "content" ∷ "default" ∷ "adapter"
    ∷ "secret" ∷ "environment" ∷ "policy" ∷ "plugin" ∷ "server" ∷ "client" ∷ "connects" ∷ "exposes"
    ∷ "env" ∷ "store" ∷ "command" ∷ "require" ∷ "deny" ∷ "allow" ∷ "to" ∷ "true" ∷ "false"
    ∷ "required" ∷ "import" ∷ "transport" ∷ "url" ∷ "auth" ∷ "args" ∷ "metadata" ∷ "tool" ∷ "deploy"
    ∷ "target" ∷ "pipeline" ∷ "step" ∷ "delegate" ∷ "type" ∷ "strategy" ∷ "max_turns" ∷ "timeout"
    ∷ "token_budget" ∷ "temperature" ∷ "stream" ∷ "parallel" ∷ "depends_on" ∷ "from" ∷ "when"
    ∷ "health" ∷ "autoscale" ∷ "resources" ∷ "memory" ∷ "on_error" ∷ "max_retries" ∷ "fallback"
    ∷ "variables" ∷ "enum" ∷ "list" ∷ "mcp" ∷ "http" ∷ "inline" ∷ "method" ∷ "headers"
    ∷ "body_template" ∷ "binary" ∷ "language" ∷ "code" ∷ "port" ∷ "namespace" ∷ "replicas" ∷ "image"
    ∷ "secrets" ∷ "as" ∷ "if" ∷ "else" ∷ "for" ∷ "each" ∷ "in" ∷ "config" ∷ "validate" ∷ "eval"
    ∷ "rule" ∷ "case" ∷ "on" ∷ "use" ∷ "with" ∷ "respond" ∷ "scoring" ∷ "threshold" ∷ "tags"
    ∷ "query" ∷ "loop" ∷ "user" ∷ "guardrail" ∷ "models" ∷ "budget" ∷ "agents" ∷ "keywords"
    ∷ "patterns" ∷ "mode" ∷ "key" ∷ "role" ∷ "daily" ∷ "monthly" ∷ "state" ∷ []

pub is_member : String → List String → Bool
is_member s [] = false
is_member s (k ∷ ks) = let rest = is_member s ks in if k == s then true else rest

unfoldable pub lookup_keyword : String → TokenType
unfolding keywords is_member
lookup_keyword s = if is_member s keywords then keyword s else ident
