-- ===== src/Parser/Lexer/Located.antt =====
-- What a scanned token uses of the text, and where it stands.
use Prim.Native.Char.{Char, code}
use agentspec.Base.{
  ℕ, ◌≤◌, ◌<◌, String, Option, none, some, Bool, true, false, eqb, ◌≡◌, refl, ap, arith, Bool-cases,
  ◌⊎◌, inl, inr, if-both,
}
use agentspec.Parser.{Token, TokenType, string, number, lookup_keyword}
use agentspec.Parser.Lexer.{
  Cursor, Lexed, token, failed, line_after, col_after, behind, skip, span, Scanned, closed,
  open_escape, open_string, with_text, string_body, make_token, string_token, span_token,
  operator_token, other_token, scan_token, size, operator, is_ident_part, number_part, escape,
  is_ident_start, starts_number, is_blank, starts_comment,
}

abbrev pub at : String → ℕ → ℕ → Cursor
at rest line col = record { rest = rest; line = line; col = col }

-- The second cursor is the first one moved over some characters, by the rule for lines and columns.
pub data Later : Cursor → Cursor → Type 0 where
  here : (a : Cursor) → Later a a
  over :
      (c : Char) (s : String) (line col : ℕ) (b : Cursor)
      → Later (behind c s line col) b
      → Later (at (String.◌∷◌ c s) line col) b

pub Later-size : (a b : Cursor) → Later a b → size b.rest ≤ size a.rest
Later-size a b (here _) = omega arith
Later-size a b (over c s line col _ l) = omega (arith, Later-size (behind c s line col) b l)

pub skip-Later :
    (inside : Bool) (s : String) (line col : ℕ) → Later (at s line col) (skip inside s line col)
unfolding skip
skip-Later inside String.[] line col = here _
skip-Later inside (String.◌∷◌ c s) line col =
    let start = at (String.◌∷◌ c s) line col in
    let inner = over c s line col _ (skip-Later true s (line_after c line) (col_after c col)) in
    let outer = over c s line col _ (skip-Later false s (line_after c line) (col_after c col)) in
    if-both (Later start) inside (if-both (Later start) (eqb (code c) 10) (here start) inner) (
      if-both (Later start) (is_blank (code c)) outer
        (if-both (Later start) (starts_comment (code c) s) inner (here start)))

-- A text after another one.
unfoldable pub joined : String → String → String
joined String.[] t = t
joined (String.◌∷◌ c s) t = String.◌∷◌ c (joined s t)

span-Later :
    (p : ℕ → Bool) (s : String) (line col : ℕ)
    → Later (at s line col) (span p s line col).1
      × (s ≡ joined (span p s line col).0 (span p s line col).1.rest)
unfolding span joined
span-Later p String.[] line col = (here _, refl)
span-Later p (String.◌∷◌ c s) line col = elim (Bool-cases (p (code c))) [
  | inl t ↦
      let (l, e) = span-Later p s (line_after c line) (col_after c col) in
      rw t (over c s line col _ l, ap (λ x. String.◌∷◌ c x) e)
  | inr f ↦ rw f (here _, refl)
]

-- What a string ends at.
Closes : Cursor → Scanned → Type 0
Closes a (closed literal end) = Later a end
Closes a (open_escape line col) = Unit
Closes a open_string = Unit

with_text-Closes :
    (a : Cursor) (f : String → String) (r : Scanned) → Closes a r → Closes a (with_text f r)
unfolding Closes
with_text-Closes a f (closed literal end) l = l
with_text-Closes a f (open_escape line col) l = tt
with_text-Closes a f open_string l = tt

over-Closes :
    (c : Char) (s : String) (line col : ℕ) (r : Scanned)
    → Closes (behind c s line col) r
    → Closes (at (String.◌∷◌ c s) line col) r
unfolding Closes
over-Closes c s line col (closed literal end) l = over c s line col end l
over-Closes c s line col (open_escape l1 l2) l = tt
over-Closes c s line col open_string l = tt

string_body-Closes :
    (escaped : Bool) (s : String) (line col : ℕ)
    → Closes (at s line col) (string_body escaped s line col)
unfolding string_body Closes
string_body-Closes true String.[] line col = tt
string_body-Closes false String.[] line col = tt
string_body-Closes true (String.◌∷◌ c s) line col =
    with_text-Closes (at (String.◌∷◌ c s) line col) (escape c) _ (
      over-Closes c s line col _ (string_body-Closes false s (line_after c line) (col_after c col)))
string_body-Closes false (String.◌∷◌ c s) line col =
    let start = at (String.◌∷◌ c s) line col in
    let escaped =
      over-Closes c s line col _
        (string_body-Closes true s (line_after c line) (col_after c col)) in
    let plain =
      over-Closes c s line col _
        (string_body-Closes false s (line_after c line) (col_after c col)) in
    if-both (Closes start) (eqb (code c) 34) (over c s line col _ (here _)) (
      if-both (Closes start) (eqb (code c) 92) escaped
        (with_text-Closes start (λ literal. String.◌∷◌ c literal) _ plain))

-- A token stands at a cursor and ends at another: the text between is its literal, or it is a string.
pub record Stands (a : Cursor) (t : Token) (b : Cursor) : Type 0 where
  pub line_right : t.line ≡ a.line
  pub column_right : t.column ≡ a.col
  pub later : Later a b
  pub text : (t.type ≡ string) ⊎ (a.rest ≡ joined t.literal b.rest)

-- What is scanned at a cursor uses up a character.
unfoldable pub Scans : Cursor → Lexed → Type 0
Scans a (token t b) = Stands a t b × (size b.rest < size a.rest)
Scans a (failed e) = Unit

make_token-Scans :
    (type : TokenType) (literal : String) (line col : ℕ) (c : Char) (s : String) (b : Cursor)
    → Later (behind c s line col) b
    → (type ≡ string) ⊎ (String.◌∷◌ c s ≡ joined literal b.rest)
    → Scans (at (String.◌∷◌ c s) line col) (make_token type literal line col b)
unfolding Scans
make_token-Scans type literal line col c s b l text = (
  record { line_right = refl; column_right = refl; later = over c s line col b l; text = text },
  omega (arith, Later-size (behind c s line col) b l),
)

string_token-Scans :
    (c : Char) (s : String) (line col : ℕ) (r : Scanned)
    → Closes (behind c s line col) r
    → Scans (at (String.◌∷◌ c s) line col) (string_token line col r)
unfolding Scans Closes
string_token-Scans c s line col (closed literal end) l =
    make_token-Scans string literal line col c s end l (inl refl)
string_token-Scans c s line col (open_escape l1 l2) l = tt
string_token-Scans c s line col open_string l = tt

span_token-Scans :
    (type : String → TokenType) (p : ℕ → Bool) (c : Char) (s : String) (line col : ℕ)
    → p (code c) ≡ true
    → Scans
        (at (String.◌∷◌ c s) line col)
        (span_token type line col (span p (String.◌∷◌ c s) line col))
unfolding span joined
span_token-Scans type p c s line col t =
    let (l, e) = span-Later p s (line_after c line) (col_after c col) in
    rw t (make_token-Scans _ _ line col c s _ l (inr (ap (λ x. String.◌∷◌ c x) e)))

operator_token-Scans :
    (c : Char) (s : String) (line col : ℕ) (both : TokenType) (alone : Option TokenType)
    → Scans (at (String.◌∷◌ c s) line col) (operator_token c s line col both alone)
unfolding operator_token Scans joined
operator_token-Scans c String.[] line col both none = tt
operator_token-Scans c String.[] line col both (some alone) =
    make_token-Scans alone _ line col c String.[] _ (here _) (inr refl)
operator_token-Scans c (String.◌∷◌ d s) line col both none =
    if-both (Scans (at (String.◌∷◌ c (String.◌∷◌ d s)) line col)) (eqb (code d) 61)
      (make_token-Scans both _ line col c (String.◌∷◌ d s) _ (over d s _ _ _ (here _)) (inr refl))
      tt
operator_token-Scans c (String.◌∷◌ d s) line col both (some alone) =
    if-both (Scans (at (String.◌∷◌ c (String.◌∷◌ d s)) line col)) (eqb (code d) 61)
      (make_token-Scans both _ line col c (String.◌∷◌ d s) _ (over d s _ _ _ (here _)) (inr refl))
      (make_token-Scans alone _ line col c (String.◌∷◌ d s) _ (here _) (inr refl))

module _ (is_letter is_decimal : ℕ → Bool) (quote : Char → String) where
  starts-part : (n : ℕ) (s : String) → starts_number n s ≡ true → number_part n ≡ true
  unfolding starts_number number_part
  starts-part n s h = ground arith

  ident-part :
      (n : ℕ)
      → is_ident_start is_letter is_decimal quote n ≡ true
      → is_ident_part is_letter is_decimal quote n ≡ true
  unfolding is_ident_start is_ident_part
  ident-part n h = ground arith

  other_token-Scans :
      (c : Char) (s : String) (line col : ℕ) (o : Option (TokenType × Option TokenType))
      → Scans (at (String.◌∷◌ c s) line col) (other_token is_letter is_decimal quote c s line col o)
  unfolding other_token Scans
  other_token-Scans c s line col (some (both, alone)) = operator_token-Scans c s line col both alone
  other_token-Scans c s line col none =
      elim (Bool-cases (is_ident_start is_letter is_decimal quote (code c))) [
        | inl t ↦ rw t (
            span_token-Scans lookup_keyword (is_ident_part is_letter is_decimal quote) c s line col
              (ident-part (code c) t))
        | inr f ↦ rw f tt
      ]

  pub scan_token-Scans :
      (c : Char) (s : String) (line col : ℕ) (o : Option TokenType)
      → Scans (at (String.◌∷◌ c s) line col) (scan_token is_letter is_decimal quote c s line col o)
  unfolding scan_token joined
  scan_token-Scans c s line col (some type) =
      make_token-Scans type _ line col c s _ (here _) (inr refl)
  scan_token-Scans c s line col none =
      if-both (Scans (at (String.◌∷◌ c s) line col)) (eqb (code c) 34)
        (string_token-Scans c s line col _
          (string_body-Closes false s (line_after c line) (col_after c col)))
        (elim (Bool-cases (starts_number (code c) s)) [
          | inl t ↦ rw t (
              span_token-Scans (λ literal. number) number_part c s line col
                (starts-part (code c) s t))
          | inr f ↦ rw f (other_token-Scans c s line col (operator (code c)))
        ])
