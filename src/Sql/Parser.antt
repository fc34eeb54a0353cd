-- ===== src/Sql/Parser.antt =====
-- internal/sql/parser.go: the parser's window on the lexer: two tokens of lookahead, the tests that
-- take a token where it fits, and the mark that a trial parse returns to.
use mathlib.Core.Bool.{◌&&◌}
use dripsql.Base.{ℕ, zero, suc, nat_beq, Bool, true, false, text_beq, Text, if◌then◌else◌}
use dripsql.Sql.Lexer.{TokenType, Token, Unicode, Lexer}
use dripsql.Sql.Scanners.{LexError, Scan, done, failed, stuck, next}

-- buf and has: a slot holds a token where its flag is set.
pub record Parser : Type 0 where
  pub lex : Lexer
  pub first : Token
  pub second : Token
  pub has_first : Bool
  pub has_second : Bool

pub data ParseError : Type 0 where
  lex_error : LexError → ParseError
  expected : TokenType → ℕ → ParseError
  expected_word : Text → ℕ → ParseError
  expected_statement_end : ℕ → ParseError

pub data Parse {ℓ} (A : Type ℓ) : Type ℓ where
  ok : A → Parser → Parse A
  err : ParseError → Parse A
  no_fuel : Parse A

infix 20 ◌>>=◌
unfoldable pub ◌>>=◌ {ℓ κ} : {A : Type ℓ} {B : Type κ} → Parse A → (A → Parser → Parse B) → Parse B
ok a p >>= f = f a p
err e >>= f = err e
no_fuel >>= f = no_fuel

-- What the lexer returns, kept in the parser by `f`.
unfoldable pub lexed {ℓ} : {A : Type ℓ} → Scan → (Token → Lexer → Parse A) → Parse A
lexed (done t m) f = f t m
lexed (failed e) f = err (ParseError.lex_error e)
lexed stuck f = no_fuel

unfoldable pub next_token : Unicode → Parser → Parse Token
next_token u p =
    if p.has_first
    then ok p.first (record p { first = p.second; has_first = p.has_second; has_second = false })
    else lexed (next u p.lex) (λ t m. ok t (record p { lex = m }))

unfoldable pub peek : Unicode → Parser → Parse Token
peek u p =
    if p.has_first
    then ok p.first p
    else lexed (next u p.lex) (λ t m. ok t (record p { lex = m; first = t; has_first = true }))

unfoldable pub peek_second : Unicode → Parser → Parse Token
peek_second u p = peek u p >>= λ t q.
    if q.has_second
    then ok q.second q
    else lexed (next u q.lex) (λ t m. ok t (record q { lex = m; second = t; has_second = true }))

-- A token type is its number.
unfoldable pub type_number : TokenType → ℕ
type_number TokenType.eof = 0
type_number TokenType.ident = 1
type_number TokenType.string = 2
type_number TokenType.int = 3
type_number TokenType.float = 4
type_number TokenType.comma = 5
type_number TokenType.l_paren = 6
type_number TokenType.r_paren = 7
type_number TokenType.semicolon = 8
type_number TokenType.equal = 9
type_number TokenType.not_equal = 10
type_number TokenType.less = 11
type_number TokenType.less_equal = 12
type_number TokenType.greater = 13
type_number TokenType.greater_equal = 14
type_number TokenType.star = 15
type_number TokenType.plus = 16
type_number TokenType.minus = 17
type_number TokenType.slash = 18
type_number TokenType.percent = 19
type_number TokenType.concat = 20
type_number TokenType.json_get = 21
type_number TokenType.json_get_text = 22
type_number TokenType.dot = 23
type_number TokenType.placeholder = 24

unfoldable pub same_type : TokenType → TokenType → Bool
same_type a b = nat_beq (type_number a) (type_number b)

unfoldable pub expect : Unicode → TokenType → Parser → Parse Token
expect u typ p = next_token u p >>= λ t q.
    if same_type t.typ typ then ok t q else err (ParseError.expected typ t.pos)

unfoldable pub expect_word : Unicode → Text → Parser → Parse Token
expect_word u word p = expect u TokenType.ident p >>= λ t q.
    if text_beq t.lit word then ok t q else err (ParseError.expected_word word t.pos)

-- maybe and maybeWord: the next token is taken where it passes the test.
unfoldable pub take_if : Unicode → (Token → Bool) → Parser → Parse Bool
take_if u test p =
    peek u p >>= λ t q. if test t then (next_token u q >>= λ s r. ok true r) else ok false q

unfoldable pub maybe : Unicode → TokenType → Parser → Parse Bool
maybe u typ p = take_if u (λ t. same_type t.typ typ) p

unfoldable pub maybe_word : Unicode → Text → Parser → Parse Bool
maybe_word u word p = take_if u (λ t. same_type t.typ TokenType.ident && text_beq t.lit word) p

pub record ParserState : Type 0 where
  pub pos : ℕ
  pub first : Token
  pub second : Token
  pub has_first : Bool
  pub has_second : Bool

unfoldable pub mark : Parser → ParserState
mark p = record {
  pos = p.lex.pos;
  first = p.first;
  second = p.second;
  has_first = p.has_first;
  has_second = p.has_second;
}

unfoldable pub restore : ParserState → Parser → Parser
restore s p = record {
  lex = record { sql = p.lex.sql; pos = s.pos };
  first = s.first;
  second = s.second;
  has_first = s.has_first;
  has_second = s.has_second;
}

unfoldable pub skip_semicolons : Unicode → ℕ → Parser → Parse Token
skip_semicolons u zero p = no_fuel
skip_semicolons u (suc fuel) p = peek u p >>= λ t q.
    if same_type t.typ TokenType.semicolon
    then (next_token u q >>= λ s r. skip_semicolons u fuel r)
    else ok t q

unfoldable pub consume_statement_end : Unicode → Parser → Parse Token
consume_statement_end u p = peek u p >>= λ t q.
    if same_type t.typ TokenType.semicolon
    then next_token u q
    else if same_type t.typ TokenType.eof
    then ok t q
    else err (ParseError.expected_statement_end t.pos)
