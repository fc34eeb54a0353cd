-- ===== src/Sql/Taken.antt =====
-- internal/sql/parser.go: maybe and maybeWord.
use mathlib.Core.Bool.{◌&&◌}
use dripsql.Base.{
  List, [], ◌∷◌, get_or, ℕ, suc, nat_beq_iff, Bool, true, false, inl, inr, text_beq, text_beq_iff,
  Text, ◌≡◌, ◌↔◌, ◌⊎◌, refl, ap, sym, ◌∙◌, arith,
}
use dripsql.Sql.Lexer.{TokenType, Token, Unicode}
use dripsql.Sql.Scanners.{stuck, next}
use dripsql.Sql.Parser.{
  Parser, ParseError, Parse, ok, err, no_fuel, maybe, maybe_word, same_type, type_number,
}
use dripsql.Sql.Lookahead.{nothing, read, broken, coming, InOrder, Takes, take_if-Takes}

abbrev all_types : List TokenType
all_types =
    TokenType.eof ∷ TokenType.ident ∷ TokenType.string ∷ TokenType.int ∷ TokenType.float
    ∷ TokenType.comma ∷ TokenType.l_paren ∷ TokenType.r_paren ∷ TokenType.semicolon
    ∷ TokenType.equal ∷ TokenType.not_equal ∷ TokenType.less ∷ TokenType.less_equal
    ∷ TokenType.greater ∷ TokenType.greater_equal ∷ TokenType.star ∷ TokenType.plus
    ∷ TokenType.minus ∷ TokenType.slash ∷ TokenType.percent ∷ TokenType.concat ∷ TokenType.json_get
    ∷ TokenType.json_get_text ∷ TokenType.dot ∷ TokenType.placeholder ∷ []

type_number-all_types : (a : TokenType) → get_or all_types (type_number a) TokenType.eof ≡ a
unfolding type_number
type_number-all_types TokenType.eof = refl
type_number-all_types TokenType.ident = refl
type_number-all_types TokenType.string = refl
type_number-all_types TokenType.int = refl
type_number-all_types TokenType.float = refl
type_number-all_types TokenType.comma = refl
type_number-all_types TokenType.l_paren = refl
type_number-all_types TokenType.r_paren = refl
type_number-all_types TokenType.semicolon = refl
type_number-all_types TokenType.equal = refl
type_number-all_types TokenType.not_equal = refl
type_number-all_types TokenType.less = refl
type_number-all_types TokenType.less_equal = refl
type_number-all_types TokenType.greater = refl
type_number-all_types TokenType.greater_equal = refl
type_number-all_types TokenType.star = refl
type_number-all_types TokenType.plus = refl
type_number-all_types TokenType.minus = refl
type_number-all_types TokenType.slash = refl
type_number-all_types TokenType.percent = refl
type_number-all_types TokenType.concat = refl
type_number-all_types TokenType.json_get = refl
type_number-all_types TokenType.json_get_text = refl
type_number-all_types TokenType.dot = refl
type_number-all_types TokenType.placeholder = refl

-- What a parser that takes the next token where it is a P has to do. Where the token t that comes is
-- a P it answers yes, and what is to come is behind t; where it is not it answers no, and all that
-- was to come still is. An error of the lexer is handed on.
unfoldable pub TakesWhere : Unicode → (Token → Type 0) → Parser → Parse Bool → Type 0
TakesWhere u P p (ok b q) =
    InOrder q
    × (t : Token) × (coming u 1 p ≡ read t nothing)
    × (((b ≡ true) × P t × ((n : ℕ) → coming u (suc n) p ≡ read t (coming u n q)))
        ⊎ ((b ≡ false) × (¬ P t) × ((n : ℕ) → coming u (suc n) p ≡ coming u (suc n) q)))
TakesWhere u P p (err (ParseError.lex_error e)) = (n : ℕ) → coming u (suc n) p ≡ broken e
TakesWhere u P p (err e) = ⊥
TakesWhere u P p no_fuel = next u p.lex ≡ stuck

Takes-TakesWhere :
    (u : Unicode) (test : Token → Bool) (P : Token → Type 0) (p : Parser) (o : Parse Bool)
    → ((t : Token) → (test t ≡ true) ↔ P t)
    → Takes u test p o
    → TakesWhere u P p o
unfolding Takes TakesWhere
Takes-TakesWhere u test P p (ok true q) iff (o, t, b, first, all) =
    (o, t, first, inl (refl, (iff t).0 (sym b), all))
Takes-TakesWhere u test P p (ok false q) iff (o, t, b, first, all) =
    (o, t, first, inr (refl, λ h. let yes = (iff t).1 h in cc, all))
Takes-TakesWhere u test P p (err (ParseError.lex_error e)) iff h = h
Takes-TakesWhere u test P p (err (ParseError.expected a b)) iff h = h
Takes-TakesWhere u test P p (err (ParseError.expected_word a b)) iff h = h
Takes-TakesWhere u test P p (err (ParseError.expected_statement_end a)) iff h = h
Takes-TakesWhere u test P p no_fuel iff h = h

same_type_iff : (a b : TokenType) → (same_type a b ≡ true) ↔ (a ≡ b)
unfolding same_type
same_type_iff a b = (
  λ h.
      let same = (nat_beq_iff (type_number a) (type_number b)).0 h in
      sym (type_number-all_types a)
      ∙ ap (λ n. get_or all_types n TokenType.eof) same
      ∙ type_number-all_types b,
  λ e. (nat_beq_iff (type_number a) (type_number b)).1 (ap type_number e),
)

-- From a parser whose second slot is filled behind the first only, maybe takes the next token exactly
-- where it has the type, and maybeWord exactly where it is an identifier with the text word.
pub maybe-TakesWhere :
    (u : Unicode) (typ : TokenType) (word : Text) (p : Parser)
    → InOrder p
    → TakesWhere u (λ t. t.typ ≡ typ) p (maybe u typ p)
      × TakesWhere u (λ t. (t.typ ≡ TokenType.ident) × (t.lit ≡ word)) p (maybe_word u word p)
unfolding maybe maybe_word
maybe-TakesWhere u typ word p o = (
  Takes-TakesWhere u (λ t. same_type t.typ typ) (λ t. t.typ ≡ typ) p _
      (λ t. same_type_iff t.typ typ) (take_if-Takes u (λ t. same_type t.typ typ) p o),
  Takes-TakesWhere u (λ t. same_type t.typ TokenType.ident && text_beq t.lit word)
      (λ t. (t.typ ≡ TokenType.ident) × (t.lit ≡ word)) p _
      (λ t. ground (arith, same_type_iff t.typ TokenType.ident, text_beq_iff t.lit word))
      (take_if-Takes u (λ t. same_type t.typ TokenType.ident && text_beq t.lit word) p o),
)
