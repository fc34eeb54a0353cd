-- ===== src/Sql/Scanners.antt =====
-- internal/sql/lexer.go: next and the scanners it chooses from. `stuck` says that a loop ran out of
-- fuel. An error ends the parse: the position that it leaves behind is not kept.
use mathlib.Core.Bool.{◌&&◌, ◌||◌, not}
use mathlib.Core.List.{map}
use dripsql.Base.{
  ℕ, zero, suc, nat_beq, ltb, if◌then◌else◌, ◌+◌, Bool, true, false, Option, none, some, [], ◌∷◌,
  ◌++◌, Text, length, codes,
}
use dripsql.Sql.Lexer.{
  TokenType, Token, Unicode, Lexer, left, at_end, peek_byte, advance, slice_from, rune_at,
  invalid_rune, is_ascii, is_digit_byte, is_upper_byte, is_lower_byte, scan_digits,
  skip_space_and_comments,
}

pub data LexError : Type 0 where
  invalid_utf8 : ℕ → LexError
  unexpected_character : ℕ → ℕ → LexError
  invalid_utf8_in : Text → ℕ → LexError
  unterminated : Text → ℕ → LexError
  invalid_float : Text → ℕ → LexError

pub data Scan : Type 0 where
  done : Token → Lexer → Scan
  failed : LexError → Scan
  stuck : Scan

unfoldable pub or_stuck : Option Lexer → (Lexer → Scan) → Scan
or_stuck none f = stuck
or_stuck (some l) f = f l

-- The token of an operator of n bytes.
unfoldable pub operator : TokenType → ℕ → Lexer → Scan
operator t n l =
    done (record { typ = t; lit = slice_from l.pos (advance n l); pos = l.pos; quoted = false })
      (advance n l)

unfoldable pub single_operator : ℕ → Option TokenType
single_operator b =
    if nat_beq b 0x2c
    then some TokenType.comma
    else if nat_beq b 0x28
    then some TokenType.l_paren
    else if nat_beq b 0x29
    then some TokenType.r_paren
    else if nat_beq b 0x3b
    then some TokenType.semicolon
    else if nat_beq b 0x3d
    then some TokenType.equal
    else if nat_beq b 0x2a
    then some TokenType.star
    else if nat_beq b 0x2e
    then some TokenType.dot
    else if nat_beq b 0x3f
    then some TokenType.placeholder
    else if nat_beq b 0x2b
    then some TokenType.plus
    else if nat_beq b 0x2f
    then some TokenType.slash
    else if nat_beq b 0x25
    then some TokenType.percent
    else none

-- The operators of more than one byte, and those that another byte may extend.
unfoldable pub long_operator : ℕ → Lexer → Option Scan
long_operator b l =
    let second = peek_byte 1 l in
    if nat_beq b 0x21
    then (if nat_beq second 0x3d
        then some (operator TokenType.not_equal 2 l)
        else some (failed (LexError.unexpected_character 0x21 l.pos)))
    else if nat_beq b 0x3c
    then (if nat_beq second 0x3e
        then some (operator TokenType.not_equal 2 l)
        else if nat_beq second 0x3d
        then some (operator TokenType.less_equal 2 l)
        else some (operator TokenType.less 1 l))
    else if nat_beq b 0x3e
    then (if nat_beq second 0x3d
        then some (operator TokenType.greater_equal 2 l)
        else some (operator TokenType.greater 1 l))
    else if nat_beq b 0x2d
    then (if nat_beq second 0x3e && nat_beq (peek_byte 2 l) 0x3e
        then some (operator TokenType.json_get_text 3 l)
        else if nat_beq second 0x3e
        then some (operator TokenType.json_get 2 l)
        else some (operator TokenType.minus 1 l))
    else if nat_beq b 0x7c
    then (if nat_beq second 0x7c
        then some (operator TokenType.concat 2 l)
        else some (failed (LexError.unexpected_character 0x7c l.pos)))
    else none

-- `none` where the byte starts no operator.
unfoldable pub scan_ascii_operator : ℕ → Lexer → Option Scan
scan_ascii_operator b l = elim (single_operator b) [
  | none ↦ long_operator b l
  | some t ↦ some (operator t 1 l)
]

-- The state of scanIdent's loop: where it is, and its two flags.
pub record IdentState : Type 0 where
  pub lex : Lexer
  pub ascii : Bool
  pub upper : Bool

unfoldable pub ident_loop : Unicode → ℕ → IdentState → Option IdentState
ident_loop u zero s = none
ident_loop u (suc fuel) s =
    let plain = ident_loop u fuel (record s { lex = advance 1 s.lex }) in
    let capital = ident_loop u fuel (record s { lex = advance 1 s.lex; upper = true }) in
    let wide =
      ident_loop u fuel (record s { lex = advance (rune_at u s.lex).1 s.lex; ascii = false }) in
    let r = (rune_at u s.lex).0 in
    let b = peek_byte 0 s.lex in
    if at_end s.lex
    then some s
    else if is_ascii b
    then (if nat_beq b 0x5f || is_lower_byte b || is_digit_byte b
        then plain
        else if is_upper_byte b
        then capital
        else some s)
    else if u.is_letter r || u.is_digit r
    then wide
    else some (record s { ascii = false })

unfoldable pub lower_byte : ℕ → ℕ
lower_byte c = if is_upper_byte c then c + 0x20 else c

unfoldable pub ident_token : Unicode → ℕ → Option IdentState → Scan
ident_token u start none = stuck
ident_token u start (some s) =
    let text = slice_from start s.lex in
    let lit =
      if s.ascii then (if s.upper then map lower_byte text else text) else u.to_lower text in
    done (record { typ = TokenType.ident; lit = lit; pos = start; quoted = false }) s.lex

unfoldable pub scan_ident : Unicode → Lexer → Scan
scan_ident u l =
    ident_token u l.pos
      (ident_loop u (suc (left l)) (record { lex = l; ascii = true; upper = false }))

-- scanDelimited's loop: `part` is partStart, `b` the builder and `escaped` whether it is in use.
pub record Delimited : Type 0 where
  pub delim : ℕ
  pub typ : TokenType
  pub quoted : Bool
  pub label : Text
  pub start : ℕ

unfoldable pub delimited_loop : Unicode → Delimited → ℕ → ℕ → Text → Bool → Lexer → Scan
delimited_loop u d zero part b escaped l = stuck
delimited_loop u d (suc fuel) part b escaped l =
    let plain = delimited_loop u d fuel part b escaped (advance 1 l) in
    let doubled =
      delimited_loop u d fuel (l.pos + 2) (b ++ slice_from part l ++ d.delim ∷ []) true
        (advance 2 l) in
    let wide = delimited_loop u d fuel part b escaped (advance (rune_at u l).1 l) in
    let c = peek_byte 0 l in
    if at_end l
    then failed (LexError.unterminated d.label d.start)
    else if is_ascii c
    then (if not (nat_beq c d.delim)
        then plain
        else if ltb (l.pos + 1) (length l.sql) && nat_beq (peek_byte 1 l) d.delim
        then doubled
        else done
            (record {
              typ = d.typ;
              lit = if escaped then b ++ slice_from part l else slice_from part l;
              pos = d.start;
              quoted = d.quoted;
            })
            (advance 1 l))
    else if invalid_rune (rune_at u l)
    then failed (LexError.invalid_utf8_in d.label l.pos)
    else wide

unfoldable pub scan_delimited : Unicode → ℕ → TokenType → Bool → Text → Lexer → Scan
scan_delimited u delim typ quoted label l =
    delimited_loop u
      (record { delim = delim; typ = typ; quoted = quoted; label = label; start = l.pos })
      (suc (left l)) (l.pos + 1) [] false (advance 1 l)

-- The digits that must stand at `from`, and what follows.
unfoldable pub require_digits : ℕ → Lexer → (Lexer → Scan) → Scan
require_digits start from k = or_stuck (scan_digits from) (λ m.
    if nat_beq m.pos from.pos
    then failed (LexError.invalid_float (slice_from start m) start)
    else k m)

unfoldable pub number_token : ℕ → TokenType → Lexer → Scan
number_token start typ l =
    done (record { typ = typ; lit = slice_from start l; pos = start; quoted = false }) l

unfoldable pub at_sign : Lexer → Bool
at_sign l = not (at_end l) && (nat_beq (peek_byte 0 l) 0x2b || nat_beq (peek_byte 0 l) 0x2d)

unfoldable pub at_exponent : Lexer → Bool
at_exponent l = not (at_end l) && (nat_beq (peek_byte 0 l) 0x65 || nat_beq (peek_byte 0 l) 0x45)

unfoldable pub at_point : Lexer → Bool
at_point l = not (at_end l) && nat_beq (peek_byte 0 l) 0x2e

unfoldable pub scan_exponent : ℕ → TokenType → Lexer → Scan
scan_exponent start typ l =
    if at_exponent l
    then require_digits start (if at_sign (advance 1 l) then advance 2 l else advance 1 l)
        (number_token start TokenType.float)
    else number_token start typ l

unfoldable pub scan_fraction : ℕ → Lexer → Scan
scan_fraction start l =
    if at_point l
    then require_digits start (advance 1 l) (scan_exponent start TokenType.float)
    else scan_exponent start TokenType.int l

unfoldable pub scan_number : Lexer → Scan
scan_number l = or_stuck (scan_digits l) (scan_fraction l.pos)

-- The scanner for the byte b, which stands at l.
unfoldable pub scan_rune : Unicode → Lexer → Scan
scan_rune u l =
    if invalid_rune (rune_at u l)
    then failed (LexError.invalid_utf8 l.pos)
    else if u.is_letter (rune_at u l).0
    then scan_ident u l
    else failed (LexError.unexpected_character (rune_at u l).0 l.pos)

unfoldable pub scan_ascii : Unicode → ℕ → Lexer → Scan
scan_ascii u b l =
    if nat_beq b 0x27
    then scan_delimited u 0x27 TokenType.string false (codes "string literal") l
    else if nat_beq b 0x22
    then scan_delimited u 0x22 TokenType.ident true (codes "quoted identifier") l
    else if nat_beq b 0x5f || is_lower_byte b || is_upper_byte b
    then scan_ident u l
    else if is_digit_byte b
    then scan_number l
    else scan_rune u l

unfoldable pub scan_token : Unicode → Lexer → Scan
scan_token u l =
    let b = peek_byte 0 l in
    if is_ascii b
    then elim (scan_ascii_operator b l) [ some t ↦ t | none ↦ scan_ascii u b l ]
    else scan_rune u l

unfoldable pub next : Unicode → Lexer → Scan
next u l = or_stuck (skip_space_and_comments u l) (λ m.
    if at_end m
    then done (record { typ = TokenType.eof; lit = []; pos = m.pos; quoted = false }) m
    else scan_token u m)
