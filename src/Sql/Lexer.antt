-- ===== src/Sql/Lexer.antt =====
-- internal/sql/lexer.go: the lexer's state, its tokens, the bytes it looks at and its loops. A SQL
-- text is its bytes; unicode and utf8 enter as the record Unicode. A loop runs on fuel, the number
-- of bytes that are left and one more, and ends with `none` when the fuel runs out.
use mathlib.Core.Bool.{◌&&◌, ◌||◌, not}
use dripsql.Base.{
  ℕ, zero, suc, nat_beq, ltb, leb, if◌then◌else◌, ◌+◌, ◌-◌, ◌≤◌, ◌≡◌, ◌≢◌, Bool, true, Option, none,
  some, [], ◌∷◌, Text, length, get_or, take, drop,
}

pub data TokenType : Type 0 where
  eof ident string int float comma l_paren r_paren semicolon equal not_equal less : TokenType
  less_equal greater greater_equal star plus minus slash percent concat json_get : TokenType
  json_get_text dot placeholder : TokenType

pub record Token : Type 0 where
  pub typ : TokenType
  pub lit : Text
  pub pos : ℕ
  pub quoted : Bool

unfoldable pub is_ascii : ℕ → Bool
is_ascii b = ltb b 0x80

unfoldable pub is_digit_byte : ℕ → Bool
is_digit_byte b = leb 0x30 b && leb b 0x39

unfoldable pub is_upper_byte : ℕ → Bool
is_upper_byte b = leb 0x41 b && leb b 0x5a

unfoldable pub is_lower_byte : ℕ → Bool
is_lower_byte b = leb 0x61 b && leb b 0x7a

unfoldable pub is_blank_byte : ℕ → Bool
is_blank_byte b = nat_beq b 0x20 || nat_beq b 0x09 || nat_beq b 0x0a || nat_beq b 0x0d

-- What the lexer asks of the packages unicode, utf8 and strings. DecodeRuneInString returns the
-- rune and its width, which is within the text, and at least one where the text is not empty. An
-- ASCII byte is its own rune, and of these the letters are a to z and A to Z.
pub record Unicode : Type 0 where
  pub decode_rune : Text → ℕ × ℕ
  pub is_letter : ℕ → Bool
  pub is_digit : ℕ → Bool
  pub is_space : ℕ → Bool
  pub to_lower : Text → Text
  pub width_pos : (s : Text) → s ≢ [] → 1 ≤ (decode_rune s).1
  pub width_fits : (s : Text) → (decode_rune s).1 ≤ length s
  pub ascii_rune : (b : ℕ) (s : Text) → is_ascii b ≡ true → decode_rune (b ∷ s) ≡ (b, 1)
  pub ascii_letter :
      (b : ℕ) → is_ascii b ≡ true → is_letter b ≡ (is_lower_byte b || is_upper_byte b)

pub record Lexer : Type 0 where
  pub sql : Text
  pub pos : ℕ

unfoldable pub left : Lexer → ℕ
left l = length l.sql - l.pos

unfoldable pub at_end : Lexer → Bool
at_end l = leb (length l.sql) l.pos

unfoldable pub peek_byte : ℕ → Lexer → ℕ
peek_byte off l = get_or l.sql (l.pos + off) 0

unfoldable pub advance : ℕ → Lexer → Lexer
advance n l = record l { pos = l.pos + n }

-- l.sql[start:l.pos]
unfoldable pub slice_from : ℕ → Lexer → Text
slice_from start l = take (l.pos - start) (drop start l.sql)

-- utf8.DecodeRuneInString(l.sql[l.pos:])
unfoldable pub rune_at : Unicode → Lexer → ℕ × ℕ
rune_at u l = u.decode_rune (drop l.pos l.sql)

-- utf8.RuneError, with the width that says that the bytes are no rune.
unfoldable pub invalid_rune : ℕ × ℕ → Bool
invalid_rune r = nat_beq r.0 0xfffd && nat_beq r.1 1

-- `for l.pos < len(l.sql) && p(l.sql[l.pos]) { l.pos++ }`
unfoldable pub skip_while : (ℕ → Bool) → ℕ → Lexer → Option Lexer
skip_while p zero l = none
skip_while p (suc fuel) l =
    let rest = skip_while p fuel (advance 1 l) in
    if at_end l then some l else if p (peek_byte 0 l) then rest else some l

unfoldable pub scan_digits : Lexer → Option Lexer
scan_digits l = skip_while is_digit_byte (suc (left l)) l

unfoldable pub in_comment : ℕ → Bool
in_comment b = not (nat_beq b 0x0a) && not (nat_beq b 0x0d)

unfoldable pub bind_lexer {ℓ} : {A : Type ℓ} → Option Lexer → (Lexer → Option A) → Option A
bind_lexer none f = none
bind_lexer (some l) f = f l

unfoldable pub skip_loop : Unicode → ℕ → Lexer → Option Lexer
skip_loop u zero l = none
skip_loop u (suc fuel) l =
    let blank = skip_loop u fuel (advance 1 l) in
    let comment =
      bind_lexer (skip_while in_comment (suc (left (advance 2 l))) (advance 2 l))
        (skip_loop u fuel) in
    let rune = skip_loop u fuel (advance (rune_at u l).1 l) in
    let b = peek_byte 0 l in
    if at_end l
    then some l
    else if is_blank_byte b
    then blank
    else if is_ascii b
    then (if nat_beq b 0x2d && nat_beq (peek_byte 1 l) 0x2d then comment else some l)
    else if u.is_space (rune_at u l).0
    then rune
    else some l

unfoldable pub skip_space_and_comments : Unicode → Lexer → Option Lexer
skip_space_and_comments u l = skip_loop u (suc (left l)) l
