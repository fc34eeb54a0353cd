-- ===== src/Sql/Operators.antt =====
-- internal/sql/lexer.go: what an operator takes of the text.
use mathlib.Core.Bool.{◌&&◌}
use dripsql.Base.{
  ℕ, suc, nat_beq, ◌+◌, ◌≤◌, ◌<◌, ◌≡◌, refl, Bool, true, false, Option, none, some, length, arith,
}
use dripsql.Sql.Lexer.{TokenType, Token, Lexer, peek_byte, advance}
use dripsql.Sql.Scanners.{
  Scan, done, failed, stuck, or_stuck, operator, single_operator, long_operator,
  scan_ascii_operator,
}
use dripsql.Sql.Progress.{Onward, Onward-advance, Lands, if_both, peek_byte-within}

-- The token that reports the end of the text.
abbrev pub is_eof : TokenType → Bool
is_eof TokenType.eof = true
is_eof _ = false

-- A token that was read at l: it says where it starts, and the lexer moved behind it.
pub record Took (l : Lexer) (t : Token) (m : Lexer) : Type 0 where
  pub starts : t.pos ≡ l.pos
  pub onward : Onward l m
  pub moved : l.pos < m.pos
  pub real : is_eof t.typ ≡ false

unfoldable pub Scanned : Lexer → Scan → Type 0
Scanned l (done t m) = Took l t m
Scanned l (failed e) = Unit
Scanned l stuck = ⊥

operator-Scanned :
    (t : TokenType) (n : ℕ) (l : Lexer)
    → is_eof t ≡ false
    → 1 ≤ n
    → l.pos + n ≤ length l.sql
    → Scanned l (operator t n l)
unfolding operator Scanned advance
operator-Scanned t n l real hn h = record {
  starts = refl;
  onward = Onward-advance n l h;
  moved = omega arith;
  real = real;
}

pub or_stuck-Scanned :
    (s l : Lexer) (o : Option Lexer) (f : Lexer → Scan)
    → Lands l o
    → ((m : Lexer) → Onward l m → Scanned s (f m))
    → Scanned s (or_stuck o f)
unfolding or_stuck Scanned Lands
or_stuck-Scanned s l none f h k = h
or_stuck-Scanned s l (some m) f h k = k m h

-- Where an operator is found it is scanned.
unfoldable pub Found : Lexer → Option Scan → Type 0
Found l none = Unit
Found l (some s) = Scanned l s

long_operator-Found : (b : ℕ) (l : Lexer) → l.pos < length l.sql → Found l (long_operator b l)
unfolding long_operator Found Scanned
long_operator-Found b l h =
    let c = peek_byte 1 l in
    let one : (t : TokenType) → is_eof t ≡ false → Scanned l (operator t 1 l) =
      λ t r. operator-Scanned t 1 l r (omega arith) (omega arith) in
    let two : (t : TokenType) (d : ℕ)
        → is_eof t ≡ false
        → nat_beq c (suc d) ≡ true
        → Scanned l (operator t 2 l) =
      λ t d r e. operator-Scanned t 2 l r (omega arith) (omega (arith, peek_byte-within 1 d l e)) in
    if_both (Found l) (nat_beq b 0x21) _ _
      (λ e. if_both (Found l) (nat_beq c 0x3d) _ _ (λ e. two _ 0x3c refl e) (λ e. tt))
      (λ e.
        if_both (Found l) (nat_beq b 0x3c) _ _
          (λ e.
            if_both (Found l) (nat_beq c 0x3e) _ _ (λ e. two _ 0x3d refl e)
              (λ e.
                if_both (Found l) (nat_beq c 0x3d) _ _ (λ e. two _ 0x3c refl e) (λ e. one _ refl)))
          (λ e.
            if_both (Found l) (nat_beq b 0x3e) _ _
              (λ e.
                if_both (Found l) (nat_beq c 0x3d) _ _ (λ e. two _ 0x3c refl e) (λ e. one _ refl))
              (λ e.
                if_both (Found l) (nat_beq b 0x2d) _ _
                  (λ e.
                    if_both (Found l) (nat_beq c 0x3e && nat_beq (peek_byte 2 l) 0x3e) _ _
                      (λ e. three e)
                      (λ e.
                        if_both (Found l) (nat_beq c 0x3e) _ _ (λ e. two _ 0x3d refl e)
                          (λ e. one _ refl)))
                  (λ e.
                    if_both (Found l) (nat_beq b 0x7c) _ _
                      (λ e.
                        if_both (Found l) (nat_beq c 0x7c) _ _ (λ e. two _ 0x7b refl e) (λ e. tt))
                      (λ e. tt)))))
  where
    three :
        (nat_beq (peek_byte 1 l) 0x3e && nat_beq (peek_byte 2 l) 0x3e) ≡ true
        → Scanned l (operator TokenType.json_get_text 3 l)
    three e =
        let third : nat_beq (peek_byte 2 l) 0x3e ≡ true = ground arith in
        operator-Scanned _ 3 l refl (omega arith) (omega (arith, peek_byte-within 2 0x3d l third))

-- No operator of one byte ends the text.
unfoldable IsReal : Option TokenType → Type 0
IsReal none = Unit
IsReal (some t) = is_eof t ≡ false

single_operator-IsReal : (b : ℕ) → IsReal (single_operator b)
unfolding single_operator IsReal
single_operator-IsReal b = ground arith

pub scan_ascii_operator-Found :
    (b : ℕ) (l : Lexer) → l.pos < length l.sql → Found l (scan_ascii_operator b l)
unfolding scan_ascii_operator Found IsReal
scan_ascii_operator-Found b l h = choose (single_operator b) (single_operator-IsReal b)
  where
    choose :
        (o : Option TokenType)
        → IsReal o
        → Found l (elim o [ none ↦ long_operator b l | some t ↦ some (operator t 1 l) ])
    choose none r = long_operator-Found b l h
    choose (some t) r = operator-Scanned t 1 l r (omega arith) (omega arith)
