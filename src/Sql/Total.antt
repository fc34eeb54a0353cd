-- ===== src/Sql/Total.antt =====
-- internal/sql/lexer.go: scanIdent and scanDelimited return, and move.
use mathlib.Core.Bool.{◌&&◌, not}
use dripsql.Base.{
  ℕ, zero, suc, nat_beq, ltb, ◌+◌, ◌≤◌, ◌<◌, ◌≡◌, refl, Bool, true, false, Option, none, some, Text,
  length, arith,
}
use dripsql.Sql.Lexer.{
  TokenType, Token, Unicode, Lexer, left, at_end, peek_byte, advance, rune_at, is_ascii,
  invalid_rune,
}
use dripsql.Sql.Scanners.{
  IdentState, ident_token, scan_ident, Delimited, delimited_loop, scan_delimited,
}
use dripsql.Sql.Operators.{Took, Scanned, is_eof}
use dripsql.Sql.Idents.{Starts, Moves, ident_loop-Moves}
use dripsql.Sql.Progress.{
  Onward, Onward-trans, Onward-advance, Onward-rune, if_both, at_end-false, pos-advance,
  left-advance,
}

ident_token-Scanned :
    (u : Unicode) (l : Lexer) (o : Option IdentState)
    → Moves l o
    → Scanned l (ident_token u l.pos o)
unfolding Moves Scanned ident_token
ident_token-Scanned u l none h = h
ident_token-Scanned u l (some s) h = record {
  starts = refl;
  onward = h.0;
  moved = h.1;
  real = refl;
}

pub scan_ident-Scanned :
    (u : Unicode) (l : Lexer) → l.pos < length l.sql → Starts u l → Scanned l (scan_ident u l)
unfolding scan_ident
scan_ident-Scanned u l h st =
    ident_token-Scanned u l _ (ident_loop-Moves u (suc (left l)) _ (omega arith) h st)

-- A scanner that started at s and stands behind it.
pub record Inside (s l : Lexer) : Type 0 where
  pub onward : Onward s l
  pub moved : s.pos < l.pos

pub Inside-Onward : (s l m : Lexer) → Inside s l → Onward l m → Inside s m
Inside-Onward s l m a b = record {
  onward = Onward-trans s l m a.onward b;
  moved = omega (arith, a.moved, b.forward);
}

pub Inside-Took :
    (s l : Lexer) (t : Token) → Inside s l → t.pos ≡ s.pos → is_eof t.typ ≡ false → Took s t l
Inside-Took s l t h e r = record { starts = e; onward = h.onward; moved = h.moved; real = r }

delimited_loop-Scanned :
    (u : Unicode) (d : Delimited) (s : Lexer) (fuel part : ℕ) (b : Text) (escaped : Bool)
    (l : Lexer)
    → (d.start ≡ s.pos) × (is_eof d.typ ≡ false)
    → Inside s l
    → left l < fuel
    → Scanned s (delimited_loop u d fuel part b escaped l)
unfolding delimited_loop Scanned
delimited_loop-Scanned u d s zero part b escaped l st i f = absurd (omega arith)
delimited_loop-Scanned u d s (suc fuel) part b escaped l st i f =
    let c = peek_byte 0 l in
    let far = (rune_at u l).1 in
    if_both (Scanned s) (at_end l) _ _ (λ e. tt)
      (λ e.
        let lt = at_end-false l e in
        let one = Onward-advance 1 l (omega (arith, lt)) in
        let wide = Onward-rune u l lt in
        if_both (Scanned s) (is_ascii c) _ _
          (λ a.
            if_both (Scanned s) (not (nat_beq c d.delim)) _ _
              (λ p.
                delimited_loop-Scanned u d s fuel part b escaped (advance 1 l) st
                  (Inside-Onward s l (advance 1 l) i one)
                  (left-advance 1 fuel l (omega arith) lt f))
              (λ p.
                if_both (Scanned s)
                  (ltb (l.pos + 1) (length l.sql) && nat_beq (peek_byte 1 l) d.delim) _ _
                  (λ q.
                    let two = Onward-advance 2 l (second q) in
                    delimited_loop-Scanned u d s fuel _ _ true (advance 2 l) st
                      (Inside-Onward s l (advance 2 l) i two)
                      (left-advance 2 fuel l (omega arith) lt f))
                  (λ q.
                    Inside-Took s (advance 1 l) _ (Inside-Onward s l (advance 1 l) i one) st.0
                      st.1)))
          (λ a.
            if_both (Scanned s) (invalid_rune (rune_at u l)) _ _ (λ p. tt)
              (λ p.
                delimited_loop-Scanned u d s fuel part b escaped (advance far l) st
                  (Inside-Onward s l (advance far l) i wide.0)
                  (left-advance far fuel l wide.1 lt f))))
  where
    second :
        (ltb (l.pos + 1) (length l.sql) && nat_beq (peek_byte 1 l) d.delim) ≡ true
        → l.pos + 2 ≤ length l.sql
    second q = ground arith

pub scan_delimited-Scanned :
    (u : Unicode) (delim : ℕ) (typ : TokenType) (quoted : Bool) (label : Text) (l : Lexer)
    → l.pos < length l.sql
    → is_eof typ ≡ false
    → Scanned l (scan_delimited u delim typ quoted label l)
unfolding scan_delimited
scan_delimited-Scanned u delim typ quoted label l h r =
    let one = Onward-advance 1 l (omega (arith, h)) in
    delimited_loop-Scanned u _ l (suc (left l)) _ _ _ (advance 1 l) (refl, r)
      (record { onward = one; moved = pos-advance 1 l (omega arith) })
      (left-advance 1 (suc (left l)) l (omega arith) h (omega arith))
