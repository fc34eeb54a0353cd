-- ===== src/Sql/Idents.antt =====
-- internal/sql/lexer.go: scanIdent's loop ends, and moves from a letter or an underscore.
use mathlib.Core.Bool.{◌&&◌, ◌||◌}
use dripsql.Base.{
  ℕ, zero, suc, nat_beq, ◌≤◌, ◌<◌, ◌≡◌, true, false, Option, none, some, length, arith, ◌⊎◌,
}
use dripsql.Sql.Lexer.{
  Unicode, Lexer, left, at_end, peek_byte, advance, rune_at, is_ascii, is_digit_byte, is_upper_byte,
  is_lower_byte,
}
use dripsql.Sql.Scanners.{IdentState, ident_loop}
use dripsql.Sql.Progress.{
  Onward, Onward-refl, Onward-trans, Onward-advance, Onward-rune, if_both, at_end-false,
  at_end-true, pos-advance, left-advance,
}

-- scanIdent starts at a letter or an underscore.
unfoldable pub Starts : Unicode → Lexer → Type 0
Starts u l =
    let b = peek_byte 0 l in
    ((is_ascii b && (nat_beq b 0x5f || is_lower_byte b || is_upper_byte b)) ≡ true)
    ⊎ ((is_ascii b ≡ false) × (u.is_letter (rune_at u l).0 ≡ true))

Ends : Lexer → Option IdentState → Type 0
Ends l none = ⊥
Ends l (some s) = Onward l s.lex

Ends-trans : (l m : Lexer) (o : Option IdentState) → Onward l m → Ends m o → Ends l o
unfolding Ends
Ends-trans l m none a h = h
Ends-trans l m (some s) a h = Onward-trans l m s.lex a h

ident_loop-Ends :
    (u : Unicode) (fuel : ℕ) (s : IdentState)
    → left s.lex < fuel
    → s.lex.pos ≤ length s.lex.sql
    → Ends s.lex (ident_loop u fuel s)
unfolding ident_loop Ends
ident_loop-Ends u zero s f h = absurd (omega arith)
ident_loop-Ends u (suc fuel) s f h =
    let l = s.lex in
    let stay = Onward-refl l h in
    let b = peek_byte 0 l in
    let far = (rune_at u l).1 in
    let r = (rune_at u l).0 in
    if_both (Ends l) (at_end l) _ _ (λ e. stay)
      (λ e.
        let lt = at_end-false l e in
        let one = Onward-advance 1 l (omega (arith, lt)) in
        let less = left-advance 1 fuel l (omega arith) lt f in
        let wide = Onward-rune u l lt in
        if_both (Ends l) (is_ascii b) _ _
          (λ a.
            if_both (Ends l) (nat_beq b 0x5f || is_lower_byte b || is_digit_byte b) _ _
              (λ t.
                Ends-trans l (advance 1 l) _ one
                  (ident_loop-Ends u fuel (record s { lex = advance 1 l }) less one.within))
              (λ t.
                if_both (Ends l) (is_upper_byte b) _ _
                  (λ c. Ends-trans l (advance 1 l) _ one (
                    ident_loop-Ends u fuel (record s { lex = advance 1 l; upper = true }) less
                      one.within))
                  (λ c. stay)))
          (λ a.
            if_both (Ends l) (u.is_letter r || u.is_digit r) _ _
              (λ t. Ends-trans l (advance far l) _ wide.0 (
                ident_loop-Ends u fuel (record s { lex = advance far l; ascii = false })
                  (left-advance far fuel l wide.1 lt f) wide.0.within))
              (λ t. stay)))

-- From such a start its loop moves.
unfoldable pub Moves : Lexer → Option IdentState → Type 0
Moves l none = ⊥
Moves l (some s) = Onward l s.lex × (l.pos < s.lex.pos)

Moves-from :
    (l m : Lexer) (o : Option IdentState) → Onward l m → l.pos < m.pos → Ends m o → Moves l o
unfolding Ends Moves
Moves-from l m none a lt h = h
Moves-from l m (some s) a lt h = (Onward-trans l m s.lex a h, omega (arith, h.forward))

pub ident_loop-Moves :
    (u : Unicode) (fuel : ℕ) (s : IdentState)
    → left s.lex < fuel
    → s.lex.pos < length s.lex.sql
    → Starts u s.lex
    → Moves s.lex (ident_loop u fuel s)
unfolding ident_loop Moves Starts
ident_loop-Moves u zero s f h st = absurd (omega arith)
ident_loop-Moves u (suc fuel) s f h st =
    let l = s.lex in
    let b = peek_byte 0 l in
    let far = (rune_at u l).1 in
    let r = (rune_at u l).0 in
    let one = Onward-advance 1 l (omega (arith, h)) in
    let less = left-advance 1 fuel l (omega arith) h f in
    let wide = Onward-rune u l h in
    if_both (Moves l) (at_end l) _ _ (λ e. absurd (omega (arith, at_end-true l e)))
      (λ e.
        if_both (Moves l) (is_ascii b) _ _
          (λ a.
            if_both (Moves l) (nat_beq b 0x5f || is_lower_byte b || is_digit_byte b) _ _
              (λ t.
                Moves-from l (advance 1 l) _ one (pos-advance 1 l (omega arith))
                  (ident_loop-Ends u fuel (record s { lex = advance 1 l }) less one.within))
              (λ t.
                if_both (Moves l) (is_upper_byte b) _ _
                  (λ c. Moves-from l (advance 1 l) _ one (pos-advance 1 l (omega arith)) (
                    ident_loop-Ends u fuel (record s { lex = advance 1 l; upper = true }) less
                      one.within))
                  (λ c. absurd (ground arith))))
          (λ a.
            if_both (Moves l) (u.is_letter r || u.is_digit r) _ _
              (λ t. Moves-from l (advance far l) _ wide.0 (pos-advance far l wide.1) (
                ident_loop-Ends u fuel (record s { lex = advance far l; ascii = false })
                  (left-advance far fuel l wide.1 h f) wide.0.within))
              (λ t. absurd (ground arith))))
