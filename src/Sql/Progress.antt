-- ===== src/Sql/Progress.antt =====
-- internal/sql/lexer.go: the lexer always returns, and moves forward. The loops never run out of
-- fuel, every token takes at least one byte, and the end of the text is reported at its end.
use mathlib.Core.Bool.{◌&&◌}
use dripsql.Base.{
  leb, ℕ, zero, suc, nat_beq, if◌then◌else◌, ◌+◌, ◌-◌, ◌≤◌, ◌<◌, ◌≡◌, ◌≢◌, refl, ap, ◌∙◌, Bool,
  true, false, Option, none, some, [], ◌∷◌, Text, length, get_or, drop, arith, length-drop,
}
use dripsql.Sql.Lexer.{
  Unicode, Lexer, left, at_end, peek_byte, advance, rune_at, is_ascii, is_blank_byte, is_digit_byte,
  skip_while, scan_digits, in_comment, bind_lexer, skip_loop, skip_space_and_comments,
}

-- m reads the same text as l, no further back and not beyond its end.
pub record Onward (l m : Lexer) : Type 0 where
  pub same_sql : m.sql ≡ l.sql
  pub forward : l.pos ≤ m.pos
  pub within : m.pos ≤ length m.sql

unfoldable pub Lands : Lexer → Option Lexer → Type 0
Lands l none = ⊥
Lands l (some m) = Onward l m

pub if_both {ℓ κ} :
    {A : Type ℓ} (P : A → Type κ) (b : Bool) (x y : A)
    → (b ≡ true → P x)
    → (b ≡ false → P y)
    → P (if b then x else y)
if_both P true x y hx hy = hx refl
if_both P false x y hx hy = hy refl

pub Onward-refl : (l : Lexer) → l.pos ≤ length l.sql → Onward l l
Onward-refl l h = record { same_sql = refl; forward = omega arith; within = h }

pub Onward-trans : (l m n : Lexer) → Onward l m → Onward m n → Onward l n
Onward-trans l m n a b = record {
  same_sql = b.same_sql ∙ a.same_sql;
  forward = omega (arith, a.forward, b.forward);
  within = b.within;
}

pub Lands-trans : (l m : Lexer) (o : Option Lexer) → Onward l m → Lands m o → Lands l o
unfolding Lands
Lands-trans l m none a h = h
Lands-trans l m (some n) a h = Onward-trans l m n a h

pub Onward-advance : (n : ℕ) (l : Lexer) → l.pos + n ≤ length l.sql → Onward l (advance n l)
unfolding advance
Onward-advance n l h = record { same_sql = refl; forward = omega arith; within = h }

pub at_end-false : (l : Lexer) → at_end l ≡ false → l.pos < length l.sql
unfolding at_end
at_end-false l h = ground arith

pub at_end-true : (l : Lexer) → at_end l ≡ true → length l.sql ≤ l.pos
unfolding at_end
at_end-true l h = ground arith

pub pos-advance : (n : ℕ) (l : Lexer) → 1 ≤ n → l.pos < (advance n l).pos
unfolding advance
pos-advance n l h = omega arith

get_or-some : (xs : Text) (i : ℕ) → get_or xs i 0 ≢ 0 → i < length xs
get_or-some [] i h = absurd (h refl)
get_or-some (x ∷ xs) zero h = omega arith
get_or-some (x ∷ xs) (suc i) h = omega (arith, get_or-some xs i h)

-- A byte that is looked at and is not zero stands in the text.
pub peek_byte-within :
    (k b : ℕ) (l : Lexer) → nat_beq (peek_byte k l) (suc b) ≡ true → l.pos + k < length l.sql
unfolding peek_byte
peek_byte-within k b l h = get_or-some l.sql (l.pos + k) (λ e. ground arith)

drop-some : (n : ℕ) (s : Text) → n < length s → drop n s ≢ []
drop-some n s h e = omega (arith, length-drop n s, ap length e)

-- A rune's width leads forward within the text.
pub Onward-rune :
    (u : Unicode) (l : Lexer)
    → l.pos < length l.sql
    → Onward l (advance (rune_at u l).1 l) × (1 ≤ (rune_at u l).1)
unfolding rune_at
Onward-rune u l h =
    let rest = drop l.pos l.sql in
    let fits : (u.decode_rune rest).1 ≤ length l.sql - l.pos =
      omega (arith, u.width_fits rest, length-drop l.pos l.sql) in
    (
      Onward-advance (u.decode_rune rest).1 l (omega (arith, fits)),
      u.width_pos rest (drop-some l.pos l.sql h),
    )

pub left-advance :
    (n fuel : ℕ) (l : Lexer)
    → 1 ≤ n
    → l.pos < length l.sql
    → left l < suc fuel
    → left (advance n l) < fuel
unfolding left advance
left-advance n fuel l hn h f = omega arith

pub skip_while-Lands :
    (p : ℕ → Bool) (fuel : ℕ) (l : Lexer)
    → left l < fuel
    → l.pos ≤ length l.sql
    → Lands l (skip_while p fuel l)
unfolding skip_while Lands
skip_while-Lands p zero l f h = absurd (omega arith)
skip_while-Lands p (suc fuel) l f h =
    if_both (Lands l) (at_end l) _ _ (λ e. Onward-refl l h)
      (λ e.
        let lt = at_end-false l e in
        let step = Onward-advance 1 l (omega (arith, lt)) in
        if_both (Lands l) (p (peek_byte 0 l)) _ _
          (λ t. Lands-trans l (advance 1 l) _ step (
            skip_while-Lands p fuel (advance 1 l) (left-advance 1 fuel l (omega arith) lt f)
              step.within))
          (λ t. Onward-refl l h))

pub scan_digits-Lands : (l : Lexer) → l.pos ≤ length l.sql → Lands l (scan_digits l)
unfolding scan_digits
scan_digits-Lands l h = skip_while-Lands is_digit_byte (suc (left l)) l (omega arith) h

-- What runs on from where a lexer lands lands too.
bind-Lands :
    (l : Lexer) (o : Option Lexer) (f : Lexer → Option Lexer)
    → Lands l o
    → ((m : Lexer) → Onward l m → Lands m (f m))
    → Lands l (bind_lexer o f)
unfolding Lands bind_lexer
bind-Lands l none f h k = h
bind-Lands l (some m) f h k = Lands-trans l m (f m) h (k m h)

pub left-Onward : (l m : Lexer) (fuel : ℕ) → Onward l m → left l < fuel → left m < fuel
unfolding left
left-Onward l m fuel h f = omega (arith, h.forward, ap length h.same_sql)

-- `--` stands in the text.
dashes-within :
    (l : Lexer)
    → (nat_beq (peek_byte 0 l) 0x2d && nat_beq (peek_byte 1 l) 0x2d) ≡ true
    → l.pos + 2 ≤ length l.sql
dashes-within l h =
    let second : nat_beq (peek_byte 1 l) 0x2d ≡ true = ground arith in
    omega (arith, peek_byte-within 1 0x2c l second)

skip_loop-Lands :
    (u : Unicode) (fuel : ℕ) (l : Lexer)
    → left l < fuel
    → l.pos ≤ length l.sql
    → Lands l (skip_loop u fuel l)
unfolding skip_loop Lands
skip_loop-Lands u zero l f h = absurd (omega arith)
skip_loop-Lands u (suc fuel) l f h =
    let stay = Onward-refl l h in
    let b = peek_byte 0 l in
    let far = (rune_at u l).1 in
    let dashes = nat_beq b 0x2d && nat_beq (peek_byte 1 l) 0x2d in
    if_both (Lands l) (at_end l) _ _ (λ e. stay)
      (λ e.
        let lt = at_end-false l e in
        let one = Onward-advance 1 l (omega (arith, lt)) in
        let wide = Onward-rune u l lt in
        if_both (Lands l) (is_blank_byte b) _ _
          (λ t. Lands-trans l (advance 1 l) _ one (
            skip_loop-Lands u fuel (advance 1 l) (left-advance 1 fuel l (omega arith) lt f)
              one.within))
          (λ t.
            if_both (Lands l) (is_ascii b) _ _
              (λ a.
                if_both (Lands l) dashes _ _
                  (λ d.
                    let two = Onward-advance 2 l (dashes-within l d) in
                    let less = left-advance 2 fuel l (omega arith) lt f in
                    Lands-trans l (advance 2 l) _ two (
                      bind-Lands (advance 2 l) _ (skip_loop u fuel)
                        (skip_while-Lands in_comment _ (advance 2 l) (omega arith) two.within)
                        (λ m k.
                          skip_loop-Lands u fuel m (left-Onward (advance 2 l) m fuel k less)
                            k.within)))
                  (λ d. stay))
              (λ a.
                if_both (Lands l) (u.is_space (rune_at u l).0) _ _
                  (λ s. Lands-trans l (advance far l) _ wide.0 (
                    skip_loop-Lands u fuel (advance far l) (left-advance far fuel l wide.1 lt f)
                      wide.0.within))
                  (λ s. stay))))

pub skip_space-Lands :
    (u : Unicode) (l : Lexer) → l.pos ≤ length l.sql → Lands l (skip_space_and_comments u l)
unfolding skip_space_and_comments
skip_space-Lands u l h = skip_loop-Lands u (suc (left l)) l (omega arith) h

-- A loop whose test holds of the byte at hand moves.
pub skip_while-moves :
    (p : ℕ → Bool) (fuel : ℕ) (l : Lexer)
    → left l < fuel
    → l.pos < length l.sql
    → p (peek_byte 0 l) ≡ true
    → Lands (advance 1 l) (skip_while p fuel l)
unfolding skip_while at_end
skip_while-moves p zero l f h t = absurd (omega arith)
skip_while-moves p (suc fuel) l f h t =
    let stop : leb (length l.sql) l.pos ≡ false = ground arith in
    let step = Onward-advance 1 l (omega (arith, h)) in
    rw (stop, t)
      (skip_while-Lands p fuel (advance 1 l) (left-advance 1 fuel l (omega arith) h f) step.within)
