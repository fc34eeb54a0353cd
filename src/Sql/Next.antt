-- ===== src/Sql/Next.antt =====
-- internal/sql/lexer.go: next returns on every text, and a text ends after so many tokens.
use mathlib.Core.Bool.{◌&&◌, ◌||◌, not}
use dripsql.Base.{
  ℕ, zero, suc, nat_beq, if◌then◌else◌, ◌+◌, ◌≤◌, ◌<◌, ◌≡◌, refl, ap, ◌∙◌, Bool, true, false,
  Option, none, some, [], ◌∷◌, Text, length, drop, get_or, arith, ◌⊎◌, inl, inr,
}
use dripsql.Sql.Lexer.{
  TokenType, Token, Unicode, Lexer, left, at_end, peek_byte, advance, rune_at, is_ascii,
  is_digit_byte, is_upper_byte, is_lower_byte, invalid_rune, scan_digits, skip_space_and_comments,
}
use dripsql.Sql.Scanners.{
  Scan, done, failed, stuck, or_stuck, scan_ascii_operator, scan_exponent, require_digits,
  number_token, at_exponent, at_sign, at_point, scan_fraction, scan_number, scan_rune, scan_ascii,
  scan_token, next,
}
use dripsql.Sql.Operators.{Scanned, is_eof, or_stuck-Scanned, Found, scan_ascii_operator-Found}
use dripsql.Sql.Idents.{Starts}
use dripsql.Sql.Total.{
  Inside, Inside-Onward, Inside-Took, scan_ident-Scanned, scan_delimited-Scanned,
}
use dripsql.Sql.Progress.{
  Onward, Onward-advance, Lands, if_both, at_end-false, at_end-true, pos-advance, scan_digits-Lands,
  skip_while-moves, skip_space-Lands,
}

not-at_end : (l : Lexer) (b : Bool) → (not (at_end l) && b) ≡ true → l.pos < length l.sql
not-at_end l b h = at_end-false l (ground arith)

sign-within : (l : Lexer) → at_sign (advance 1 l) ≡ true → l.pos + 2 ≤ length l.sql
unfolding at_sign advance
sign-within l h = omega (arith, not-at_end (advance 1 l) _ h)

exponent-within : (l : Lexer) → at_exponent l ≡ true → l.pos + 1 ≤ length l.sql
unfolding at_exponent
exponent-within l h = omega (arith, not-at_end l _ h)

point-within : (l : Lexer) → at_point l ≡ true → l.pos + 1 ≤ length l.sql
unfolding at_point
point-within l h = omega (arith, not-at_end l _ h)

module _ (s : Lexer) where
  require_digits-Scanned :
      (start : ℕ) (from : Lexer) (k : Lexer → Scan)
      → Inside s from
      → ((m : Lexer) → Inside s m → Scanned s (k m))
      → Scanned s (require_digits start from k)
  unfolding require_digits Scanned
  require_digits-Scanned start from k i h =
      or_stuck-Scanned s from _ _ (scan_digits-Lands from i.onward.within) (λ m o.
        if_both (Scanned s) (nat_beq m.pos from.pos) _ _ (λ e. tt)
          (λ e. h m (Inside-Onward s from m i o)))

  number_token-Scanned :
      (start : ℕ) (typ : TokenType) (l : Lexer)
      → start ≡ s.pos
      → is_eof typ ≡ false
      → Inside s l
      → Scanned s (number_token start typ l)
  unfolding number_token Scanned
  number_token-Scanned start typ l st r i = Inside-Took s l _ i st r

  exponent-Scanned :
      (start : ℕ) (typ : TokenType) (l : Lexer)
      → start ≡ s.pos
      → is_eof typ ≡ false
      → Inside s l
      → Scanned s (scan_exponent start typ l)
  unfolding scan_exponent
  exponent-Scanned start typ l st r i =
      if_both (Scanned s) (at_exponent l) _ _
        (λ e.
          let one = Onward-advance 1 l (exponent-within l e) in
          if_both (λ d. Scanned s (require_digits start d (number_token start TokenType.float)))
            (at_sign (advance 1 l)) _ _
            (λ t.
              let two = Onward-advance 2 l (sign-within l t) in
              require_digits-Scanned start _ _ (Inside-Onward s l _ i two)
                (λ m j. number_token-Scanned start TokenType.float m st refl j))
            (λ t.
              require_digits-Scanned start _ _ (Inside-Onward s l _ i one)
                (λ m j. number_token-Scanned start TokenType.float m st refl j)))
        (λ e. number_token-Scanned start typ l st r i)

  fraction-Scanned :
      (start : ℕ) (l : Lexer) → start ≡ s.pos → Inside s l → Scanned s (scan_fraction start l)
  unfolding scan_fraction
  fraction-Scanned start l st i =
      if_both (Scanned s) (at_point l) _ _
        (λ e.
          let one = Onward-advance 1 l (point-within l e) in
          require_digits-Scanned start _ _ (Inside-Onward s l _ i one)
            (λ m j. exponent-Scanned start TokenType.float m st refl j))
        (λ e. exponent-Scanned start TokenType.int l st refl i)

scan_number-Scanned :
    (l : Lexer)
    → l.pos < length l.sql
    → is_digit_byte (peek_byte 0 l) ≡ true
    → Scanned l (scan_number l)
unfolding scan_number scan_digits
scan_number-Scanned l h d =
    let one = Onward-advance 1 l (omega (arith, h)) in
    let first : Inside l (advance 1 l) = record {
      onward = one;
      moved = pos-advance 1 l (omega arith);
    } in
    or_stuck-Scanned l (advance 1 l) _ _
      (skip_while-moves is_digit_byte (suc (left l)) l (omega arith) h d)
      (λ m o. fraction-Scanned l l.pos m refl (Inside-Onward l (advance 1 l) m first o))

scan_rune-Scanned :
    (u : Unicode) (l : Lexer)
    → l.pos < length l.sql
    → (u.is_letter (rune_at u l).0 ≡ true → Starts u l)
    → Scanned l (scan_rune u l)
unfolding scan_rune Scanned
scan_rune-Scanned u l h st =
    if_both (Scanned l) (invalid_rune (rune_at u l)) _ _ (λ e. tt)
      (λ e.
        if_both (Scanned l) (u.is_letter (rune_at u l).0) _ _ (λ t. scan_ident-Scanned u l h (st t))
          (λ t. tt))

drop-get_or : (n : ℕ) (s : Text) → n < length s → (r : Text) × (drop n s ≡ get_or s n 0 ∷ r)
drop-get_or n [] h = elim h [ ]
drop-get_or zero (x ∷ s) h = (s, refl)
drop-get_or (suc n) (x ∷ s) h = drop-get_or n s (omega arith)

-- The rune at an ASCII byte is the byte.
ascii_letter-rune :
    (u : Unicode) (l : Lexer)
    → l.pos < length l.sql
    → is_ascii (peek_byte 0 l) ≡ true
    → u.is_letter (rune_at u l).0 ≡ (is_lower_byte (peek_byte 0 l) || is_upper_byte (peek_byte 0 l))
unfolding rune_at peek_byte
ascii_letter-rune u l h a =
    let here : l.pos ≡ l.pos + 0 = omega arith in
    let d = drop-get_or (l.pos + 0) l.sql (omega (arith, h)) in
    ap (λ r. u.is_letter r.0)
      (ap (λ n. u.decode_rune (drop n l.sql)) here
        ∙ ap u.decode_rune d.1
        ∙ u.ascii_rune (get_or l.sql (l.pos + 0) 0) d.0 a)
    ∙ u.ascii_letter (get_or l.sql (l.pos + 0) 0) a

scan_ascii-Scanned :
    (u : Unicode) (l : Lexer)
    → l.pos < length l.sql
    → is_ascii (peek_byte 0 l) ≡ true
    → Scanned l (scan_ascii u (peek_byte 0 l) l)
unfolding scan_ascii Starts
scan_ascii-Scanned u l h a =
    let b = peek_byte 0 l in
    if_both (Scanned l) (nat_beq b 0x27) _ _
      (λ e. scan_delimited-Scanned u 0x27 TokenType.string false _ l h refl)
      (λ e.
        if_both (Scanned l) (nat_beq b 0x22) _ _
          (λ e. scan_delimited-Scanned u 0x22 TokenType.ident true _ l h refl)
          (λ e.
            if_both (Scanned l) (nat_beq b 0x5f || is_lower_byte b || is_upper_byte b) _ _
              (λ t. scan_ident-Scanned u l h (inl (ground arith)))
              (λ t.
                if_both (Scanned l) (is_digit_byte b) _ _ (λ d. scan_number-Scanned l h d)
                  (λ d.
                    scan_rune-Scanned u l h
                      (λ r. let no_rune = ascii_letter-rune u l h a in absurd (ground arith))))))

scan_token-Scanned : (u : Unicode) (l : Lexer) → l.pos < length l.sql → Scanned l (scan_token u l)
unfolding scan_token Scanned Found Starts
scan_token-Scanned u l h =
    if_both (Scanned l) (is_ascii (peek_byte 0 l)) _ _
      (λ a.
        choose (scan_ascii_operator (peek_byte 0 l) l)
          (scan_ascii_operator-Found (peek_byte 0 l) l h) a)
      (λ a. scan_rune-Scanned u l h (λ r. inr (a, r)))
  where
    choose :
        (o : Option Scan)
        → Found l o
        → is_ascii (peek_byte 0 l) ≡ true
        → Scanned l (elim o [ some t ↦ t | none ↦ scan_ascii u (peek_byte 0 l) l ])
    choose none f a = scan_ascii-Scanned u l h a
    choose (some t) f a = f

-- What `next` returned at l: a token that starts no further back and ends further on, or the end
-- of the text.
pub record Read (l : Lexer) (t : Token) (m : Lexer) : Type 0 where
  pub same_sql : m.sql ≡ l.sql
  pub starts : l.pos ≤ t.pos
  pub within : m.pos ≤ length l.sql
  pub moved :
      ((is_eof t.typ ≡ false) × (t.pos < m.pos))
      ⊎ ((t.typ ≡ TokenType.eof) × (t.pos ≡ length l.sql) × (m.pos ≡ length l.sql))

-- A call that returned.
unfoldable pub Returned : Lexer → Scan → Type 0
Returned l (done t m) = Read l t m
Returned l (failed e) = Unit
Returned l stuck = ⊥

Returned-Scanned : (l m : Lexer) (s : Scan) → Onward l m → Scanned m s → Returned l s
unfolding Returned Scanned
Returned-Scanned l m (done t n) a h = record {
  same_sql = h.onward.same_sql ∙ a.same_sql;
  starts = omega (arith, h.starts, a.forward);
  within = omega (arith, h.onward.within, ap length h.onward.same_sql, ap length a.same_sql);
  moved = inl (h.real, omega (arith, h.starts, h.moved));
}
Returned-Scanned l m (failed e) a h = tt
Returned-Scanned l m stuck a h = h

-- From every place in every text, `next` returns: an error, or a token that starts no further back
-- than the place and ends within the text. The token that reports the end of the text is returned
-- only where the whole text has been read, and stands at its end; every other token takes at least
-- one byte.
pub next-Returned : (u : Unicode) (l : Lexer) → l.pos ≤ length l.sql → Returned l (next u l)
unfolding next Returned or_stuck Lands
next-Returned u l h = land (skip_space_and_comments u l) (skip_space-Lands u l h)
  where
    last : (m : Lexer) → Onward l m → at_end m ≡ true → m.pos ≡ length l.sql
    last m p e = omega (arith, p.within, at_end-true m e, ap length p.same_sql)

    land :
        (o : Option Lexer)
        → Lands l o
        → Returned l (
            or_stuck o (λ m.
              if at_end m
              then done (record { typ = TokenType.eof; lit = []; pos = m.pos; quoted = false }) m
              else scan_token u m))
    land none p = p
    land (some m) p =
        if_both (Returned l) (at_end m) _ _
          (λ e. record {
            same_sql = p.same_sql;
            starts = p.forward;
            within = omega (arith, p.within, ap length p.same_sql);
            moved = inr (refl, last m p e, last m p e);
          })
          (λ e. Returned-Scanned l m _ p (scan_token-Scanned u m (at_end-false m e)))
