-- ===== src/Sql/Lookahead.antt =====
-- internal/sql/parser.go: the lookahead is transparent. Whatever was peeked at, the parser reads the
-- tokens of the text in order, each once.
use mathlib.Core.Path.{subst}
use dripsql.Base.{
  ℕ, zero, suc, Bool, true, false, Bool-cases, inl, inr, List, [], ◌∷◌, if◌then◌else◌, ◌≡◌, refl,
  ap, sym, ◌∙◌,
}
use dripsql.Sql.Lexer.{Token, Unicode, Lexer}
use dripsql.Sql.Scanners.{LexError, Scan, done, failed, stuck, next}
use dripsql.Sql.Progress.{if_both}
use dripsql.Sql.Parser.{
  Parser, ParseError, Parse, ok, err, no_fuel, ◌>>=◌, lexed, next_token, peek, take_if, mark,
  restore,
}

-- The tokens that are to come, up to a number of them.
pub data Ahead : Type 0 where
  nothing : Ahead
  read : Token → Ahead → Ahead
  broken : LexError → Ahead

unfoldable pub follow : Scan → (Lexer → Ahead) → Ahead
follow (done t m) f = read t (f m)
follow (failed e) f = broken e
follow stuck f = nothing

unfoldable pub ahead : Unicode → ℕ → List Token → Lexer → Ahead
ahead u zero ts l = nothing
ahead u (suc n) (t ∷ ts) l = read t (ahead u n ts l)
ahead u (suc n) [] l = follow (next u l) (ahead u n [])

unfoldable pub waiting : Parser → List Token
waiting p =
    if p.has_first then (if p.has_second then p.first ∷ p.second ∷ [] else p.first ∷ []) else []

unfoldable pub coming : Unicode → ℕ → Parser → Ahead
coming u n p = ahead u n (waiting p) p.lex

-- The second slot is filled behind the first only.
unfoldable pub InOrder : Parser → Type 0
InOrder p = p.has_second ≡ true → p.has_first ≡ true

-- What reading the next token has to do.
unfoldable pub Reads : Unicode → Parser → Parse Token → Type 0
Reads u p (ok t q) = InOrder q × ((n : ℕ) → coming u (suc n) p ≡ read t (coming u n q))
Reads u p (err (ParseError.lex_error e)) = (n : ℕ) → coming u (suc n) p ≡ broken e
Reads u p (err e) = ⊥
Reads u p no_fuel = next u p.lex ≡ stuck

empty-waiting : (p : Parser) → p.has_first ≡ false → waiting p ≡ []
unfolding waiting
empty-waiting p h = rw h

abbrev empty : Parser → Lexer → Parser
empty p l = record p { lex = l; has_first = false; has_second = false }

lexed-Reads :
    (u : Unicode) (p : Parser) (l : Lexer) (s : Scan)
    → next u l ≡ s
    → Reads u (empty p l) (lexed s (λ t m. ok t (empty p m)))
unfolding lexed Reads coming waiting InOrder ahead follow
lexed-Reads u p l (done t m) e = (λ h. h, λ n. rw e)
lexed-Reads u p l (failed f) e = λ n. rw e
lexed-Reads u p l stuck e = e

-- The next token is the first of those to come, and the rest are still to come; where the lexer
-- fails, its error is what is to come.
pub next_token-Reads : (u : Unicode) (p : Parser) → InOrder p → Reads u p (next_token u p)
unfolding next_token Reads coming waiting InOrder ahead
next_token-Reads u p o = elim (Bool-cases p.has_first) [
  | inl h ↦ elim (Bool-cases p.has_second) [
    | inl k ↦ rw (h, k) (λ e. refl, λ n. refl)
    | inr k ↦ rw (h, k) (λ e. e, λ n. refl)
  ]
  | inr h ↦ elim (Bool-cases p.has_second) [
    | inl k ↦ absurd (cc (o k, h))
    | inr k ↦ rw (h, k) (lexed-Reads u p p.lex (next u p.lex) refl)
  ]
]

-- What looking at the next token has to do: the token stands in the first slot, and nothing that is
-- to come changes.
unfoldable pub Peeks : Unicode → Parser → Parse Token → Type 0
Peeks u p (ok t q) =
    InOrder q × (q.has_first ≡ true) × (q.first ≡ t) × ((n : ℕ) → coming u n q ≡ coming u n p)
Peeks u p (err (ParseError.lex_error e)) = (n : ℕ) → coming u (suc n) p ≡ broken e
Peeks u p (err e) = ⊥
Peeks u p no_fuel = next u p.lex ≡ stuck

lexed-Peeks :
    (u : Unicode) (p : Parser) (l : Lexer) (s : Scan)
    → next u l ≡ s
    → Peeks u (empty p l) (
        lexed s
          (λ t m. ok t (record p { lex = m; first = t; has_first = true; has_second = false })))
unfolding lexed Peeks coming waiting InOrder ahead follow
lexed-Peeks u p l (done t m) e = (λ h. refl, refl, refl, λ n. same n)
  where
    same : (n : ℕ) → ahead u n (t ∷ []) m ≡ ahead u n [] l
    same zero = refl
    same (suc n) = rw e
lexed-Peeks u p l (failed f) e = λ n. rw e
lexed-Peeks u p l stuck e = e

pub peek-Peeks : (u : Unicode) (p : Parser) → InOrder p → Peeks u p (peek u p)
unfolding peek Peeks InOrder
peek-Peeks u p o = elim (Bool-cases p.has_first) [
  | inl h ↦ rw h ((λ e. refl), refl, refl, λ n. refl)
  | inr h ↦ elim (Bool-cases p.has_second) [
    | inl k ↦ absurd (cc (o k, h))
    | inr k ↦ rw (h, k) (lexed-Peeks u p p.lex (next u p.lex) refl)
  ]
]

-- What a test that takes the next token has to do: it answers for the next token, takes it where
-- the answer is yes, and leaves all that is to come where it is no.
unfoldable pub Takes : Unicode → (Token → Bool) → Parser → Parse Bool → Type 0
Takes u test p (ok b q) =
    InOrder q
    × (t : Token) × (b ≡ test t)
    × (coming u 1 p ≡ read t nothing)
    × ((n : ℕ) → coming u (suc n) p ≡ (if b then read t (coming u n q) else coming u (suc n) q))
Takes u test p (err (ParseError.lex_error e)) = (n : ℕ) → coming u (suc n) p ≡ broken e
Takes u test p (err e) = ⊥
Takes u test p no_fuel = next u p.lex ≡ stuck

-- The parser behind a token that was peeked at.
abbrev behind : Parser → Parser
behind q = record q { first = q.second; has_first = q.has_second; has_second = false }

next_token-peeked :
    (u : Unicode) (q : Parser) → q.has_first ≡ true → next_token u q ≡ ok q.first (behind q)
unfolding next_token
next_token-peeked u q h = rw h

reads-peeked :
    (u : Unicode) (q : Parser)
    → InOrder q
    → q.has_first ≡ true
    → InOrder (behind q) × ((n : ℕ) → coming u (suc n) q ≡ read q.first (coming u n (behind q)))
unfolding Reads
reads-peeked u q o h = subst (Reads u q) (next_token-peeked u q h) (next_token-Reads u q o)

coming-none : (u : Unicode) (p : Parser) → coming u 0 p ≡ nothing
unfolding coming ahead
coming-none u p = refl

peeked-Takes :
    (u : Unicode) (test : Token → Bool) (p : Parser) (o : Parse Token)
    → Peeks u p o
    → Takes u test p
        (o >>= λ t q. if test t then (next_token u q >>= λ s r. ok true r) else ok false q)
unfolding Peeks Takes ◌>>=◌
peeked-Takes u test p (ok t q) (o, h, e, same) =
    let r = reads-peeked u q o h in
    let one : (n : ℕ) → coming u (suc n) p ≡ read t (coming u n (behind q)) =
      λ n. sym (same (suc n)) ∙ r.1 n ∙ ap (λ s. read s (coming u n (behind q))) e in
    let first : coming u 1 p ≡ read t nothing = one 0 ∙ ap (read t) (coming-none u (behind q)) in
    if_both (Takes u test p) (test t) _ _
      (λ yes. rw (next_token-peeked u q h) (r.0, t, sym yes, first, one))
      (λ no. (o, t, sym no, first, λ n. sym (same (suc n))))
peeked-Takes u test p (err (ParseError.lex_error e)) h = h
peeked-Takes u test p (err (ParseError.expected a b)) h = h
peeked-Takes u test p (err (ParseError.expected_word a b)) h = h
peeked-Takes u test p (err (ParseError.expected_statement_end a)) h = h
peeked-Takes u test p no_fuel h = h

-- maybe and maybeWord answer for the next token and take it exactly where it fits.
pub take_if-Takes :
    (u : Unicode) (test : Token → Bool) (p : Parser) → InOrder p → Takes u test p (take_if u test p)
unfolding take_if
take_if-Takes u test p o = peeked-Takes u test p (peek u p) (peek-Peeks u p o)

-- A mark brings the parser back to where it was, whatever was read of the same text meanwhile.
pub restore-mark : (p q : Parser) → q.lex.sql ≡ p.lex.sql → restore (mark p) q ≡ p
unfolding restore mark
restore-mark p q h = ap (λ s. record p { lex = record { sql = s; pos = p.lex.pos } }) h
