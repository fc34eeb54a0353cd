-- ===== src/Sql/Tokens.antt =====
-- internal/sql/lexer.go: calling `next` until the end of the text, as the parser does, ends.
use mathlib.Core.Path.{subst}
use dripsql.Base.{
  ℕ, zero, suc, false, List, [], ◌∷◌, ◌≤◌, ◌<◌, ◌≡◌, ◌⊎◌, refl, ap, arith, length, if◌then◌else◌,
  inl, inr,
}
use dripsql.Sql.Lexer.{TokenType, Token, Unicode, Lexer, left}
use dripsql.Sql.Scanners.{LexError, Scan, done, failed, stuck, next}
use dripsql.Sql.Operators.{is_eof}
use dripsql.Sql.Next.{Returned, next-Returned}

pub data Tokens : Type 0 where
  all : List Token → Tokens
  bad : LexError → Tokens
  unfinished : Tokens

unfoldable pub cons : Token → Tokens → Tokens
cons t (all ts) = all (t ∷ ts)
cons t (bad e) = bad e
cons t unfinished = unfinished

unfoldable pub collect : Scan → (Lexer → Tokens) → Tokens
collect (done t m) f = if is_eof t.typ then all (t ∷ []) else cons t (f m)
collect (failed e) f = bad e
collect stuck f = unfinished

-- Fuel is the number of calls.
unfoldable pub lex_all : Unicode → ℕ → Lexer → Tokens
lex_all u zero l = unfinished
lex_all u (suc calls) l = collect (next u l) (lex_all u calls)

-- The tokens stand one behind the other, from a place on; the last one reports the end, at the
-- text's length, and no other does.
pub Reaches : ℕ → ℕ → List Token → Type 0
Reaches from end [] = ⊥
Reaches from end (t ∷ ts) =
    (from ≤ t.pos)
    × (((t.typ ≡ TokenType.eof) × (t.pos ≡ end) × (ts ≡ []))
        ⊎ ((is_eof t.typ ≡ false) × Reaches (suc t.pos) end ts))

pub Ended : ℕ → ℕ → Tokens → Type 0
Ended from end (all ts) = Reaches from end ts
Ended from end (bad e) = Unit
Ended from end unfinished = ⊥

Reaches-further : (a b end : ℕ) (ts : List Token) → a ≤ b → Reaches b end ts → Reaches a end ts
unfolding Reaches
Reaches-further a b end [] h r = r
Reaches-further a b end (t ∷ ts) h (here, rest) = (omega (arith, h, here), rest)

cons-Ended :
    (from end : ℕ) (t : Token) (ts : Tokens) (next_pos : ℕ)
    → from ≤ t.pos
    → t.pos < next_pos
    → is_eof t.typ ≡ false
    → Ended next_pos end ts
    → Ended from end (cons t ts)
unfolding Ended Reaches cons
cons-Ended from end t (all ts) k h lt real r =
    (h, inr (real, Reaches-further (suc t.pos) k end ts (omega arith) r))
cons-Ended from end t (bad e) k h lt real r = tt
cons-Ended from end t unfinished k h lt real r = r

collect-Ended :
    (l : Lexer) (s : Scan) (f : Lexer → Tokens)
    → Returned l s
    → ((m : Lexer)
        → m.sql ≡ l.sql
        → m.pos ≤ length l.sql
        → l.pos < m.pos
        → Ended m.pos (length l.sql) (f m))
    → Ended l.pos (length l.sql) (collect s f)
unfolding Returned collect Ended Reaches
collect-Ended l (failed e) f h k = tt
collect-Ended l stuck f h k = h
collect-Ended l (done t m) f h k = elim h.moved [
  | inl (real, lt) ↦ rw real (
      cons-Ended l.pos (length l.sql) t (f m) m.pos h.starts lt real
        (k m h.same_sql h.within (omega (arith, lt, h.starts))))
  | inr (last, at, end) ↦ rw (ap is_eof last) (h.starts, inl (last, at, refl))
]

calls-Ended :
    (u : Unicode) (calls : ℕ) (l : Lexer)
    → left l < calls
    → l.pos ≤ length l.sql
    → Ended l.pos (length l.sql) (lex_all u calls l)
unfolding lex_all left
calls-Ended u zero l h p = absurd (omega arith)
calls-Ended u (suc calls) l h p =
    collect-Ended l (next u l) (lex_all u calls) (next-Returned u l p) (λ m s w lt.
      subst (λ n. Ended m.pos n (lex_all u calls m)) (ap length s)
        (calls-Ended u calls m (omega (arith, lt, ap length s)) (omega (arith, w, ap length s))))

-- As many calls of `next` as a text has bytes, and one, come to an error or to its end. In the end
-- the tokens stand one behind the other, the last one, and no other, is the one that reports the
-- end, and it stands at the text's length.
pub lex_all-Ended :
    (u : Unicode) (sql : List ℕ)
    → Ended 0 (length sql) (lex_all u (suc (length sql)) (record { sql = sql; pos = 0 }))
unfolding left
lex_all-Ended u sql =
    calls-Ended u (suc (length sql)) (record { sql = sql; pos = 0 }) (omega arith) (omega arith)
