-- ===== src/Tests/Lexers.antt =====
-- The lexer and the token window at a short statement, with unicode cut down to ASCII.
use dripsql.Base.{
  ℕ, ◌≤◌, ◌≡◌, ◌≢◌, true, false, ◌||◌, refl, [], ◌∷◌, Text, arith, codes, length, if◌then◌else◌,
  Bool-cases, inl, inr,
}
use dripsql.Sql.Lexer.{TokenType, Token, Unicode, Lexer, is_ascii, is_lower_byte, is_upper_byte}
use dripsql.Sql.Scanners.{next}
use dripsql.Sql.Next.{Returned, next-Returned}
use dripsql.Sql.Tokens.{lex_all, Ended, lex_all-Ended}
use dripsql.Sql.Parser.{Parser, next_token, maybe, maybe_word}
use dripsql.Sql.Lookahead.{InOrder, Reads, next_token-Reads}
use dripsql.Sql.Taken.{TakesWhere, maybe-TakesWhere}

abbrev decode : Text → ℕ × ℕ
decode [] = (0xfffd, 0)
decode (b ∷ s) = if is_ascii b then (b, 1) else (0xfffd, 1)

decode-some : (s : Text) → s ≢ [] → 1 ≤ (decode s).1
decode-some [] h = absurd (h refl)
decode-some (b ∷ s) h = elim (Bool-cases (is_ascii b)) [
  | inl e ↦ rw e (omega arith)
  | inr e ↦ rw e (omega arith)
]

decode-fits : (s : Text) → (decode s).1 ≤ length s
decode-fits [] = omega arith
decode-fits (b ∷ s) = elim (Bool-cases (is_ascii b)) [
  | inl e ↦ rw e (omega arith)
  | inr e ↦ rw e (omega arith)
]

decode-ascii : (b : ℕ) (s : Text) → is_ascii b ≡ true → ◌≡◌ {A = ℕ × ℕ} (decode (b ∷ s)) (b, 1)
decode-ascii b s h = rw h refl

abbrev ascii : Unicode
ascii = record {
  decode_rune = decode;
  is_letter = λ r. is_lower_byte r || is_upper_byte r;
  is_digit = λ r. false;
  is_space = λ r. false;
  to_lower = λ s. s;
  width_pos = decode-some;
  width_fits = decode-fits;
  ascii_rune = decode-ascii;
  ascii_letter = λ b h. refl;
}

abbrev statement : Text
statement = codes "select 'it''s', 1.5e3 -- end"

abbrev middle : Lexer
middle = record { sql = statement; pos = 6 }

next-Returned_example : Returned middle (next ascii middle)
next-Returned_example = next-Returned ascii middle (omega arith)

lex_all-Ended_example :
    Ended 0 (length statement) (lex_all ascii 29 (record { sql = statement; pos = 0 }))
lex_all-Ended_example = lex_all-Ended ascii statement

abbrev word : Token
word = record { typ = TokenType.ident; lit = codes "select"; pos = 0; quoted = false }

abbrev peeked : Parser
peeked = record { lex = middle; first = word; second = word; has_first = true; has_second = false }

peeked-InOrder : InOrder peeked
unfolding InOrder
peeked-InOrder h = refl

next_token-Reads_example : Reads ascii peeked (next_token ascii peeked)
next_token-Reads_example = next_token-Reads ascii peeked peeked-InOrder

maybe-TakesWhere_example :
    TakesWhere ascii (λ t. t.typ ≡ TokenType.comma) peeked (maybe ascii TokenType.comma peeked)
    × TakesWhere ascii
        (λ t. (t.typ ≡ TokenType.ident) × (t.lit ≡ codes "select"))
        peeked
        (maybe_word ascii (codes "select") peeked)
maybe-TakesWhere_example =
    maybe-TakesWhere ascii TokenType.comma (codes "select") peeked peeked-InOrder
