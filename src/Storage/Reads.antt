-- ===== src/Storage/Reads.antt =====
-- A reader never leaves its buffer, and no read panics.
use dripsql.Base.{
  ℕ, ◌+◌, ◌^◌, ◌≤◌, ◌<◌, ◌≡◌, refl, Bool, true, false, Option, none, some, List, [], ◌∷◌, arith, ℤ,
  pos, negsuc, length, All, zero, suc, take, drop, sym, ◌∙◌, ap, Bool-cases, inl, inr, le→ltb, ltb,
}
use dripsql.Storage.Wire.{
  Reader, need, need_nat, past_end, slice, slice_int, get_word, get_raw, get_len_prefixed_string,
  word_if, raw_if, WireError, need_unless, as_word, string_of,
}
use mathlib.Core.Path.{subst}
use native.Mathlib.Nat.{pow-suc}
use dripsql.Base.Bytes.{from_le, IsByte}

-- A call of the reader: U8, U16, U32 or U64 as a word of n bytes, Raw(n), LenPrefixedString.
pub data Call : Type 0 where
  word : ℕ → Call
  raw : ℤ → Call
  text : Call

abbrev pub left_by {ℓ} : {A : Type ℓ} → Option (A × Reader) → Option Reader
left_by none = none
left_by (some (a, r)) = some r

-- The reader after a call; `none` is a panic.
unfoldable pub call : Call → Reader → Option Reader
call (word n) r = left_by (get_word n r)
call (raw n) r = left_by (get_raw n r)
call text r = left_by (get_len_prefixed_string r)

abbrev pub then_call : Option Reader → (Reader → Option Reader) → Option Reader
then_call none f = none
then_call (some r) f = f r

unfoldable pub call_all : List Call → Reader → Option Reader
unfolding call
call_all [] r = some r
call_all (c ∷ cs) r = then_call (call c r) (call_all cs)

-- The reader has not passed the end.
abbrev pub InBounds : Reader → Type 0
InBounds r = r.at ≤ length r.buf

-- The end of what is asked for is an int, wherever in the buffer it starts.
unfoldable pub IsInt : ℕ → Call → Type 0
IsInt len (word n) = len + n < 2 ^ 63
IsInt len (raw (pos n)) = len + n < 2 ^ 63
IsInt len (raw (negsuc n)) = Unit
IsInt len text = len + 2 ^ 16 < 2 ^ 63

-- There is a reader, of the same buffer, no further back and not past its end.
unfoldable pub Stays : Reader → Option Reader → Type 0
Stays r none = ⊥
Stays r (some r') = (r'.buf ≡ r.buf) × (r.at ≤ r'.at) × (r'.at ≤ length r'.buf)

Stays-refl : (r : Reader) → InBounds r → Stays r (some r)
unfolding Stays
Stays-refl r h = (refl, omega arith, h)

-- Where `need` agrees there is room.
HasRoom : ℕ → Reader → Bool × Reader → Type 0
HasRoom n r (ok, r') = (r'.buf ≡ r.buf) × (r'.at ≡ r.at) × (ok ≡ true → r.at + n ≤ length r.buf)

past_end-false : (sum len : ℕ) → sum < 2 ^ 63 → past_end sum len ≡ false → sum ≤ len
unfolding past_end
past_end-false sum len h e = ground arith

need_nat-HasRoom : (n : ℕ) (r : Reader) → r.at + n < 2 ^ 63 → HasRoom n r (need_nat n r)
unfolding need_nat HasRoom
need_nat-HasRoom n r h = elim (Bool-cases (past_end (r.at + n) (length r.buf))) [
  | inl e ↦ rw e (refl, refl, λ k. cc)
  | inr e ↦ rw e (refl, refl, λ k. past_end-false (r.at + n) (length r.buf) h e)
]

need_unless-HasRoom :
    (f : Option WireError) (n : ℕ) (r : Reader)
    → r.at + n < 2 ^ 63
    → HasRoom n r (need_unless f (pos n) r)
unfolding need_unless HasRoom
need_unless-HasRoom none n r h = need_nat-HasRoom n r h
need_unless-HasRoom (some e) n r h = (refl, refl, λ k. cc)

need-HasRoom : (n : ℕ) (r : Reader) → r.at + n < 2 ^ 63 → HasRoom n r (need (pos n) r)
unfolding need
need-HasRoom n r h = need_unless-HasRoom r.failure n r h

slice-Stays :
    (n : ℕ) (r r' : Reader)
    → r'.buf ≡ r.buf
    → r'.at ≡ r.at
    → r.at + n ≤ length r.buf
    → Stays r (left_by (slice n r'))
unfolding slice Stays
slice-Stays n r r' b a room =
    let fits : ltb (length r'.buf) (r'.at + n) ≡ false =
      le→ltb _ _ (omega (arith, ap length b, a, room)) in
    rw fits (b, omega (arith, a), omega (arith, ap length b, a, room))

as_word-Stays :
    (r : Reader) (o : Option (List ℕ × Reader))
    → Stays r (left_by o)
    → Stays r (left_by (as_word o))
as_word-Stays r none h = h
as_word-Stays r (some (b, r')) h = h

word_if-Stays :
    (n : ℕ) (r : Reader) (out : Bool × Reader)
    → InBounds r
    → HasRoom n r out
    → Stays r (left_by (word_if n out))
unfolding word_if HasRoom Stays
word_if-Stays n r (true, r') h (b, a, room) =
    as_word-Stays r (slice n r') (slice-Stays n r r' b a (room refl))
word_if-Stays n r (false, r') h (b, a, room) =
    (b, omega (arith, a), omega (arith, ap length b, a, h))

raw_if-Stays :
    (n : ℕ) (r : Reader) (out : Bool × Reader)
    → InBounds r
    → HasRoom n r out
    → Stays r (left_by (raw_if (pos n) out))
unfolding raw_if slice_int HasRoom Stays
raw_if-Stays n r (true, r') h (b, a, room) = slice-Stays n r r' b a (room refl)
raw_if-Stays n r (false, r') h (b, a, room) =
    (b, omega (arith, a), omega (arith, ap length b, a, h))

get_word-Stays :
    (n : ℕ) (r : Reader) → InBounds r → length r.buf + n < 2 ^ 63 → Stays r (left_by (get_word n r))
unfolding get_word
get_word-Stays n r h fits =
    word_if-Stays n r (need (pos n) r) h (need-HasRoom n r (omega (arith, h, fits)))

get_raw-Stays :
    (n : ℕ) (r : Reader)
    → InBounds r
    → length r.buf + n < 2 ^ 63
    → Stays r (left_by (get_raw (pos n) r))
unfolding get_raw
get_raw-Stays n r h fits =
    raw_if-Stays n r (need (pos n) r) h (need-HasRoom n r (omega (arith, h, fits)))

-- A negative length reads nothing.
negative-Stays :
    (f : Option WireError) (n : ℕ) (r : Reader)
    → InBounds r
    → Stays r (left_by (raw_if (negsuc n) (need_unless f (negsuc n) r)))
unfolding need_unless raw_if Stays
negative-Stays none n r h = (refl, omega arith, h)
negative-Stays (some e) n r h = (refl, omega arith, h)

All-drop : (n : ℕ) (bs : List ℕ) → All IsByte bs → All IsByte (drop n bs)
All-drop zero bs h = h
All-drop (suc n) [] h = tt
All-drop (suc n) (b ∷ bs) (h, hs) = All-drop n bs hs

from_le-take : (n : ℕ) (bs : List ℕ) → All IsByte bs → from_le (take n bs) < 256 ^ n
unfolding from_le
from_le-take zero bs h = omega arith
from_le-take (suc n) [] h = omega (arith, from_le-take n [] tt, pow-suc 256 n)
from_le-take (suc n) (b ∷ bs) (h, hs) = omega (arith, from_le-take n bs hs, pow-suc 256 n)

-- The word that is read has 2 bytes.
IsLength : Option (ℕ × Reader) → Type 0
IsLength none = Unit
IsLength (some (n, r)) = n < 2 ^ 16

word_if-IsLength : (out : Bool × Reader) → All IsByte out.1.buf → IsLength (word_if 2 out)
unfolding word_if slice IsLength
word_if-IsLength (true, r) h = elim (Bool-cases (ltb (length r.buf) (r.at + 2))) [
  | inl e ↦ rw e tt
  | inr e ↦ rw e (from_le-take 2 (drop r.at r.buf) (All-drop r.at r.buf h))
]
word_if-IsLength (false, r) h = omega arith

Stays-further :
    (r r' : Reader) (o : Option Reader) → r'.buf ≡ r.buf → r.at ≤ r'.at → Stays r' o → Stays r o
unfolding Stays
Stays-further r r' none b a h = h
Stays-further r r' (some s) b a (c, d, e) = (c ∙ b, omega (arith, a, d), e)

then_call-Stays :
    (r : Reader) (o : Option Reader) (f : Reader → Option Reader)
    → Stays r o
    → ((r' : Reader) → r'.buf ≡ r.buf → InBounds r' → Stays r' (f r'))
    → Stays r (then_call o f)
unfolding Stays
then_call-Stays r none f h k = h
then_call-Stays r (some r') f (b, a, h) k = Stays-further r r' (f r') b a (k r' b h)

same_buf : (n : ℕ) (r : Reader) (out : Bool × Reader) → HasRoom n r out → out.1.buf ≡ r.buf
unfolding HasRoom
same_buf n r (ok, r') h = h.0

string_of-Stays :
    (r : Reader) (o : Option (ℕ × Reader))
    → length r.buf + 2 ^ 16 < 2 ^ 63
    → IsLength o
    → Stays r (left_by o)
    → Stays r (left_by (string_of o))
unfolding IsLength Stays
string_of-Stays r none fits n s = s
string_of-Stays r (some (n, r')) fits short (b, a, h) =
    Stays-further r r' (left_by (get_raw (pos n) r')) b a
      (get_raw-Stays n r' h (omega (arith, fits, short, ap length b)))

call-Stays :
    (c : Call) (r : Reader)
    → All IsByte r.buf
    → InBounds r
    → IsInt (length r.buf) c
    → Stays r (call c r)
unfolding call IsInt get_len_prefixed_string get_raw need get_word
call-Stays (word n) r bytes h fits = get_word-Stays n r h fits
call-Stays (raw (pos n)) r bytes h fits = get_raw-Stays n r h fits
call-Stays (raw (negsuc n)) r bytes h fits = negative-Stays r.failure n r h
call-Stays text r bytes h fits =
    let room = need-HasRoom 2 r (omega (arith, h, fits)) in
    string_of-Stays r (get_word 2 r) fits
      (word_if-IsLength (need (pos 2) r) (subst (All IsByte) (sym (same_buf 2 r _ room)) bytes))
      (get_word-Stays 2 r h (omega (arith, fits)))

-- On a buffer of any bytes, from any place within it, any sequence of calls of the reader returns
-- without a panic, and leaves a reader of the same buffer, no further back and not past its end. Raw
-- may be called with any negative length; of every other call what it asks for, 2 ^ 16 bytes for a
-- string, is less than 2 ^ 63 together with the buffer's length.
pub call_all-Stays :
    (cs : List Call) (r : Reader)
    → All IsByte r.buf
    → InBounds r
    → All (IsInt (length r.buf)) cs
    → Stays r (call_all cs r)
unfolding call_all
call_all-Stays [] r bytes h fits = Stays-refl r h
call_all-Stays (c ∷ cs) r bytes h (fit, fits) =
    then_call-Stays r (call c r) (call_all cs) (call-Stays c r bytes h fit) (λ r' b k.
      call_all-Stays cs r' (subst (All IsByte) (sym b) bytes) k
        (subst (λ buf. All (IsInt (length buf)) cs) (sym b) fits))
