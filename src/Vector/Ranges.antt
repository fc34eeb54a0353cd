-- ===== src/Vector/Ranges.antt =====
-- internal/vector/selection.go, SetRange: the masks on the words set the bits of the range.
use dripsql.Base.{
  ℕ, zero, suc, ◌+◌, ◌-◌, ◌*◌, ◌/◌, ◌%◌, ◌<◌, ◌≡◌, refl, ap, sym, ◌∙◌, arith, ltb, leb, Bool, true,
  false, ◌&&◌, ◌||◌, List, [], ◌∷◌, ◌++◌, length, take, drop, replicate, get_or, nat_beq,
  nat_beq_iff, Bool-cases, inl, inr,
}
use dripsql.Vector.Selection.{
  ones, shift_left, shift_right, and_bits, or_at, put_at, fill_words, set_words,
}

-- The bits from start on, count of them, are set.
unfoldable pub set_bits : ℕ → ℕ → List Bool → List Bool
set_bits start count [] = []
set_bits zero zero (b ∷ bs) = b ∷ bs
set_bits zero (suc count) (b ∷ bs) = true ∷ set_bits zero count bs
set_bits (suc start) count (b ∷ bs) = b ∷ set_bits start count bs

abbrev bit : List Bool → ℕ → Bool
bit bs i = get_or bs i false

pub length-set_bits :
    (start count : ℕ) (bs : List Bool) → length (set_bits start count bs) ≡ length bs
unfolding set_bits
length-set_bits start count [] = refl
length-set_bits zero zero (b ∷ bs) = refl
length-set_bits zero (suc count) (b ∷ bs) = ap suc (length-set_bits 0 count bs)
length-set_bits (suc start) count (b ∷ bs) = ap suc (length-set_bits start count bs)

length-or_at : (k : ℕ) (w bs : List Bool) → length (or_at k w bs) ≡ length bs
unfolding or_at
length-or_at k w [] = refl
length-or_at zero [] (b ∷ bs) = refl
length-or_at zero (v ∷ w) (b ∷ bs) = ap suc (length-or_at 0 w bs)
length-or_at (suc k) w (b ∷ bs) = ap suc (length-or_at k w bs)

length-put_at : (k : ℕ) (w bs : List Bool) → length (put_at k w bs) ≡ length bs
unfolding put_at
length-put_at k w [] = refl
length-put_at zero [] (b ∷ bs) = refl
length-put_at zero (v ∷ w) (b ∷ bs) = ap suc (length-put_at 0 w bs)
length-put_at (suc k) w (b ∷ bs) = ap suc (length-put_at k w bs)

length-fill_words : (n wi : ℕ) (bs : List Bool) → length (fill_words n wi bs) ≡ length bs
unfolding fill_words
length-fill_words zero wi bs = refl
length-fill_words (suc n) wi bs =
    length-fill_words n (suc wi) (put_at (64 * wi) ones bs) ∙ length-put_at (64 * wi) ones bs

bit-set_bits :
    (start count : ℕ) (bs : List Bool) (i : ℕ)
    → i < length bs
    → bit (set_bits start count bs) i ≡ (bit bs i || (leb start i && ltb i (start + count)))
unfolding set_bits
bit-set_bits start count [] i h = elim h [ ]
bit-set_bits zero zero (b ∷ bs) i h = ground arith
bit-set_bits zero (suc count) (b ∷ bs) zero h = ground arith
bit-set_bits zero (suc count) (b ∷ bs) (suc i) h =
    ground (arith, bit-set_bits 0 count bs i (omega arith))
bit-set_bits (suc start) count (b ∷ bs) zero h = ground arith
bit-set_bits (suc start) count (b ∷ bs) (suc i) h =
    ground (arith, bit-set_bits start count bs i (omega arith))

bit-or_at :
    (k : ℕ) (w bs : List Bool) (i : ℕ)
    → i < length bs
    → bit (or_at k w bs) i ≡ (bit bs i || (leb k i && bit w (i - k)))
unfolding or_at
bit-or_at k w [] i h = elim h [ ]
bit-or_at zero [] (b ∷ bs) i h = ground arith
bit-or_at zero (v ∷ w) (b ∷ bs) zero h = refl
bit-or_at zero (v ∷ w) (b ∷ bs) (suc i) h =
    let e : suc i - 0 ≡ suc i = omega arith in
    let e' : i - 0 ≡ i = omega arith in
    rw e (bit-or_at 0 w bs i (omega arith) ∙ rw e' (ground arith))
bit-or_at (suc k) w (b ∷ bs) zero h = ground arith
bit-or_at (suc k) w (b ∷ bs) (suc i) h =
    let e : suc i - suc k ≡ i - k = omega arith in
    rw e (bit-or_at k w bs i (omega arith) ∙ ground arith)

bit-ones : (n i : ℕ) → bit (replicate n true) i ≡ ltb i n
bit-ones zero i = ground arith
bit-ones (suc n) zero = ground arith
bit-ones (suc n) (suc i) = bit-ones n i ∙ ground arith

-- Bits that are all set are the same, or-ed or put.
put_at-ones :
    (k n : ℕ) (bs : List Bool) → put_at k (replicate n true) bs ≡ or_at k (replicate n true) bs
unfolding put_at or_at
put_at-ones k n [] = refl
put_at-ones zero zero (b ∷ bs) = refl
put_at-ones zero (suc n) (b ∷ bs) =
    rw (put_at-ones 0 n bs) (ap (λ c. c ∷ or_at 0 (replicate n true) bs) (ground arith))
put_at-ones (suc k) n (b ∷ bs) = ap (λ l. b ∷ l) (put_at-ones k n bs)

bit-zeros : (n i : ℕ) → bit (replicate n false) i ≡ false
bit-zeros zero i = refl
bit-zeros (suc n) zero = refl
bit-zeros (suc n) (suc i) = bit-zeros n i

bit-left :
    (n k m i : ℕ)
    → bit (take n (replicate k false ++ replicate m true)) i
      ≡ (leb k i && (ltb i n && ltb i (k + m)))
bit-left zero k m i = ground arith
bit-left (suc n) zero zero i = ground arith
bit-left (suc n) zero (suc m) zero = ground arith
bit-left (suc n) zero (suc m) (suc i) = bit-left n 0 m i ∙ ground arith
bit-left (suc n) (suc k) m zero = ground arith
bit-left (suc n) (suc k) m (suc i) = bit-left n k m i ∙ ground arith

bit-right : (k n p i : ℕ) → bit (drop k (replicate n true) ++ replicate p false) i ≡ ltb i (n - k)
bit-right zero zero p i = bit-zeros p i ∙ ground arith
bit-right zero (suc n) p zero = ground arith
bit-right zero (suc n) p (suc i) = bit-right 0 n p i ∙ ground arith
bit-right (suc k) zero p i = bit-zeros p i ∙ ground arith
bit-right (suc k) (suc n) p i = bit-right k n p i ∙ ground arith

bit-and_bits : (vs ws : List Bool) (i : ℕ) → bit (and_bits vs ws) i ≡ (bit vs i && bit ws i)
unfolding and_bits
bit-and_bits [] ws i = refl
bit-and_bits (v ∷ vs) [] i = ground arith
bit-and_bits (v ∷ vs) (w ∷ ws) zero = refl
bit-and_bits (v ∷ vs) (w ∷ ws) (suc i) = bit-and_bits vs ws i

bit-from_first : (k i : ℕ) → bit (shift_left k ones) i ≡ (leb k i && ltb i 64)
unfolding shift_left
bit-from_first k i = bit-left 64 k 64 i ∙ ground arith

bit-to_last : (k i : ℕ) → bit (shift_right k ones) i ≡ ltb i (64 - k)
unfolding shift_right
bit-to_last k i = bit-right k 64 k i

bit-fill_words :
    (n wi : ℕ) (bs : List Bool) (i : ℕ)
    → i < length bs
    → bit (fill_words n wi bs) i ≡ (bit bs i || (leb (64 * wi) i && ltb i (64 * (wi + n))))
unfolding fill_words
bit-fill_words zero wi bs i h = ground arith
bit-fill_words (suc n) wi bs i h =
    bit-fill_words n (suc wi) (put_at (64 * wi) ones bs) i
      (omega (arith, h, length-put_at (64 * wi) ones bs))
    ∙ rw (put_at-ones (64 * wi) 64 bs, bit-or_at (64 * wi) ones bs i h, bit-ones 64 (i - 64 * wi))
        (ground arith)

same_bits :
    (xs ys : List Bool)
    → length xs ≡ length ys
    → ((i : ℕ) → i < length ys → bit xs i ≡ bit ys i)
    → xs ≡ ys
same_bits [] [] h k = refl
same_bits [] (y ∷ ys) h k = absurd (omega arith)
same_bits (x ∷ xs) [] h k = absurd (omega arith)
same_bits (x ∷ xs) (y ∷ ys) h k =
    ap (λ b. b ∷ xs) (k 0 (omega arith))
    ∙ ap (λ l. y ∷ l) (same_bits xs ys (omega (arith, h)) (λ i lt. k (suc i) (omega (arith, lt))))

length-middle :
    (start end : ℕ) (bs : List Bool)
    → length (
        fill_words
          ((end - 1) / 64 - (start / 64 + 1))
          (start / 64 + 1)
          (or_at (64 * (start / 64)) (shift_left (start % 64) ones) bs))
      ≡ length bs
length-middle start end bs =
    length-fill_words ((end - 1) / 64 - (start / 64 + 1)) (start / 64 + 1)
      (or_at (64 * (start / 64)) (shift_left (start % 64) ones) bs)
    ∙ length-or_at (64 * (start / 64)) (shift_left (start % 64) ones) bs

pub length-set_words :
    (start end : ℕ) (bs : List Bool) → length (set_words start end bs) ≡ length bs
unfolding set_words
length-set_words start end bs = elim (Bool-cases (nat_beq (start / 64) ((end - 1) / 64))) [
  | inl e ↦ rw e (length-or_at _ _ bs)
  | inr e ↦ rw e (
      length-or_at (64 * ((end - 1) / 64)) (shift_right (63 - (end - 1) % 64) ones) (
        fill_words ((end - 1) / 64 - (start / 64 + 1)) (start / 64 + 1)
          (or_at (64 * (start / 64)) (shift_left (start % 64) ones) bs))
      ∙ length-middle start end bs)
]

-- One word of a range, by the places of its first and its last bit.
one_word :
    (b : Bool) (i word first last : ℕ)
    → first < 64
    → last < 64
    → (b
        || (leb (64 * word) i
            && ((leb first (i - 64 * word) && ltb (i - 64 * word) 64)
                && ltb (i - 64 * word) (64 - (63 - last)))))
      ≡ (b || (leb (64 * word + first) i && ltb i (suc (64 * word + last))))
one_word b i word first last hf hl = ground arith

-- The first word, those between, and the last.
more_words :
    (b : Bool) (i word first word' last : ℕ)
    → word < word'
    → first < 64
    → last < 64
    → (((b || (leb (64 * word) i && (leb first (i - 64 * word) && ltb (i - 64 * word) 64)))
          || (leb (64 * (word + 1)) i && ltb i (64 * (word + 1 + (word' - (word + 1))))))
        || (leb (64 * word') i && ltb (i - 64 * word') (64 - (63 - last))))
      ≡ (b || (leb (64 * word + first) i && ltb i (suc (64 * word' + last))))
more_words b i word first word' last h hf hl = ground arith

bit-set_words :
    (start end : ℕ) (bs : List Bool) (i : ℕ)
    → start < end
    → i < length bs
    → bit (set_words start end bs) i ≡ (bit bs i || (leb start i && ltb i end))
unfolding set_words
bit-set_words start end bs i lt h =
    let word = start / 64 in
    let first = start % 64 in
    let word' = (end - 1) / 64 in
    let last = (end - 1) % 64 in
    let from_first = shift_left first ones in
    let to_last = shift_right (63 - last) ones in
    let begins : 64 * word + first ≡ start = omega arith in
    elim (Bool-cases (nat_beq word word')) [
      | inl e ↦
          let same = (nat_beq_iff word word').0 e in
          let ends : suc (64 * word + last) ≡ end = omega (arith, lt, same) in
          rw e (
            bit-or_at (64 * word) (and_bits from_first to_last) bs i h
            ∙ rw
                (
                  bit-and_bits from_first to_last (i - 64 * word),
                  bit-from_first first (i - 64 * word),
                  bit-to_last (63 - last) (i - 64 * word),
                )
                (one_word (bit bs i) i word first last (omega arith) (omega arith)
                  ∙ rw (begins, ends) refl))
      | inr e ↦
          let further : word < word' = ground arith in
          let ends : suc (64 * word' + last) ≡ end = omega (arith, lt) in
          let begun = or_at (64 * word) from_first bs in
          let filled = fill_words (word' - (word + 1)) (word + 1) begun in
          let long = length-or_at (64 * word) from_first bs in
          rw e (
            bit-or_at (64 * word') to_last filled i (omega (arith, h, length-middle start end bs))
            ∙ rw
                (
                  bit-to_last (63 - last) (i - 64 * word'),
                  bit-fill_words (word' - (word + 1)) (word + 1) begun i (omega (arith, h, long)),
                  bit-or_at (64 * word) from_first bs i h,
                  bit-from_first first (i - 64 * word),
                )
                (more_words (bit bs i) i word first word' last further (omega arith) (omega arith)
                  ∙ rw (begins, ends) refl))
    ]

-- SetRange's work on the words sets exactly the bits of the range.
pub set_words-set_bits :
    (start count : ℕ) (bs : List Bool)
    → 0 < count
    → set_words start (start + count) bs ≡ set_bits start count bs
set_words-set_bits start count bs some_bits =
    same_bits (set_words start (start + count) bs) (set_bits start count bs)
      (length-set_words start (start + count) bs ∙ sym (length-set_bits start count bs))
      (λ i h.
        let short : i < length bs = omega (arith, h, length-set_bits start count bs) in
        bit-set_words start (start + count) bs i (omega arith) short
        ∙ sym (bit-set_bits start count bs i short))
