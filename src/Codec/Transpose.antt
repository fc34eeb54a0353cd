-- ===== src/Codec/Transpose.antt =====
-- internal/storage/codec/bitpack.go: gathering bits transposes a group, and gathering again brings
-- back its numbers.
use Prim.Native.Nat.{bit_and, bit_or}
use mathlib.Core.List.{append_assoc}
use dripsql.Base.{
  ℕ, zero, suc, ◌+◌, ◌*◌, ◌/◌, ◌%◌, ◌≤◌, ◌<◌, ◌≡◌, refl, ap, ◌∙◌, arith, List, [], ◌∷◌, ◌++◌,
  length, length-append, map,
}
use dripsql.Base.Bits.{
  shl, shr, low, or_above, shl_add, shl_suc, shr_next, shr_zero, shl_next, and_one,
}
use dripsql.Codec.Bitpack.{gather, transpose}

-- Bit i of x.
unfoldable pub bit : ℕ → ℕ → ℕ
bit i x = shr x i % 2

bit-shr : (i x : ℕ) → bit i x ≡ shr x i % 2
unfolding bit
bit-shr i x = refl

-- The number whose digits are the numbers' bits i.
unfoldable pub weave : ℕ → List ℕ → ℕ
weave i [] = 0
weave i (x ∷ xs) = bit i x + 2 * weave i xs

pub bit-lt : (i x : ℕ) → bit i x < 2
unfolding bit
bit-lt i x = omega arith

gather-step :
    (i k x word : ℕ)
    → word < shl 1 k
    → bit_or word (shl (bit_and (shr x i) 1) k) ≡ word + shl (bit i x) k
unfolding bit
gather-step i k x word h = rw (and_one (shr x i)) (or_above k word (shr x i % 2) h)

shl_two : (k b : ℕ) → b < 2 → shl b k ≤ shl 1 k
shl_two k zero h = omega (arith, shl_add k 0 1, shl_add k 0 0)
shl_two k (suc zero) h = omega arith
shl_two k (suc (suc b)) h = absurd (omega arith)

gather-weave :
    (i k : ℕ) (xs : List ℕ) (word : ℕ)
    → word < shl 1 k
    → gather i k xs word ≡ word + shl (weave i xs) k
unfolding gather weave
gather-weave i k [] word h = omega (arith, shl_add k 0 0)
gather-weave i k (x ∷ xs) word h =
    let step = gather-step i k x word h in
    let above : word + shl (bit i x) k < shl 1 (suc k) =
      omega (arith, shl_two k (bit i x) (bit-lt i x), shl_next k 1) in
    ap (gather i (suc k) xs) step
    ∙ gather-weave i (suc k) xs (word + shl (bit i x) k) above
    ∙ omega (
      arith,
      shl_add k (bit i x) (2 * weave i xs),
      shl_suc k (weave i xs),
      shl_next k (weave i xs),
    )

pub gather-zero : (i : ℕ) (xs : List ℕ) → gather i 0 xs 0 ≡ weave i xs
unfolding shl
gather-zero i xs = omega (arith, gather-weave i 0 xs 0 (omega arith))

pub weave-lt : (i : ℕ) (xs : List ℕ) → weave i xs < shl 1 (length xs)
unfolding weave shl
weave-lt i [] = omega arith
weave-lt i (x ∷ xs) = omega (arith, weave-lt i xs, bit-lt i x)

-- Bit k of the word is bit i of number k.
bit-weave :
    (i : ℕ) (pre : List ℕ) (x : ℕ) (xs : List ℕ)
    → bit (length pre) (weave i (pre ++ x ∷ xs)) ≡ bit i x
unfolding weave bit shr
bit-weave i [] x xs = omega arith
bit-weave i (y ∷ pre) x xs =
    let half : (bit i y + 2 * weave i (pre ++ x ∷ xs)) / 2 ≡ weave i (pre ++ x ∷ xs) =
      omega (arith, bit-lt i y) in
    ap (bit (length pre)) half ∙ bit-weave i pre x xs

-- So word k of the transposed group holds the lowest bits of number k.
column :
    (n i : ℕ) (pre : List ℕ) (x : ℕ) (xs : List ℕ)
    → weave (length pre) (transpose i n (pre ++ x ∷ xs)) ≡ low n (shr x i)
unfolding weave transpose low
column zero i pre x xs = refl
column (suc n) i pre x xs =
    let here : bit (length pre) (gather i 0 (pre ++ x ∷ xs) 0) ≡ bit i x =
      ap (bit (length pre)) (gather-zero i (pre ++ x ∷ xs)) ∙ bit-weave i pre x xs in
    let there : low n (shr x (suc i)) ≡ low n (shr x i / 2) = ap (low n) (shr_next i x) in
    let lowest : bit i x ≡ shr x i % 2 = bit-shr i x in
    omega (arith, here, column n (suc i) pre x xs, there, lowest)

-- Transposing twice leaves the lowest bits of every number.
pub transpose-transpose :
    (width : ℕ) (pre xs : List ℕ)
    → transpose (length pre) (length xs) (transpose 0 width (pre ++ xs)) ≡ map (low width) xs
unfolding transpose
transpose-transpose width pre [] = refl
transpose-transpose width pre (x ∷ xs) =
    let one : length (pre ++ x ∷ []) ≡ suc (length pre) =
      omega (arith, length-append pre (x ∷ [])) in
    let rest = transpose-transpose width (pre ++ x ∷ []) xs in
    let first : gather (length pre) 0 (transpose 0 width (pre ++ x ∷ xs)) 0 ≡ low width x =
      gather-zero (length pre) (transpose 0 width (pre ++ x ∷ xs))
      ∙ column width 0 pre x xs
      ∙ ap (low width) (shr_zero x) in
    rw (first, ← one) (ap (λ l. low width x ∷ l) (rw append_assoc at rest))

pub length-transpose : (i n : ℕ) (xs : List ℕ) → length (transpose i n xs) ≡ n
unfolding transpose
length-transpose i zero xs = refl
length-transpose i (suc n) xs = ap suc (length-transpose (suc i) n xs)

pub transpose-split :
    (n i m j k : ℕ) (xs : List ℕ)
    → j ≡ n + i
    → k ≡ n + m
    → transpose i n xs ++ transpose j m xs ≡ transpose i k xs
unfolding transpose
transpose-split zero i m j k xs hj hk =
    let start : j ≡ i = omega arith in
    let size : m ≡ k = omega arith in
    ap (λ s. transpose s m xs) start ∙ ap (λ n. transpose i n xs) size
transpose-split (suc n) i m j zero xs hj hk = absurd (omega arith)
transpose-split (suc n) i m j (suc k) xs hj hk =
    ap (λ l. gather i 0 xs 0 ∷ l) (transpose-split n (suc i) m j k xs (omega arith) (omega arith))
