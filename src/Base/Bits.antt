-- ===== src/Base/Bits.antt =====
-- Shifts by repeated doubling and halving, and what Go's `|` does on numbers whose digits do not
-- overlap.
use Prim.Native.Nat.{
  ℕ, zero, suc, ◌+◌, ◌-◌, ◌*◌, ◌/◌, ◌%◌, ◌^◌, ◌≤◌, ◌<◌, max, min, bit_or, bit_and, digits,
  bit_or-bitwise, bit_and-bitwise,
}
use mathlib.Core.Path.{◌≡◌, refl, ap, sym, ◌∙◌}
use native.Mathlib.Nat.{pow-suc, mod-eq_of_lt, add-mul-mod_self_right}
use native.Mathlib.Omega.{arith}

unfoldable pub shl : ℕ → ℕ → ℕ
shl x zero = x
shl x (suc k) = 2 * shl x k

unfoldable pub shr : ℕ → ℕ → ℕ
shr x zero = x
shr x (suc k) = shr (x / 2) k

-- With enough digits to go, more change nothing.
module _ (z : ℕ → ℕ) (f : ℕ → ℕ → ℕ) where
  one_more : (n a b : ℕ) → a ≤ n → digits z f (suc n) a b ≡ digits z f n a b
  one_more zero zero b h = refl
  one_more zero (suc a) b h = absurd (omega arith)
  one_more (suc n) zero b h = refl
  one_more (suc n) (suc a) b h =
      ap (λ d. d * 2 + f (suc a % 2) (b % 2)) (one_more n (suc a / 2) (b / 2) (omega arith))

  enough : (k m a b : ℕ) → m ≡ k + a → digits z f m a b ≡ digits z f a a b
  enough zero m a b h = let same : m ≡ a = omega arith in ap (λ n. digits z f n a b) same
  enough (suc k) zero a b h = absurd (omega arith)
  enough (suc k) (suc m) a b h = one_more m a b (omega arith) ∙ enough k m a b (omega arith)

pub zero-or : (b : ℕ) → bit_or 0 b ≡ b
zero-or b = bit_or-bitwise 0 b

-- The lowest digit of `|`.
pub or_step : (a b : ℕ) → bit_or a b ≡ bit_or (a / 2) (b / 2) * 2 + max (a % 2) (b % 2)
or_step zero b = omega (arith, zero-or b, zero-or (b / 2))
or_step (suc a) b =
    let h = suc a / 2 in
    omega (
      arith,
      bit_or-bitwise (suc a) b,
      bit_or-bitwise h (b / 2),
      enough (λ b. b) max (a - h) a h (b / 2) (omega arith),
    )

pub or_zero : (a : ℕ) → bit_or a 0 ≡ a
or_zero a = fuelled a a (omega arith)
  where
    fuelled : (n a : ℕ) → a ≤ n → bit_or a 0 ≡ a
    fuelled n zero h = zero-or 0
    fuelled zero (suc a) h = absurd (omega arith)
    fuelled (suc n) (suc a) h =
        omega (arith, or_step (suc a) 0, fuelled n (suc a / 2) (omega arith))

-- `|` adds digits that stand above all of the first number's.
pub or_above : (k w b : ℕ) → w < shl 1 k → bit_or w (shl b k) ≡ w + shl b k
unfolding shl
or_above zero w b h = let none : w ≡ 0 = omega arith in rw none (omega (arith, zero-or b))
or_above (suc k) w b h =
    let double : 2 * shl b k / 2 ≡ shl b k = omega arith in
    omega (
      arith,
      or_step w (2 * shl b k),
      ap (bit_or (w / 2)) double,
      or_above k (w / 2) b (omega arith),
    )

pub shl_add : (k a b : ℕ) → shl (a + b) k ≡ shl a k + shl b k
unfolding shl
shl_add zero a b = refl
shl_add (suc k) a b = omega (arith, shl_add k a b)

pub shl_zero : (k : ℕ) → shl 0 k ≡ 0
shl_zero k = omega (arith, shl_add k 0 0)

pub shl_next : (k a : ℕ) → shl a (suc k) ≡ 2 * shl a k
unfolding shl
shl_next k a = refl

pub shl_suc : (k a : ℕ) → shl (2 * a) k ≡ 2 * shl a k
unfolding shl
shl_suc zero a = refl
shl_suc (suc k) a = omega (arith, shl_suc k a)

pub shr_half : (k x : ℕ) → shr x k / 2 ≡ shr (x / 2) k
unfolding shr
shr_half zero x = refl
shr_half (suc k) x = shr_half k (x / 2)

pub shr_zero : (x : ℕ) → shr x 0 ≡ x
unfolding shr
shr_zero x = refl

pub shr_next : (k x : ℕ) → shr x (suc k) ≡ shr x k / 2
unfolding shr
shr_next k x = sym (shr_half k x)

-- The lowest n digits.
unfoldable pub low : ℕ → ℕ → ℕ
low zero x = 0
low (suc n) x = x % 2 + 2 * low n (x / 2)

pub low-small : (n x : ℕ) → x < shl 1 n → low n x ≡ x
unfolding low shl
low-small zero x h = omega arith
low-small (suc n) x h = omega (arith, low-small n (x / 2) (omega arith))

pub shl-mul : (n y : ℕ) → shl y n ≡ y * 2 ^ n
unfolding shl
shl-mul zero y = omega arith
shl-mul (suc n) y = rw (shl-mul n y, pow-suc 2 n) (grind arith)

pub shl-pow : (n : ℕ) → shl 1 n ≡ 2 ^ n
shl-pow n = omega (arith, shl-mul n 1)

pub low-lt : (n x : ℕ) → low n x < shl 1 n
unfolding low shl
low-lt zero x = omega arith
low-lt (suc n) x = omega (arith, low-lt n (x / 2))

low_split : (n x : ℕ) → x ≡ low n x + shl (shr x n) n
unfolding low shl shr
low_split zero x = omega arith
low_split (suc n) x = omega (arith, low_split n (x / 2))

pub low-mod : (n x : ℕ) → low n x ≡ x % 2 ^ n
low-mod n x =
    sym (mod-eq_of_lt (omega (arith, low-lt n x, shl-pow n)))
    ∙ sym (add-mul-mod_self_right (low n x) (shr x n) (2 ^ n))
    ∙ ap (λ y. y % 2 ^ n) (omega (arith, low_split n x, shl-mul n (shr x n)))

and_small : (n a : ℕ) → digits (λ b. 0) min n a 0 ≡ 0
and_small zero a = refl
and_small (suc n) zero = refl
and_small (suc n) (suc a) = omega (arith, and_small n (suc a / 2))

-- `x & 1`
pub and_one : (a : ℕ) → bit_and a 1 ≡ a % 2
and_one zero = bit_and-bitwise 0 1
and_one (suc a) = omega (arith, bit_and-bitwise (suc a) 1, and_small a (suc a / 2))

zero-and : (b : ℕ) → bit_and 0 b ≡ 0
zero-and b = bit_and-bitwise 0 b

-- The lowest digit of `&`.
and_step : (a b : ℕ) → bit_and a b ≡ bit_and (a / 2) (b / 2) * 2 + min (a % 2) (b % 2)
and_step zero b = omega (arith, zero-and b, zero-and (b / 2))
and_step (suc a) b =
    let h = suc a / 2 in
    omega (
      arith,
      bit_and-bitwise (suc a) b,
      bit_and-bitwise h (b / 2),
      enough (λ b. 0) min (a - h) a h (b / 2) (omega arith),
    )

-- `x & (1 << k)` is bit k in its place.
pub and_shl : (k a : ℕ) → bit_and a (shl 1 k) ≡ shl (shr a k % 2) k
unfolding shl shr
and_shl zero a = and_one a
and_shl (suc k) a =
    let double : 2 * shl 1 k / 2 ≡ shl 1 k = omega arith in
    omega (arith, and_step a (2 * shl 1 k), ap (bit_and (a / 2)) double, and_shl k (a / 2))

-- `|` on the lowest k digits and on those above them.
pub or_parts :
    (k a b c d : ℕ)
    → a < shl 1 k
    → b < shl 1 k
    → bit_or (a + shl c k) (b + shl d k) ≡ bit_or a b + shl (bit_or c d) k
unfolding shl
or_parts zero a b c d ha hb =
    let na : a ≡ 0 = omega arith in
    let nb : b ≡ 0 = omega arith in
    let plain : (x : ℕ) → 0 + x ≡ x = λ x. omega arith in
    rw (na, nb, zero-or 0, plain c, plain d, plain (bit_or c d)) refl
or_parts (suc k) a b c d ha hb =
    let left : (a + 2 * shl c k) / 2 ≡ a / 2 + shl c k = omega arith in
    let right : (b + 2 * shl d k) / 2 ≡ b / 2 + shl d k = omega arith in
    omega (
      arith,
      or_step (a + 2 * shl c k) (b + 2 * shl d k),
      or_step a b,
      ap (λ x. bit_or x ((b + 2 * shl d k) / 2)) left,
      ap (bit_or (a / 2 + shl c k)) right,
      or_parts k (a / 2) (b / 2) c d (omega arith) (omega arith),
    )

pub shl_pos : (k : ℕ) → 1 ≤ shl 1 k
unfolding shl
shl_pos zero = omega arith
shl_pos (suc k) = omega (arith, shl_pos k)

pub shl_le : (i k : ℕ) → i ≤ k → shl 1 i ≤ shl 1 k
unfolding shl
shl_le zero k h = shl_pos k
shl_le (suc i) zero h = absurd (omega arith)
shl_le (suc i) (suc k) h = omega (arith, shl_le i k (omega arith))

pub shl_mono : (k x y : ℕ) → x ≤ y → shl x k ≤ shl y k
unfolding shl
shl_mono zero x y h = h
shl_mono (suc k) x y h = omega (arith, shl_mono k x y h)

-- One byte further up.
pub shl_byte : (t x : ℕ) → shl x (suc t * 8) ≡ 256 * shl x (t * 8)
unfolding shl
shl_byte t x =
    let eight : suc t * 8 ≡ suc (suc (suc (suc (suc (suc (suc (suc (t * 8)))))))) = omega arith in
    ap (shl x) eight ∙ omega arith

pub shl_of_byte : (k x : ℕ) → shl (256 * x) k ≡ 256 * shl x k
unfolding shl
shl_of_byte zero x = refl
shl_of_byte (suc k) x = omega (arith, shl_of_byte k x)

pub shl_seven : shl 1 7 ≡ 128
unfolding shl
shl_seven = refl

pub shl_eight : (x : ℕ) → shl x 8 ≡ 256 * x
unfolding shl
shl_eight x = omega arith

pub shr_add : (a s t x : ℕ) → t ≡ a + s → shr (shr x a) s ≡ shr x t
unfolding shr
shr_add zero s t x e = let same : s ≡ t = omega arith in ap (shr x) same
shr_add (suc a) s zero x e = absurd (omega arith)
shr_add (suc a) s (suc t) x e = shr_add a s t (x / 2) (omega arith)

-- The lowest k digits of x are the digits of x.
pub shr-low : (k s x : ℕ) → s < k → shr (low k x) s % 2 ≡ shr x s % 2
unfolding low shr
shr-low zero s x h = absurd (omega arith)
shr-low (suc k) zero x h = omega arith
shr-low (suc k) (suc s) x h =
    let half : (x % 2 + 2 * low k (x / 2)) / 2 ≡ low k (x / 2) = omega arith in
    ap (λ y. shr y s % 2) half ∙ shr-low k s (x / 2) (omega arith)
