-- ===== src/Base/Int64.antt =====
-- Go's int64 and uint64 as bit patterns below 2 ^ 64: arithmetic wraps around, and signed numbers
-- are compared through the pattern with its sign bit flipped.
use Prim.Native.Nat.{ℕ, ◌+◌, ◌-◌, ◌%◌, ◌^◌, ◌≤◌, ◌<◌}
use mathlib.Core.Path.{◌≡◌}
use mathlib.Core.Bool.{Bool}
use native.Mathlib.Omega.{arith}
use dripsql.Base.Tests.{ltb}

abbrev pub IsU64 : ℕ → Type 0
IsU64 x = x < 2 ^ 64

unfoldable pub add64 : ℕ → ℕ → ℕ
add64 a b = (a + b) % 2 ^ 64

unfoldable pub sub64 : ℕ → ℕ → ℕ
sub64 a b = (a + 2 ^ 64 - b) % 2 ^ 64

unfoldable pub signed_key : ℕ → ℕ
signed_key x = (x + 2 ^ 63) % 2 ^ 64

unfoldable pub less64 : ℕ → ℕ → Bool
less64 a b = ltb (signed_key a) (signed_key b)

pub add64-sub64 : (a b : ℕ) → IsU64 a → IsU64 b → add64 b (sub64 a b) ≡ a
unfolding add64 sub64
add64-sub64 a b ha hb = omega arith

pub sub64-IsU64 : (a b : ℕ) → IsU64 (sub64 a b)
unfolding sub64
sub64-IsU64 a b = omega arith

pub add64-IsU64 : (a b : ℕ) → IsU64 (add64 a b)
unfolding add64
add64-IsU64 a b = omega arith

-- Where the true difference of signed numbers is not negative, the wrapped one is that difference.
pub sub64-key :
    (a b : ℕ)
    → IsU64 a
    → IsU64 b
    → signed_key b ≤ signed_key a
    → sub64 a b ≡ signed_key a - signed_key b
unfolding sub64 signed_key
sub64-key a b ha hb h = omega arith

pub signed_key-inj : (a b : ℕ) → IsU64 a → IsU64 b → signed_key a ≡ signed_key b → a ≡ b
unfolding signed_key
signed_key-inj a b ha hb h = omega arith
