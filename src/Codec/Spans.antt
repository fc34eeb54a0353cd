-- ===== src/Codec/Spans.antt =====
-- internal/storage/codec/for_bitpack.go, forParams, and delta_bitpack.go, deltaParams: the smallest
-- signed value of a page and the width of the distances from it.
use mathlib.Core.Path.{subst}
use dripsql.Base.{
  ℕ, zero, suc, ltb, if◌then◌else◌, ◌/◌, ◌<◌, ◌≤◌, ◌≡◌, arith, Option, none, some, List, [], ◌∷◌,
  ◌||◌, All, nat_beq, nat_beq_iff, Bool-cases, inl, inr,
}
use dripsql.Base.Bits.{shl, shl-pow}
use dripsql.Base.Int64.{IsU64, signed_key, less64, sub64, sub64-key, sub64-IsU64}

-- The loop's bounds.
pub record Span : Type 0 where
  pub low : ℕ
  pub high : ℕ

-- A page starts with its first value.
abbrev pub one_span : ℕ → Span
one_span x = record { low = x; high = x }

unfoldable pub widen_span : ℕ → Span → Span
widen_span x s = record {
  low = if less64 x s.low then x else s.low;
  high = if less64 s.high x then x else s.high;
}

unfoldable pub span_loop : List ℕ → Span → Span
span_loop [] s = s
span_loop (x ∷ xs) s = span_loop xs (widen_span x s)

-- 64 - bits.LeadingZeros64(x)
unfoldable pub bit_len : ℕ → ℕ → ℕ
bit_len zero x = 0
bit_len (suc n) x = let half = bit_len n (x / 2) in if nat_beq x 0 then 0 else suc half

-- The base and the width, where they differ.
unfoldable pub span_params : Span → Option (ℕ × ℕ)
span_params s =
    let span = sub64 s.high s.low in
    let w = bit_len 64 span in
    if nat_beq span 0 then none else if ltb w 1 || ltb 64 w then none else some (s.low, w)

pub bit_len-le : (n x : ℕ) → bit_len n x ≤ n
unfolding bit_len
bit_len-le zero x = omega arith
bit_len-le (suc n) x = ground (arith, bit_len-le n (x / 2))

pub bit_len-shl : (n x : ℕ) → x < shl 1 n → x < shl 1 (bit_len n x)
unfolding bit_len shl
bit_len-shl zero x h = h
bit_len-shl (suc n) x h = elim (Bool-cases (nat_beq x 0)) [
  | inl e ↦ let none : x ≡ 0 = (nat_beq_iff x 0).0 e in rw e (omega arith)
  | inr e ↦ rw e (omega (arith, bit_len-shl n (x / 2) (omega arith)))
]

-- A span holds x between its bounds, as signed numbers.
unfoldable pub Holds : Span → ℕ → Type 0
Holds s x = (signed_key s.low ≤ signed_key x) × (signed_key x ≤ signed_key s.high)

unfoldable pub IsSpan : Span → Type 0
IsSpan s = IsU64 s.low × IsU64 s.high × (signed_key s.low ≤ signed_key s.high)

widen_span-IsSpan : (x : ℕ) (s : Span) → IsU64 x → IsSpan s → IsSpan (widen_span x s)
unfolding widen_span less64 IsSpan
widen_span-IsSpan x s hx h = (ground arith, ground arith, ground arith)

widen_span-Holds : (x y : ℕ) (s : Span) → Holds s y → Holds (widen_span x s) y
unfolding widen_span less64 Holds
widen_span-Holds x y s h = (ground arith, ground arith)

widen_span_self : (x : ℕ) (s : Span) → Holds (widen_span x s) x
unfolding widen_span less64 Holds
widen_span_self x s = (ground arith, ground arith)

pub span_loop-IsSpan : (xs : List ℕ) (s : Span) → All IsU64 xs → IsSpan s → IsSpan (span_loop xs s)
unfolding span_loop
span_loop-IsSpan [] s hx h = h
span_loop-IsSpan (x ∷ xs) s (hx, hxs) h =
    span_loop-IsSpan xs (widen_span x s) hxs (widen_span-IsSpan x s hx h)

pub span_loop-keeps : (xs : List ℕ) (y : ℕ) (s : Span) → Holds s y → Holds (span_loop xs s) y
unfolding span_loop
span_loop-keeps [] y s h = h
span_loop-keeps (x ∷ xs) y s h = span_loop-keeps xs y (widen_span x s) (widen_span-Holds x y s h)

pub span_loop-Holds : (xs : List ℕ) (s : Span) → All (Holds (span_loop xs s)) xs
unfolding span_loop
span_loop-Holds [] s = tt
span_loop-Holds (x ∷ xs) s = (
  span_loop-keeps xs x (widen_span x s) (widen_span_self x s),
  span_loop-Holds xs (widen_span x s),
)

span-lt :
    (s : Span) (x : ℕ)
    → IsU64 s.low
    → IsU64 s.high
    → IsU64 x
    → signed_key s.low ≤ signed_key x
    → signed_key x ≤ signed_key s.high
    → signed_key s.low ≤ signed_key s.high
    → sub64 x s.low < shl 1 (bit_len 64 (sub64 s.high s.low))
span-lt s x hl hh hx lo hi hlh = omega (
  arith,
  sub64-key x s.low hx hl lo,
  sub64-key s.high s.low hh hl hlh,
  bit_len-shl 64 (sub64 s.high s.low) (omega (arith, sub64-IsU64 s.high s.low, shl-pow 64)),
)

-- What a span holds fits the width that its parameters give.
pub span_params-fits :
    (s : Span) (base width x : ℕ)
    → span_params s ≡ some (base, width)
    → IsSpan s
    → IsU64 x
    → Holds s x
    → IsU64 base × (1 ≤ width) × (width ≤ 64) × (sub64 x base < shl 1 width)
unfolding span_params IsSpan Holds
span_params-fits s base width x h (hl, hh, hlh) hx (lo, hi) =
    let span = sub64 s.high s.low in
    elim (Bool-cases (nat_beq span 0)) [
      | inl e ↦ cc (rw e at h)
      | inr e ↦ elim (Bool-cases (ltb (bit_len 64 span) 1 || ltb 64 (bit_len 64 span))) [
        | inl f ↦ cc (rw (e, f) at h)
        | inr f ↦
            let both : ◌≡◌ {A = Option (ℕ × ℕ)} (some (s.low, bit_len 64 span))
                (some (base, width)) =
              rw (e, f) at h in
            let low : s.low ≡ base = cc in
            let size : bit_len 64 span ≡ width = cc in
            let wide : sub64 x s.low < shl 1 (bit_len 64 span) = span-lt s x hl hh hx lo hi hlh in
            subst (λ b. IsU64 b × (1 ≤ width) × (width ≤ 64) × (sub64 x b < shl 1 width)) low
              (subst (λ w. IsU64 s.low × (1 ≤ w) × (w ≤ 64) × (sub64 x s.low < shl 1 w)) size
                (hl, ground arith, bit_len-le 64 span, wide))
      ]
    ]
