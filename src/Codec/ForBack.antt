-- ===== src/Codec/ForBack.antt =====
-- internal/storage/codec/for_bitpack.go: the base and width that are chosen cover the values.
use dripsql.Base.{
  ℕ, leb, ◌%◌, ◌^◌, ◌<◌, ◌≤◌, ◌≡◌, refl, ap, ◌∙◌, arith, true, Option, none, some, List, [], ◌∷◌,
  map, length, nat_beq, All, Bool-cases, inl, inr,
}
use mathlib.Core.Path.{subst}
use native.Mathlib.Nat.{mod-eq_of_lt}
use dripsql.Base.Bits.{shl-pow}
use dripsql.Base.Int64.{IsU64, sub64, add64, add64-sub64}
use dripsql.Storage.PageEntry.{and_then}
use dripsql.Codec.Kinds.{
  VecKind, vec_int16, vec_int32, vec_date, vec_enum32, Vec, is_for_packable, storage_bits,
  read_for_values,
}
use dripsql.Codec.Spans.{
  Span, span_loop, span_params, one_span, span_params-fits, IsSpan, Holds, span_loop-IsSpan,
  span_loop-keeps, span_loop-Holds,
}
use dripsql.Codec.For.{IntFacts, for_params, for_choice, narrower}

-- Every distance from the base fits the width.
pub Covers : ℕ → ℕ → List ℕ → Type 0
Covers base width xs = All (λ x. sub64 x base < 2 ^ width) xs

-- Masked to the width, the distances are what they were, and added to the base they are the values.
pub distances-back :
    (base width : ℕ) (xs : List ℕ)
    → IsU64 base
    → All IsU64 xs
    → Covers base width xs
    → map (add64 base) (map (λ x. x % 2 ^ width) (map (λ x. sub64 x base) xs)) ≡ xs
unfolding Covers
distances-back base width [] hb hx hc = refl
distances-back base width (x ∷ xs) hb (hx, hxs) (hc, hcs) =
    rw (mod-eq_of_lt hc, add64-sub64 x base hx hb, distances-back base width xs hb hxs hcs) refl

pub all-Covers :
    (s : Span) (base width : ℕ) (xs : List ℕ)
    → span_params s ≡ some (base, width)
    → IsSpan s
    → All IsU64 xs
    → All (Holds s) xs
    → Covers base width xs
unfolding Covers
all-Covers s base width [] h o hx hh = tt
all-Covers s base width (x ∷ xs) h o (hx, hxs) (hh, hhs) = (
  omega (arith, (span_params-fits s base width x h o hx hh).3, shl-pow width),
  all-Covers s base width xs h o hxs hhs,
)

-- The parameters that forParams finds cover the page.
pub for_params-Covers :
    (xs : List ℕ) (base width : ℕ)
    → All IsU64 xs
    → for_params xs ≡ some (base, width)
    → IsU64 base × (1 ≤ width) × (width ≤ 64) × Covers base width xs
unfolding for_params Holds IsSpan
for_params-Covers [] base width hx h = cc
for_params-Covers (x ∷ xs) base width (hx, hxs) h =
    let s = span_loop xs (one_span x) in
    let ordered = span_loop-IsSpan xs (one_span x) hxs (hx, hx, omega arith) in
    let first = span_loop-keeps xs x (one_span x) (omega arith, omega arith) in
    let p = span_params-fits s base width x h ordered hx first in
    (
      p.0,
      p.1,
      p.2,
      all-Covers s base width (x ∷ xs) h ordered (hx, hxs) (first, span_loop-Holds xs (one_span x)),
    )

-- What is asked of the page's analysis: its base and width cover the values.
unfoldable pub FactsCover : Vec → Option IntFacts → Type 0
FactsCover v none = Unit
FactsCover v (some f) = IsU64 f.for_base × Covers f.for_base f.for_width (read_for_values v)

-- What a choice of parameters has to be.
pub record IsFor (v : Vec) (base width : ℕ) : Type 0 where
  pub packable : is_for_packable v.kind ≡ true
  pub some_rows : 1 ≤ length v.words
  pub base_u64 : IsU64 base
  pub width_pos : 1 ≤ width
  pub width_max : width ≤ 64
  pub covers : Covers base width (read_for_values v)

pub narrower-some :
    (k : VecKind) (p : ℕ × ℕ) (base width : ℕ)
    → narrower k p ≡ some (base, width)
    → (p.0 ≡ base) × (p.1 ≡ width) × (width < storage_bits k)
unfolding narrower
narrower-some k (b, w) base width h = elim (Bool-cases (leb (storage_bits k) w)) [
  | inl e ↦ cc (rw e at h)
  | inr e ↦
      let both : ◌≡◌ {A = Option (ℕ × ℕ)} (some (b, w)) (some (base, width)) = rw e at h in
      let same : w ≡ width = cc in
      let less : w < storage_bits k = ground arith in (cc, same, omega (arith, less))
]

pub storage_bits-le : (k : VecKind) → storage_bits k ≤ 64
unfolding storage_bits
storage_bits-le vec_int16 = omega arith
storage_bits-le vec_int32 = omega arith
storage_bits-le vec_date = omega arith
storage_bits-le vec_enum32 = omega arith
storage_bits-le _ = omega arith

pub and_then-some {ℓ κ} :
    {A : Type ℓ} {B : Type κ} (o : Option A) (f : A → Option B) (b : B)
    → and_then o f ≡ some b
    → (a : A) × (o ≡ some a) × (f a ≡ some b)
and_then-some none f b h = cc
and_then-some (some a) f b h = (a, refl, h)

pub ap2_pair : {a b c d : ℕ} → a ≡ b → c ≡ d → ◌≡◌ {A = ℕ × ℕ} (a, c) (b, d)
ap2_pair p q = λ i. (p i, q i)

pub chosen-IsFor :
    (v : Vec) (facts : Option IntFacts) (base width : ℕ)
    → is_for_packable v.kind ≡ true
    → 1 ≤ length v.words
    → All IsU64 (read_for_values v)
    → FactsCover v facts
    → for_choice v facts ≡ some (base, width)
    → IsFor v base width
unfolding FactsCover for_choice
chosen-IsFor v none base width p r hx c h =
    let a = and_then-some (for_params (read_for_values v)) (narrower v.kind) (base, width) h in
    let n = narrower-some v.kind a.0 base width a.2 in
    let same : ◌≡◌ {A = ℕ × ℕ} a.0 (base, width) = ap2_pair n.0 n.1 in
    let q = for_params-Covers (read_for_values v) base width hx (a.1 ∙ ap some same) in
    record {
      packable = p;
      some_rows = r;
      base_u64 = q.0;
      width_pos = q.1;
      width_max = q.2;
      covers = q.3;
    }
chosen-IsFor v (some f) base width p r hx (cb, cover) h =
    elim (Bool-cases (nat_beq f.for_width 0)) [
      | inl e ↦ cc (rw e at h)
      | inr e ↦
          let n = narrower-some v.kind (f.for_base, f.for_width) base width (rw e at h) in
          let small = storage_bits-le v.kind in
          let pos : 1 ≤ f.for_width = ground arith in
          record {
            packable = p;
            some_rows = r;
            base_u64 = omega (arith, cb, n.0);
            width_pos = omega (arith, pos, n.1);
            width_max = omega (arith, n.2, small);
            covers =
                subst (λ b. Covers b width (read_for_values v)) n.0
                  (subst (λ w. Covers f.for_base w (read_for_values v)) n.1 cover);
          }
    ]
