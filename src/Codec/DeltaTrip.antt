-- ===== src/Codec/DeltaTrip.antt =====
-- internal/storage/codec/delta_bitpack.go: the parameters that are chosen bring back the values.
use mathlib.Core.Path.{subst}
use dripsql.Base.{
  ℕ, suc, ltb, ◌+◌, ◌-◌, ◌%◌, ◌^◌, ◌≤◌, ◌≡◌, refl, ap, ◌∙◌, arith, true, Option, none, some, List,
  [], ◌∷◌, map, length, get_or, All, Bool-cases, inl, inr,
}
use dripsql.Base.Int64.{IsU64, sub64, add64, add64-sub64, sub64-IsU64}
use dripsql.Storage.PageEntry.{and_then}
use dripsql.Codec.Kinds.{Vec, is_for_packable, read_for_values}
use dripsql.Codec.For.{IntFacts, EncodeContext, for_params, narrower}
use dripsql.Codec.ForBack.{
  Covers, distances-back, and_then-some, for_params-Covers, narrower-some, storage_bits-le,
  ap2_pair,
}
use dripsql.Codec.Delta.{
  differences, deltas, DeltaParams, with_first, delta_params, delta_choice, delta_fits, running,
}

differences-IsU64 : (prev : ℕ) (xs : List ℕ) → All IsU64 (differences prev xs)
unfolding differences
differences-IsU64 prev [] = tt
differences-IsU64 prev (x ∷ xs) = (sub64-IsU64 x prev, differences-IsU64 x xs)

deltas-IsU64 : (xs : List ℕ) → All IsU64 (deltas xs)
unfolding deltas
deltas-IsU64 [] = tt
deltas-IsU64 (x ∷ xs) = differences-IsU64 x xs

add64-swap : (a b c : ℕ) → add64 (add64 a c) b ≡ add64 a (add64 b c)
unfolding add64
add64-swap a b c = omega arith

-- Summing up the differences gives the values.
running-differences :
    (base prev : ℕ) (rs xs : List ℕ)
    → IsU64 prev
    → All IsU64 xs
    → map (add64 base) rs ≡ differences prev xs
    → running base prev rs ≡ xs
unfolding running differences
running-differences base prev [] [] hp h e = refl
running-differences base prev [] (x ∷ xs) hp h e = cc
running-differences base prev (r ∷ rs) [] hp h e = cc
running-differences base prev (r ∷ rs) (x ∷ xs) hp (hx, hxs) e =
    let here : add64 base r ≡ sub64 x prev = cc in
    let there : map (add64 base) rs ≡ differences x xs = cc in
    let value : add64 (add64 prev r) base ≡ x =
      add64-swap prev base r ∙ ap (add64 prev) here ∙ add64-sub64 x prev hx hp in
    rw (value, running-differences base x rs xs hx hxs there) refl

pub add64-nothing : (xs : List ℕ) → All IsU64 xs → map (add64 0) xs ≡ xs
unfolding add64
add64-nothing [] h = refl
add64-nothing (x ∷ xs) (hx, hxs) =
    let here : (0 + x) % 2 ^ 64 ≡ x = omega arith in rw (here, add64-nothing xs hxs) refl

-- What is asked of the page's analysis where it offers a delta encoding.
unfoldable pub DeltaKnown : Vec → Option IntFacts → Type 0
DeltaKnown v none = Unit
DeltaKnown v (some f) =
    (f.first ≡ get_or (read_for_values v) 0 0)
    × IsU64 f.delta_base
    × (1 ≤ f.delta_width)
    × Covers f.delta_base f.delta_width (deltas (read_for_values v))

pub record IsDelta (v : Vec) (p : DeltaParams) : Type 0 where
  pub first : p.first ≡ get_or (read_for_values v) 0 0
  pub base_u64 : IsU64 p.base
  pub width_pos : 1 ≤ p.width
  pub width_max : p.width ≤ 64
  pub covers : Covers p.base p.width (deltas (read_for_values v))

with_first-some :
    (first : ℕ) (q : ℕ × ℕ) (p : DeltaParams)
    → with_first first q ≡ some p
    → record { first = first; base = q.0; width = q.1 } ≡ p
unfolding with_first
with_first-some first (b, w) p h = cc

chosen-IsDelta :
    (v : Vec) (facts : Option IntFacts) (p : DeltaParams)
    → DeltaKnown v facts
    → delta_choice v facts ≡ some p
    → IsDelta v p
unfolding DeltaKnown delta_choice delta_params with_first
chosen-IsDelta v none p c h =
    let a = and_then-some _ (with_first (get_or (read_for_values v) 0 0)) p h in
    let b = and_then-some (for_params (deltas (read_for_values v))) (narrower v.kind) a.0 a.1 in
    let n = narrower-some v.kind b.0 a.0.0 a.0.1 b.2 in
    let found = b.1 ∙ ap some (ap2_pair n.0 n.1) in
    let q =
      for_params-Covers (deltas (read_for_values v)) a.0.0 a.0.1 (deltas-IsU64 (read_for_values v))
        found in
    subst (IsDelta v) (with_first-some (get_or (read_for_values v) 0 0) a.0 p a.2)
      (record { first = refl; base_u64 = q.0; width_pos = q.1; width_max = q.2; covers = q.3 })
chosen-IsDelta v (some f) p (cf, cb, cw, cover) h = elim (Bool-cases f.delta_ok) [
  | inl e ↦
      let offered : and_then (narrower v.kind (f.delta_base, f.delta_width)) (with_first f.first)
          ≡ some p =
        rw e at h in
      let a =
        and_then-some (narrower v.kind (f.delta_base, f.delta_width)) (with_first f.first) p
          offered in
      let n = narrower-some v.kind (f.delta_base, f.delta_width) a.0.0 a.0.1 a.1 in
      subst (IsDelta v) (with_first-some f.first a.0 p a.2) (record {
        first = cf;
        base_u64 = omega (arith, cb, n.0);
        width_pos = omega (arith, cw, n.1);
        width_max = omega (arith, n.2, storage_bits-le v.kind);
        covers =
            subst (λ b. Covers b a.0.1 (deltas (read_for_values v))) n.0
              (subst (λ w. Covers f.delta_base w (deltas (read_for_values v))) n.1 cover);
      })
  | inr e ↦ cc (rw e at h)
]

pub delta_fits-IsDelta :
    (v : Vec) (ctx : EncodeContext) (p : DeltaParams)
    → DeltaKnown v ctx.facts
    → delta_fits v ctx ≡ some p
    → IsDelta v p × (is_for_packable v.kind ≡ true) × (2 ≤ length v.words)
unfolding delta_fits
delta_fits-IsDelta v ctx p c h = elim (Bool-cases (is_for_packable v.kind)) [
  | inl k ↦ elim (Bool-cases (ltb (length v.words) 2)) [
    | inl e ↦ cc (rw (k, e) at h)
    | inr e ↦ (chosen-IsDelta v ctx.facts p c (rw (k, e) at h), k, ground arith)
  ]
  | inr k ↦ cc (rw k at h)
]

length-differences : (prev : ℕ) (xs : List ℕ) → length (differences prev xs) ≡ length xs
unfolding differences
length-differences prev [] = refl
length-differences prev (x ∷ xs) = ap suc (length-differences x xs)

pub length-deltas : (xs : List ℕ) → length (deltas xs) ≡ length xs - 1
unfolding deltas
length-deltas [] = omega arith
length-deltas (x ∷ xs) = omega (arith, length-differences x xs)

-- The values are the first and what the deltas add up to.
pub values-back :
    (base width : ℕ) (xs : List ℕ)
    → 2 ≤ length xs
    → IsU64 base
    → All IsU64 xs
    → Covers base width (deltas xs)
    → get_or xs 0 0
        ∷ running base
            (get_or xs 0 0)
            (map (λ x. x % 2 ^ width) (map (λ x. sub64 x base) (deltas xs)))
      ≡ xs
unfolding deltas
values-back base width [] two hb h c = absurd (omega arith)
values-back base width (x ∷ xs) two hb (hx, hxs) c =
    ap (λ l. x ∷ l)
      (running-differences base x _ xs hx hxs
        (distances-back base width (differences x xs) hb (differences-IsU64 x xs) c))

pub first-IsU64 : (xs : List ℕ) → All IsU64 xs → IsU64 (get_or xs 0 0)
first-IsU64 [] h = omega arith
first-IsU64 (x ∷ xs) (hx, hxs) = hx
