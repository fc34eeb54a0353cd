-- ===== src/Storage/EncodedRows.antt =====
-- internal/storage/predicate.go: a row's packed distance against the threshold, and its number
-- against the value compared with.
use dripsql.Base.{
  ℕ, zero, suc, nat_beq, nat_beq_iff, ltb, leb, ◌+◌, ◌-◌, ◌^◌, ◌<◌, ◌≤◌, ◌≡◌, refl, ap, ◌∙◌, sym,
  arith, Bool, true, false, ◌&&◌, ◌||◌, Option, none, some, List, [], ◌∷◌, map, length, replicate,
  All, Bool-cases, inl, inr, leb→le, lt→ltb, le→ltb, ◌⊎◌,
}
use dripsql.Base.Int64.{IsU64, sub64, signed_key, less64, sub64-key, signed_key-inj}
use dripsql.Storage.EncodedFor.{
  Comparison, equal, less, greater, negative64, max_residual, both_set, apply_validity,
}

-- The comparison itself, on decoded numbers.
unfoldable pub compares : Comparison → ℕ → ℕ → Bool
compares equal v x = nat_beq x v
compares less v x = less64 x v
compares greater v x = less64 v x

-- A row of the page: no further below the value than an int64 can say, and in the width's reach.
pub record InReach (base width x : ℕ) : Type 0 where
  pub x_u64 : IsU64 x
  pub above : signed_key base ≤ signed_key x
  pub fits : sub64 x base < 2 ^ width

-- The distance of v and the base is an int64.
pub record Apart (base v : ℕ) : Type 0 where
  pub v_u64 : IsU64 v
  pub base_u64 : IsU64 base
  pub upward : signed_key v < signed_key base + 2 ^ 63
  pub downward : signed_key base ≤ signed_key v + 2 ^ 63

pub leb-false : (a b : ℕ) → leb a b ≡ false → b < a
leb-false a b h = ground arith

pub or-false : (a b : Bool) → (a || b) ≡ false → (a ≡ false) × (b ≡ false)
or-false false b h = (refl, h)
or-false true b h = cc

pub or-cases : (a b : Bool) → (a || b) ≡ true → (a ≡ true) ⊎ (b ≡ true)
or-cases true b h = inl refl
or-cases false b h = inr h

pub and-parts : (a b : Bool) → (a && b) ≡ true → (a ≡ true) × (b ≡ true)
and-parts true b h = (refl, h)
and-parts false b h = cc

pub All-weaken : {P Q : ℕ → Type 0} (xs : List ℕ) → ((x : ℕ) → P x → Q x) → All P xs → All Q xs
All-weaken [] f h = tt
All-weaken (x ∷ xs) f (hx, hxs) = (f x hx, All-weaken xs f hxs)

pub map-constant :
    (f : ℕ → Bool) (b : Bool) (xs : List ℕ)
    → All (λ x. f x ≡ b) xs
    → map f xs ≡ replicate (length xs) b
map-constant f b [] h = refl
map-constant f b (x ∷ xs) (hx, hxs) = rw (hx, map-constant f b xs hxs) refl

pub map-through :
    (f : ℕ → Bool) (d : ℕ → ℕ) (g : ℕ → Bool) (xs : List ℕ)
    → All (λ x. f (d x) ≡ g x) xs
    → map f (map d xs) ≡ map g xs
map-through f d g [] h = refl
map-through f d g (x ∷ xs) (hx, hxs) = rw (hx, map-through f d g xs hxs) refl

pub both_set-none : (vs : List Bool) (n : ℕ) → both_set vs (replicate n false) ≡ replicate n false
unfolding both_set
both_set-none [] n = refl
both_set-none (v ∷ vs) zero = refl
both_set-none (v ∷ vs) (suc n) = ap (λ l. false ∷ l) (both_set-none vs n)

pub validity-none :
    (valid : Option (List Bool)) (n : ℕ)
    → apply_validity valid (replicate n false) ≡ replicate n false
unfolding apply_validity
validity-none none n = refl
validity-none (some vs) n = both_set-none vs n

-- The width's largest distance.
pub max_residual-le : (width d : ℕ) → width ≤ 63 → d < 2 ^ width → d ≤ max_residual width
unfolding max_residual
max_residual-le width d w h =
    let small : leb 64 width ≡ false = ground arith in rw small (omega arith)

module _ (base width v : ℕ) (w : width ≤ 63) (a : Apart base v) where
  distance : (x : ℕ) → InReach base width x → sub64 x base ≡ signed_key x - signed_key base
  distance x h = sub64-key x base h.x_u64 a.base_u64 h.above

  -- Below the base the difference is negative, and from there on it is the distance.
  threshold_neg : negative64 (sub64 v base) ≡ true → signed_key v < signed_key base
  unfolding negative64 sub64 signed_key
  threshold_neg h =
      let n = leb→le _ _ h in omega (arith, n, a.v_u64, a.base_u64, a.upward, a.downward)

  threshold_pos :
      negative64 (sub64 v base) ≡ false
      → (signed_key base ≤ signed_key v) × ((sub64 v base) ≡ signed_key v - signed_key base)
  unfolding negative64 sub64 signed_key
  threshold_pos h =
      let n = leb-false _ _ h in
      (
        omega (arith, n, a.v_u64, a.base_u64, a.upward, a.downward),
        omega (arith, n, a.v_u64, a.base_u64, a.upward, a.downward),
      )

  pub same_equal :
      (x : ℕ)
      → InReach base width x
      → negative64 (sub64 v base) ≡ false
      → nat_beq (sub64 x base) (sub64 v base) ≡ nat_beq x v
  same_equal x h n =
      let p = threshold_pos n in
      let d = distance x h in
      elim (Bool-cases (nat_beq x v)) [
        | inl e ↦
            let value : x ≡ v = (nat_beq_iff x v).0 e in
            (nat_beq_iff (sub64 x base) (sub64 v base)).1
              (omega (arith, d, p.1, ap signed_key value))
            ∙ sym e
        | inr e ↦ elim (Bool-cases (nat_beq (sub64 x base) (sub64 v base))) [
          | inl f ↦
              let even : sub64 x base ≡ (sub64 v base) =
                (nat_beq_iff (sub64 x base) (sub64 v base)).0 f in
              let key : signed_key x ≡ signed_key v = omega (arith, d, p.0, p.1, h.above, even) in
              f ∙ sym ((nat_beq_iff x v).1 (signed_key-inj x v h.x_u64 a.v_u64 key))
          | inr f ↦ f ∙ sym e
        ]
      ]

  pub same_less :
      (x : ℕ)
      → InReach base width x
      → negative64 (sub64 v base) ≡ false
      → ltb (sub64 x base) (sub64 v base) ≡ less64 x v
  unfolding less64
  same_less x h n = let p = threshold_pos n in ground (arith, p.0, p.1, distance x h, h.above)

  pub same_greater :
      (x : ℕ)
      → InReach base width x
      → negative64 (sub64 v base) ≡ false
      → ltb (sub64 v base) (sub64 x base) ≡ less64 v x
  unfolding less64
  same_greater x h n = let p = threshold_pos n in ground (arith, p.0, p.1, distance x h, h.above)

  pub none_below :
      (x : ℕ) → nat_beq (sub64 v base) 0 ≡ true → ltb (sub64 x base) (sub64 v base) ≡ false
  none_below x z = le→ltb _ _ (omega (arith, (nat_beq_iff (sub64 v base) 0).0 z))

  pub below_equal :
      (x : ℕ) → InReach base width x → negative64 (sub64 v base) ≡ true → nat_beq x v ≡ false
  below_equal x h n = elim (Bool-cases (nat_beq x v)) [
    | inl e ↦
        absurd (omega (arith, threshold_neg n, h.above, ap signed_key ((nat_beq_iff x v).0 e)))
    | inr e ↦ e
  ]

  pub below_less :
      (x : ℕ) → InReach base width x → negative64 (sub64 v base) ≡ true → less64 x v ≡ false
  unfolding less64
  below_less x h n = ground (arith, threshold_neg n, h.above)

  pub below_greater :
      (x : ℕ) → InReach base width x → negative64 (sub64 v base) ≡ true → less64 v x ≡ true
  unfolding less64
  below_greater x h n = ground (arith, threshold_neg n, h.above)

  -- Beyond the width's reach no row is equal, and every row is less.
  pub beyond_equal :
      (x : ℕ)
      → InReach base width x
      → negative64 (sub64 v base) ≡ false
      → 2 ^ width ≤ (sub64 v base)
      → nat_beq x v ≡ false
  beyond_equal x h n far = sym (same_equal x h n) ∙ unequal
    where
      unequal : nat_beq (sub64 x base) (sub64 v base) ≡ false
      unequal = ground (arith, h.fits, far)

  pub beyond_less :
      (x : ℕ)
      → InReach base width x
      → negative64 (sub64 v base) ≡ false
      → max_residual width < (sub64 v base)
      → less64 x v ≡ true
  beyond_less x h n far =
      let reach = max_residual-le width (sub64 x base) w h.fits in
      sym (same_less x h n) ∙ lt→ltb _ _ (omega (arith, reach, far))

  pub beyond_greater :
      (x : ℕ)
      → InReach base width x
      → negative64 (sub64 v base) ≡ false
      → max_residual width ≤ (sub64 v base)
      → less64 v x ≡ false
  beyond_greater x h n far =
      let reach = max_residual-le width (sub64 x base) w h.fits in
      sym (same_greater x h n) ∙ le→ltb _ _ (omega (arith, reach, far))
