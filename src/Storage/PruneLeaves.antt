-- ===== src/Storage/PruneLeaves.antt =====
-- internal/storage/predicate.go: what statistics say of one comparison.
use mathlib.Core.Bool.{◌&&◌, ◌||◌}
use dripsql.Base.{
  ℕ, nat_beq, nat_beq_iff, Bool, true, false, Bool-cases, Option, none, some, Text, ◌≤◌, ◌≡◌, refl,
  arith, inl, inr, ◌⊎◌, text_eq, ap, ◌∙◌,
}
use dripsql.Base.Int64.{IsU64, signed_key, less64, signed_key-inj}
use dripsql.Storage.Predicate.{
  Cell, missing, null, int, text, holds_int, holds_text, cell_null, with_some, outside, not_less,
}

pub with_some-true {ℓ} :
    {A : Type ℓ} (o : Option A) (f : A → Bool)
    → with_some o false f ≡ true
    → (a : A) × (o ≡ some a) × (f a ≡ true)
unfolding with_some
with_some-true none f h = cc
with_some-true (some a) f h = (a, refl, h)

pub with_some-default {ℓ} :
    {A : Type ℓ} (o : Option A) (f : A → Bool) (d : Bool)
    → with_some o d f ≡ true
    → ((o ≡ none) × (d ≡ true)) ⊎ ((a : A) × (o ≡ some a) × (f a ≡ true))
unfolding with_some
with_some-default none f d h = inl (refl, h)
with_some-default (some a) f d h = inr (a, refl, h)

pub and-true : (a b : Bool) → (a && b) ≡ true → (a ≡ true) × (b ≡ true)
and-true true b h = (refl, h)
and-true false b h = cc

pub or-true : (a b : Bool) → (a || b) ≡ true → (a ≡ true) ⊎ (b ≡ true)
or-true true b h = inl refl
or-true false b h = inr h

-- A comparison that fails for every number a cell may hold selects no row.
pub holds_int-false :
    (p : ℕ → Bool) (c : Cell) → ((x : ℕ) → c ≡ int x → p x ≡ false) → holds_int p c ≡ false
unfolding holds_int
holds_int-false p (int x) h = h x refl
holds_int-false p missing h = refl
holds_int-false p null h = refl
holds_int-false p (text t) h = refl

pub holds_text-false :
    (p : Text → Bool) (c : Cell) → ((t : Text) → c ≡ text t → p t ≡ false) → holds_text p c ≡ false
unfolding holds_text
holds_text-false p (text t) h = h t refl
holds_text-false p missing h = refl
holds_text-false p null h = refl
holds_text-false p (int x) h = refl

pub holds_int-at : (p : ℕ → Bool) (c : Cell) (x : ℕ) → c ≡ int x → p x ≡ true → holds_int p c ≡ true
unfolding holds_int
holds_int-at p c x e h = ap (holds_int p) e ∙ h

pub null-text : (p : Text → Bool) (c : Cell) → c ≡ null → holds_text p c ≡ false
unfolding holds_text
null-text p c e = ap (holds_text p) e

pub null-cell : (c : Cell) → c ≡ null → cell_null c ≡ true
unfolding cell_null
null-cell c e = ap cell_null e

-- x lies between the bounds b, as a signed number.
pub record Between (b : ℕ × ℕ) (x : ℕ) : Type 0 where
  pub above : signed_key b.0 ≤ signed_key x
  pub below : signed_key x ≤ signed_key b.1
  pub x_u64 : IsU64 x
  pub low_u64 : IsU64 b.0

pub outside-other : (v x : ℕ) (b : ℕ × ℕ) → Between b x → outside v b ≡ true → nat_beq x v ≡ false
unfolding less64
outside-other v x b h o = elim (Bool-cases (nat_beq x v)) [
  | inl e ↦
      let same : signed_key x ≡ signed_key v = ap signed_key ((nat_beq_iff x v).0 e) in
      absurd (ground (arith, same, h.above, h.below))
  | inr e ↦ e
]

pub not_less-low : (v x : ℕ) (b : ℕ × ℕ) → Between b x → not_less b.0 v ≡ true → less64 x v ≡ false
unfolding less64
not_less-low v x b h o = ground (arith, h.above)

pub not_less-high : (v x : ℕ) (b : ℕ × ℕ) → Between b x → not_less v b.1 ≡ true → less64 v x ≡ false
unfolding less64
not_less-high v x b h o = ground (arith, h.below)

pub all_equal :
    (v x : ℕ) (b : ℕ × ℕ)
    → Between b x
    → (nat_beq b.0 v && nat_beq b.1 v) ≡ true
    → nat_beq x v ≡ true
all_equal v x b h o =
    let a = and-true (nat_beq b.0 v) (nat_beq b.1 v) o in
    let low : b.0 ≡ v = (nat_beq_iff b.0 v).0 a.0 in
    let high : b.1 ≡ v = (nat_beq_iff b.1 v).0 a.1 in
    let key : signed_key x ≡ signed_key b.0 =
      omega (arith, h.above, h.below, ap signed_key low, ap signed_key high) in
    (nat_beq_iff x v).1 (signed_key-inj x b.0 h.x_u64 h.low_u64 key ∙ low)

pub high-less : (v x : ℕ) (b : ℕ × ℕ) → Between b x → less64 b.1 v ≡ true → less64 x v ≡ true
unfolding less64
high-less v x b h o = ground (arith, h.below)

pub less-low : (v x : ℕ) (b : ℕ × ℕ) → Between b x → less64 v b.0 ≡ true → less64 v x ≡ true
unfolding less64
less-low v x b h o = ground (arith, h.above)
