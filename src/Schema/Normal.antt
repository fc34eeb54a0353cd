-- ===== src/Schema/Normal.antt =====
-- What NormalizeName leaves is normal: it has no space at either end and no capital letter.
use mathlib.Core.List.{reverse, reverse-append, reverse-reverse, reverse-cons, map-append}
use dripsql.Base.{
  ℕ, ◌≤◌, ◌≡◌, ◌≢◌, refl, ap, sym, ◌∙◌, true, false, Bool-cases, inl, inr, [], ◌∷◌, ◌++◌, map, Text,
  nat_eq, arith, length,
}
use dripsql.Schema.Names.{is_space, lower, trim_left, trim_space, to_lower, normalize_name}

trim_left-space : (c : ℕ) (s : Text) → is_space c ≡ true → trim_left (c ∷ s) ≡ trim_left s
unfolding trim_left
trim_left-space c s h = rw h

trim_left-other : (c : ℕ) (s : Text) → is_space c ≡ false → trim_left (c ∷ s) ≡ c ∷ s
unfolding trim_left
trim_left-other c s h = rw h

trim_left-nil : trim_left [] ≡ []
unfolding trim_left
trim_left-nil = refl

length-trim_left : (s : Text) → length (trim_left s) ≤ length s
length-trim_left [] = rw trim_left-nil (omega arith)
length-trim_left (c ∷ s) = elim (Bool-cases (is_space c)) [
  | inl h ↦ rw (trim_left-space c s h) (omega (arith, length-trim_left s))
  | inr h ↦ rw (trim_left-other c s h) (omega arith)
]

trim_left_idem : (s : Text) → trim_left (trim_left s) ≡ trim_left s
trim_left_idem [] = rw (trim_left-nil, trim_left-nil)
trim_left_idem (c ∷ s) = elim (Bool-cases (is_space c)) [
  | inl h ↦ rw (trim_left-space c s h) (trim_left_idem s)
  | inr h ↦ rw (trim_left-other c s h, trim_left-other c s h)
]

-- What it drops stands in front.
trim_left-dropped : (s : Text) → (w : Text) × (s ≡ w ++ trim_left s)
trim_left-dropped [] = ([], sym trim_left-nil)
trim_left-dropped (c ∷ s) = elim (Bool-cases (is_space c)) [
  | inl h ↦ (
    c ∷ (trim_left-dropped s).0,
    rw (trim_left-space c s h) (ap (λ r. c ∷ r) (trim_left-dropped s).1),
  )
  | inr h ↦ ([], sym (trim_left-other c s h))
]

-- A prefix of a text without leading space has none.
trim_left-prefix : (v w : Text) → trim_left (v ++ w) ≡ v ++ w → trim_left v ≡ v
trim_left-prefix [] w h = trim_left-nil
trim_left-prefix (c ∷ v) w h = elim (Bool-cases (is_space c)) [
  | inl e ↦
      absurd (
        omega
          (arith, length-trim_left (v ++ w), ap length (sym (trim_left-space c (v ++ w) e) ∙ h)))
  | inr e ↦ trim_left-other c v e
]

-- So has a longer text than one that has none.
trim_left-append : (v w : Text) → v ≢ [] → trim_left v ≡ v → trim_left (v ++ w) ≡ v ++ w
trim_left-append [] w some_v h = absurd (some_v refl)
trim_left-append (c ∷ v) w some_v h = elim (Bool-cases (is_space c)) [
  | inl e ↦ absurd (omega (arith, length-trim_left v, ap length (sym (trim_left-space c v e) ∙ h)))
  | inr e ↦ trim_left-other c (v ++ w) e
]

-- TrimSpace leaves a prefix of what stands behind the leading space.
trim_space-left : (s : Text) → trim_left (trim_space s) ≡ trim_space s
unfolding trim_space
trim_space-left s =
    let u = trim_left s in
    let d = trim_left-dropped (reverse u) in
    let split : reverse (trim_left (reverse u)) ++ reverse d.0 ≡ u =
      sym (reverse-append d.0 (trim_left (reverse u))) ∙ ap reverse (sym d.1) ∙ reverse-reverse u in
    trim_left-prefix (reverse (trim_left (reverse u))) (reverse d.0)
      (ap trim_left split ∙ trim_left_idem s ∙ sym split)

pub trim_space_idem : (s : Text) → trim_space (trim_space s) ≡ trim_space s
unfolding trim_space
trim_space_idem s = rw (trim_space-left s) (
    ap (λ t. reverse (trim_left t)) (reverse-reverse (trim_left (reverse (trim_left s))))
    ∙ ap reverse (trim_left_idem (reverse (trim_left s))))

trim_space-right : (s : Text) → trim_left (reverse (trim_space s)) ≡ reverse (trim_space s)
unfolding trim_space
trim_space-right s =
    let r = reverse-reverse (trim_left (reverse (trim_left s))) in
    ap trim_left r ∙ trim_left_idem (reverse (trim_left s)) ∙ sym r

-- A text without space at its end keeps its end behind another.
pub trim_space-append :
    (p s : Text)
    → s ≢ []
    → trim_left (p ++ s) ≡ p ++ s
    → trim_space s ≡ s
    → trim_space (p ++ s) ≡ p ++ s
unfolding trim_space
trim_space-append p s some_s left h =
    let right : trim_left (reverse s) ≡ reverse s =
      ap (λ t. trim_left (reverse t)) (sym h) ∙ trim_space-right s ∙ ap reverse h in
    let some_r : reverse s ≢ [] = λ e. some_s (sym (reverse-reverse s) ∙ ap reverse e) in
    ap (λ t. reverse (trim_left (reverse t))) left
    ∙ ap (λ t. reverse (trim_left t)) (reverse-append p s)
    ∙ ap reverse (trim_left-append (reverse s) (reverse p) some_r right)
    ∙ ap reverse (sym (reverse-append p s))
    ∙ reverse-reverse (p ++ s)

lower-lower : (c : ℕ) → lower (lower c) ≡ lower c
unfolding lower
lower-lower c = ground arith

is_space-lower : (c : ℕ) → is_space (lower c) ≡ is_space c
unfolding lower is_space
is_space-lower c = ground arith

to_lower_idem : (s : Text) → to_lower (to_lower s) ≡ to_lower s
unfolding to_lower
to_lower_idem [] = refl
to_lower_idem (c ∷ s) = rw (lower-lower c, to_lower_idem s)

trim_left-to_lower : (s : Text) → trim_left (to_lower s) ≡ to_lower (trim_left s)
unfolding to_lower trim_left
trim_left-to_lower [] = refl
trim_left-to_lower (c ∷ s) = rw (is_space-lower c) (ground (arith, trim_left-to_lower s))

reverse-to_lower : (s : Text) → reverse (to_lower s) ≡ to_lower (reverse s)
unfolding to_lower
reverse-to_lower [] = refl
reverse-to_lower (c ∷ s) =
    reverse-cons (lower c) (map lower s)
    ∙ ap (λ r. r ++ lower c ∷ []) (reverse-to_lower s)
    ∙ sym (ap (map lower) (reverse-cons c s) ∙ map-append lower (reverse s) (c ∷ []))

trim_space-to_lower : (s : Text) → trim_space (to_lower s) ≡ to_lower (trim_space s)
unfolding trim_space
trim_space-to_lower s = rw (
  trim_left-to_lower s,
  reverse-to_lower (trim_left s),
  trim_left-to_lower (reverse (trim_left s)),
  reverse-to_lower (trim_left (reverse (trim_left s))),
)

-- A name that is normalised is normal: NormalizeName leaves it alone.
pub normalize_name_idem : (s : Text) → normalize_name (normalize_name s) ≡ normalize_name s
unfolding normalize_name
normalize_name_idem s =
    rw (trim_space-to_lower (trim_space s), trim_space_idem s, to_lower_idem (trim_space s))

pub trim_space-normalize_name : (s : Text) → trim_space (normalize_name s) ≡ normalize_name s
unfolding normalize_name
trim_space-normalize_name s = rw (trim_space-to_lower (trim_space s), trim_space_idem s)

pub to_lower-normalize_name : (s : Text) → to_lower (normalize_name s) ≡ normalize_name s
unfolding normalize_name
to_lower-normalize_name s = to_lower_idem (trim_space s)
