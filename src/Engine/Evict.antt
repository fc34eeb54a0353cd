-- ===== src/Engine/Evict.antt =====
-- Eviction against a reference: one pass from the cold end that drops as many unused entries as the
-- cache has too many.
use mathlib.Core.Path.{subst}
use dripsql.Base.{
  ℕ, zero, suc, ◌-◌, ◌≤◌, ◌≡◌, refl, ap, sym, ◌∙◌, true, false, Bool-cases, inl, inr, none, some,
  Option-cases, List, [], ◌∷◌, nat_eq, ◌==◌, arith, if◌then◌else◌, ℤ, pos, negsuc, length, All,
  nat_beq_iff,
}
use dripsql.Engine.SegCache.{
  SegCacheKey, SegCacheEntry, SegmentCache, remove_elem, mem_key, first_cold, over, drop_entry,
  evict_loop, evict_except,
}

-- Drops the first `n` entries that are not in use.
unfoldable pub trim : ℕ → List SegCacheKey → List SegCacheEntry → List SegCacheEntry
trim zero working es = es
trim (suc n) working [] = []
trim (suc n) working (e ∷ es) =
    if mem_key e.key working then e ∷ trim (suc n) working es else trim n working es

abbrev pub excess : ℕ → ℤ → ℕ
excess n (pos limit) = n - limit
excess n (negsuc limit) = n

-- No two elements of a list are the same element.
abbrev pub IdsDistinct : List SegCacheEntry → Type 0
IdsDistinct [] = Unit
IdsDistinct (e ∷ es) = All (λ (x : SegCacheEntry). (e.id == x.id) ≡ false) es × IdsDistinct es

some-inj {ℓ} : {A : Type ℓ} (a b : A) → some a ≡ some b → a ≡ b
some-inj a b h = cc

module _ (working : List SegCacheKey) where
  trim-busy :
      (n : ℕ) (e : SegCacheEntry) (es : List SegCacheEntry)
      → mem_key e.key working ≡ true
      → trim n working (e ∷ es) ≡ e ∷ trim n working es
  unfolding trim
  trim-busy zero e es h = refl
  trim-busy (suc n) e es h = rw h

  trim-cold :
      (n : ℕ) (e : SegCacheEntry) (es : List SegCacheEntry)
      → mem_key e.key working ≡ false
      → trim (suc n) working (e ∷ es) ≡ trim n working es
  unfolding trim
  trim-cold n e es h = rw h

  trim-none :
      (n : ℕ) (es : List SegCacheEntry) → first_cold working es ≡ none → trim n working es ≡ es
  unfolding trim first_cold
  trim-none zero es h = refl
  trim-none (suc n) [] h = refl
  trim-none (suc n) (e ∷ es) h = ground (arith, trim-none (suc n) es)

  trim-nil : (n : ℕ) → trim n working [] ≡ []
  unfolding trim
  trim-nil zero = refl
  trim-nil (suc n) = refl

  trim-zero : (es : List SegCacheEntry) → trim 0 working es ≡ es
  unfolding trim
  trim-zero es = refl

  first_cold-busy :
      (e : SegCacheEntry) (es : List SegCacheEntry)
      → mem_key e.key working ≡ true
      → first_cold working (e ∷ es) ≡ first_cold working es
  unfolding first_cold
  first_cold-busy e es h = rw h

  first_cold-cold :
      (e : SegCacheEntry) (es : List SegCacheEntry)
      → mem_key e.key working ≡ false
      → first_cold working (e ∷ es) ≡ some e
  unfolding first_cold
  first_cold-cold e es h = rw h

  trim-trim :
      (n : ℕ) (es : List SegCacheEntry)
      → trim n working (trim 1 working es) ≡ trim (suc n) working es
  trim-trim n [] = rw (trim-nil 1, trim-nil n, trim-nil (suc n))
  trim-trim n (e ∷ es) = elim (Bool-cases (mem_key e.key working)) [
    | inl h ↦ rw (
      trim-busy 1 e es h,
      trim-busy n e (trim 1 working es) h,
      trim-busy (suc n) e es h,
      trim-trim n es,
    )
    | inr h ↦ rw (trim-cold 0 e es h, trim-cold n e es h, trim-zero es)
  ]

  length-trim :
      (es : List SegCacheEntry) (x : SegCacheEntry)
      → first_cold working es ≡ some x
      → suc (length (trim 1 working es)) ≡ length es
  unfolding first_cold trim
  length-trim [] x h = cc
  length-trim (e ∷ es) x h = ground (arith, length-trim es x)

  -- What every entry has, the entry found has.
  first_cold-In :
      (P : SegCacheEntry → Type 0) (es : List SegCacheEntry) (x : SegCacheEntry)
      → first_cold working es ≡ some x
      → All P es
      → P x
  unfolding first_cold
  first_cold-In P [] x h all = cc
  first_cold-In P (e ∷ es) x h (p, ps) = elim (Bool-cases (mem_key e.key working)) [
    | inl b ↦ first_cold-In P es x (sym (first_cold-busy e es b) ∙ h) ps
    | inr b ↦ subst P (some-inj e x (sym (first_cold-cold e es b) ∙ h)) p
  ]

  remove_elem-trim :
      (es : List SegCacheEntry) (x : SegCacheEntry)
      → IdsDistinct es
      → first_cold working es ≡ some x
      → remove_elem x.id es ≡ trim 1 working es
  unfolding first_cold remove_elem
  remove_elem-trim [] x d h = cc
  remove_elem-trim (e ∷ es) x (d, ds) h = elim (Bool-cases (mem_key e.key working)) [
    | inl b ↦
        let h' = sym (first_cold-busy e es b) ∙ h in
        rw (
          first_cold-In (λ y. (e.id == y.id) ≡ false) es x h' d,
          trim-busy 1 e es b,
          remove_elem-trim es x ds h',
        )
    | inr b ↦
        let same = ap (λ y. y.id) (some-inj e x (sym (first_cold-cold e es b) ∙ h)) in
        rw (trim-cold 0 e es b, trim-zero es, (nat_beq_iff e.id x.id).1 same)
  ]

  All-remove_elem :
      (P : SegCacheEntry → Type 0) (id : ℕ) (es : List SegCacheEntry)
      → All P es
      → All P (remove_elem id es)
  unfolding remove_elem
  All-remove_elem P id [] h = tt
  All-remove_elem P id (e ∷ es) (p, ps) = elim (Bool-cases (e.id == id)) [
    | inl b ↦ rw b ps
    | inr b ↦ rw b (p, All-remove_elem P id es ps)
  ]

  remove_elem-IdsDistinct :
      (id : ℕ) (es : List SegCacheEntry) → IdsDistinct es → IdsDistinct (remove_elem id es)
  unfolding remove_elem
  remove_elem-IdsDistinct id [] h = tt
  remove_elem-IdsDistinct id (e ∷ es) (d, ds) = elim (Bool-cases (e.id == id)) [
    | inl b ↦ rw b ds
    | inr b ↦
        rw b
          (All-remove_elem (λ y. (e.id == y.id) ≡ false) id es d, remove_elem-IdsDistinct id es ds)
  ]

  over-true :
      (n : ℕ) (limit : ℤ) → over (suc n) limit ≡ true → excess (suc n) limit ≡ suc (excess n limit)
  over-true n (pos l) h = ground arith
  over-true n (negsuc l) h = refl

  over-false : (n : ℕ) (limit : ℤ) → over n limit ≡ false → excess n limit ≡ 0
  over-false n (pos l) h = ground arith
  over-false n (negsuc l) h = cc

  trim-empty : (n : ℕ) (es : List SegCacheEntry) → length es ≤ 0 → es ≡ trim n working es
  trim-empty n [] h = sym (trim-nil n)
  trim-empty n (e ∷ es) h = absurd (omega arith)

  -- One turn of the loop drops what the pass drops first.
  turn :
      (limit : ℤ) (lru : List SegCacheEntry) (x : SegCacheEntry)
      → IdsDistinct lru
      → first_cold working lru ≡ some x
      → over (length lru) limit ≡ true
      → trim (excess (length (remove_elem x.id lru)) limit) working (remove_elem x.id lru)
        ≡ trim (excess (length lru) limit) working lru
  turn limit lru x d found full =
      let shorter = length-trim lru x found in
      let m = length (trim 1 working lru) in
      let full' : over (suc m) limit ≡ true = ap (λ k. over k limit) shorter ∙ full in
      ap (λ es. trim (excess (length es) limit) working es) (remove_elem-trim lru x d found)
      ∙ trim-trim (excess m limit) lru
      ∙ ap (λ k. trim k working lru)
          (sym (over-true m limit full') ∙ ap (λ k. excess k limit) shorter)

  evict_loop-trim :
      (fuel : ℕ) (limit : ℤ) (c : SegmentCache)
      → length c.lru ≤ fuel
      → IdsDistinct c.lru
      → (evict_loop fuel limit working c).lru ≡ trim (excess (length c.lru) limit) working c.lru
  unfolding evict_loop drop_entry
  evict_loop-trim zero limit c enough d = trim-empty (excess (length c.lru) limit) c.lru enough
  evict_loop-trim (suc fuel) limit c enough d = elim (Bool-cases (over (length c.lru) limit)) [
    | inr fits ↦ rw (fits, over-false (length c.lru) limit fits) (sym (trim-zero c.lru))
    | inl full ↦ elim (Option-cases (first_cold working c.lru)) [
      | inl none_cold ↦
          rw (full, none_cold) (sym (trim-none (excess (length c.lru) limit) c.lru none_cold))
      | inr (x, found) ↦
          let fewer : length (remove_elem x.id c.lru) ≤ fuel =
            omega
              (arith, length-trim c.lru x found, ap length (remove_elem-trim c.lru x d found)) in
          rw (full, found)
            (evict_loop-trim fuel limit (drop_entry x c) fewer
                (remove_elem-IdsDistinct x.id c.lru d)
              ∙ turn limit c.lru x d found full)
    ]
  ]

-- On a list whose elements are different, eviction leaves the list as one pass over it would, from
-- the cold end, that drops as many entries as there are above the limit and keeps those that the
-- working set uses.
pub evict_except-trim :
    (limit : ℤ) (working : List SegCacheKey) (c : SegmentCache)
    → IdsDistinct c.lru
    → (evict_except limit working c).lru ≡ trim (excess (length c.lru) limit) working c.lru
unfolding evict_except
evict_except-trim limit working c d = evict_loop-trim working (length c.lru) limit c (omega arith) d
