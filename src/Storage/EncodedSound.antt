-- ===== src/Storage/EncodedSound.antt =====
-- internal/storage/predicate.go: comparing the packed distances of a page selects the rows that
-- comparing its numbers selects.
use dripsql.Base.{
  ℕ, nat_beq, ltb, leb, ◌^◌, ◌≤◌, ◌≡◌, ap, ◌∙◌, sym, arith, Bool, true, false, ◌&&◌, ◌||◌, Option,
  some, List, ◌∷◌, ◌++◌, map, length, replicate, get_or, All, Bool-cases, inl, inr, leb→le, ltb→lt,
  take-append, length-append,
}
use dripsql.Base.Bytes.{le_bytes, length-le_bytes, from_le-le_bytes}
use dripsql.Base.Int64.{sub64}
use dripsql.Codec.Bitpack.{unpack}
use dripsql.Codec.ForTrip.{get_or-seam, drop-seam}
use dripsql.Storage.EncodedFor.{
  Comparison, equal, less, greater, Evaluation, selected, negative64, max_residual, apply_validity,
  unpacked, for_mask, eval_encoded_for,
}
use dripsql.Storage.EncodedRows.{
  compares, InReach, Apart, and-parts, All-weaken, map-constant, map-through, validity-none,
  below_equal, below_less, below_greater, beyond_equal, beyond_less, beyond_greater, same_equal,
  same_less, same_greater, none_below,
}

module _ (base width v : ℕ) (w : width ≤ 63) (a : Apart base v) (packed xs : List ℕ)
    (valid : Option (List Bool))
    (u : unpack width packed (length xs) ≡ some (map (λ x. sub64 x base) xs))
    (reach : All (InReach base width) xs) where
  wanted : Comparison → Evaluation
  wanted op = selected (apply_validity valid (map (compares op v) xs))

  all_out :
      (op : Comparison)
      → ((x : ℕ) → InReach base width x → compares op v x ≡ false)
      → selected (replicate (length xs) false) ≡ wanted op
  unfolding wanted
  all_out op f = sym (
      ap selected (
        ap (apply_validity valid) (map-constant (compares op v) false xs (All-weaken xs f reach))
        ∙ validity-none valid (length xs)))

  all_in :
      (op : Comparison)
      → ((x : ℕ) → InReach base width x → compares op v x ≡ true)
      → selected (apply_validity valid (replicate (length xs) true)) ≡ wanted op
  unfolding wanted
  all_in op f = sym (
      ap (λ m. selected (apply_validity valid m))
        (map-constant (compares op v) true xs (All-weaken xs f reach)))

  by_rows :
      (op : Comparison) (test : ℕ → Bool)
      → ((x : ℕ) → InReach base width x → test (sub64 x base) ≡ compares op v x)
      → unpacked (unpack width packed (length xs)) test valid ≡ wanted op
  unfolding unpacked wanted
  by_rows op test f = rw u (
      ap (λ m. selected (apply_validity valid m))
        (map-through test (λ x. sub64 x base) (compares op v) xs (All-weaken xs f reach)))

  for_mask-compares :
      (op : Comparison) → for_mask op (sub64 v base) width packed (length xs) valid ≡ wanted op
  unfolding for_mask compares
  for_mask-compares op = elim (Bool-cases (negative64 (sub64 v base))) [
    | inl n ↦ below op n
    | inr n ↦ from op n
  ]
    where
      below :
          (op : Comparison)
          → negative64 (sub64 v base) ≡ true
          → for_mask op (sub64 v base) width packed (length xs) valid ≡ wanted op
      below equal n = rw n (all_out equal (λ x h. below_equal base width v w a x h n))
      below less n = rw n (all_out less (λ x h. below_less base width v w a x h n))
      below greater n = rw n (all_in greater (λ x h. below_greater base width v w a x h n))

      from :
          (op : Comparison)
          → negative64 (sub64 v base) ≡ false
          → for_mask op (sub64 v base) width packed (length xs) valid ≡ wanted op
      from equal n = elim (Bool-cases (ltb width 64 && leb (2 ^ width) (sub64 v base))) [
        | inl f ↦
            rw (n, f)
              (all_out equal
                (λ x h. beyond_equal base width v w a x h n (leb→le _ _ (and-parts _ _ f).1)))
        | inr f ↦ rw (n, f) (by_rows equal _ (λ x h. same_equal base width v w a x h n))
      ]
      from less n = elim (Bool-cases (nat_beq (sub64 v base) 0)) [
        | inl z ↦
            rw (n, z)
              (all_out less
                (λ x h. sym (same_less base width v w a x h n) ∙ none_below base width v w a x z))
        | inr z ↦ elim (Bool-cases (ltb (max_residual width) (sub64 v base))) [
          | inl f ↦
              rw (n, z, f) (all_in less (λ x h. beyond_less base width v w a x h n (ltb→lt _ _ f)))
          | inr f ↦ rw (n, z, f) (by_rows less _ (λ x h. same_less base width v w a x h n))
        ]
      ]
      from greater n = elim (Bool-cases (leb (max_residual width) (sub64 v base))) [
        | inl f ↦
            rw (n, f)
              (all_out greater (λ x h. beyond_greater base width v w a x h n (leb→le _ _ f)))
        | inr f ↦ rw (n, f) (by_rows greater _ (λ x h. same_greater base width v w a x h n))
      ]

-- On a page in frame of reference, evaluating a comparison on the packed distances selects the valid
-- rows whose numbers pass it: on the branches that answer at once and on the one that unpacks. The
-- width is below 64, the base is the smallest number of the page, the distances fit the width, and the
-- distance of the value compared with and the base is an int64.
pub eval_encoded_for-compares :
    (op : Comparison) (base width v : ℕ) (packed xs : List ℕ) (valid : Option (List Bool))
    → 1 ≤ width
    → width ≤ 63
    → Apart base v
    → All (InReach base width) xs
    → unpack width packed (length xs) ≡ some (map (λ x. sub64 x base) xs)
    → eval_encoded_for op v (le_bytes 8 base ++ width ∷ packed) (length xs) valid
      ≡ selected (apply_validity valid (map (compares op v) xs))
unfolding eval_encoded_for wanted
eval_encoded_for-compares op base width v packed xs valid w1 w63 a reach u =
    let head = length-le_bytes 8 base in
    let long : ltb (length (le_bytes 8 base ++ width ∷ packed)) 9 ≡ false =
      ground (arith, length-append (le_bytes 8 base) (width ∷ packed), head) in
    let here : get_or (le_bytes 8 base ++ width ∷ packed) 8 0 ≡ width =
      get_or-seam 8 (le_bytes 8 base) packed width head in
    let wide : (ltb width 1 || ltb 64 width) ≡ false = ground arith in
    rw
      (
        long,
        here,
        wide,
        drop-seam 8 (le_bytes 8 base) packed width head,
        take-append 8 (le_bytes 8 base) (width ∷ packed) head,
        from_le-le_bytes 8 base a.base_u64,
      )
      (for_mask-compares base width v w63 a packed xs valid u reach op)
