-- ===== src/Exec/Window.antt =====
-- internal/vector/selection.go, Limit and SetRange: the rows that a limited mask selects.
use dripsql.Base.{
  ℕ, zero, suc, ◌+◌, ◌-◌, ◌≤◌, ◌≡◌, refl, sym, ap, ◌∙◌, arith, ltb, leb, Bool, true, false, Option,
  none, some, List, [], ◌∷◌, ◌++◌, length, take, drop, replicate, Bool-cases, inl, inr,
}
use dripsql.Vector.Selection.{Counts, limit_loop, limit_row, is_full}
use dripsql.Vector.Ranges.{set_bits}

-- What is left of a limit.
unfoldable pub rest_of : Option ℕ → ℕ → Option ℕ
rest_of none sent = none
rest_of (some n) sent = some (n - sent)

abbrev pub counts : ℕ → ℕ → ℕ → Counts
counts k n m = record { skip = k; seen = n; sent = m }

module _ {ℓ} {A : Type ℓ} where
  -- The rows that a mask selects.
  abbrev pub select : List Bool → List A → List A
  select [] rows = []
  select (b ∷ bs) [] = []
  select (false ∷ bs) (r ∷ rows) = select bs rows
  select (true ∷ bs) (r ∷ rows) = r ∷ select bs rows

  -- At most that many rows.
  abbrev pub cut : Option ℕ → List A → List A
  cut none xs = xs
  cut (some n) xs = take n xs

  cut_full : (n sent : ℕ) (xs : List A) → leb n sent ≡ true → cut (rest_of (some n) sent) xs ≡ []
  unfolding rest_of
  cut_full n sent xs h = let e : n - sent ≡ 0 = ground arith in rw e refl

  pub limit_loop-window :
      (bits : List Bool) (rows tail : List A) (n : Option ℕ) (skip seen sent : ℕ)
      → length bits ≡ length rows
      → cut (rest_of n sent) (drop skip (select bits rows ++ tail))
        ≡ select (limit_loop n bits (counts skip seen sent)).0 rows
          ++ cut
              (rest_of n (limit_loop n bits (counts skip seen sent)).1.sent)
              (drop (limit_loop n bits (counts skip seen sent)).1.skip tail)
  unfolding limit_loop limit_row is_full rest_of
  limit_loop-window [] rows tail n skip seen sent h = refl
  limit_loop-window (b ∷ bs) [] tail n skip seen sent h = absurd (omega arith)
  limit_loop-window (false ∷ bs) (r ∷ rows) tail n skip seen sent h =
      limit_loop-window bs rows tail n skip seen sent (omega arith)
  limit_loop-window (true ∷ bs) (r ∷ rows) tail n (suc k) seen sent h =
      let test : ltb 0 (suc k) ≡ true = ground arith in
      let less : suc k - 1 ≡ k = omega arith in
      rw (test, less) (limit_loop-window bs rows tail n k (suc seen) sent (omega arith))
  limit_loop-window (true ∷ bs) (r ∷ rows) tail none zero seen sent h =
      (ap (λ l. r ∷ l) (limit_loop-window bs rows tail none 0 (suc seen) (suc sent) (omega arith)))
  limit_loop-window (true ∷ bs) (r ∷ rows) tail (some n) zero seen sent h =
      elim (Bool-cases (leb n sent)) [
        | inl e ↦
            rw
              (
                e,
                cut_full n sent (r ∷ (select bs rows ++ tail)) e,
                sym (limit_loop-window bs rows tail (some n) 0 seen sent (omega arith)),
                cut_full n sent (select bs rows ++ tail) e,
              )
              refl
        | inr e ↦
            let m : n - sent ≡ suc (n - suc sent) = ground arith in
            rw (e, m)
              (ap (λ l. r ∷ l)
                (limit_loop-window bs rows tail (some n) 0 (suc seen) (suc sent) (omega arith)))
      ]

  -- The counts of the loop.
  pub limit_loop-counts :
      (bits : List Bool) (rows : List A) (n : Option ℕ) (limit skip seen sent : ℕ)
      → length bits ≡ length rows
      → skip ≡ limit - seen
      → ((limit_loop n bits (counts skip seen sent)).1.skip
          ≡ limit - (limit_loop n bits (counts skip seen sent)).1.seen)
        × ((limit_loop n bits (counts skip seen sent)).1.sent
            ≡ sent + length (select (limit_loop n bits (counts skip seen sent)).0 rows))
        × (length (limit_loop n bits (counts skip seen sent)).0 ≡ length rows)
  unfolding limit_loop limit_row
  limit_loop-counts [] [] n limit skip seen sent h e = (e, omega arith, refl)
  limit_loop-counts [] (r ∷ rows) n limit skip seen sent h e = absurd (omega arith)
  limit_loop-counts (b ∷ bs) [] n limit skip seen sent h e = absurd (omega arith)
  limit_loop-counts (false ∷ bs) (r ∷ rows) n limit skip seen sent h e =
      let ih = limit_loop-counts bs rows n limit skip seen sent (omega arith) e in
      (ih.0, ih.1, ap suc ih.2)
  limit_loop-counts (true ∷ bs) (r ∷ rows) n limit (suc k) seen sent h e =
      let test : ltb 0 (suc k) ≡ true = ground arith in
      let less : suc k - 1 ≡ k = omega arith in
      let ih = limit_loop-counts bs rows n limit k (suc seen) sent (omega arith) (omega arith) in
      rw (test, less) (ih.0, ih.1, ap suc ih.2)
  limit_loop-counts (true ∷ bs) (r ∷ rows) n limit zero seen sent h e =
      elim (Bool-cases (is_full n sent)) [
        | inl full ↦
            let ih = limit_loop-counts bs rows n limit 0 seen sent (omega arith) e in
            rw full (ih.0, ih.1, ap suc ih.2)
        | inr room ↦
            let ih =
              limit_loop-counts bs rows n limit 0 (suc seen) (suc sent) (omega arith)
                (omega arith) in
            rw room (ih.0, omega (arith, ih.1), ap suc ih.2)
      ]

  select_none : (n : ℕ) (rows : List A) → select (replicate n false) rows ≡ []
  select_none zero rows = refl
  select_none (suc n) [] = refl
  select_none (suc n) (r ∷ rows) = select_none n rows

  select_short : (bs : List Bool) → select bs [] ≡ []
  select_short [] = refl
  select_short (b ∷ bs) = refl

  nothing_there : (start count : ℕ) → ◌≡◌ {A = List A} (take count (drop start [])) []
  nothing_there zero zero = refl
  nothing_there zero (suc count) = refl
  nothing_there (suc start) zero = refl
  nothing_there (suc start) (suc count) = refl

  -- A range of bits, of which there are enough, selects its rows.
  pub select-set_bits :
      (start count n : ℕ) (rows : List A)
      → length rows ≤ n
      → select (set_bits start count (replicate n false)) rows ≡ take count (drop start rows)
  unfolding set_bits
  select-set_bits start count n [] h =
      select_short (set_bits start count (replicate n false)) ∙ sym (nothing_there start count)
  select-set_bits start count zero (r ∷ rows) h = absurd (omega arith)
  select-set_bits zero zero (suc n) (r ∷ rows) h = select_none n rows
  select-set_bits zero (suc count) (suc n) (r ∷ rows) h =
      ap (λ l. r ∷ l) (select-set_bits 0 count n rows (omega arith))
  select-set_bits (suc start) count (suc n) (r ∷ rows) h =
      select-set_bits start count n rows (omega arith)

  -- Only the rows' own bits count.
  pub select-take :
      (bs : List Bool) (rows : List A) → select (take (length rows) bs) rows ≡ select bs rows
  select-take [] [] = refl
  select-take [] (r ∷ rows) = refl
  select-take (b ∷ bs) [] = refl
  select-take (false ∷ bs) (r ∷ rows) = select-take bs rows
  select-take (true ∷ bs) (r ∷ rows) = ap (λ l. r ∷ l) (select-take bs rows)

  -- Bits beyond the rows select nothing.
  pub select-append :
      (bs more : List Bool) (rows : List A)
      → length bs ≡ length rows
      → select (bs ++ more) rows ≡ select bs rows
  select-append [] more [] h = select_short more
  select-append [] more (r ∷ rows) h = absurd (omega arith)
  select-append (b ∷ bs) more [] h = absurd (omega arith)
  select-append (false ∷ bs) more (r ∷ rows) h = select-append bs more rows (omega arith)
  select-append (true ∷ bs) more (r ∷ rows) h =
      ap (λ l. r ∷ l) (select-append bs more rows (omega arith))
