-- ===== src/Exec/Batches.antt =====
-- internal/exec/limit.go: what one batch adds to the rows that the operator has given.
use dripsql.Base.{
  ℕ, zero, suc, ◌+◌, ◌-◌, ◌*◌, ◌<◌, ◌≤◌, ◌≡◌, refl, sym, ap, arith, min, ltb, leb, true, false,
  Option, none, some, List, [], ◌∷◌, ◌++◌, length, take, drop, replicate, nat_beq, nat_beq_iff,
  Bool-cases, inl, inr, length-take, length-drop, drop-append-add, take-all, ◌∙◌,
}
use dripsql.Vector.Selection.{
  SelectionMask, limit_loop, set_range, new_selection_range, new_selection_mask, validity_words,
  limit,
}
use dripsql.Vector.Ranges.{set_bits, set_words-set_bits}
use dripsql.Exec.Limit.{
  Batch, LimitOp, Turn, emit, pass, bad_selection, limit_all_rows, limit_selected_rows, limit_batch,
  set_sel, pass_or, bad_or, passed, left_to_send, left_of, at_most, limit_done, is_done,
}
use dripsql.Exec.Window.{
  select, cut, rest_of, limit_loop-window, limit_loop-counts, select-set_bits, select-take,
  select-append, counts,
}

at_most_left :
    (n : Option ℕ) (sent room : ℕ)
    → is_done n sent ≡ false
    → 0 < room
    → (0 < at_most (left_of n sent) room) × (at_most (left_of n sent) room ≤ room)
unfolding at_most left_of is_done
at_most_left none sent room live h = (h, omega arith)
at_most_left (some n) sent room live h =
    let test : ltb 0 n ≡ true = ground arith in rw test (ground arith, ground arith)

rest_left :
    (n : Option ℕ) (sent more : ℕ)
    → is_done n sent ≡ false
    → rest_of (left_of n sent) more ≡ rest_of n (sent + more)
unfolding rest_of left_of is_done
rest_left none sent more live = refl
rest_left (some n) sent more live =
    let test : ltb 0 n ≡ true = ground arith in rw test (ap some (omega arith))

range_bits :
    (rows k count : ℕ)
    → 0 < count
    → k + count ≤ rows
    → (new_selection_range rows k (k + count)).bits
      ≡ set_bits k count (replicate (64 * validity_words rows) false)
unfolding new_selection_range set_range new_selection_mask
range_bits rows k count some_left h =
    let e : ltb rows (k + count) ≡ false = ground arith in
    let e' : leb (k + count) k ≡ false = ground arith in
    rw (e, e') (set_words-set_bits k count (replicate (64 * validity_words rows) false) some_left)

range_rows : (rows k end : ℕ) → (new_selection_range rows k end).rows ≡ rows
unfolding new_selection_range set_range new_selection_mask
range_rows rows k end = ground arith

enough_words : (rows : ℕ) → rows ≤ 64 * validity_words rows
unfolding validity_words
enough_words rows = omega arith

module _ {A : Type 0} where
  unfoldable pub visible_rows : Option SelectionMask → List A → List A
  visible_rows none rows = rows
  visible_rows (some mask) rows = select mask.bits rows

  abbrev pub visible : Batch A → List A
  visible b = visible_rows b.sel b.rows

  -- LIMIT and OFFSET of all rows, from where the operator stands.
  unfoldable pub window : LimitOp → List A → List A
  window l xs = cut (rest_of l.n l.sent) (drop (l.offset - l.seen) xs)

  -- What a turn gives before the rest of the source.
  unfoldable pub Gives : List A → List A → Turn A → Type 0
  Gives given tail (emit out l) = given ≡ visible out ++ window l tail
  Gives given tail (pass l) = given ≡ window l tail
  Gives given tail bad_selection = ⊥

  drop_past :
      (k : ℕ) (xs tail : List A) → length xs ≤ k → drop k (xs ++ tail) ≡ drop (k - length xs) tail
  drop_past k xs tail h =
      let e : k ≡ length xs + (k - length xs) = omega arith in
      ap (λ m. drop m (xs ++ tail)) e ∙ drop-append-add (length xs) (k - length xs) xs tail refl

  drop_within : (k : ℕ) (xs tail : List A) → k ≤ length xs → drop k (xs ++ tail) ≡ drop k xs ++ tail
  drop_within zero xs tail h = refl
  drop_within (suc k) [] tail h = absurd (omega arith)
  drop_within (suc k) (x ∷ xs) tail h = drop_within k xs tail (omega arith)

  take_across :
      (n : ℕ) (xs tail : List A)
      → take n (xs ++ tail) ≡ take (min (length xs) n) xs ++ take (n - min (length xs) n) tail
  take_across n [] tail =
      let m : min 0 n ≡ 0 = omega arith in let z : n - 0 ≡ n = omega arith in rw (m, z) refl
  take_across zero (x ∷ xs) tail = let m : min (suc (length xs)) 0 ≡ 0 = omega arith in rw m refl
  take_across (suc n) (x ∷ xs) tail =
      let m : min (suc (length xs)) (suc n) ≡ suc (min (length xs) n) = omega arith in
      let d : suc n - suc (min (length xs) n) ≡ n - min (length xs) n = omega arith in
      rw (m, d) (ap (λ l. x ∷ l) (take_across n xs tail))

  -- The rows of a batch that are all selected.
  cut_all :
      (n : Option ℕ) (sent k : ℕ) (rows tail : List A)
      → is_done n sent ≡ false
      → k < length rows
      → cut (rest_of n sent) (drop k (rows ++ tail))
        ≡ take (at_most (left_of n sent) (length rows - k)) (drop k rows)
          ++ cut (rest_of n (sent + at_most (left_of n sent) (length rows - k))) tail
  unfolding rest_of at_most left_of is_done
  cut_all none sent k rows tail live h =
      rw
        (
          drop_within k rows tail (omega arith),
          take-all (length rows - k) (drop k rows) (omega (arith, length-drop k rows)),
        )
        refl
  cut_all (some n) sent k rows tail live h =
      let test : ltb 0 n ≡ true = ground arith in
      let t = min (length rows - k) (n - sent) in
      let e : n - sent - t ≡ n - (sent + t) = omega arith in
      rw (test, drop_within k rows tail (omega arith))
        (take_across (n - sent) (drop k rows) tail ∙ rw (length-drop k rows, e) refl)

  all_rows-Gives :
      (l : LimitOp) (rows tail : List A) (sel : Option SelectionMask)
      → limit_done l ≡ false
      → Gives (window l (rows ++ tail)) tail (limit_all_rows l record { rows = rows; sel = sel })
  unfolding Gives window limit_all_rows passed limit_done set_sel visible_rows new_selection_range
      set_range new_selection_mask pass_or left_to_send
  all_rows-Gives l rows tail sel live =
      let k = l.offset - l.seen in
      let take = at_most (left_to_send l) (length rows - k) in
      elim (Bool-cases (leb (length rows) k)) [
        | inl e ↦
            let less : l.offset - (l.seen + length rows) ≡ k - length rows = omega arith in
            let sent : l.sent + 0 ≡ l.sent = omega arith in
            rw e (
              rw (less, sent)
                (ap (cut (rest_of l.n l.sent)) (drop_past k rows tail (ground arith))))
        | inr e ↦
            let room : 0 < length rows - k = ground arith in
            let bound = at_most_left l.n l.sent (length rows - k) live room in
            let some_left : nat_beq take 0 ≡ false = ground (arith, bound) in
            let bits = range_bits (length rows) k take bound.0 (omega (arith, bound.1)) in
            let mask = new_selection_range (length rows) k (k + take) in
            let fits : nat_beq mask.rows (length rows) ≡ true =
              (nat_beq_iff mask.rows (length rows)).1 (range_rows (length rows) k (k + take)) in
            let words = 64 * validity_words (length rows) in
            let past : l.offset - (l.seen + (k + take)) ≡ 0 = omega arith in
            rw (e, some_left, fits)
              (rw (bits, select-set_bits k take words rows (enough_words (length rows)), past)
                (cut_all l.n l.sent k rows tail live (ground arith)))
      ]

  length_none : (xs : List A) → length xs ≡ 0 → xs ≡ []
  length_none [] h = refl
  length_none (x ∷ xs) h = absurd (omega arith)

  selected_rows-Gives :
      (l : LimitOp) (mask : SelectionMask) (rows tail : List A) (sel : Option SelectionMask)
      → limit_done l ≡ false
      → mask.rows ≡ length rows
      → length rows ≤ length mask.bits
      → Gives
          (window l (select mask.bits rows ++ tail))
          tail
          (limit_selected_rows l mask record { rows = rows; sel = sel })
  unfolding Gives window limit_selected_rows passed limit_done set_sel visible_rows left_to_send
      bad_or limit
  selected_rows-Gives l mask rows tail sel live same enough =
      let k = l.offset - l.seen in
      let bs = take mask.rows mask.bits in
      let h : length bs ≡ length rows =
        omega (arith, length-take mask.rows mask.bits, same, enough) in
      let own : select bs rows ≡ select mask.bits rows =
        ap (λ n. select (take n mask.bits) rows) same ∙ select-take mask.bits rows in
      let r = limit_loop (left_to_send l) bs (counts k 0 0) in
      let emitted = limit_loop-window bs rows tail (left_to_send l) k 0 0 h in
      let kept = limit_loop-counts bs rows (left_to_send l) k k 0 0 h (omega arith) in
      let fits : nat_beq (length rows) (length rows) ≡ true =
        (nat_beq_iff (length rows) (length rows)).1 refl in
      let padding = drop (length r.0) (new_selection_mask (length rows)).bits in
      let padded = select-append r.0 padding rows kept.2 in
      let past : l.offset - (l.seen + r.1.seen) ≡ r.1.skip = omega (arith, kept.0) in
      let more = rest_left l.n l.sent r.1.sent live in
      let whole : rest_of (left_to_send l) 0 ≡ rest_of l.n l.sent =
        rest_left l.n l.sent 0 live ∙ ap (rest_of l.n) (omega arith) in
      let all = ap (λ o. cut o (drop k (select bs rows ++ tail))) (sym whole) ∙ emitted in
      let given = ap (λ xs. cut (rest_of l.n l.sent) (drop k (xs ++ tail))) (sym own) in
      let shown = given ∙ all ∙ ap (λ o. select r.0 rows ++ cut o (drop r.1.skip tail)) more in
      elim (Bool-cases (nat_beq r.1.sent 0)) [
        | inl e ↦
            let silent = length_none (select r.0 rows) (ground (arith, kept.1)) in
            rw (e, past)
              (shown
                ∙ ap (λ xs. xs ++ cut (rest_of l.n (l.sent + r.1.sent)) (drop r.1.skip tail))
                    silent)
        | inr e ↦ rw (e, fits, past, padded) shown
      ]

  -- The mask is of the batch's rows, has a bit for each, and says truly that it has all of them.
  unfoldable pub IsSelection : Option SelectionMask → List A → Type 0
  IsSelection none rows = Unit
  IsSelection (some mask) rows =
      (mask.rows ≡ length rows)
      × (length rows ≤ length mask.bits)
      × (mask.all_set ≡ true → select mask.bits rows ≡ rows)

  abbrev pub IsBatch : Batch A → Type 0
  IsBatch b = IsSelection b.sel b.rows

  batch-Gives :
      (l : LimitOp) (sel s : Option SelectionMask) (rows tail : List A)
      → limit_done l ≡ false
      → IsSelection sel rows
      → Gives
          (window l (visible_rows sel rows ++ tail))
          tail
          (limit_batch l sel record { rows = rows; sel = s })
  unfolding IsSelection visible_rows limit_batch limit_selected_rows limit
  batch-Gives l none s rows tail live h = all_rows-Gives l rows tail s live
  batch-Gives l (some mask) s rows tail live h = elim (Bool-cases mask.all_set) [
    | inl e ↦ rw (e, h.2 e) (all_rows-Gives l rows tail s live)
    | inr e ↦ rw e (selected_rows-Gives l mask rows tail s live h.0 h.1)
  ]

  pub limit_batch-Gives :
      (l : LimitOp) (b : Batch A) (tail : List A)
      → limit_done l ≡ false
      → IsBatch b
      → Gives (window l (visible b ++ tail)) tail (limit_batch l b.sel b)
  limit_batch-Gives l b tail live h = batch-Gives l b.sel b.sel b.rows tail live h
