-- ===== src/Exec/Drained.antt =====
-- internal/exec/limit.go: the batches that Next gives until it is exhausted.
use mathlib.Core.Option as Options
use mathlib.Core.Option.{some-injective}
use dripsql.Base.{
  ℕ, zero, suc, ◌-◌, ◌<◌, ◌≤◌, ◌≡◌, refl, ap, arith, Bool, true, false, Option, none, some, List,
  [], ◌∷◌, ◌++◌, length, drop, nat_beq, nat_beq_iff, Bool-cases, inl, inr, ◌∙◌, All,
}
use dripsql.Vector.Selection.{SelectionMask}
use dripsql.Exec.Limit.{
  Batch, LimitOp, Turn, emit, pass, bad_selection, Answer, answered, exhausted, failed, after_turn,
  next_loop, next_batch, limit_batch, limit_done, is_done,
}
use dripsql.Exec.Window.{select, cut, rest_of}
use dripsql.Exec.Batches.{visible, visible_rows, window, Gives, IsBatch, limit_batch-Gives}

module _ {A : Type 0} where
  -- All visible rows.
  unfoldable pub all_visible : List (Batch A) → List A
  all_visible [] = []
  all_visible (b ∷ bs) = visible b ++ all_visible bs

  abbrev pub prepend : Batch A → Option (List (Batch A)) → Option (List (Batch A))
  prepend b none = none
  prepend b (some bs) = some (b ∷ bs)

  unfoldable pub collect :
      Answer A → (LimitOp → List (Batch A) → Option (List (Batch A))) → Option (List (Batch A))
  collect (answered out l bs) more = prepend out (more l bs)
  collect exhausted more = some []
  collect failed more = none

  -- Next until it is exhausted, so many times at most; none where it fails or there is no end.
  unfoldable pub drain : ℕ → LimitOp → List (Batch A) → Option (List (Batch A))
  drain zero l bs = none
  drain (suc n) l bs = collect (next_batch l bs) (λ l'. λ bs'. drain n l' bs')

  -- What Next answers, with the rows that were left and a bound on the batches after it.
  unfoldable Delivers : List A → ℕ → Answer A → Type 0
  Delivers given bound (answered out l bs) =
      (given ≡ visible out ++ window l (all_visible bs)) × (length bs < bound) × All IsBatch bs
  Delivers given bound exhausted = given ≡ []
  Delivers given bound failed = ⊥

  drop_nil : (n : ℕ) → drop {A = A} n [] ≡ []
  drop_nil zero = refl
  drop_nil (suc n) = refl

  cut_nil : (n : Option ℕ) → cut {A = A} n [] ≡ []
  cut_nil none = refl
  cut_nil (some zero) = refl
  cut_nil (some (suc n)) = refl

  window_nil : (l : LimitOp) → window {A = A} l [] ≡ []
  unfolding window
  window_nil l =
      ap (cut (rest_of l.n l.sent)) (drop_nil (l.offset - l.seen)) ∙ cut_nil (rest_of l.n l.sent)

  cut_done :
      (n : Option ℕ) (sent : ℕ) (xs : List A) → is_done n sent ≡ true → cut (rest_of n sent) xs ≡ []
  unfolding rest_of is_done
  cut_done none sent xs h = absurd (ground (arith, h))
  cut_done (some n) sent xs h = let e : n - sent ≡ 0 = ground (arith, h) in rw e refl

  window_done : (l : LimitOp) (xs : List A) → limit_done l ≡ true → window l xs ≡ []
  unfolding window limit_done
  window_done l xs h = cut_done l.n l.sent (drop (l.offset - l.seen) xs) h

  Delivers-weaken :
      (given : List A) (m n : ℕ) (a : Answer A) → m ≤ n → Delivers given m a → Delivers given n a
  unfolding Delivers
  Delivers-weaken given m n (answered out l bs) h d = (d.0, omega (arith, d.1), d.2)
  Delivers-weaken given m n exhausted h d = d
  Delivers-weaken given m n failed h d = d

  select_empty : (bs : List Bool) → select {A = A} bs [] ≡ []
  select_empty [] = refl
  select_empty (b ∷ bs) = refl

  visible_empty :
      (sel : Option SelectionMask) (rows : List A) → length rows ≡ 0 → visible_rows sel rows ≡ []
  unfolding visible_rows
  visible_empty none [] h = refl
  visible_empty (some mask) [] h = select_empty mask.bits
  visible_empty sel (r ∷ rows) h = absurd (omega arith)

  no_rows : (b : Batch A) → length b.rows ≡ 0 → visible b ≡ []
  no_rows b h = visible_empty b.sel b.rows h

  after_turn-Delivers :
      (given : List A) (t : Turn A) (bs : List (Batch A)) (loop : LimitOp → Answer A)
      → All IsBatch bs
      → Gives given (all_visible bs) t
      → ((l : LimitOp)
          → limit_done l ≡ false
          → Delivers (window l (all_visible bs)) (length bs) (loop l))
      → Delivers given (suc (length bs)) (after_turn t bs loop)
  unfolding Gives after_turn Delivers
  after_turn-Delivers given (emit out l) bs loop ok g more = (g, omega arith, ok)
  after_turn-Delivers given (pass l) bs loop ok g more = elim (Bool-cases (limit_done l)) [
    | inl e ↦ rw e (g ∙ window_done l (all_visible bs) e)
    | inr e ↦
        rw (e, g)
          (Delivers-weaken (window l (all_visible bs)) (length bs) (suc (length bs)) (loop l)
            (omega arith) (more l e))
  ]
  after_turn-Delivers given bad_selection bs loop ok g more = absurd g

  next_loop-Delivers :
      (l : LimitOp) (bs : List (Batch A))
      → limit_done l ≡ false
      → All IsBatch bs
      → Delivers (window l (all_visible bs)) (length bs) (next_loop l bs)
  unfolding Delivers next_loop all_visible
  next_loop-Delivers l [] live ok = window_nil l
  next_loop-Delivers l (b ∷ bs) live (h, ok) = elim (Bool-cases (nat_beq (length b.rows) 0)) [
    | inl e ↦
        rw (e, no_rows b ((nat_beq_iff (length b.rows) 0).0 e))
          (Delivers-weaken (window l (all_visible bs)) (length bs) (suc (length bs))
            (next_loop l bs) (omega arith) (next_loop-Delivers l bs live ok))
    | inr e ↦ rw e (
        after_turn-Delivers (window l (visible b ++ all_visible bs)) (limit_batch l b.sel b) bs
          (λ l'. next_loop l' bs) ok (limit_batch-Gives l b (all_visible bs) live h)
          (λ l'. λ live'. next_loop-Delivers l' bs live' ok))
  ]

  next_batch-Delivers :
      (l : LimitOp) (bs : List (Batch A))
      → All IsBatch bs
      → Delivers (window l (all_visible bs)) (length bs) (next_batch l bs)
  unfolding Delivers next_batch
  next_batch-Delivers l bs ok = elim (Bool-cases (limit_done l)) [
    | inl e ↦ rw e (window_done l (all_visible bs) e)
    | inr e ↦ rw e (next_loop-Delivers l bs e ok)
  ]

  rows_prepend :
      (b : Batch A) (outs : Option (List (Batch A))) (xs : List A)
      → Options.map all_visible outs ≡ some xs
      → Options.map all_visible (prepend b outs) ≡ some (visible b ++ xs)
  unfolding all_visible
  rows_prepend b none xs h = absurd (ground (arith, h))
  rows_prepend b (some bs) xs h =
      ap some (ap (λ ys. visible b ++ ys) (some-injective (all_visible bs) xs h))

  collect-window :
      (n : ℕ) (l : LimitOp) (bs : List (Batch A)) (a : Answer A)
      → ((l' : LimitOp) (rest : List (Batch A))
          → length rest < n
          → All IsBatch rest
          → Options.map all_visible (drain n l' rest) ≡ some (window l' (all_visible rest)))
      → length bs ≤ n
      → Delivers (window l (all_visible bs)) (length bs) a
      → Options.map all_visible (collect a (λ l'. λ rest. drain n l' rest))
        ≡ some (window l (all_visible bs))
  unfolding Delivers collect all_visible
  collect-window n l bs (answered out l' rest) more h d = rw d.0 (
      rows_prepend out (drain n l' rest) (window l' (all_visible rest))
        (more l' rest (omega (arith, h, d.1)) d.2))
  collect-window n l bs exhausted more h d = rw d refl
  collect-window n l bs failed more h d = absurd d

  drain-window :
      (n : ℕ) (l : LimitOp) (bs : List (Batch A))
      → length bs < n
      → All IsBatch bs
      → Options.map all_visible (drain n l bs) ≡ some (window l (all_visible bs))
  unfolding drain
  drain-window zero l bs h ok = absurd (omega arith)
  drain-window (suc n) l bs h ok =
      collect-window n l bs (next_batch l bs) (λ l'. λ rest. drain-window n l' rest) (omega arith)
        (next_batch-Delivers l bs ok)

  rest_fresh :
      (n : Option ℕ) (offset : ℕ) (xs : List A)
      → window record { n = n; offset = offset; seen = 0; sent = 0 } xs ≡ cut n (drop offset xs)
  unfolding window rest_of
  rest_fresh none offset xs = let e : offset - 0 ≡ offset = omega arith in rw e refl
  rest_fresh (some n) offset xs =
      let e : offset - 0 ≡ offset = omega arith in
      let e' : n - 0 ≡ n = omega arith in rw (e, e') refl

  -- From a fresh operator over batches, each with no selection or with one that is of the batch's
  -- rows, has a bit for each of them, and has them all set where it says so: Next called once more
  -- than there are batches comes to its end without an error, and the rows visible in the batches it
  -- gives are those of the source without the first offset ones, and of these the first N where N is
  -- not negative.
  pub drain-limit :
      (n : Option ℕ) (offset : ℕ) (bs : List (Batch A))
      → All IsBatch bs
      → Options.map all_visible
          (drain (suc (length bs)) record { n = n; offset = offset; seen = 0; sent = 0 } bs)
        ≡ some (cut n (drop offset (all_visible bs)))
  unfolding window
  drain-limit n offset bs ok =
      drain-window (suc (length bs)) record { n = n; offset = offset; seen = 0; sent = 0 } bs
        (omega arith) ok
      ∙ ap some (rest_fresh n offset (all_visible bs))
