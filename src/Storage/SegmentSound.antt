-- ===== src/Storage/SegmentSound.antt =====
-- internal/storage/predicate.go: a segment that is skipped has no row that the predicate selects.
use mathlib.Core.Bool.{◌&&◌, ◌||◌}
use dripsql.Base.{
  ℕ, nat_beq, nat_beq_iff, Bool, true, false, not, none, some, Text, ◌≡◌, refl, inl, inr, text_eq,
  ◌==◌, ap, sym, ◌∙◌, text_beq_iff,
}
use dripsql.Schema.Names.{normalize_name}
use dripsql.Storage.Predicate.{
  Column, Predicate, Predicates, Row, null, int, text, holds_int, holds_text, cell_null, eval,
  eval_all, eval_any, SegmentColumn, Segment, Sidecars, find_segment_column_by_id, numeric_stats,
  with_some, eq_int64, lt_int64, gt_int64, eq_bytes, lt_bytes, gt_bytes, is_null, all_of, any_of,
  negated, nil, cons,
}
use dripsql.Storage.Prune.{
  matches_segment, prune_segment, prune_segment_some, prune_segment_every, by_stats,
}
use dripsql.Storage.PruneSound.{and-false}
use dripsql.Storage.PruneLeaves.{
  with_some-true, with_some-default, and-true, or-true, holds_int-false, holds_text-false,
  holds_int-at, null-cell, Between, outside-other, not_less-low, not_less-high, all_equal,
  high-less, less-low,
}

-- The cell is a number where it is not null.
unfoldable pub IsNumeric : Row → Column → Type 0
IsNumeric r c = cell_null (r c) ≡ false → (x : ℕ) × (r c ≡ int x)

-- The predicate is bound to the row's schema: it compares numbers with columns of numbers.
unfoldable mutual
  pub IsBound : Row → Predicate → Type 0
  IsBound r (eq_int64 c v) = IsNumeric r c
  IsBound r (lt_int64 c v) = IsNumeric r c
  IsBound r (gt_int64 c v) = IsNumeric r c
  IsBound r (all_of ps) = AreBound r ps
  IsBound r (any_of ps) = AreBound r ps
  IsBound r (negated p) = IsBound r p
  IsBound r _ = Unit

  pub AreBound : Row → Predicates → Type 0
  AreBound r nil = Unit
  AreBound r (cons p ps) = IsBound r p × AreBound r ps

-- What a segment's statistics promise of a row in it.
pub record InSegment (side : Sidecars) (seg : Segment) (r : Row) : Type 0 where
  -- There is a row, so no column is empty.
  pub some_rows :
      (c : Column) (s : SegmentColumn)
      → find_segment_column_by_id seg c ≡ some s
      → nat_beq s.rows 0 ≡ false
  pub nulls_only :
      (c : Column) (s : SegmentColumn)
      → find_segment_column_by_id seg c ≡ some s
      → s.null_count ≡ s.rows
      → r c ≡ null
  pub no_nulls :
      (c : Column) (s : SegmentColumn)
      → find_segment_column_by_id seg c ≡ some s
      → s.null_count ≡ 0
      → cell_null (r c) ≡ false
  pub bounded :
      (c : Column) (s : SegmentColumn) (b : ℕ × ℕ) (x : ℕ)
      → find_segment_column_by_id seg c ≡ some s
      → numeric_stats s ≡ some b
      → r c ≡ int x
      → Between b x
  pub int_filtered :
      (c : Column) (s : SegmentColumn) (may : ℕ → Bool) (x : ℕ)
      → find_segment_column_by_id seg c ≡ some s
      → side.int_filter (normalize_name s.name) ≡ some may
      → r c ≡ int x
      → may x ≡ true
  pub counted :
      (c : Column) (s : SegmentColumn) (has : Text → Bool) (t : Text)
      → find_segment_column_by_id seg c ≡ some s
      → side.histogram (normalize_name s.name) ≡ some has
      → r c ≡ text t
      → has t ≡ true

unseen :
    {A : Type 0} {x v : A} (f : A → Bool) (same : Bool)
    → (same ≡ true → f v ≡ f x)
    → not (f v) ≡ true
    → f x ≡ true
    → same ≡ false
unseen f false e n y = refl
unseen f true e n y = absurd (clash _ (e refl ∙ y) n)
  where
    clash : (b : Bool) → b ≡ true → not b ≡ true → ⊥
    clash true p q = cc
    clash false p q = cc

module _ (side : Sidecars) (seg : Segment) (r : Row) (h : InSegment side seg r) where
  -- Where the rows are counted there are bounds.
  some_stats :
      (c : Column) (s : SegmentColumn)
      → find_segment_column_by_id seg c ≡ some s
      → numeric_stats s ≡ none
      → ⊥
  unfolding numeric_stats
  some_stats c s e none_there = cc (rw (h.some_rows c s e) at none_there)

  by_bounds-false :
      (c : Column) (s : SegmentColumn) (f : ℕ × ℕ → Bool) (p : ℕ → Bool)
      → find_segment_column_by_id seg c ≡ some s
      → by_stats s f ≡ true
      → ((b : ℕ × ℕ) (x : ℕ) → Between b x → r c ≡ int x → f b ≡ true → p x ≡ false)
      → holds_int p (r c) ≡ false
  by_bounds-false c s f p e t k = elim (with_some-default (numeric_stats s) f true t) [
    | inl a ↦ absurd (some_stats c s e a.0)
    | inr b ↦ holds_int-false p (r c) (λ x g. k b.0 x (h.bounded c s b.0 x e b.1 g) g b.2)
  ]

  by_bounds-true :
      (c : Column) (s : SegmentColumn) (f : ℕ × ℕ → Bool) (p : ℕ → Bool)
      → find_segment_column_by_id seg c ≡ some s
      → IsNumeric r c
      → (nat_beq s.null_count 0 && with_some (numeric_stats s) false f) ≡ true
      → ((b : ℕ × ℕ) (x : ℕ) → Between b x → f b ≡ true → p x ≡ true)
      → holds_int p (r c) ≡ true
  unfolding IsNumeric
  by_bounds-true c s f p e n t k =
      let a = and-true _ _ t in
      let b = with_some-true (numeric_stats s) f a.1 in
      let x = n (h.no_nulls c s e ((nat_beq_iff s.null_count 0).0 a.0)) in
      holds_int-at p (r c) x.0 x.1 (k b.0 x.0 (h.bounded c s b.0 x.0 e b.1 x.1) b.2)

  matches_segment-eval :
      (p : Predicate) → IsBound r p → matches_segment seg p ≡ true → eval p r ≡ true
  unfolding matches_segment eval IsBound
  matches_segment-eval (is_null c) n t =
      let s = with_some-true _ _ t in
      null-cell (r c) (h.nulls_only c s.0 s.1 ((nat_beq_iff _ _).0 (and-true _ _ s.2).1))
  matches_segment-eval (eq_int64 c v) n t =
      let s = with_some-true _ _ t in
      by_bounds-true c s.0 _ _ s.1 n s.2 (λ b x k o. all_equal v x b k o)
  matches_segment-eval (lt_int64 c v) n t =
      let s = with_some-true _ _ t in
      by_bounds-true c s.0 _ _ s.1 n s.2 (λ b x k o. high-less v x b k o)
  matches_segment-eval (gt_int64 c v) n t =
      let s = with_some-true _ _ t in
      by_bounds-true c s.0 _ _ s.1 n s.2 (λ b x k o. less-low v x b k o)
  matches_segment-eval _ n t = cc

  -- The filter of the column's numbers has not seen v.
  filtered-false :
      (c : Column) (s : SegmentColumn) (v x : ℕ)
      → find_segment_column_by_id seg c ≡ some s
      → r c ≡ int x
      → with_some (side.int_filter (normalize_name s.name)) false (λ may. not (may v)) ≡ true
      → nat_beq x v ≡ false
  filtered-false c s v x e g t =
      let may = with_some-true _ _ t in
      unseen may.0 (nat_beq x v) (λ same. ap may.0 (sym ((nat_beq_iff x v).0 same))) may.2
        (h.int_filtered c s may.0 x e may.1 g)

  eq_bytes-false :
      (c : Column) (v : Text) (s : SegmentColumn)
      → find_segment_column_by_id seg c ≡ some s
      → (nat_beq s.rows 0
          || with_some (side.histogram (normalize_name s.name)) false (λ has. not (has v)))
        ≡ true
      → holds_text (λ x. x == v) (r c) ≡ false
  eq_bytes-false c v s e t = elim (or-true (nat_beq s.rows 0) _ t) [
    | inl a ↦ absurd (cc (h.some_rows c s e, a))
    | inr a ↦
        let has = with_some-true _ _ a in
        holds_text-false _ (r c) (λ x k.
          unseen has.0 (x == v) (λ same. ap has.0 (sym ((text_beq_iff x v).0 same))) has.2
            (h.counted c s has.0 x e has.1 k))
  ]

  mutual
    unfolding prune_segment prune_segment_some prune_segment_every eval eval_all eval_any IsBound
        AreBound

    prune_segment-eval :
        (p : Predicate) → IsBound r p → prune_segment side seg p ≡ true → eval p r ≡ false
    prune_segment-eval (eq_int64 c v) n t =
        let s = with_some-true _ _ t in
        by_bounds-false c s.0 _ _ s.1 s.2 (λ b x k g o. elim (or-true _ _ o) [
          | inl a ↦ outside-other v x b k a
          | inr a ↦ filtered-false c s.0 v x s.1 g a
        ])
    prune_segment-eval (lt_int64 c v) n t =
        let s = with_some-true _ _ t in
        by_bounds-false c s.0 _ _ s.1 s.2 (λ b x k g o. not_less-low v x b k o)
    prune_segment-eval (gt_int64 c v) n t =
        let s = with_some-true _ _ t in
        by_bounds-false c s.0 _ _ s.1 s.2 (λ b x k g o. not_less-high v x b k o)
    prune_segment-eval (eq_bytes c v) n t =
        let s = with_some-true _ _ t in eq_bytes-false c v s.0 s.1 s.2
    prune_segment-eval (lt_bytes c v inclusive) n t = cc
    prune_segment-eval (gt_bytes c v inclusive) n t = cc
    prune_segment-eval (is_null c) n t =
        let s = with_some-true _ _ t in h.no_nulls c s.0 s.1 ((nat_beq_iff s.0.null_count 0).0 s.2)
    prune_segment-eval (all_of ps) n t = prune_some-eval ps n t
    prune_segment-eval (any_of ps) n t = prune_every-eval ps n t
    prune_segment-eval (negated p) n t = ap not (matches_segment-eval p n t)

    prune_some-eval :
        (ps : Predicates)
        → AreBound r ps
        → prune_segment_some side seg ps ≡ true
        → eval_all ps r ≡ false
    prune_some-eval nil n t = cc
    prune_some-eval (cons p ps) (n, ns) t = elim (or-true _ _ t) [
      | inl a ↦ rw (prune_segment-eval p n a) refl
      | inr a ↦ rw (prune_some-eval ps ns a) (and-false (eval p r))
    ]

    prune_every-eval :
        (ps : Predicates)
        → AreBound r ps
        → prune_segment_every side seg ps ≡ true
        → eval_any ps r ≡ false
    prune_every-eval nil n t = refl
    prune_every-eval (cons p ps) (n, ns) t =
        let a = and-true _ _ t in rw (prune_segment-eval p n a.0, prune_every-eval ps ns a.1) refl

-- No row of a segment that PruneSegment lets the scan skip is selected by the predicate, however it
-- is composed, if the predicate is bound to the row's schema and the segment's statistics, null
-- counts, filters and histograms are right about the row.
pub eval-prune_segment :
    (side : Sidecars) (seg : Segment) (r : Row) (p : Predicate)
    → InSegment side seg r
    → IsBound r p
    → prune_segment side seg p ≡ true
    → eval p r ≡ false
eval-prune_segment side seg r p h n t = prune_segment-eval side seg r h p n t
