-- ===== src/Storage/Prune.antt =====
-- internal/storage/predicate.go: PruneSegment, PrunePage, and the tests for a page or a segment of
-- which every row is selected.
use dripsql.Base.{ℕ, nat_beq, ltb, Bool, true, false, not, ◌&&◌, ◌||◌, get_elem?}
use dripsql.Base.Int64.{less64}
use dripsql.Schema.Names.{normalize_name}
use dripsql.Storage.Wire.{Page}
use dripsql.Storage.Predicate.{
  Column, Predicate, Predicates, SegmentColumn, Segment, Sidecars, find_segment_column_by_id,
  numeric_stats, page_all_null, page_min_max, with_some, outside, not_less, eq_int64, lt_int64,
  gt_int64, eq_bytes, lt_bytes, gt_bytes, is_null, all_of, any_of, negated, nil, cons,
}

abbrev pub in_column {ℓ} : {A : Type ℓ} → Segment → Column → A → (SegmentColumn → A) → A
in_column seg c d f = with_some (find_segment_column_by_id seg c) d f

-- The page of a column, where its index is in range.
abbrev pub in_page {ℓ} : {A : Type ℓ} → SegmentColumn → ℕ → A → (Page → A) → A
in_page s i d f = with_some (get_elem? s.pages i) d f

abbrev pub by_stats : SegmentColumn → (ℕ × ℕ → Bool) → Bool
by_stats s f = with_some (numeric_stats s) true f

abbrev pub by_page_stats : SegmentColumn → ℕ → (ℕ × ℕ → Bool) → Bool
by_page_stats s i f = with_some (page_min_max s i) false f

-- childAlwaysMatchesSegment
unfoldable pub matches_segment : Segment → Predicate → Bool
matches_segment seg (is_null c) =
    in_column seg c false (λ s. not (nat_beq s.rows 0) && nat_beq s.null_count s.rows)
matches_segment seg (eq_int64 c v) = in_column seg c false (λ s.
    nat_beq s.null_count 0
    && with_some (numeric_stats s) false (λ b. nat_beq b.0 v && nat_beq b.1 v))
matches_segment seg (lt_int64 c v) =
    in_column seg c false
      (λ s. nat_beq s.null_count 0 && with_some (numeric_stats s) false (λ b. less64 b.1 v))
matches_segment seg (gt_int64 c v) =
    in_column seg c false
      (λ s. nat_beq s.null_count 0 && with_some (numeric_stats s) false (λ b. less64 v b.0))
matches_segment seg _ = false

module _ (side : Sidecars) (seg : Segment) where
  unfoldable mutual
    pub prune_segment : Predicate → Bool
    prune_segment (eq_int64 c v) = in_column seg c false (λ s. by_stats s (λ b.
        outside v b
        || with_some (side.int_filter (normalize_name s.name)) false (λ may. not (may v))))
    prune_segment (lt_int64 c v) = in_column seg c false (λ s. by_stats s (λ b. not_less b.0 v))
    prune_segment (gt_int64 c v) = in_column seg c false (λ s. by_stats s (λ b. not_less v b.1))
    prune_segment (eq_bytes c v) = in_column seg c false (λ s.
        nat_beq s.rows 0
        || with_some (side.histogram (normalize_name s.name)) false (λ has. not (has v)))
    prune_segment (lt_bytes c v inclusive) = false
    prune_segment (gt_bytes c v inclusive) = false
    prune_segment (is_null c) = in_column seg c false (λ s. nat_beq s.null_count 0)
    prune_segment (all_of ps) = prune_segment_some ps
    prune_segment (any_of ps) = prune_segment_every ps
    prune_segment (negated p) = matches_segment seg p

    pub prune_segment_some : Predicates → Bool
    prune_segment_some nil = false
    prune_segment_some (cons p ps) = prune_segment p || prune_segment_some ps

    pub prune_segment_every : Predicates → Bool
    prune_segment_every nil = true
    prune_segment_every (cons p ps) = prune_segment p && prune_segment_every ps

module _ (side : Sidecars) (seg : Segment) (i : ℕ) where
  -- The pages of int64 columns without nulls, and those of nulls only: childAlwaysMatchesPage.
  unfoldable pub leaf_matches_page : Predicate → Bool
  leaf_matches_page (is_null c) =
      in_column seg c false (λ s. in_page s i false (λ p. ltb 0 p.rows && page_all_null p))
  leaf_matches_page (eq_int64 c v) = in_column seg c false (λ s.
      in_page s i false
        (λ p. nat_beq p.null_count 0 && by_page_stats s i (λ b. nat_beq b.0 v && nat_beq b.1 v)))
  leaf_matches_page (lt_int64 c v) = in_column seg c false (λ s.
      in_page s i false (λ p. nat_beq p.null_count 0 && by_page_stats s i (λ b. less64 b.1 v)))
  leaf_matches_page (gt_int64 c v) = in_column seg c false (λ s.
      in_page s i false (λ p. nat_beq p.null_count 0 && by_page_stats s i (λ b. less64 v b.0)))
  leaf_matches_page _ = false

  unfoldable mutual
    pub prune_page : Predicate → Bool
    prune_page (eq_int64 c v) = in_column seg c false (λ s. by_page_stats s i (outside v))
    prune_page (lt_int64 c v) = in_column seg c false (λ s. by_page_stats s i (λ b. not_less b.0 v))
    prune_page (gt_int64 c v) = in_column seg c false (λ s. by_page_stats s i (λ b. not_less v b.1))
    prune_page (eq_bytes c v) = in_column seg c false (λ s. in_page s i false (λ p.
        page_all_null p
        || with_some (side.var_bloom (normalize_name s.name) i) false (λ may. not (may v))))
    prune_page (lt_bytes c v inclusive) = false
    prune_page (gt_bytes c v inclusive) = false
    prune_page (is_null c) =
        in_column seg c false (λ s. in_page s i false (λ p. nat_beq p.null_count 0))
    prune_page (all_of ps) = prune_page_some ps
    prune_page (any_of ps) = prune_page_every ps
    prune_page (negated p) = leaf_matches_page p

    pub prune_page_some : Predicates → Bool
    prune_page_some nil = false
    prune_page_some (cons p ps) = prune_page p || prune_page_some ps

    pub prune_page_every : Predicates → Bool
    prune_page_every nil = true
    prune_page_every (cons p ps) = prune_page p && prune_page_every ps

  -- predicateAlwaysMatchesPage
  unfoldable mutual
    pub matches_page : Predicate → Bool
    matches_page (all_of ps) = matches_page_every ps
    matches_page (any_of ps) = matches_page_some ps
    matches_page (negated p) = prune_page p
    matches_page p = leaf_matches_page p

    pub matches_page_every : Predicates → Bool
    matches_page_every nil = true
    matches_page_every (cons p ps) = matches_page p && matches_page_every ps

    pub matches_page_some : Predicates → Bool
    matches_page_some nil = false
    matches_page_some (cons p ps) = matches_page p || matches_page_some ps
