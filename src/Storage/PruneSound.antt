-- ===== src/Storage/PruneSound.antt =====
-- internal/storage/predicate.go: a page that is skipped has no row that the predicate selects, and of
-- a page that is taken whole it selects every row.
use mathlib.Core.Bool.{◌&&◌, ◌||◌}
use dripsql.Base.{
  ℕ, nat_beq, nat_beq_iff, Bool, true, false, not, Bool-cases, some, Text, ◌≡◌, refl, inl, inr,
  text_eq, ◌==◌, ap, sym, ◌∙◌, get_elem?, text_beq_iff,
}
use dripsql.Schema.Names.{normalize_name}
use dripsql.Storage.Wire.{Page}
use dripsql.Storage.Predicate.{
  Column, Predicate, Predicates, Row, null, int, text, holds_int, holds_text, cell_null, eval,
  eval_all, eval_any, SegmentColumn, Segment, Sidecars, find_segment_column_by_id, page_all_null,
  page_min_max, with_some, eq_int64, lt_int64, gt_int64, eq_bytes, lt_bytes, gt_bytes, is_null,
  all_of, any_of, negated, nil, cons,
}
use dripsql.Storage.Prune.{
  leaf_matches_page, prune_page, prune_page_some, prune_page_every, matches_page,
  matches_page_every, matches_page_some, by_page_stats,
}
use dripsql.Storage.PruneLeaves.{
  with_some-true, and-true, or-true, holds_int-false, holds_text-false, holds_int-at, null-text,
  null-cell, Between, outside-other, not_less-low, not_less-high, all_equal, high-less, less-low,
}

pub and-false : (b : Bool) → (b && false) ≡ false
and-false true = refl
and-false false = refl

pub or_true : (b : Bool) → (b || true) ≡ true
or_true true = refl
or_true false = refl

-- What the statistics of page i promise of a row in it.
pub record InPage (side : Sidecars) (seg : Segment) (i : ℕ) (r : Row) : Type 0 where
  -- A page marked so holds nulls only.
  pub nulls_only :
      (c : Column) (s : SegmentColumn) (p : Page)
      → find_segment_column_by_id seg c ≡ some s
      → get_elem? s.pages i ≡ some p
      → page_all_null p ≡ true
      → r c ≡ null
  -- A page that counts none holds no null.
  pub no_nulls :
      (c : Column) (s : SegmentColumn) (p : Page)
      → find_segment_column_by_id seg c ≡ some s
      → get_elem? s.pages i ≡ some p
      → p.null_count ≡ 0
      → cell_null (r c) ≡ false
  -- Where there are bounds, a cell that is not null is a number between them.
  pub bounded :
      (c : Column) (s : SegmentColumn) (b : ℕ × ℕ) (x : ℕ)
      → find_segment_column_by_id seg c ≡ some s
      → page_min_max s i ≡ some b
      → r c ≡ int x
      → Between b x
  pub numeric :
      (c : Column) (s : SegmentColumn) (b : ℕ × ℕ)
      → find_segment_column_by_id seg c ≡ some s
      → page_min_max s i ≡ some b
      → cell_null (r c) ≡ false
      → (x : ℕ) × (r c ≡ int x)
  -- The page's bloom filter passes every text in it.
  pub bloomed :
      (c : Column) (s : SegmentColumn) (may : Text → Bool) (t : Text)
      → find_segment_column_by_id seg c ≡ some s
      → side.var_bloom (normalize_name s.name) i ≡ some may
      → r c ≡ text t
      → may t ≡ true

module _ (side : Sidecars) (seg : Segment) (i : ℕ) (r : Row) (h : InPage side seg i r) where
  -- A comparison that the page's bounds rule out.
  by_bounds-false :
      (c : Column) (s : SegmentColumn) (f : ℕ × ℕ → Bool) (p : ℕ → Bool)
      → find_segment_column_by_id seg c ≡ some s
      → by_page_stats s i f ≡ true
      → ((b : ℕ × ℕ) (x : ℕ) → Between b x → f b ≡ true → p x ≡ false)
      → holds_int p (r c) ≡ false
  by_bounds-false c s f p e t k =
      let b = with_some-true (page_min_max s i) f t in
      holds_int-false p (r c) (λ x g. k b.0 x (h.bounded c s b.0 x e b.1 g) b.2)

  -- A comparison that they settle.
  by_bounds-true :
      (c : Column) (f : ℕ × ℕ → Bool) (p : ℕ → Bool) (s : SegmentColumn) (q : Page)
      → find_segment_column_by_id seg c ≡ some s
      → get_elem? s.pages i ≡ some q
      → (nat_beq q.null_count 0 && by_page_stats s i f) ≡ true
      → ((b : ℕ × ℕ) (x : ℕ) → Between b x → f b ≡ true → p x ≡ true)
      → holds_int p (r c) ≡ true
  by_bounds-true c f p s q e g t k =
      let a = and-true (nat_beq q.null_count 0) (by_page_stats s i f) t in
      let b = with_some-true (page_min_max s i) f a.1 in
      let full = h.no_nulls c s q e g ((nat_beq_iff q.null_count 0).0 a.0) in
      let x = h.numeric c s b.0 e b.1 full in
      holds_int-at p (r c) x.0 x.1 (k b.0 x.0 (h.bounded c s b.0 x.0 e b.1 x.1) b.2)

  leaf_matches-eval : (p : Predicate) → leaf_matches_page side seg i p ≡ true → eval p r ≡ true
  unfolding leaf_matches_page eval
  leaf_matches-eval (is_null c) t =
      let s = with_some-true _ _ t in
      let q = with_some-true _ _ s.2 in
      null-cell (r c) (h.nulls_only c s.0 q.0 s.1 q.1 (and-true _ _ q.2).1)
  leaf_matches-eval (eq_int64 c v) t =
      let s = with_some-true _ _ t in
      let q = with_some-true _ _ s.2 in
      by_bounds-true c _ _ s.0 q.0 s.1 q.1 q.2 (λ b x k o. all_equal v x b k o)
  leaf_matches-eval (lt_int64 c v) t =
      let s = with_some-true _ _ t in
      let q = with_some-true _ _ s.2 in
      by_bounds-true c _ _ s.0 q.0 s.1 q.1 q.2 (λ b x k o. high-less v x b k o)
  leaf_matches-eval (gt_int64 c v) t =
      let s = with_some-true _ _ t in
      let q = with_some-true _ _ s.2 in
      by_bounds-true c _ _ s.0 q.0 s.1 q.1 q.2 (λ b x k o. less-low v x b k o)
  leaf_matches-eval _ t = cc

  bloom-false :
      (c : Column) (v : Text) (s : SegmentColumn) (q : Page)
      → find_segment_column_by_id seg c ≡ some s
      → get_elem? s.pages i ≡ some q
      → (page_all_null q
          || with_some (side.var_bloom (normalize_name s.name) i) false (λ may. not (may v)))
        ≡ true
      → holds_text (λ x. x == v) (r c) ≡ false
  bloom-false c v s q e g t = elim (or-true _ _ t) [
    | inl a ↦ null-text _ (r c) (h.nulls_only c s q e g a)
    | inr a ↦
        let may = with_some-true _ _ a in
        holds_text-false _ (r c) (λ x k. elim (Bool-cases (x == v)) [
          | inl same ↦
              let passes : may.0 v ≡ true =
                sym (ap may.0 ((text_beq_iff x v).0 same)) ∙ h.bloomed c s may.0 x e may.1 k in
              absurd (stopped (may.0 v) passes may.2)
          | inr other ↦ other
        ])
  ]
    where
      stopped : (b : Bool) → b ≡ true → not b ≡ true → ⊥
      stopped true p n = cc
      stopped false p n = cc

  mutual
    unfolding prune_page prune_page_some prune_page_every matches_page matches_page_every
        matches_page_some eval eval_all eval_any

    prune_page-eval : (p : Predicate) → prune_page side seg i p ≡ true → eval p r ≡ false
    prune_page-eval (eq_int64 c v) t =
        let s = with_some-true _ _ t in
        by_bounds-false c s.0 _ _ s.1 s.2 (λ b x k o. outside-other v x b k o)
    prune_page-eval (lt_int64 c v) t =
        let s = with_some-true _ _ t in
        by_bounds-false c s.0 _ _ s.1 s.2 (λ b x k o. not_less-low v x b k o)
    prune_page-eval (gt_int64 c v) t =
        let s = with_some-true _ _ t in
        by_bounds-false c s.0 _ _ s.1 s.2 (λ b x k o. not_less-high v x b k o)
    prune_page-eval (eq_bytes c v) t =
        let s = with_some-true _ _ t in
        let q = with_some-true _ _ s.2 in bloom-false c v s.0 q.0 s.1 q.1 q.2
    prune_page-eval (lt_bytes c v inclusive) t = cc
    prune_page-eval (gt_bytes c v inclusive) t = cc
    prune_page-eval (is_null c) t =
        let s = with_some-true _ _ t in
        let q = with_some-true _ _ s.2 in
        h.no_nulls c s.0 q.0 s.1 q.1 ((nat_beq_iff q.0.null_count 0).0 q.2)
    prune_page-eval (all_of ps) t = prune_some-eval ps t
    prune_page-eval (any_of ps) t = prune_every-eval ps t
    prune_page-eval (negated p) t = ap not (leaf_matches-eval p t)

    prune_some-eval :
        (ps : Predicates) → prune_page_some side seg i ps ≡ true → eval_all ps r ≡ false
    prune_some-eval nil t = cc
    prune_some-eval (cons p ps) t = elim (or-true _ _ t) [
      | inl a ↦ rw (prune_page-eval p a) refl
      | inr a ↦ rw (prune_some-eval ps a) (and-false (eval p r))
    ]

    prune_every-eval :
        (ps : Predicates) → prune_page_every side seg i ps ≡ true → eval_any ps r ≡ false
    prune_every-eval nil t = refl
    prune_every-eval (cons p ps) t =
        let a = and-true _ _ t in rw (prune_page-eval p a.0, prune_every-eval ps a.1) refl

    matches_page-eval : (p : Predicate) → matches_page side seg i p ≡ true → eval p r ≡ true
    matches_page-eval (all_of ps) t = matches_every-eval ps t
    matches_page-eval (any_of ps) t = matches_some-eval ps t
    matches_page-eval (negated p) t = ap not (prune_page-eval p t)
    matches_page-eval (eq_int64 c v) t = leaf_matches-eval (eq_int64 c v) t
    matches_page-eval (lt_int64 c v) t = leaf_matches-eval (lt_int64 c v) t
    matches_page-eval (gt_int64 c v) t = leaf_matches-eval (gt_int64 c v) t
    matches_page-eval (eq_bytes c v) t = leaf_matches-eval (eq_bytes c v) t
    matches_page-eval (lt_bytes c v inclusive) t = leaf_matches-eval (lt_bytes c v inclusive) t
    matches_page-eval (gt_bytes c v inclusive) t = leaf_matches-eval (gt_bytes c v inclusive) t
    matches_page-eval (is_null c) t = leaf_matches-eval (is_null c) t

    matches_every-eval :
        (ps : Predicates) → matches_page_every side seg i ps ≡ true → eval_all ps r ≡ true
    matches_every-eval nil t = refl
    matches_every-eval (cons p ps) t =
        let a = and-true _ _ t in rw (matches_page-eval p a.0, matches_every-eval ps a.1) refl

    matches_some-eval :
        (ps : Predicates) → matches_page_some side seg i ps ≡ true → eval_any ps r ≡ true
    matches_some-eval nil t = cc
    matches_some-eval (cons p ps) t = elim (or-true _ _ t) [
      | inl a ↦ rw (matches_page-eval p a) refl
      | inr a ↦ rw (matches_some-eval ps a) (or_true (eval p r))
    ]

-- No row of a page that PrunePage lets the scan skip is selected by the predicate, however it is
-- composed, if the page's statistics, null counts and bloom filter are right about the row.
pub eval-prune_page :
    (side : Sidecars) (seg : Segment) (i : ℕ) (r : Row) (p : Predicate)
    → InPage side seg i r
    → prune_page side seg i p ≡ true
    → eval p r ≡ false
eval-prune_page side seg i r p h t = prune_page-eval side seg i r h p t

-- Every row of a page that predicateAlwaysMatchesPage lets the scan take whole is selected by the
-- predicate, if the page's statistics, null counts and bloom filter are right about the row.
pub eval-matches_page :
    (side : Sidecars) (seg : Segment) (i : ℕ) (r : Row) (p : Predicate)
    → InPage side seg i r
    → matches_page side seg i p ≡ true
    → eval p r ≡ true
eval-matches_page side seg i r p h t = matches_page-eval side seg i r h p t
