-- ===== src/Tests/Predicates.antt =====
-- Pruning at a segment of one int64 column, `n`, with one page of bounds 3 and 9, and a row 7.
use dripsql.Base.{
  ℕ, nat_beq, ◌≡◌, refl, ap, sym, ◌∙◌, true, false, Option, none, some, [], ◌∷◌, arith, codes,
  Bool-cases, inl, inr, get_elem?,
}
use mathlib.Core.Path.{subst}
use dripsql.Base.Bytes.{from_le}
use dripsql.Base.Int64.{signed_key, less64}
use dripsql.Base.{text_beq}
use dripsql.Schema.Names.{to_lower}
use dripsql.Storage.Wire.{Page}
use dripsql.Codec.Kinds.{vec_int64}
use dripsql.Storage.Predicate.{
  Column, Predicate, Row, int, eval, SegmentColumn, Segment, Sidecars, equal_fold, first_column,
  find_segment_column, find_segment_column_by_id, numeric_stats, stats64, page_all_null,
  page_min_max, kind_stats, with_some, cell_null, lt_int64, gt_int64, eq_int64, all_of, any_of,
  negated, nil, cons,
}
use dripsql.Storage.Prune.{
  prune_page, prune_page_some, leaf_matches_page, matches_page, matches_page_some, prune_segment,
  prune_segment_every, matches_segment,
}
use dripsql.Storage.PruneLeaves.{Between}
use dripsql.Storage.PruneSound.{InPage, eval-prune_page, eval-matches_page}
use dripsql.Storage.SegmentSound.{InSegment, IsBound, IsNumeric, eval-prune_segment}

abbrev page : Page
page = record {
  payload_offset = 4096;
  payload_length = 300;
  row_start = 0;
  rows = 128;
  null_count = 0;
  kind = 4;
  encoding = 5;
  flags = 1;
  reserved = 0;
}

abbrev column : SegmentColumn
column = record {
  name = codes "n";
  kind = vec_int64;
  rows = 128;
  null_count = 0;
  stats = 3 ∷ 0 ∷ 0 ∷ 0 ∷ 0 ∷ 0 ∷ 0 ∷ 0 ∷ 9 ∷ 0 ∷ 0 ∷ 0 ∷ 0 ∷ 0 ∷ 0 ∷ 0 ∷ [];
  pages = page ∷ [];
  page_stats = (3 ∷ 0 ∷ 0 ∷ 0 ∷ 0 ∷ 0 ∷ 0 ∷ 0 ∷ 9 ∷ 0 ∷ 0 ∷ 0 ∷ 0 ∷ 0 ∷ 0 ∷ 0 ∷ []) ∷ [];
  column_id = 0;
}

abbrev segment : Segment
segment = record { cols = column ∷ []; table_id = 0 }

abbrev no_sidecars : Sidecars
no_sidecars = record { int_filter = λ n. none; histogram = λ n. none; var_bloom = λ n i. none }

abbrev seven : Row
seven c = int 7

found-column :
    (c : Column) (s : SegmentColumn) → find_segment_column_by_id segment c ≡ some s → column ≡ s
unfolding find_segment_column_by_id find_segment_column first_column
found-column c s h = elim (Bool-cases (nat_beq c.id 0)) [
  | inl e ↦ by_name (rw e at h)
  | inr e ↦ by_name (rw e at h)
]
  where
    by_name : find_segment_column segment c.name ≡ some s → column ≡ s
    by_name g = elim (Bool-cases (equal_fold (codes "n") c.name)) [
      | inl e ↦ cc (rw e at g)
      | inr e ↦ cc (rw e at g)
    ]

page-bounds : page_min_max column 0 ≡ some (3, 9)
unfolding page_min_max kind_stats stats64 page_all_null with_some from_le
page-bounds = refl

column-bounds : numeric_stats column ≡ some (3, 9)
unfolding numeric_stats stats64 from_le
column-bounds = refl

between :
    (x : ℕ) (b : ℕ × ℕ)
    → ◌≡◌ {A = Option (ℕ × ℕ)} (some (3, 9)) (some b)
    → int 7 ≡ int x
    → Between b x
unfolding signed_key
between x (l, u) e g =
    let low : 3 ≡ l = cc in
    let high : 9 ≡ u = cc in
    let value : 7 ≡ x = cc in
    record { above = omega arith; below = omega arith; x_u64 = omega arith; low_u64 = omega arith }

holds_values : page_all_null page ≡ false
unfolding page_all_null
holds_values = refl

no_nulls_page :
    (c : Column) (s : SegmentColumn) (p : Page)
    → find_segment_column_by_id segment c ≡ some s
    → get_elem? s.pages 0 ≡ some p
    → page_all_null p ≡ true
    → ⊥
no_nulls_page c s p f g n =
    let first : some page ≡ some p =
      ap (λ t. get_elem? (SegmentColumn.pages t) 0) (found-column c s f) ∙ g in
    let same : page ≡ p = cc in cc (holds_values, ap page_all_null same, n)

some_values :
    (c : Column) (s : SegmentColumn)
    → find_segment_column_by_id segment c ≡ some s
    → s.null_count ≡ s.rows
    → ⊥
some_values c s f n = omega (
  arith,
  ap SegmentColumn.null_count (found-column c s f),
  ap SegmentColumn.rows (found-column c s f),
  n,
)

seven-InPage : InPage no_sidecars segment 0 seven
unfolding page_all_null cell_null
seven-InPage = record {
  nulls_only = λ c s p f g n. absurd (no_nulls_page c s p f g n);
  no_nulls = λ c s p f g n. refl;
  bounded = λ c s b x f m g.
      between x b (sym page-bounds ∙ ap (λ t. page_min_max t 0) (found-column c s f) ∙ m) g;
  numeric = λ c s b f m n. (7, refl);
  bloomed = λ c s may t f m g. cc;
}

seven-InSegment : InSegment no_sidecars segment seven
unfolding cell_null
seven-InSegment = record {
  some_rows = λ c s f. subst (λ t. nat_beq t.rows 0 ≡ false) (found-column c s f) refl;
  nulls_only = λ c s f n. absurd (some_values c s f n);
  no_nulls = λ c s f n. refl;
  bounded = λ c s b x f m g.
      between x b (sym column-bounds ∙ ap numeric_stats (found-column c s f) ∙ m) g;
  int_filtered = λ c s may x f m g. cc;
  counted = λ c s has t f m g. cc;
}

abbrev n : Column
n = record { name = codes "n"; id = 0 }

abbrev low_range : Predicate
low_range = all_of (cons (gt_int64 n 0) (cons (lt_int64 n 3) nil))

low_range-skipped : prune_page no_sidecars segment 0 low_range ≡ true
unfolding prune_page prune_page_some find_segment_column_by_id find_segment_column first_column
    equal_fold to_lower text_beq page_min_max kind_stats stats64 page_all_null with_some from_le
    less64 signed_key
low_range-skipped = refl

eval-prune_page_example : eval low_range seven ≡ false
eval-prune_page_example =
    eval-prune_page no_sidecars segment 0 seven low_range seven-InPage low_range-skipped

abbrev high_range : Predicate
high_range = any_of (cons (eq_int64 n 5) (cons (negated (lt_int64 n 3)) nil))

high_range-taken : matches_page no_sidecars segment 0 high_range ≡ true
unfolding matches_page matches_page_some leaf_matches_page prune_page find_segment_column_by_id
    find_segment_column first_column equal_fold to_lower text_beq page_min_max kind_stats stats64
    page_all_null with_some from_le less64 signed_key
high_range-taken = refl

eval-matches_page_example : eval high_range seven ≡ true
eval-matches_page_example =
    eval-matches_page no_sidecars segment 0 seven high_range seven-InPage high_range-taken

abbrev elsewhere : Predicate
elsewhere = any_of (cons (eq_int64 n 12) (cons (negated (gt_int64 n 2)) nil))

elsewhere-IsBound : IsBound seven elsewhere
unfolding IsBound IsNumeric
elsewhere-IsBound = (λ h. (7, refl), (λ h. (7, refl), tt))

elsewhere-skipped : prune_segment no_sidecars segment elsewhere ≡ true
unfolding prune_segment prune_segment_every matches_segment find_segment_column_by_id
    find_segment_column first_column equal_fold to_lower text_beq numeric_stats stats64 with_some
    from_le less64 signed_key
elsewhere-skipped = refl

eval-prune_segment_example : eval elsewhere seven ≡ false
eval-prune_segment_example =
    eval-prune_segment no_sidecars segment seven elsewhere seven-InSegment elsewhere-IsBound
      elsewhere-skipped
