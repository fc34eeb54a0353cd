-- ===== src/Storage/Predicate.antt =====
-- internal/storage/predicate.go: predicates bound to a schema, what they select, and when the
-- statistics of a segment or a page let it be skipped or taken whole. A mask is looked at row by
-- row; the sidecars' filters are the record Sidecars, `none` where one is missing or unreadable.
use Prim.Native.Nat.{bit_and}
use dripsql.Base.{
  ℕ, nat_beq, ltb, leb, if◌then◌else◌, Bool, true, false, not, ◌&&◌, ◌||◌, Option, none, some, List,
  [], ◌∷◌, Text, text_eq, ◌==◌, take, drop, get_elem?,
}
use dripsql.Base.Bytes.{from_le}
use dripsql.Base.Int64.{less64}
use dripsql.Schema.Names.{to_lower}
use dripsql.Codec.Kinds.{
  VecKind, vec_int16, vec_int32, vec_int64, vec_decimal64, vec_timestamp, vec_time, vec_date,
  sign_extend,
}
use dripsql.Storage.Wire.{Page}

pub record Column : Type 0 where
  pub name : Text
  pub id : ℕ

mutual
  pub data Predicate : Type 0 where
    eq_int64 lt_int64 gt_int64 : Column → ℕ → Predicate
    eq_bytes : Column → Text → Predicate
    lt_bytes gt_bytes : Column → Text → Bool → Predicate
    is_null : Column → Predicate
    all_of any_of : Predicates → Predicate
    negated : Predicate → Predicate

  pub data Predicates : Type 0 where
    nil : Predicates
    cons : Predicate → Predicates → Predicates

-- What a row has in a column of the batch.
pub data Cell : Type 0 where
  missing null : Cell
  int : ℕ → Cell
  text : Text → Cell

abbrev pub Row : Type 0
Row = Column → Cell

-- bytes.Compare(a, b) < 0
unfoldable pub text_less : Text → Text → Bool
text_less [] [] = false
text_less [] (y ∷ ys) = true
text_less (x ∷ xs) [] = false
text_less (x ∷ xs) (y ∷ ys) = ltb x y || (nat_beq x y && text_less xs ys)

unfoldable pub holds_int : (ℕ → Bool) → Cell → Bool
holds_int p (int x) = p x
holds_int p _ = false

unfoldable pub holds_text : (Text → Bool) → Cell → Bool
holds_text p (text x) = p x
holds_text p _ = false

unfoldable pub cell_null : Cell → Bool
cell_null null = true
cell_null _ = false

-- Eval, on one row.
unfoldable mutual
  pub eval : Predicate → Row → Bool
  eval (eq_int64 c v) r = holds_int (λ x. nat_beq x v) (r c)
  eval (lt_int64 c v) r = holds_int (λ x. less64 x v) (r c)
  eval (gt_int64 c v) r = holds_int (λ x. less64 v x) (r c)
  eval (eq_bytes c v) r = holds_text (λ x. x == v) (r c)
  eval (lt_bytes c v inclusive) r = holds_text (λ x. text_less x v || (inclusive && (x == v))) (r c)
  eval (gt_bytes c v inclusive) r = holds_text (λ x. text_less v x || (inclusive && (x == v))) (r c)
  eval (is_null c) r = cell_null (r c)
  eval (all_of ps) r = eval_all ps r
  eval (any_of ps) r = eval_any ps r
  eval (negated p) r = not (eval p r)

  pub eval_all : Predicates → Row → Bool
  eval_all nil r = true
  eval_all (cons p ps) r = eval p r && eval_all ps r

  pub eval_any : Predicates → Row → Bool
  eval_any nil r = false
  eval_any (cons p ps) r = eval p r || eval_any ps r

pub record SegmentColumn : Type 0 where
  pub name : Text
  pub kind : VecKind
  pub rows : ℕ
  pub null_count : ℕ
  pub stats : List ℕ
  pub pages : List Page
  pub page_stats : List (List ℕ)
  pub column_id : ℕ

pub record Segment : Type 0 where
  pub cols : List SegmentColumn
  pub table_id : ℕ

-- IntFilterSet, DictHistograms and VarBlooms: whether the filter may hold a value.
pub record Sidecars : Type 0 where
  pub int_filter : Text → Option (ℕ → Bool)
  pub histogram : Text → Option (Text → Bool)
  pub var_bloom : Text → ℕ → Option (Text → Bool)

-- strings.EqualFold on ASCII.
unfoldable pub equal_fold : Text → Text → Bool
equal_fold a b = to_lower a == to_lower b

unfoldable pub first_column : (SegmentColumn → Bool) → List SegmentColumn → Option SegmentColumn
first_column p [] = none
first_column p (c ∷ cs) = let rest = first_column p cs in if p c then some c else rest

unfoldable pub find_segment_column : Segment → Text → Option SegmentColumn
find_segment_column seg name = first_column (λ c. equal_fold c.name name) seg.cols

unfoldable pub or_else {ℓ} : {A : Type ℓ} → Option A → Option A → Option A
or_else (some a) o = some a
or_else none o = o

unfoldable pub find_segment_column_by_id : Segment → Column → Option SegmentColumn
find_segment_column_by_id seg c =
    let by_name = find_segment_column seg c.name in
    if nat_beq c.id 0 || nat_beq seg.table_id 0
    then by_name
    else or_else (first_column (λ s. nat_beq s.column_id c.id) seg.cols) by_name

-- UnmarshalNumericStats for int64 and for int32, the bounds as 64-bit patterns.
unfoldable pub stats64 : List ℕ → ℕ × ℕ
stats64 src = (from_le (take 8 src), from_le (take 8 (drop 8 src)))

unfoldable pub stats32 : List ℕ → ℕ × ℕ
stats32 src =
    (sign_extend 32 (from_le (take 4 src)), sign_extend 32 (from_le (take 4 (drop 4 src))))

unfoldable pub numeric_stats : SegmentColumn → Option (ℕ × ℕ)
numeric_stats c = if nat_beq c.rows 0 then none else some (stats64 c.stats)

unfoldable pub page_all_null : Page → Bool
page_all_null p = leb 1 (bit_and p.flags 2)

unfoldable pub kind_stats : VecKind → List ℕ → Option (ℕ × ℕ)
kind_stats vec_int16 s = some (stats32 s)
kind_stats vec_int32 s = some (stats32 s)
kind_stats vec_date s = some (stats32 s)
kind_stats vec_int64 s = some (stats64 s)
kind_stats vec_timestamp s = some (stats64 s)
kind_stats vec_time s = some (stats64 s)
kind_stats vec_decimal64 s = some (stats64 s)
kind_stats _ s = none

unfoldable pub with_some {ℓ κ} : {A : Type ℓ} {B : Type κ} → Option A → B → (A → B) → B
with_some none d f = d
with_some (some a) d f = f a

-- pageMinMaxInt. A column whose Pages are shorter than its PageStats would panic.
unfoldable pub page_min_max : SegmentColumn → ℕ → Option (ℕ × ℕ)
page_min_max c i = with_some (get_elem? c.page_stats i) none (λ s.
    with_some (get_elem? c.pages i) none
      (λ p. if nat_beq p.rows 0 || page_all_null p then none else kind_stats c.kind s))

abbrev pub outside : ℕ → ℕ × ℕ → Bool
outside v b = less64 v b.0 || less64 b.1 v

abbrev pub not_less : ℕ → ℕ → Bool
not_less a b = not (less64 a b)
