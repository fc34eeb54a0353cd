-- ===== src/Schema/Specs.antt =====
-- internal/schema/schema.go: the specifications of types and tables, and their Validate methods.
use dripsql.Base.{
  ℕ, Bool, true, false, not, ◌&&◌, ◌||◌, Option, none, some, List, [], ◌∷◌, Text, text_eq, nat_eq,
  ◌==◌, ltb, ℤ, pos, negsuc,
}
use dripsql.Schema.Names.{normalize_name, trim_space}
use dripsql.Schema.Types.{SqlType, valid}
use dripsql.Schema.Encodings.{Encoding}

pub record TypeSpec : Type 0 where
  pub name : Text
  pub enum_labels : List Text

pub record ColumnSpec : Type 0 where
  pub name : Text
  pub col_type : SqlType
  pub nullable : Bool
  pub codec : Encoding

pub record SegmentRowsOption : Type 0 where
  pub auto : Bool
  pub rows : ℤ

-- The enumerations are uint8 values, `storage`, `profile` and `compression`.
pub record TableOptions : Type 0 where
  pub storage : ℕ
  pub profile : ℕ
  pub segment_rows : SegmentRowsOption
  pub sort_by : List Text
  pub compression : ℕ
  pub time_column : Text

pub record TableSpec : Type 0 where
  pub name : Text
  pub columns : List ColumnSpec
  pub options : TableOptions

-- StorageHybrid, ProfileLogAnalytics, CompressionNone, CompressionFast and CompressionBest.
abbrev pub storage_hybrid : ℕ
storage_hybrid = 3

abbrev pub profile_log_analytics : ℕ
profile_log_analytics = 4

abbrev pub compression_none : ℕ
compression_none = 2

abbrev pub compression_fast : ℕ
compression_fast = 3

abbrev pub compression_best : ℕ
compression_best = 4

pub data SpecError : Type 0 where
  name_required name_untrimmed auto_with_rows negative_rows : SpecError
  no_labels empty_label duplicate_label : SpecError
  bad_storage bad_profile bad_compression : SpecError
  no_columns invalid_type duplicate_column sort_by_missing time_column_missing : SpecError

-- `none` is a nil error.
abbrev pub Verdict : Type 0
Verdict = Option SpecError

-- `if err := a; err != nil { return err }`, and then `b`.
abbrev pub or_else : Verdict → Verdict → Verdict
or_else (some e) b = some e
or_else none b = b

abbrev pub fail_if : Bool → SpecError → Verdict
fail_if true e = some e
fail_if false e = none

-- A map that is used as a set.
unfoldable pub mem_name : Text → List Text → Bool
mem_name x [] = false
mem_name x (y ∷ ys) = y == x || mem_name x ys

unfoldable pub require_trimmed_name : Text → Verdict
require_trimmed_name name =
    or_else (fail_if (trim_space name == []) name_required)
      (fail_if (not (trim_space name == name)) name_untrimmed)

abbrev pub is_zero : ℤ → Bool
is_zero (pos n) = n == 0
is_zero (negsuc n) = false

abbrev pub is_negative : ℤ → Bool
is_negative (pos n) = false
is_negative (negsuc n) = true

unfoldable pub segment_rows_validate : SegmentRowsOption → Verdict
segment_rows_validate o =
    or_else (fail_if (o.auto && not (is_zero o.rows)) auto_with_rows)
      (fail_if (is_negative o.rows) negative_rows)

unfoldable pub labels_loop : List Text → List Text → Verdict
unfolding mem_name
labels_loop seen [] = none
labels_loop seen (label ∷ labels) =
    or_else (fail_if (label == []) empty_label)
      (or_else (fail_if (mem_name label seen) duplicate_label) (labels_loop (label ∷ seen) labels))

abbrev pub is_empty {ℓ} : {A : Type ℓ} → List A → Bool
is_empty [] = true
is_empty (x ∷ xs) = false

unfoldable pub type_validate : TypeSpec → Verdict
unfolding require_trimmed_name labels_loop
type_validate s =
    or_else (require_trimmed_name s.name)
      (or_else (fail_if (is_empty s.enum_labels) no_labels) (labels_loop [] s.enum_labels))

unfoldable pub column_validate : ColumnSpec → Verdict
unfolding require_trimmed_name
column_validate c =
    or_else (require_trimmed_name c.name) (fail_if (not (valid c.col_type)) invalid_type)

unfoldable pub options_validate : TableOptions → Verdict
unfolding segment_rows_validate
options_validate o = or_else (fail_if (ltb storage_hybrid o.storage) bad_storage) (
    or_else (fail_if (ltb profile_log_analytics o.profile) bad_profile) (
      or_else (segment_rows_validate o.segment_rows)
        (fail_if (ltb compression_best o.compression) bad_compression)))

-- The loop over the columns: an error, or the names that it has seen.
pub data Seen : Type 0 where
  stopped : SpecError → Seen
  names : List Text → Seen

abbrev pub continue_with : Verdict → Seen → Seen
continue_with (some e) rest = stopped e
continue_with none rest = rest

unfoldable pub columns_loop : List Text → List ColumnSpec → Seen
unfolding column_validate mem_name
columns_loop seen [] = names seen
columns_loop seen (col ∷ cols) =
    let name = normalize_name col.name in
    continue_with (or_else (column_validate col) (fail_if (mem_name name seen) duplicate_column))
      (columns_loop (name ∷ seen) cols)

unfoldable pub sort_by_loop : List Text → List Text → Verdict
unfolding mem_name
sort_by_loop seen [] = none
sort_by_loop seen (name ∷ rest) =
    or_else (fail_if (not (mem_name (normalize_name name) seen)) sort_by_missing)
      (sort_by_loop seen rest)

unfoldable pub references_validate : TableOptions → Seen → Verdict
unfolding sort_by_loop
references_validate o (stopped e) = some e
references_validate o (names seen) = or_else (sort_by_loop seen o.sort_by) (
    fail_if (not (o.time_column == []) && not (mem_name (normalize_name o.time_column) seen))
      time_column_missing)

unfoldable pub table_validate : TableSpec → Verdict
unfolding require_trimmed_name options_validate columns_loop references_validate
table_validate s = or_else (require_trimmed_name s.name) (
    or_else (fail_if (is_empty s.columns) no_columns) (
      or_else (options_validate s.options)
        (references_validate s.options (columns_loop [] s.columns))))

unfoldable pub allows_flate : ℕ → Bool
allows_flate p = not (p == compression_none)

unfoldable pub allows_zstd : ℕ → Bool
allows_zstd p = not (p == compression_none) && not (p == compression_fast)
