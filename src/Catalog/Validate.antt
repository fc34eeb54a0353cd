-- ===== src/Catalog/Validate.antt =====
-- internal/catalog/validate.go: Validate and validateTable.
use dripsql.Base.{
  ℕ, Bool, true, false, not, ◌&&◌, ◌||◌, Option, none, some, List, [], ◌∷◌, Text, text_eq, nat_eq,
  ◌==◌, codes, if◌then◌else◌, ltb, leb,
}
use dripsql.Base.Dict.{Dict, get, put}
use dripsql.Schema.Names.{normalize_name}
use dripsql.Schema.Types.{SqlType, parse_type, is_named}
use dripsql.Schema.Encodings.{parse_encoding_strict}
use dripsql.Schema.Specs.{mem_name, is_zero, is_negative, is_empty}
use dripsql.Schema.OptionNames.{
  parse_storage_kind_strict, parse_profile_strict, parse_compression_strict,
}
use dripsql.Catalog.File.{
  CatType, Column, SegmentRows, ColumnCodec, StoragePolicy, Constraint, Index, Table, CatFile,
  current_format_version,
}

pub data CatalogError : Type 0 where
  nil_file zero_version newer_version : CatalogError
  zero_id duplicate_id empty_name duplicate_name next_id_too_small : CatalogError
  unknown_kind no_labels zero_schema_version : CatalogError
  bad_type unknown_named_type : CatalogError
  key_missing key_dropped constraint_missing index_missing : CatalogError
  unknown_storage unknown_profile unknown_compression : CatalogError
  auto_with_rows fixed_without_rows unknown_mode : CatalogError
  sort_by_missing time_column_missing duplicate_codec codec_missing unknown_codec : CatalogError

-- `none` is a nil error.
abbrev pub Check : Type 0
Check = Option CatalogError

infixr 2 ◌andalso◌
-- Returns at the first error.
abbrev pub ◌andalso◌ : Check → Check → Check
some e andalso b = some e
none andalso b = b

infix 6 ◌unless◌
-- The error, unless the condition holds.
abbrev pub ◌unless◌ : CatalogError → Bool → Check
e unless true = none
e unless false = some e

abbrev pub is_present {ℓ} : {A : Type ℓ} → Option A → Bool
is_present none = false
is_present (some a) = true

unfoldable pub mem_id : ℕ → List ℕ → Bool
mem_id x [] = false
mem_id x (y ∷ ys) = y == x || mem_id x ys

-- What both loops ask of an entry: an identity that is not zero, not yet used and below the next, and
-- a name that is not yet used.
unfoldable pub check_type : ℕ → List ℕ → List Text → CatType → Check
unfolding mem_id mem_name
check_type next ids names t =
    zero_id unless not (t.type_id == 0)
    andalso duplicate_id unless not (mem_id t.type_id ids)
    andalso empty_name unless not (normalize_name t.name == [])
    andalso duplicate_name unless not (mem_name (normalize_name t.name) names)
    andalso unknown_kind unless t.kind == codes "enum"
    andalso no_labels unless not (is_empty t.labels)
    andalso next_id_too_small unless ltb t.type_id next

-- The loop over the types: an error, or the normalised names.
pub data Names : Type 0 where
  stopped : CatalogError → Names
  collected : List Text → Names

abbrev pub go_on : Check → Names → Names
go_on (some e) rest = stopped e
go_on none rest = rest

unfoldable pub types_loop : ℕ → List ℕ → List Text → List CatType → Names
unfolding check_type
types_loop next ids names [] = collected names
types_loop next ids names (t ∷ ts) =
    go_on (check_type next ids names t)
      (types_loop next (t.type_id ∷ ids) (normalize_name t.name ∷ names) ts)

abbrev pub known_type : List Text → Option SqlType → Check
known_type types none = some bad_type
known_type types (some t) = unknown_named_type unless (not (is_named t) || mem_name t.name types)

-- One column; a name counts only while the column is not dropped.
unfoldable pub check_column : List Text → ℕ → Dict ℕ Column → List Text → Column → Check
check_column types next by_id active c =
    zero_id unless not (c.column_id == 0)
    andalso duplicate_id unless not (is_present (get c.column_id by_id))
    andalso next_id_too_small unless ltb c.column_id next
    andalso empty_name unless not (normalize_name c.name == [])
    andalso duplicate_name
      unless (is_present c.dropped_at_generation || not (mem_name (normalize_name c.name) active))
    andalso known_type types (parse_type c.col_type)

unfoldable pub active_with : Column → List Text → List Text
active_with c active =
    if is_present c.dropped_at_generation then active else normalize_name c.name ∷ active

-- The loop over the columns: an error, or the columns by identity.
pub data Columns : Type 0 where
  failed : CatalogError → Columns
  by_id : Dict ℕ Column → Columns

abbrev pub go_on_columns : Check → Columns → Columns
go_on_columns (some e) rest = failed e
go_on_columns none rest = rest

unfoldable pub columns_loop : List Text → ℕ → Dict ℕ Column → List Text → List Column → Columns
unfolding check_column active_with
columns_loop types next cols active [] = by_id cols
columns_loop types next cols active (c ∷ cs) =
    go_on_columns (check_column types next cols active c)
      (columns_loop types next (put c.column_id c cols) (active_with c active) cs)

-- All the identities are columns.
unfoldable pub refer : CatalogError → Dict ℕ Column → List ℕ → Check
refer e cols [] = none
refer e cols (id ∷ ids) = e unless is_present (get id cols) andalso refer e cols ids

abbrev pub live_column : Option Column → Check
live_column none = some key_missing
live_column (some c) = key_dropped unless not (is_present c.dropped_at_generation)

unfoldable pub check_primary_key : Dict ℕ Column → List ℕ → Check
check_primary_key cols [] = none
check_primary_key cols (id ∷ ids) = live_column (get id cols) andalso check_primary_key cols ids

unfoldable pub check_constraints : Dict ℕ Column → List Constraint → Check
unfolding refer
check_constraints cols [] = none
check_constraints cols (c ∷ cs) =
    refer constraint_missing cols c.columns andalso check_constraints cols cs

unfoldable pub check_indexes : Dict ℕ Column → List Index → Check
unfolding refer
check_indexes cols [] = none
check_indexes cols (x ∷ xs) = refer index_missing cols x.columns andalso check_indexes cols xs

unfoldable pub check_segment_rows : SegmentRows → Check
check_segment_rows s =
    if s.mode == codes "auto"
    then auto_with_rows unless is_zero s.rows
    else if s.mode == codes "fixed"
    then fixed_without_rows unless (not (is_zero s.rows) && not (is_negative s.rows))
    else some unknown_mode

abbrev pub check_time_column : Dict ℕ Column → Option ℕ → Check
check_time_column cols none = none
check_time_column cols (some id) = time_column_missing unless is_present (get id cols)

unfoldable pub check_codecs : Dict ℕ Column → List ℕ → List ColumnCodec → Check
unfolding mem_id
check_codecs cols seen [] = none
check_codecs cols seen (cc ∷ ccs) =
    duplicate_codec unless not (mem_id cc.column_id seen)
    andalso codec_missing unless is_present (get cc.column_id cols)
    andalso unknown_codec unless is_present (parse_encoding_strict cc.codec)
    andalso check_codecs cols (cc.column_id ∷ seen) ccs

unfoldable pub check_policy : Dict ℕ Column → StoragePolicy → Check
unfolding check_segment_rows refer check_codecs
check_policy cols p =
    unknown_storage unless is_present (parse_storage_kind_strict p.storage)
    andalso unknown_profile unless is_present (parse_profile_strict p.profile)
    andalso unknown_compression unless is_present (parse_compression_strict p.compression)
    andalso check_segment_rows p.segment_rows
    andalso refer sort_by_missing cols p.sort_by
    andalso check_time_column cols p.time_column_id
    andalso check_codecs cols [] p.column_codecs

unfoldable pub check_references : Table → Columns → Check
unfolding check_primary_key check_constraints check_indexes check_policy
check_references t (failed e) = some e
check_references t (by_id cols) =
    check_primary_key cols t.primary_key
    andalso check_constraints cols t.constraints
    andalso check_indexes cols t.indexes
    andalso check_policy cols t.storage_policy

unfoldable pub validate_table : Table → List Text → Check
unfolding columns_loop check_references
validate_table t types =
    zero_schema_version unless not (t.schema_version == 0)
    andalso check_references t (columns_loop types t.next_column_id [] [] t.columns)

unfoldable pub tables_loop : ℕ → List Text → List ℕ → List Text → List Table → Check
unfolding validate_table mem_id
tables_loop next types ids names [] = none
tables_loop next types ids names (t ∷ ts) =
    zero_id unless not (t.table_id == 0)
    andalso duplicate_id unless not (mem_id t.table_id ids)
    andalso empty_name unless not (normalize_name t.name == [])
    andalso duplicate_name unless not (mem_name (normalize_name t.name) names)
    andalso next_id_too_small unless ltb t.table_id next
    andalso validate_table t types
    andalso tables_loop next types (t.table_id ∷ ids) (normalize_name t.name ∷ names) ts

abbrev pub check_tables : CatFile → Names → Check
check_tables f (stopped e) = some e
check_tables f (collected types) = tables_loop f.next_table_id types [] [] f.tables

-- A nil pointer is `none`.
unfoldable pub validate : Option CatFile → Check
unfolding types_loop tables_loop
validate none = some nil_file
validate (some f) =
    zero_version unless not (f.format_version == 0)
    andalso newer_version unless leb f.format_version current_format_version
    andalso check_tables f (types_loop f.next_type_id [] [] f.types)
