-- ===== src/Tests/Catalogs.antt =====
-- A catalog with one table and one column.
use dripsql.Base.{◌≡◌, refl, false, none, some, [], ◌∷◌, All, codes, pos, text_beq}
use dripsql.Base.Dict.{get, put}
use dripsql.Schema.Names.{normalize_name, trim_space, trim_left, is_space, to_lower, lower}
use dripsql.Schema.Types.{parse_type, has_prefix, parse_kind_strict, is_named}
use dripsql.Schema.Specs.{mem_name}
use dripsql.Schema.OptionNames.{
  parse_storage_kind_strict, parse_profile_strict, parse_compression_strict,
}
use dripsql.Catalog.File.{Column, Table, CatFile, StoragePolicy}
use dripsql.Catalog.Validate.{
  validate, types_loop, tables_loop, mem_id, validate_table, columns_loop, check_column,
  active_with, check_references, check_primary_key, check_constraints, check_indexes, check_policy,
  check_segment_rows, refer, check_codecs,
}
use dripsql.Catalog.Sound.{TablesOk, LiveColumn, validate-live}

abbrev id_column : Column
id_column = record {
  column_id = 1;
  name = codes "id";
  col_type = codes "int64";
  nullable = false;
  ordinal = pos 0;
  added_at_generation = 1;
  dropped_at_generation = none;
  initial_default = none;
}

abbrev policy : StoragePolicy
policy = record {
  storage = codes "default";
  profile = codes "default";
  segment_rows = record { mode = codes "auto"; rows = pos 0 };
  sort_by = 1 ∷ [];
  compression = codes "best";
  time_column_id = none;
  column_codecs = [];
}

abbrev users : Table
users = record {
  table_id = 1;
  name = codes "users";
  schema_version = 1;
  next_column_id = 2;
  created_at_generation = 1;
  updated_at_generation = 1;
  legacy_path = false;
  columns = id_column ∷ [];
  primary_key = 1 ∷ [];
  constraints = [];
  indexes = [];
  storage_policy = policy;
}

abbrev catalog : CatFile
catalog = record {
  format_version = 2;
  generation = 1;
  next_table_id = 2;
  next_type_id = 1;
  types = [];
  tables = users ∷ [];
}

catalog_accepted : validate (some catalog) ≡ none
unfolding validate types_loop tables_loop mem_id mem_name validate_table columns_loop check_column
    active_with check_references check_primary_key check_constraints check_indexes check_policy
    check_segment_rows refer check_codecs get put text_beq normalize_name trim_space trim_left
    is_space to_lower lower parse_type has_prefix parse_kind_strict is_named
    parse_storage_kind_strict parse_profile_strict parse_compression_strict
catalog_accepted = refl

validate-live_example :
    TablesOk catalog.next_table_id [] catalog.tables
    × All (λ (t : Table). All (LiveColumn t.columns) t.primary_key) catalog.tables
validate-live_example = validate-live catalog catalog_accepted
