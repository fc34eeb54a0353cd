-- ===== src/Catalog/File.antt =====
-- internal/catalog/types.go: the catalog as it is persisted.
use dripsql.Base.{ℕ, Bool, Option, List, Text, ℤ}

abbrev pub current_format_version : ℕ
current_format_version = 2

pub record CatType : Type 0 where
  pub type_id : ℕ
  pub name : Text
  pub kind : Text
  pub labels : List Text
  pub created_at_generation : ℕ
  pub updated_at_generation : ℕ

-- The initial default is raw JSON.
pub record Column : Type 0 where
  pub column_id : ℕ
  pub name : Text
  pub col_type : Text
  pub nullable : Bool
  pub ordinal : ℤ
  pub added_at_generation : ℕ
  pub dropped_at_generation : Option ℕ
  pub initial_default : Option Text

pub record SegmentRows : Type 0 where
  pub mode : Text
  pub rows : ℤ

pub record ColumnCodec : Type 0 where
  pub column_id : ℕ
  pub codec : Text

pub record StoragePolicy : Type 0 where
  pub storage : Text
  pub profile : Text
  pub segment_rows : SegmentRows
  pub sort_by : List ℕ
  pub compression : Text
  pub time_column_id : Option ℕ
  pub column_codecs : List ColumnCodec

pub record Constraint : Type 0 where
  pub name : Text
  pub kind : Text
  pub columns : List ℕ
  pub predicate : Text

pub record Index : Type 0 where
  pub name : Text
  pub kind : Text
  pub columns : List ℕ
  pub unique : Bool

pub record Table : Type 0 where
  pub table_id : ℕ
  pub name : Text
  pub schema_version : ℕ
  pub next_column_id : ℕ
  pub created_at_generation : ℕ
  pub updated_at_generation : ℕ
  pub legacy_path : Bool
  pub columns : List Column
  pub primary_key : List ℕ
  pub constraints : List Constraint
  pub indexes : List Index
  pub storage_policy : StoragePolicy

pub record CatFile : Type 0 where
  pub format_version : ℕ
  pub generation : ℕ
  pub next_table_id : ℕ
  pub next_type_id : ℕ
  pub types : List CatType
  pub tables : List Table
