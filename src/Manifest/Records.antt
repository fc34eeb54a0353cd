-- ===== src/Manifest/Records.antt =====
-- The records of internal/storage/manifest.go.
use dripsql.Base.{ℕ, Text, List, []}

pub record SegmentAdd : Type 0 where
  pub path : Text
  pub rows : ℕ
  pub content_hash : ℕ
  pub schema_generation : ℕ

pub record DvUpdate : Type 0 where
  pub segment_path : Text
  pub dv_path : Text
  pub rows : ℕ

-- A segment (`path` is set), or a transaction (`path` is empty).
pub record Entry : Type 0 where
  pub version : ℕ
  pub commit_ts : ℕ
  pub path : Text
  pub rows : ℕ
  pub content_hash : ℕ
  pub schema_generation : ℕ
  pub deletion_vector_path : Text
  pub dv_commit_ts : ℕ
  pub adds : List SegmentAdd
  pub dv_updates : List DvUpdate
  pub removes : List Text

-- ManifestEntry{}
abbrev pub no_entry : Entry
no_entry = record {
  version = 0;
  commit_ts = 0;
  path = [];
  rows = 0;
  content_hash = 0;
  schema_generation = 0;
  deletion_vector_path = [];
  dv_commit_ts = 0;
  adds = [];
  dv_updates = [];
  removes = [];
}
