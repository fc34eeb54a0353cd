-- ===== src/Manifest/Handle.antt =====
-- The open manifest: its records in memory, and the views that it gives out.
use dripsql.Base.{ℕ, ◌+◌, ◌-◌, ◌^◌, List, [], ◌∷◌, ◌++◌, Text, ltb, if◌then◌else◌, min}
use dripsql.Manifest.Records.{SegmentAdd, DvUpdate, Entry, no_entry}
use dripsql.Manifest.Resolve.{resolve_filtered}

pub record View : Type 0 where
  pub version : ℕ
  pub entries : List Entry

pub record Manifest : Type 0 where
  pub records : List Entry
  pub version : ℕ

abbrev pub no_records : Manifest
no_records = record { records = []; version = 0 }

-- ^uint64(0)
abbrev pub max_uint64 : ℕ
max_uint64 = 2 ^ 64 - 1

unfoldable pub resolve : ℕ → Manifest → List Entry
resolve up_to m = resolve_filtered up_to max_uint64 m.records

unfoldable pub snapshot : Manifest → View
unfolding resolve
snapshot m = record { version = m.version; entries = resolve m.version m }

unfoldable pub at : ℕ → Manifest → View
unfolding resolve
at version m =
    let clamped = min version m.version in record { version = clamped; entries = resolve clamped m }

unfoldable pub snapshot_at : ℕ → Manifest → View
snapshot_at max_ts m = record {
  version = m.version;
  entries = resolve_filtered m.version max_ts m.records;
}

max_ts_loop : ℕ → List Entry → ℕ
max_ts_loop ts [] = ts
max_ts_loop ts (rec ∷ rest) = max_ts_loop (if ltb ts rec.commit_ts then rec.commit_ts else ts) rest

unfoldable pub max_commit_ts : Manifest → ℕ
unfolding max_ts_loop
max_commit_ts m = max_ts_loop 0 m.records

-- What appendRecord does to the records in memory once the line is on disk; Manifest/Append has the
-- file and the errors before that.
unfoldable pub append_record : Entry → Manifest → Manifest
append_record e m = record {
  records = m.records ++ record e { version = m.version + 1 } ∷ [];
  version = m.version + 1;
}

unfoldable pub commit : ℕ → List SegmentAdd → List DvUpdate → Manifest → Manifest
unfolding append_record
commit ts [] [] m = m
commit ts (a ∷ adds) dvs m =
    append_record (record no_entry { commit_ts = ts; adds = a ∷ adds; dv_updates = dvs }) m
commit ts [] (d ∷ dvs) m =
    append_record (record no_entry { commit_ts = ts; adds = []; dv_updates = d ∷ dvs }) m

unfoldable pub retire : ℕ → List Text → Manifest → Manifest
unfolding append_record
retire ts [] m = m
retire ts (p ∷ paths) m = append_record (record no_entry { commit_ts = ts; removes = p ∷ paths }) m
