-- ===== src/Tests/Manifests.antt =====
-- The manifest of internal/storage/manifest.go with one segment and later records.
use dripsql.Base.{◌≡◌, ◌++◌, List, [], ◌∷◌, arith, codes, Text, map}
use dripsql.Manifest.Records.{SegmentAdd, Entry, no_entry}
use dripsql.Manifest.Handle.{Manifest, snapshot, snapshot_at, at, commit}
use dripsql.Manifest.TimeTravel.{IsVersioned, append_all, at-append_all, snapshot_at-append_all}
use dripsql.Manifest.Effects.{paths, paths-commit}

abbrev pub segment : Text → SegmentAdd
segment p = record { path = p; rows = 10; content_hash = 0; schema_generation = 1 }

abbrev one_segment : Manifest
one_segment = record {
  records = record no_entry { version = 1; commit_ts = 5; adds = segment (codes "s1") ∷ [] } ∷ [];
  version = 1;
}

abbrev later : List Entry
later = record no_entry { commit_ts = 9; removes = codes "s1" ∷ [] } ∷ []

one-IsVersioned : IsVersioned one_segment
one-IsVersioned = record { versions = (omega arith, tt) }

at-append_all_example : at 1 (append_all later one_segment) ≡ at 1 one_segment
at-append_all_example = at-append_all 1 later one_segment (omega arith)

snapshot_at-append_all_example :
    (snapshot_at 7 (append_all later one_segment)).entries ≡ (snapshot_at 7 one_segment).entries
snapshot_at-append_all_example =
    snapshot_at-append_all 7 later one_segment one-IsVersioned (omega arith, tt)

paths-commit_example :
    paths (snapshot (commit 6 (segment (codes "s2") ∷ []) [] one_segment)).entries
    ≡ paths (snapshot one_segment).entries
      ++ map (λ (a : SegmentAdd). a.path) (segment (codes "s2") ∷ [])
paths-commit_example =
    paths-commit 6 (segment (codes "s2") ∷ []) [] one_segment one-IsVersioned (omega arith)
      ((λ e. cc), tt)
