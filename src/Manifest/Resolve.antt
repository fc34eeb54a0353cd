-- ===== src/Manifest/Resolve.antt =====
-- resolveLockedFiltered: the records up to a version and a commit timestamp as entries of segments.
use mathlib.Core.List.{foldl}
use dripsql.Base.{
  ℕ, zero, suc, not, none, some, List, [], ◌∷◌, ◌++◌, Text, text_eq, ◌==◌, ltb, if◌then◌else◌,
  length,
}
use dripsql.Base.Dict.{Dict, get, put, remove}
use dripsql.Manifest.Records.{SegmentAdd, DvUpdate, Entry, no_entry}

-- `out` and `idxByPath`.
pub record Work : Type 0 where
  pub out : List Entry
  pub idx : Dict Text ℕ

abbrev pub no_work : Work
no_work = record { out = []; idx = [] }

-- A change of out[i].
abbrev pub update_at : ℕ → (Entry → Entry) → List Entry → List Entry
update_at i f [] = []
update_at zero f (e ∷ es) = f e ∷ es
update_at (suc i) f (e ∷ es) = e ∷ update_at i f es

-- out = append(out, e); idxByPath[e.Path] = len(out) - 1
unfoldable pub push : Work → Entry → Work
push w e = record { out = w.out ++ e ∷ []; idx = put e.path (length w.out) w.idx }

unfoldable pub added_entry : Entry → SegmentAdd → Entry
added_entry rec a = record no_entry {
  version = rec.version;
  commit_ts = rec.commit_ts;
  path = a.path;
  rows = a.rows;
  content_hash = a.content_hash;
  schema_generation = a.schema_generation;
}

unfoldable pub apply_add : Entry → Work → SegmentAdd → Work
unfolding push added_entry
apply_add rec w a = push w (added_entry rec a)

abbrev pub point_dv : Entry → DvUpdate → Entry → Entry
point_dv rec dv e = record e { deletion_vector_path = dv.dv_path; dv_commit_ts = rec.commit_ts }

unfoldable pub apply_dv : Entry → Work → DvUpdate → Work
apply_dv rec w dv = elim (get dv.segment_path w.idx) [
  | none ↦ w
  | some i ↦ record w { out = update_at i (point_dv rec dv) w.out }
]

abbrev pub blank : Entry → Entry
blank e = record e { path = [] }

unfoldable pub apply_remove : Work → Text → Work
apply_remove w p = elim (get p w.idx) [
  | none ↦ w
  | some i ↦ record { out = update_at i blank w.out; idx = remove p w.idx }
]

unfoldable pub apply_record : Work → Entry → Work
unfolding push apply_add apply_dv apply_remove
apply_record w rec =
    if not (rec.path == [])
    then push w rec
    else foldl apply_remove (foldl (apply_dv rec) (foldl (apply_add rec) w rec.adds) rec.dv_updates)
        rec.removes

-- The loop over the records: `break` past the version, `continue` past the timestamp.
unfoldable pub resolve_loop : ℕ → ℕ → Work → List Entry → Work
resolve_loop up_to max_ts w [] = w
resolve_loop up_to max_ts w (rec ∷ rest) =
    let w' : Work = if ltb max_ts rec.commit_ts then w else apply_record w rec in
    let done = resolve_loop up_to max_ts w' rest in if ltb up_to rec.version then w else done

-- Entries whose path was blanked are dropped.
unfoldable pub compact : List Entry → List Entry
compact [] = []
compact (e ∷ es) = let rest = compact es in if e.path == [] then rest else e ∷ rest

unfoldable pub resolve_filtered : ℕ → ℕ → List Entry → List Entry
resolve_filtered up_to max_ts records = compact (resolve_loop up_to max_ts no_work records).out
