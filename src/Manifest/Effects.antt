-- ===== src/Manifest/Effects.antt =====
-- What a commit does to the entries of the table.
use mathlib.Core.List.{foldl, map-append, append-nil, append_assoc}
use dripsql.Base.{
  ℕ, zero, suc, ◌+◌, ◌≤◌, ◌≡◌, ◌≢◌, refl, ap, sym, ◌∙◌, arith, false, List, [], ◌∷◌, ◌++◌, map,
  Text, ltb, if◌then◌else◌, All, le→ltb, Bool-cases, inl, inr, text_eq, text_beq_iff, ◌==◌,
  Option-cases,
}
use dripsql.Base.Dict.{get}
use dripsql.Manifest.Records.{SegmentAdd, DvUpdate, Entry, no_entry}
use dripsql.Manifest.Resolve.{
  Work, no_work, apply_add, apply_dv, apply_record, added_entry, update_at, resolve_loop, compact,
  resolve_filtered, point_dv,
}
use dripsql.Manifest.Handle.{Manifest, snapshot, append_record, commit, max_uint64}
use dripsql.Manifest.TimeTravel.{IsVersioned}

abbrev pub paths : List Entry → List Text
paths es = map (λ (e : Entry). e.path) es

-- The newest record is applied to what the records before it make.
pub resolve_loop-newest :
    (v max_ts : ℕ) (w : Work) (records : List Entry) (rec : Entry)
    → All (λ (e : Entry). e.version ≤ v) records
    → rec.version ≡ v + 1
    → rec.commit_ts ≤ max_ts
    → resolve_loop (v + 1) max_ts w (records ++ rec ∷ [])
      ≡ apply_record (resolve_loop v max_ts w records) rec
unfolding resolve_loop
resolve_loop-newest v max_ts w [] rec vs newest seen =
    rw (le→ltb (v + 1) rec.version (omega arith), le→ltb max_ts rec.commit_ts seen)
resolve_loop-newest v max_ts w (r ∷ records) rec vs newest seen =
    rw (le→ltb v r.version vs.0, le→ltb (v + 1) r.version (omega (arith, vs.0)))
      (resolve_loop-newest v max_ts (if ltb max_ts r.commit_ts then w else apply_record w r) records
        rec vs.1 newest seen)

pub compact-append : (xs ys : List Entry) → compact (xs ++ ys) ≡ compact xs ++ compact ys
unfolding compact
compact-append [] ys = refl
compact-append (x ∷ xs) ys = ground (arith, compact-append xs ys)

-- A change that leaves the path alone leaves the paths of the live entries alone.
paths-update_at :
    (i : ℕ) (f : Entry → Entry) (es : List Entry)
    → ((e : Entry) → (f e).path ≡ e.path)
    → paths (compact (update_at i f es)) ≡ paths (compact es)
unfolding compact
paths-update_at i f [] h = refl
paths-update_at zero f (e ∷ es) h = ground (arith, h e)
paths-update_at (suc i) f (e ∷ es) h = ground (arith, paths-update_at i f es h)

out-apply_adds :
    (rec : Entry) (adds : List SegmentAdd) (w : Work)
    → (foldl (apply_add rec) w adds).out ≡ w.out ++ map (added_entry rec) adds
out-apply_adds rec [] w = rw append-nil
out-apply_adds rec (a ∷ adds) w =
    out-apply_adds rec adds (apply_add rec w a) ∙ (unfold apply_add in append_assoc w.out _ _)

paths-apply_dv :
    (rec : Entry) (dv : DvUpdate) (w : Work)
    → paths (compact (apply_dv rec w dv).out) ≡ paths (compact w.out)
unfolding apply_dv
paths-apply_dv rec dv w = elim (Option-cases (get dv.segment_path w.idx)) [
  | inl unknown ↦ rw (unknown, apply_dv)
  | inr (i, known) ↦ rw (known, apply_dv) (paths-update_at i (point_dv rec dv) w.out (λ e. refl))
]

paths-apply_dvs :
    (rec : Entry) (dvs : List DvUpdate) (w : Work)
    → paths (compact (foldl (apply_dv rec) w dvs).out) ≡ paths (compact w.out)
paths-apply_dvs rec [] w = refl
paths-apply_dvs rec (dv ∷ dvs) w =
    paths-apply_dvs rec dvs (apply_dv rec w dv) ∙ paths-apply_dv rec dv w

named_ne : (p : Text) → p ≢ [] → (p == []) ≡ false
named_ne p h = elim (Bool-cases (p == [])) [
  | inl same ↦ absurd (h ((text_beq_iff p []).0 same))
  | inr other ↦ other
]

-- All added segments are live.
paths-added :
    (rec : Entry) (adds : List SegmentAdd)
    → All (λ (a : SegmentAdd). a.path ≢ []) adds
    → paths (compact (map (added_entry rec) adds)) ≡ map (λ (a : SegmentAdd). a.path) adds
unfolding compact added_entry
paths-added rec [] h = refl
paths-added rec (a ∷ adds) h =
    rw (named_ne a.path h.0) (ap (λ l. a.path ∷ l) (paths-added rec adds h.1))

-- A transaction record: no path of its own, and nothing removed.
abbrev pub transaction : ℕ → ℕ → List SegmentAdd → List DvUpdate → Entry
transaction version ts adds dvs = record no_entry {
  version = version;
  commit_ts = ts;
  adds = adds;
  dv_updates = dvs;
}

paths-transaction :
    (version ts : ℕ) (adds : List SegmentAdd) (dvs : List DvUpdate) (w : Work)
    → All (λ (a : SegmentAdd). a.path ≢ []) adds
    → paths (compact (apply_record w (transaction version ts adds dvs)).out)
      ≡ paths (compact w.out) ++ map (λ (a : SegmentAdd). a.path) adds
unfolding apply_record
paths-transaction version ts adds dvs w named = rw ((text_beq_iff [] []).1 refl) (
    paths-apply_dvs rec dvs (foldl (apply_add rec) w adds)
    ∙ ap (λ es. paths (compact es)) (out-apply_adds rec adds w)
    ∙ ap paths (compact-append w.out (map (added_entry rec) adds))
    ∙ map-append _ (compact w.out) _
    ∙ ap (λ l. paths (compact w.out) ++ l) (paths-added rec adds named))
  where
    rec : Entry
    rec = transaction version ts adds dvs

paths-append_record :
    (ts : ℕ) (adds : List SegmentAdd) (dvs : List DvUpdate) (m : Manifest)
    → IsVersioned m
    → ts ≤ max_uint64
    → All (λ (a : SegmentAdd). a.path ≢ []) adds
    → paths (snapshot (append_record (transaction 0 ts adds dvs) m)).entries
      ≡ paths (snapshot m).entries ++ map (λ (a : SegmentAdd). a.path) adds
unfolding snapshot append_record resolve_filtered
paths-append_record ts adds dvs m v fits named =
    ap (λ (w : Work). paths (compact w.out))
      (resolve_loop-newest m.version max_uint64 no_work m.records _ v.versions refl fits)
    ∙ paths-transaction (m.version + 1) ts adds dvs _ named

-- A commit makes all its segments visible at once, behind those that were visible, whatever
-- deletion vectors it changes. The manifest's records are not newer than it; the commit has a path
-- for each segment and a timestamp of 64 bits.
pub paths-commit :
    (ts : ℕ) (adds : List SegmentAdd) (dvs : List DvUpdate) (m : Manifest)
    → IsVersioned m
    → ts ≤ max_uint64
    → All (λ (a : SegmentAdd). a.path ≢ []) adds
    → paths (snapshot (commit ts adds dvs m)).entries
      ≡ paths (snapshot m).entries ++ map (λ (a : SegmentAdd). a.path) adds
unfolding commit
paths-commit ts [] [] m v fits named = sym (append-nil _)
paths-commit ts (a ∷ adds) dvs m v fits named = paths-append_record ts (a ∷ adds) dvs m v fits named
paths-commit ts [] (d ∷ dvs) m v fits named = paths-append_record ts [] (d ∷ dvs) m v fits named
