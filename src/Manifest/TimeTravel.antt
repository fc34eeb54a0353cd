-- ===== src/Manifest/TimeTravel.antt =====
-- The views of the past stay: what a later record cannot change.
use native.Mathlib.Nat.{min-eq_left, le_refl}
use dripsql.Base.{
  ℕ, ◌+◌, ◌≤◌, ◌<◌, ◌≡◌, refl, ap, ◌∙◌, arith, List, [], ◌∷◌, ◌++◌, ltb, if◌then◌else◌, All,
  All-append, lt→ltb, le→ltb,
}
use dripsql.Manifest.Records.{Entry}
use dripsql.Manifest.Resolve.{Work, no_work, apply_record, resolve_loop, compact, resolve_filtered}
use dripsql.Manifest.Handle.{Manifest, at, snapshot_at, append_record, max_uint64}

-- No record is newer than the manifest.
pub record IsVersioned (m : Manifest) : Type 0 where
  pub versions : All (λ (e : Entry). e.version ≤ m.version) m.records

-- A record past the version ends the loop.
resolve_loop-past :
    (up_to max_ts : ℕ) (w : Work) (records : List Entry) (rec : Entry)
    → up_to < rec.version
    → resolve_loop up_to max_ts w (records ++ rec ∷ []) ≡ resolve_loop up_to max_ts w records
unfolding resolve_loop
resolve_loop-past up_to max_ts w [] rec h = rw (lt→ltb up_to rec.version h)
resolve_loop-past up_to max_ts w (r ∷ records) rec h = rw (
    resolve_loop-past up_to max_ts (if ltb max_ts r.commit_ts then w else apply_record w r) records
      rec h)

-- A record later than the timestamp is passed over, and the version does not matter beyond all records.
resolve_loop-later :
    (up_to up_to' max_ts : ℕ) (w : Work) (records : List Entry) (rec : Entry)
    → All (λ (e : Entry). e.version ≤ up_to) records
    → up_to ≤ up_to'
    → max_ts < rec.commit_ts
    → resolve_loop up_to' max_ts w (records ++ rec ∷ []) ≡ resolve_loop up_to max_ts w records
unfolding resolve_loop
resolve_loop-later up_to up_to' max_ts w [] rec vs le h = ground (arith)
resolve_loop-later up_to up_to' max_ts w (r ∷ records) rec vs le h =
    rw (le→ltb up_to r.version vs.0, le→ltb up_to' r.version (omega (arith, vs.0)))
      (resolve_loop-later up_to up_to' max_ts
        (if ltb max_ts r.commit_ts then w else apply_record w r) records rec vs.1 le h)

at_past : (v : ℕ) (e : Entry) (m : Manifest) → v ≤ m.version → at v (append_record e m) ≡ at v m
unfolding at append_record resolve_filtered
at_past v e m h = rw (
  min-eq_left h,
  min-eq_left (le_step' v m.version h),
  resolve_loop-past v max_uint64 no_work m.records (record e { version = m.version + 1 })
      (omega arith),
)
  where
    le_step' : (a b : ℕ) → a ≤ b → a ≤ b + 1
    le_step' a b k = omega arith

snapshot_at_later :
    (ts : ℕ) (e : Entry) (m : Manifest)
    → IsVersioned m
    → ts < e.commit_ts
    → (snapshot_at ts (append_record e m)).entries ≡ (snapshot_at ts m).entries
unfolding snapshot_at append_record resolve_filtered
snapshot_at_later ts e m v h =
    ap (λ (w : Work). compact w.out)
      (resolve_loop-later m.version (m.version + 1) ts no_work m.records _ v.versions (omega arith)
        h)

weaken :
    (n : ℕ) (es : List Entry)
    → All (λ (e : Entry). e.version ≤ n) es
    → All (λ (e : Entry). e.version ≤ n + 1) es
weaken n [] vs = tt
weaken n (e ∷ es) vs = (omega (arith, vs.0), weaken n es vs.1)

pub append_record-IsVersioned :
    (e : Entry) (m : Manifest) → IsVersioned m → IsVersioned (append_record e m)
unfolding append_record
append_record-IsVersioned e m v = record {
  versions = All-append _ m.records _ (weaken m.version m.records v.versions) (le_refl _, tt);
}

-- Records appended one after the other.
unfoldable pub append_all : List Entry → Manifest → Manifest
append_all [] m = m
append_all (e ∷ es) m = append_all es (append_record e m)

-- A version that the manifest has is seen in the same way after any later records.
pub at-append_all :
    (v : ℕ) (es : List Entry) (m : Manifest) → v ≤ m.version → at v (append_all es m) ≡ at v m
unfolding append_all
at-append_all v [] m h = refl
at-append_all v (e ∷ es) m h = at-append_all v es (append_record e m) (longer h) ∙ at_past v e m h
  where
    longer : v ≤ m.version → v ≤ (append_record e m).version
    longer k = unfold append_record in omega arith

-- In a manifest whose records are not newer than it, a reader pinned at a timestamp sees the same
-- entries after any records with later timestamps.
pub snapshot_at-append_all :
    (ts : ℕ) (es : List Entry) (m : Manifest)
    → IsVersioned m
    → All (λ (e : Entry). ts < e.commit_ts) es
    → (snapshot_at ts (append_all es m)).entries ≡ (snapshot_at ts m).entries
unfolding append_all
snapshot_at-append_all ts [] m v h = refl
snapshot_at-append_all ts (e ∷ es) m v h =
    snapshot_at-append_all ts es (append_record e m) (append_record-IsVersioned e m v) h.1
    ∙ snapshot_at_later ts e m v h.0
