-- ===== src/Engine/Seen.antt =====
-- What a reader sees of a table and of the disk, and what one group of recovery does to that.
use mathlib.Core.List.{foldl}
use dripsql.Base.{
  ◌+◌, ◌≤◌, ◌≡◌, ◌≢◌, refl, ap, Bool, true, false, ◌||◌, some, List, [], ◌∷◌, ◌++◌, map, Text,
  text_eq, nat_eq, ◌==◌, arith, text_beq_iff, All, Bool-cases, inl, inr,
}
use dripsql.Schema.Names.{normalize_name}
use dripsql.Manifest.Records.{SegmentAdd, DvUpdate, Entry}
use dripsql.Manifest.Handle.{snapshot, max_uint64}
use dripsql.Manifest.TimeTravel.{IsVersioned}
use dripsql.Manifest.Effects.{paths}
use dripsql.Wal.Pending.{ManifestIntent, Json}
use dripsql.Engine.Commit.{Db, Staged, manifest_for}
use dripsql.Engine.Recover.{
  mem_path, any_known, intent_committed, any_committed, recover_txn_group, staged_of, remove_file,
  mark_intent_resolved, forward_roll, unwind, remove_staged,
}
use dripsql.Engine.Logs.{ReadsIntent}

unfoldable pub mem_text : Text → List Text → Bool
mem_text p [] = false
mem_text p (q ∷ qs) = q == p || mem_text p qs

pub mem_path-paths : (p : Text) (es : List Entry) → mem_path p es ≡ mem_text p (paths es)
unfolding mem_path mem_text
mem_path-paths p [] = refl
mem_path-paths p (e ∷ es) = ap (λ b. e.path == p || b) (mem_path-paths p es)

pub mem_text-append : (p : Text) (qs rest : List Text) → mem_text p (qs ++ p ∷ rest) ≡ true
unfolding mem_text
mem_text-append p [] rest = rw ((text_beq_iff p p).1 refl)
mem_text-append p (q ∷ qs) rest = ground (arith, mem_text-append p qs rest)

-- The table as a reader of the newest version sees it.
abbrev pub table_paths : Text → Db → List Text
table_paths name db = paths (snapshot (manifest_for name db)).entries

abbrev pub add_paths : Staged → List Text
add_paths s = map (λ (a : SegmentAdd). a.path) s.adds

-- The database before the commit, with an empty log.
abbrev pub at_begin : Db → Db
at_begin db = record db { wal = some [] }

-- The intent that the commit logs.
abbrev pub intent_of : Db → Staged → ManifestIntent
intent_of db s = record {
  txn_id = db.next_txn_id + 1;
  commit_ts = db.next_commit_ts + 1;
  table = normalize_name s.table;
  adds = s.adds;
  dv_updates = s.dv_updates;
}

-- What the commit of staged adds takes for granted: a table with a name, adds with paths that are
-- not live yet, and a timestamp of 64 bits.
pub record CanCommit (json : Json) (db : Db) (s : Staged) : Type 0 where
  pub table_named : normalize_name s.table ≢ []
  pub named : All (λ (a : SegmentAdd). a.path ≢ []) s.adds
  pub fresh : any_known s.adds (snapshot (manifest_for s.table db)).entries ≡ false
  pub versioned : IsVersioned (manifest_for s.table db)
  pub fits : db.next_commit_ts + 1 ≤ max_uint64
  pub reads_intent : ReadsIntent json (intent_of db s)

pub named_ne : (p : Text) → p ≢ [] → (p == []) ≡ false
named_ne p h = elim (Bool-cases (p == [])) [
  | inl same ↦ absurd (h ((text_beq_iff p []).0 same))
  | inr other ↦ other
]

-- A reader sees the live segments; the disk has the files.
abbrev pub Seen : Type 0
Seen = List Text × List Text

abbrev pub seen : Text → Db → Seen
seen name db = (table_paths name db, db.files)

abbrev pub without_staged : Staged → List Text → List Text
without_staged s files =
    foldl remove_file (foldl remove_file files (add_paths s))
      (map (λ (d : DvUpdate). d.dv_path) s.dv_updates)

-- Recovery of a group of one changes no manifest.
pub recover-committed :
    (json : Json) (db : Db) (i : ManifestIntent) (name : Text)
    → intent_committed db i ≡ true
    → seen name (recover_txn_group json db (i ∷ [])) ≡ seen name db
unfolding recover_txn_group any_committed forward_roll mark_intent_resolved manifest_for
recover-committed json db i name h = rw h refl

pub recover-unwound :
    (json : Json) (db : Db) (i : ManifestIntent) (name : Text)
    → intent_committed db i ≡ false
    → seen name (recover_txn_group json db (i ∷ []))
      ≡ (table_paths name db, without_staged (staged_of i) db.files)
unfolding recover_txn_group any_committed unwind mark_intent_resolved remove_staged manifest_for
recover-unwound json db i name h = rw h refl
