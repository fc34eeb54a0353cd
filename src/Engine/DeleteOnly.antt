-- ===== src/Engine/DeleteOnly.antt =====
-- A transaction that only deletes: its intent names no adds, so recovery cannot find it committed.
use mathlib.Core.List.{foldl}
use dripsql.Base.{
  ◌+◌, ◌≡◌, refl, Bool, false, some, List, [], ◌∷◌, map, Text, text_eq, text_beq_iff, arith,
}
use dripsql.Base.Dict.{put}
use dripsql.Schema.Names.{normalize_name}
use dripsql.Manifest.Records.{DvUpdate}
use dripsql.Manifest.Handle.{Manifest, commit}
use dripsql.Wal.Pending.{Json, intent_record, ok, ◌>>=◌}
use dripsql.Engine.Commit.{
  Db, Staged, manifest_for, run_step, run_steps, txn_steps, next_ids, crash_in_commit,
}
use dripsql.Engine.Recover.{
  intent_committed, any_known, any_committed, unwind, mark_intent_resolved, remove_staged,
  remove_file, recover_txn_group, open_wal,
}
use dripsql.Engine.Logs.{ReadsIntent, ReadsCommits, groups-intent, manifest_in-put}
use dripsql.Engine.Seen.{mem_text, at_begin, intent_of}

remove_file-absent :
    (p q : Text) (files : List Text)
    → mem_text p files ≡ false
    → mem_text p (remove_file files q) ≡ false
unfolding mem_text remove_file
remove_file-absent p q [] h = refl
remove_file-absent p q (f ∷ files) h =
    ground (arith, h, remove_file-absent p q files, text_beq_iff f q, text_beq_iff f p)

remove_file-removed : (p : Text) (files : List Text) → mem_text p (remove_file files p) ≡ false
unfolding mem_text remove_file
remove_file-removed p [] = refl
remove_file-removed p (f ∷ files) = ground (arith, remove_file-removed p files)

remove_files-absent :
    (p : Text) (qs files : List Text)
    → mem_text p files ≡ false
    → mem_text p (foldl remove_file files qs) ≡ false
remove_files-absent p [] files h = h
remove_files-absent p (q ∷ qs) files h =
    remove_files-absent p qs (remove_file files q) (remove_file-absent p q files h)

-- The table's manifest, and whether the file is there.
abbrev pub manifest_and_file : Text → Text → Db → Manifest × Bool
manifest_and_file name path db = (manifest_for name db, mem_text path db.files)

module _ (json : Json) (reads : ReadsCommits json) (db : Db) (d : DvUpdate) (dvs : List DvUpdate)
    (name : Text) where
  abbrev s : Staged
  s = record { table = name; adds = []; dv_updates = d ∷ dvs }

  abbrev new : Manifest
  new = commit (db.next_commit_ts + 1) [] (d ∷ dvs) (manifest_for name db)

  abbrev crashed : Db
  crashed = record (next_ids db) {
    wal = some (intent_record json (intent_of db s) ∷ []);
    manifests = put (normalize_name name) new db.manifests;
  }

  crash_2 :
      ReadsIntent json (intent_of db s)
      → open_wal json (crash_in_commit json 2 (s ∷ []) (at_begin db))
        ≡ ok (recover_txn_group json crashed (intent_of db s ∷ []))
  unfolding open_wal crash_in_commit run_steps txn_steps run_step next_ids manifest_for
  crash_2 h = rw (groups-intent json reads (intent_of db s) h) refl

  never_committed : (db' : Db) → intent_committed db' (intent_of db s) ≡ false
  unfolding intent_committed any_known
  never_committed db' = ground arith

  -- A transaction that only deletes, whose intent JSON reads back, crashes after its manifest
  -- record is written and before its commit is logged: recovery keeps that manifest record and
  -- deletes the DV file that it names.
  pub delete_only-torn :
      ReadsIntent json (intent_of db s)
      → (do
        db' ← open_wal json (crash_in_commit json 2 (s ∷ []) (at_begin db))
        ok (manifest_and_file name d.dv_path db'))
        ≡ ok (commit (db.next_commit_ts + 1) [] (d ∷ dvs) (manifest_for name db), false)
  unfolding recover_txn_group any_committed unwind mark_intent_resolved remove_staged next_ids
      manifest_for
  delete_only-torn h =
      rw
        (
          crash_2 h,
          never_committed crashed,
          manifest_in-put name new db.manifests,
          remove_files-absent d.dv_path (map (λ (d : DvUpdate). d.dv_path) dvs)
              (remove_file db.files d.dv_path) (remove_file-removed d.dv_path db.files),
        )
        refl
