-- ===== src/Engine/SingleTable.antt =====
-- A transaction over one table is atomic: a crash at any step of its commit, followed by recovery,
-- leaves all of its segments in the table or none.
use dripsql.Base.{
  ℕ, zero, suc, ◌+◌, ◌≡◌, refl, ap, ◌∙◌, true, Option, some, List, [], ◌∷◌, ◌++◌, map, Text,
  text_eq, nat_eq,
}
use dripsql.Base.Dict.{Dict, put}
use dripsql.Schema.Names.{normalize_name}
use dripsql.Schema.Normal.{normalize_name_idem}
use dripsql.Manifest.Records.{SegmentAdd, DvUpdate}
use dripsql.Manifest.Handle.{Manifest, snapshot, commit}
use dripsql.Manifest.Effects.{paths, paths-commit}
use dripsql.Wal.Log.{WalRecord}
use dripsql.Wal.Pending.{
  ManifestIntent, ManifestCommit, Json, intent_record, commit_record, ok, ◌>>=◌,
}
use dripsql.Engine.Commit.{
  Db, Staged, manifest_for, manifest_in, run_step, run_steps, txn_steps, next_ids, crash_in_commit,
}
use dripsql.Engine.Recover.{any_known, intent_committed, recover_txn_group, open_wal}
use dripsql.Engine.Logs.{ReadsCommits, manifest_in-put}
use dripsql.Engine.Quiet.{Quiet, groups-empty, groups-logged, groups-intent_commit}
use dripsql.Engine.Seen.{
  mem_path-paths, mem_text-append, table_paths, add_paths, intent_of, CanCommit, named_ne, Seen,
  seen, without_staged, recover-committed, recover-unwound,
}

-- What is left of a commit that crashed after `k` steps.
unfoldable pub outcome : Text → Staged → Db → ℕ → Seen
outcome name s db zero = (table_paths name db, db.files)
outcome name s db (suc zero) = (table_paths name db, without_staged s db.files)
outcome name s db (suc (suc k)) = (table_paths name db ++ add_paths s, db.files)

module _ (json : Json) (reads : ReadsCommits json) (db : Db) (a : SegmentAdd)
    (adds : List SegmentAdd) (dvs : List DvUpdate) (name : Text) (log : List WalRecord) where
  -- The database with the log of earlier transactions.
  abbrev before : Db
  before = record db { wal = some log }

  abbrev s : Staged
  s = record { table = name; adds = a ∷ adds; dv_updates = dvs }

  abbrev intent : ManifestIntent
  intent = intent_of db s

  abbrev old : Manifest
  old = manifest_for name db

  abbrev new : Manifest
  new = commit (db.next_commit_ts + 1) (a ∷ adds) dvs old

  abbrev committed : Dict Text Manifest
  committed = put (normalize_name name) new db.manifests

  abbrev after : Seen
  after = (table_paths name db ++ add_paths s, db.files)

  module _ (c : CanCommit json db s) (quiet : Quiet json log (db.next_txn_id + 1)) where
    paths-new : paths (snapshot new).entries ≡ paths (snapshot old).entries ++ add_paths s
    paths-new = paths-commit (db.next_commit_ts + 1) (a ∷ adds) dvs old c.versioned c.fits c.named

    known_new : any_known (a ∷ adds) (snapshot new).entries ≡ true
    unfolding any_known
    known_new = rw (
      mem_path-paths a.path (snapshot new).entries,
      paths-new,
      mem_text-append a.path (paths (snapshot old).entries) (map (λ (a : SegmentAdd). a.path) adds),
    )

    -- The intent of the log finds the table's manifest.
    intent_committed-known :
        (manifests : Dict Text Manifest) (wal : Option (List WalRecord)) (m : Manifest)
        → manifest_in name manifests ≡ m
        → intent_committed (record (next_ids db) { manifests = manifests; wal = wal }) intent
          ≡ any_known (a ∷ adds) (snapshot m).entries
    unfolding intent_committed manifest_for manifest_in next_ids
    intent_committed-known manifests wal m at =
        rw (named_ne (normalize_name name) c.table_named, normalize_name_idem name, at) refl

    no_crash_yet :
        open_wal json (crash_in_commit json 0 (s ∷ []) before)
        ≡ ok (record (next_ids db) { wal = some log })
    unfolding open_wal crash_in_commit run_steps next_ids
    no_crash_yet = rw (groups-empty json reads log (db.next_txn_id + 1) quiet) refl

    -- The database that recovery meets after the intent, and after the manifest.
    abbrev half : Dict Text Manifest → Db
    half manifests = record (next_ids db) {
      wal = some (log ++ intent_record json intent ∷ []);
      manifests = manifests;
    }

    crash_1 :
        open_wal json (crash_in_commit json 1 (s ∷ []) before)
        ≡ ok (recover_txn_group json (half db.manifests) (intent ∷ []))
    unfolding open_wal crash_in_commit run_steps txn_steps run_step next_ids
    crash_1 = rw (groups-logged json reads log intent c.reads_intent quiet) refl

    crash_2 :
        open_wal json (crash_in_commit json 2 (s ∷ []) before)
        ≡ ok (recover_txn_group json (half committed) (intent ∷ []))
    unfolding open_wal crash_in_commit run_steps txn_steps run_step next_ids manifest_for
    crash_2 = rw (groups-logged json reads log intent c.reads_intent quiet) refl

    recovered_1 :
        seen name (recover_txn_group json (half db.manifests) (intent ∷ []))
        ≡ (table_paths name db, without_staged s db.files)
    unfolding manifest_for next_ids
    recovered_1 =
        recover-unwound json (half db.manifests) intent name
          (intent_committed-known db.manifests (half db.manifests).wal old refl ∙ c.fresh)

    abbrev commit_end : ManifestCommit
    commit_end = record {
      txn_id = db.next_txn_id + 1;
      commit_ts = db.next_commit_ts + 1;
      manifest_version = (snapshot (manifest_in name committed)).version;
    }

    abbrev finished : Db
    finished = record (next_ids db) {
      wal = some ((log ++ intent_record json intent ∷ []) ++ commit_record json commit_end ∷ []);
      manifests = committed;
    }

    crashed_3 : (k : ℕ) → crash_in_commit json (suc (suc (suc k))) (s ∷ []) before ≡ finished
    unfolding crash_in_commit run_steps txn_steps run_step next_ids manifest_for
    crashed_3 zero = refl
    crashed_3 (suc k) = refl

    crash_3 :
        (k : ℕ)
        → open_wal json (crash_in_commit json (suc (suc (suc k))) (s ∷ []) before) ≡ ok finished
    unfolding open_wal
    crash_3 k =
        rw (crashed_3 k) (
          rw (groups-intent_commit json reads log intent c.reads_intent quiet commit_end refl) refl)

    seen_new : (db' : Db) → db'.manifests ≡ committed → db'.files ≡ db.files → seen name db' ≡ after
    unfolding manifest_for
    seen_new db' manifests files =
        rw (manifests, files, manifest_in-put name new db.manifests, paths-new) refl

    recovered_2 : seen name (recover_txn_group json (half committed) (intent ∷ [])) ≡ after
    unfolding next_ids
    recovered_2 =
        recover-committed json (half committed) intent name (
          intent_committed-known committed (half committed).wal new
            (manifest_in-put name new db.manifests)
          ∙ known_new)
        ∙ seen_new (half committed) refl refl

  -- A transaction adds one or more segments, with paths that are not live, to one table with a
  -- name, in a manifest whose records are not newer than it; JSON reads back what it wrote. The log
  -- holds records that can be read, of other transactions, and no pending intent. A crash after any
  -- number of steps of the commit, with recovery after it, leaves the table as it was before or with
  -- all the segments. A crash behind the intent and before the manifest loses the staged files; any
  -- other leaves the files as they are.
  pub crash-atomic :
      (k : ℕ)
      → CanCommit json db s
      → Quiet json log (db.next_txn_id + 1)
      → (do db' ← open_wal json (crash_in_commit json k (s ∷ []) before); ok (seen name db'))
        ≡ ok (outcome name s db k)
  unfolding next_ids manifest_for outcome
  crash-atomic zero c q = rw (no_crash_yet c q) refl
  crash-atomic (suc zero) c q = rw (crash_1 c q) (ap ok (recovered_1 c q))
  crash-atomic (suc (suc zero)) c q = rw (crash_2 c q) (ap ok (recovered_2 c q))
  crash-atomic (suc (suc (suc k))) c q =
      rw (crash_3 c q k) (ap ok (seen_new c q (finished c q) refl refl))
