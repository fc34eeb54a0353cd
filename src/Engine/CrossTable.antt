-- ===== src/Engine/CrossTable.antt =====
-- A transaction over two tables is not atomic: the two intents share one TxnID, so the commit record
-- of the first table ends what the log knows of the transaction.
use dripsql.Base.{◌+◌, ◌≡◌, refl, ap, ◌∙◌, false, some, List, [], ◌∷◌, ◌++◌, Text, text_eq, ◌==◌}
use dripsql.Base.Dict.{Dict, put}
use dripsql.Schema.Names.{normalize_name}
use dripsql.Schema.Normal.{normalize_name_idem}
use dripsql.Manifest.Handle.{Manifest, snapshot, commit}
use dripsql.Manifest.Effects.{paths-commit}
use dripsql.Wal.Pending.{ManifestCommit, Json, intent_record, commit_record, ok, ◌>>=◌}
use dripsql.Engine.Commit.{
  Db, Staged, manifest_for, manifest_in, run_step, run_steps, txn_steps, next_ids, crash_in_commit,
}
use dripsql.Engine.Recover.{intent_committed, recover_txn_group, open_wal}
use dripsql.Engine.Logs.{ReadsCommits, groups-second_intent, manifest_in-put, manifest_in-put_other}
use dripsql.Engine.Seen.{
  table_paths, add_paths, at_begin, intent_of, CanCommit, named_ne, Seen, seen, without_staged,
  recover-unwound,
}

pair_path :
    {A : Type 0} {B : Type 0} {a a' : A} {b b' : B} → a ≡ a' → b ≡ b' → Path (A × B) (a, b) (a', b')
pair_path p q = λ i. (p i, q i)

abbrev pub both : Text → Text → Db → List Text × Seen
both name other db = (table_paths name db, seen other db)

module _ (json : Json) (reads : ReadsCommits json) (db : Db) (s t : Staged) where
  abbrev new : Manifest
  new = commit (db.next_commit_ts + 1) s.adds s.dv_updates (manifest_for s.table db)

  abbrev committed : Dict Text Manifest
  committed = put (normalize_name s.table) new db.manifests

  abbrev commit_end : ManifestCommit
  commit_end = record {
    txn_id = db.next_txn_id + 1;
    commit_ts = db.next_commit_ts + 1;
    manifest_version = (snapshot (manifest_in s.table committed)).version;
  }

  abbrev crashed : Db
  crashed = record (next_ids db) {
    wal = some (
        intent_record json (intent_of db s)
        ∷ commit_record json commit_end
        ∷ intent_record json (intent_of db t)
        ∷ []);
    manifests = committed;
  }

  module _ (c : CanCommit json db s) (d : CanCommit json db t)
      (apart : (normalize_name s.table == normalize_name t.table) ≡ false) where
    crash_4 :
        open_wal json (crash_in_commit json 4 (s ∷ t ∷ []) (at_begin db))
        ≡ ok (recover_txn_group json crashed (intent_of db t ∷ []))
    unfolding open_wal crash_in_commit run_steps txn_steps run_step next_ids manifest_for
    crash_4 =
        rw
          (groups-second_intent json reads (intent_of db s) (intent_of db t) commit_end
            c.reads_intent d.reads_intent refl refl)
          refl

    other_manifest : manifest_in (normalize_name t.table) committed ≡ manifest_for t.table db
    unfolding manifest_for manifest_in
    other_manifest =
        rw (normalize_name_idem t.table)
          (manifest_in-put_other t.table s.table new db.manifests apart)

    other_uncommitted : intent_committed crashed (intent_of db t) ≡ false
    unfolding intent_committed manifest_for
    other_uncommitted = rw (named_ne (normalize_name t.table) d.table_named, other_manifest) d.fresh

    first_in : table_paths s.table crashed ≡ table_paths s.table db ++ add_paths s
    unfolding manifest_for
    first_in = rw (manifest_in-put s.table new db.manifests) (
        paths-commit (db.next_commit_ts + 1) s.adds s.dv_updates (manifest_for s.table db)
          c.versioned c.fits c.named)

    second_out : table_paths t.table crashed ≡ table_paths t.table db
    unfolding manifest_for
    second_out = rw (manifest_in-put_other t.table s.table new db.manifests apart) refl

  -- A transaction adds segments with new paths to two tables of different names. A crash of its
  -- commit, after the commit of the first table is logged and the intent of the second: recovery
  -- keeps the first table's new segments, leaves the second table as it was and deletes the second
  -- table's staged files.
  pub two_tables-torn :
      CanCommit json db s
      → CanCommit json db t
      → (normalize_name s.table == normalize_name t.table) ≡ false
      → (do
        db' ← open_wal json (crash_in_commit json 4 (s ∷ t ∷ []) (at_begin db))
        ok (both s.table t.table db'))
        ≡ ok (
          table_paths s.table db ++ add_paths s,
          (table_paths t.table db, without_staged t db.files),
        )
  unfolding next_ids
  two_tables-torn c d apart = rw (crash_4 c d apart) (
      ap ok (
        pair_path
          (ap (λ x. x.0)
              (recover-unwound json crashed (intent_of db t) s.table (other_uncommitted c d apart))
            ∙ first_in c d apart)
          (recover-unwound json crashed (intent_of db t) t.table (other_uncommitted c d apart)
            ∙ ap (λ ps. (ps, without_staged t db.files)) (second_out c d apart))))
