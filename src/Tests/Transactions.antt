-- ===== src/Tests/Transactions.antt =====
-- Commits of one and of two tables, with a codec that knows the two intents of the test.
use dripsql.Base.{
  All, Text, ℕ, ◌≡◌, ◌++◌, refl, false, Option, some, none, List, [], ◌∷◌, arith, codes, text_eq,
  text_beq, ◌==◌, if◌then◌else◌,
}
use dripsql.Base.Dict.{get, remove}
use dripsql.Schema.Names.{normalize_name, trim_space, trim_left, is_space, to_lower, lower}
use dripsql.Manifest.Records.{DvUpdate}
use dripsql.Manifest.Handle.{commit, snapshot}
use dripsql.Manifest.Resolve.{resolve_filtered, resolve_loop, compact}
use dripsql.Wal.Log.{WalRecord}
use dripsql.Wal.Pending.{
  ManifestIntent, ManifestCommit, Json, ok, ◌>>=◌, commit_record, see_all, see, see_commit,
  decode_manifest_commit, no_pending,
}
use dripsql.Engine.Quiet.{Quiet}
use dripsql.Engine.Commit.{tx_commit, Db, Staged, manifest_for, manifest_in, crash_in_commit}
use dripsql.Engine.Recover.{open_wal, any_known, mem_path}
use dripsql.Engine.Logs.{ReadsIntent, ReadsCommits}
use dripsql.Engine.Seen.{
  table_paths, add_paths, at_begin, intent_of, CanCommit, seen, without_staged,
}
use dripsql.Engine.SingleTable.{crash-atomic, outcome}
use dripsql.Engine.CrossTable.{both, two_tables-torn}
use dripsql.Engine.DeleteOnly.{manifest_and_file, delete_only-torn}
use dripsql.Engine.AllTables.{Apart, TablesApart, tx_commit-all}
use dripsql.Tests.Manifests.{segment}

abbrev users : Staged
users = record { table = codes "users"; adds = segment (codes "u1") ∷ []; dv_updates = [] }

abbrev events : Staged
events = record { table = codes "events"; adds = segment (codes "e1") ∷ []; dv_updates = [] }

abbrev dv : DvUpdate
dv = record { segment_path = codes "u0"; dv_path = codes "u0.dv"; rows = 1 }

abbrev deletes : Staged
deletes = record { table = codes "users"; adds = []; dv_updates = dv ∷ [] }

abbrev empty_db : Db
empty_db = record {
  manifests = [];
  wal = some [];
  files = codes "u1" ∷ codes "e1" ∷ codes "u0.dv" ∷ [];
  next_txn_id = 0;
  next_commit_ts = 0;
}

abbrev read_commit : List ℕ → Option ManifestCommit
read_commit (a ∷ b ∷ c ∷ []) = some (record { txn_id = a; commit_ts = b; manifest_version = c })
read_commit _ = none

abbrev write_commit : ManifestCommit → List ℕ
write_commit c = c.txn_id ∷ c.commit_ts ∷ c.manifest_version ∷ []

-- Knows the intent of `i`, and that of `j` for its table.
abbrev codec : ManifestIntent → ManifestIntent → Json
codec i j = record {
  marshal_intent = λ k. k.table;
  marshal_commit = write_commit;
  unmarshal_intent = λ t. if t == i.table then some i else some j;
  unmarshal_commit = read_commit;
}

abbrev tables_codec : Json
tables_codec = codec (intent_of empty_db users) (intent_of empty_db events)

abbrev deletes_codec : Json
deletes_codec = codec (intent_of empty_db deletes) (intent_of empty_db deletes)

tables_codec-ReadsCommits : ReadsCommits tables_codec
tables_codec-ReadsCommits c = refl

deletes_codec-ReadsCommits : ReadsCommits deletes_codec
deletes_codec-ReadsCommits c = refl

users-CanCommit : CanCommit tables_codec empty_db users
unfolding normalize_name trim_space trim_left is_space to_lower lower any_known mem_path
    manifest_for manifest_in get snapshot resolve_filtered resolve_loop compact text_beq
users-CanCommit = record {
  table_named = λ e. cc;
  named = ((λ e. cc), tt);
  fresh = refl;
  versioned = record { versions = tt };
  fits = omega arith;
  reads_intent = refl;
}

events-CanCommit : CanCommit tables_codec empty_db events
unfolding normalize_name trim_space trim_left is_space to_lower lower any_known mem_path
    manifest_for manifest_in get snapshot resolve_filtered resolve_loop compact text_beq
events-CanCommit = record {
  table_named = λ e. cc;
  named = ((λ e. cc), tt);
  fresh = refl;
  versioned = record { versions = tt };
  fits = omega arith;
  reads_intent = refl;
}

deletes-ReadsIntent : ReadsIntent deletes_codec (intent_of empty_db deletes)
unfolding text_beq normalize_name trim_space trim_left is_space to_lower lower
deletes-ReadsIntent = refl

apart : (normalize_name users.table == normalize_name events.table) ≡ false
unfolding text_beq normalize_name trim_space trim_left is_space to_lower lower
apart = refl

-- A log whose one record resolves an earlier transaction.
abbrev history : List WalRecord
history =
    commit_record tables_codec (record { txn_id = 9; commit_ts = 0; manifest_version = 0 }) ∷ []

history-Quiet : Quiet tables_codec history 1
unfolding see_all see decode_manifest_commit see_commit remove commit_record get
history-Quiet = record {
  pending = no_pending;
  replays = refl;
  resolved = λ k. refl;
  unseen = refl;
  older = tt;
}

crash-atomic_example :
    (do
      db' ←
          open_wal tables_codec
            (crash_in_commit tables_codec 2 (users ∷ []) (record empty_db { wal = some history }))
      ok (seen users.table db'))
    ≡ ok (outcome users.table users empty_db 2)
crash-atomic_example =
    crash-atomic tables_codec tables_codec-ReadsCommits empty_db (segment (codes "u1")) [] []
      (codes "users") history 2 users-CanCommit history-Quiet

two_tables-torn_example :
    (do
      db' ←
          open_wal tables_codec
            (crash_in_commit tables_codec 4 (users ∷ events ∷ []) (at_begin empty_db))
      ok (both users.table events.table db'))
    ≡ ok (
      table_paths users.table empty_db ++ add_paths users,
      (table_paths events.table empty_db, without_staged events empty_db.files),
    )
two_tables-torn_example =
    two_tables-torn tables_codec tables_codec-ReadsCommits empty_db users events users-CanCommit
      events-CanCommit apart

delete_only-torn_example :
    (do
      db' ←
          open_wal deletes_codec
            (crash_in_commit deletes_codec 2 (deletes ∷ []) (at_begin empty_db))
      ok (manifest_and_file deletes.table dv.dv_path db'))
    ≡ ok (commit 1 [] (dv ∷ []) (manifest_for deletes.table empty_db), false)
delete_only-torn_example =
    delete_only-torn deletes_codec deletes_codec-ReadsCommits empty_db dv [] (codes "users")
      deletes-ReadsIntent

both_staged : TablesApart (users ∷ events ∷ [])
unfolding text_beq normalize_name trim_space trim_left is_space to_lower lower
both_staged = ((refl, tt), (tt, tt))

tx_commit-all_example :
    All
      (λ (s : Staged).
        manifest_for s.table (tx_commit tables_codec (users ∷ events ∷ []) empty_db)
        ≡ commit 1 s.adds s.dv_updates (manifest_for s.table empty_db))
      (users ∷ events ∷ [])
    × ((name : Text)
        → All (Apart name) (users ∷ events ∷ [])
        → manifest_for name (tx_commit tables_codec (users ∷ events ∷ []) empty_db)
          ≡ manifest_for name empty_db)
tx_commit-all_example = tx_commit-all tables_codec (users ∷ events ∷ []) empty_db both_staged
