-- ===== src/Engine/Commit.antt =====
-- The commit of a transaction, internal/engine/wal.go and tx.go: an intent in the log, the record in
-- the manifest, the commit in the log, table after table. Each is one durable step, so a crash
-- leaves the state after a number of steps.
use mathlib.Core.List.{foldl}
use dripsql.Base.{ℕ, ◌+◌, Option, none, some, List, [], ◌∷◌, ◌++◌, Text, text_eq, take}
use dripsql.Base.Dict.{Dict, get, put}
use dripsql.Schema.Names.{normalize_name}
use dripsql.Manifest.Records.{SegmentAdd, DvUpdate}
use dripsql.Manifest.Handle.{Manifest, no_records, snapshot, commit}
use dripsql.Wal.Log.{WalRecord}
use dripsql.Wal.Pending.{Json, intent_record, commit_record, or_zero}

-- What a commit and its recovery touch: the manifests by normalised table name, the records in the
-- log (`none` where the database has no log), and the paths of the segment and DV files that exist.
pub record Db : Type 0 where
  pub manifests : Dict Text Manifest
  pub wal : Option (List WalRecord)
  pub files : List Text
  pub next_txn_id : ℕ
  pub next_commit_ts : ℕ

-- A table with no manifest yet gets an empty one.
unfoldable pub manifest_in : Text → Dict Text Manifest → Manifest
manifest_in name manifests = or_zero no_records (get (normalize_name name) manifests)

unfoldable pub manifest_for : Text → Db → Manifest
manifest_for name db = manifest_in name db.manifests

abbrev pub log_append : WalRecord → Option (List WalRecord) → Option (List WalRecord)
log_append rec none = none
log_append rec (some records) = some (records ++ rec ∷ [])

-- The adds and DV updates that a transaction staged for a table.
pub record Staged : Type 0 where
  pub table : Text
  pub adds : List SegmentAdd
  pub dv_updates : List DvUpdate

-- The durable steps of commitManifestTxnAs.
pub data Step : Type 0 where
  log_intent : (txn_id commit_ts : ℕ) → Staged → Step
  commit_manifest : (commit_ts : ℕ) → Staged → Step
  log_commit : (txn_id commit_ts : ℕ) → Staged → Step

unfoldable pub run_step : Json → Db → Step → Db
run_step json db (log_intent txn_id commit_ts s) = record db {
  wal =
      log_append
        (intent_record json (record {
          txn_id = txn_id;
          commit_ts = commit_ts;
          table = normalize_name s.table;
          adds = s.adds;
          dv_updates = s.dv_updates;
        }))
        db.wal;
}
run_step json db (commit_manifest commit_ts s) = record db {
  manifests =
      put (normalize_name s.table) (commit commit_ts s.adds s.dv_updates (manifest_for s.table db))
        db.manifests;
}
run_step json db (log_commit txn_id commit_ts s) = record db {
  wal =
      log_append
        (commit_record json (record {
          txn_id = txn_id;
          commit_ts = commit_ts;
          manifest_version = (snapshot (manifest_for s.table db)).version;
        }))
        db.wal;
}

-- With no log only the manifest is written.
abbrev pub commit_steps : Option (List WalRecord) → ℕ → ℕ → Staged → List Step
commit_steps none txn_id commit_ts s = commit_manifest commit_ts s ∷ []
commit_steps (some _) txn_id commit_ts s =
    log_intent txn_id commit_ts s ∷ commit_manifest commit_ts s ∷ log_commit txn_id commit_ts s ∷ []

unfoldable pub run_steps : Json → Db → List Step → Db
unfolding run_step
run_steps json db steps = foldl (run_step json) db steps

unfoldable pub commit_manifest_txn_as : Json → ℕ → ℕ → Staged → Db → Db
unfolding run_steps
commit_manifest_txn_as json txn_id commit_ts s db =
    run_steps json db (commit_steps db.wal txn_id commit_ts s)

-- The steps of Tx.Commit for the tables in the order of the map's iteration, with one TxnID.
unfoldable pub txn_steps : Option (List WalRecord) → ℕ → ℕ → List Staged → List Step
txn_steps wal txn_id commit_ts [] = []
txn_steps wal txn_id commit_ts (s ∷ staged) =
    commit_steps wal txn_id commit_ts s ++ txn_steps wal txn_id commit_ts staged

abbrev pub truncate_log : Option (List WalRecord) → Option (List WalRecord)
truncate_log none = none
truncate_log (some _) = some []

-- db.nextTxnID++ and db.nextCommitTs.Add(1)
unfoldable pub next_ids : Db → Db
next_ids db = record db { next_txn_id = db.next_txn_id + 1; next_commit_ts = db.next_commit_ts + 1 }

unfoldable pub truncate_to_header : Db → Db
truncate_to_header db = record db { wal = truncate_log db.wal }

-- A crash after `k` steps of Tx.Commit; what it staged is the list, in the order of the tables.
unfoldable pub crash_in_commit : Json → ℕ → List Staged → Db → Db
unfolding next_ids txn_steps run_steps
crash_in_commit json k staged db =
    let db' = next_ids db in
    run_steps json db' (take k (txn_steps db.wal db'.next_txn_id db'.next_commit_ts staged))

-- Tx.Commit that runs to its end.
unfoldable pub tx_commit : Json → List Staged → Db → Db
unfolding next_ids txn_steps run_steps truncate_to_header
tx_commit json [] db = db
tx_commit json (s ∷ staged) db =
    let db' = next_ids db in
    truncate_to_header
      (run_steps json db' (txn_steps db.wal db'.next_txn_id db'.next_commit_ts (s ∷ staged)))
