-- ===== src/Engine/Recover.antt =====
-- Recovery at open, internal/engine/wal.go: openWAL and recoverTxnGroup.
use mathlib.Core.List.{foldl}
use dripsql.Base.{
  Bool, false, not, ◌&&◌, ◌||◌, Option, none, some, List, [], ◌∷◌, map, Text, text_eq, ◌==◌,
  if◌then◌else◌,
}
use dripsql.Manifest.Records.{SegmentAdd, DvUpdate, Entry}
use dripsql.Manifest.Handle.{snapshot}
use dripsql.Wal.Log.{WalRecord}
use dripsql.Wal.Pending.{
  ManifestIntent, Json, commit_record, Decoded, ok, ◌>>=◌, pending_txn_groups,
}
use dripsql.Engine.Commit.{Db, Staged, manifest_for, log_append, commit_manifest_txn_as}

unfoldable pub mem_path : Text → List Entry → Bool
mem_path p [] = false
mem_path p (e ∷ es) = e.path == p || mem_path p es

-- Whether one of the adds is among the entries of the table.
unfoldable pub any_known : List SegmentAdd → List Entry → Bool
unfolding mem_path
any_known [] entries = false
any_known (a ∷ adds) entries = mem_path a.path entries || any_known adds entries

-- The `committed` flag of an intent.
unfoldable pub intent_committed : Db → ManifestIntent → Bool
unfolding any_known
intent_committed db intent =
    not (intent.table == [])
    && any_known intent.adds (snapshot (manifest_for intent.table db)).entries

unfoldable pub any_committed : Db → List ManifestIntent → Bool
unfolding intent_committed
any_committed db [] = false
any_committed db (i ∷ group) = intent_committed db i || any_committed db group

unfoldable pub mark_intent_resolved : Json → ManifestIntent → Db → Db
mark_intent_resolved json intent db = record db {
  wal =
      log_append
        (commit_record json
          (record { txn_id = intent.txn_id; commit_ts = 0; manifest_version = 0 }))
        db.wal;
}

-- os.Remove, where a file that is not there is no error.
unfoldable pub remove_file : List Text → Text → List Text
remove_file [] p = []
remove_file (f ∷ files) p = let rest = remove_file files p in if f == p then rest else f ∷ rest

abbrev pub staged_of : ManifestIntent → Staged
staged_of i = record { table = i.table; adds = i.adds; dv_updates = i.dv_updates }

-- The forward roll: `states` pairs each intent with its flag, read before any change.
unfoldable pub forward_roll : Json → List (ManifestIntent × Bool) → Db → Db
unfolding mark_intent_resolved
forward_roll json [] db = db
forward_roll json ((intent, committed) ∷ states) db = forward_roll json states (
    if committed
    then mark_intent_resolved json intent db
    else commit_manifest_txn_as json intent.txn_id intent.commit_ts (staged_of intent) db)

unfoldable pub remove_staged : ManifestIntent → Db → Db
unfolding remove_file
remove_staged intent db = record db {
  files =
      foldl remove_file (foldl remove_file db.files (map (λ (a : SegmentAdd). a.path) intent.adds))
        (map (λ (d : DvUpdate). d.dv_path) intent.dv_updates);
}

unfoldable pub unwind : Json → List ManifestIntent → Db → Db
unfolding mark_intent_resolved remove_staged
unwind json [] db = db
unwind json (intent ∷ group) db =
    unwind json group (mark_intent_resolved json intent (remove_staged intent db))

unfoldable pub recover_txn_group : Json → Db → List ManifestIntent → Db
unfolding any_committed forward_roll unwind
recover_txn_group json db group =
    if any_committed db group
    then forward_roll json (map (λ i. (i, intent_committed db i)) group) db
    else unwind json group db

abbrev pub replayed : Option (List WalRecord) → List WalRecord
replayed none = []
replayed (some records) = records

-- openWAL on the records that the log replays.
unfoldable pub open_wal : Json → Db → Decoded Db
unfolding recover_txn_group
open_wal json db = do
  groups ← pending_txn_groups json (replayed db.wal)
  ok (foldl (recover_txn_group json) (record db { wal = some (replayed db.wal) }) groups)
