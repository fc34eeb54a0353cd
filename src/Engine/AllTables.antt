-- ===== src/Engine/AllTables.antt =====
-- Tx.Commit that runs to its end: what it does to the manifests of all tables.
use dripsql.Base.{
  ℕ, ◌+◌, ◌≡◌, refl, ap, ◌∙◌, false, Option, none, some, List, [], ◌∷◌, Text, text_eq, ◌==◌,
  text_beq_iff, All, arith,
}
use dripsql.Base.Dict.{Dict, put}
use dripsql.Schema.Names.{normalize_name}
use dripsql.Manifest.Handle.{Manifest, commit}
use dripsql.Wal.Log.{WalRecord}
use dripsql.Wal.Pending.{Json}
use dripsql.Engine.Commit.{
  Db, Staged, manifest_for, manifest_in, run_step, run_steps, txn_steps, next_ids,
  truncate_to_header, tx_commit,
}
use dripsql.Engine.Logs.{manifest_in-put, manifest_in-put_other}

abbrev pub Apart : Text → Staged → Type 0
Apart name t = (normalize_name t.table == normalize_name name) ≡ false

-- Pending is a map by normalised table name, so no two entries are of one table.
abbrev pub TablesApart : List Staged → Type 0
TablesApart [] = Unit
TablesApart (s ∷ staged) = All (Apart s.table) staged × TablesApart staged

beq-sym : (a b : Text) → (a == b) ≡ false → (b == a) ≡ false
beq-sym a b h = ground (arith, text_beq_iff a b, text_beq_iff b a)

abbrev committed : ℕ → Staged → Dict Text Manifest → Manifest
committed ts s manifests = commit ts s.adds s.dv_updates (manifest_in s.table manifests)

abbrev commit_all : ℕ → List Staged → Dict Text Manifest → Dict Text Manifest
commit_all ts [] manifests = manifests
commit_all ts (s ∷ staged) manifests =
    commit_all ts staged (put (normalize_name s.table) (committed ts s manifests) manifests)

run_steps-manifests :
    (json : Json) (wal : Option (List WalRecord)) (txn_id ts : ℕ) (staged : List Staged) (db : Db)
    → (run_steps json db (txn_steps wal txn_id ts staged)).manifests
      ≡ commit_all ts staged db.manifests
unfolding run_steps txn_steps run_step manifest_for
run_steps-manifests json wal txn_id ts [] db = refl
run_steps-manifests json none txn_id ts (s ∷ staged) db =
    run_steps-manifests json none txn_id ts staged _
run_steps-manifests json (some log) txn_id ts (s ∷ staged) db =
    run_steps-manifests json (some log) txn_id ts staged _

commit_all-other :
    (ts : ℕ) (name : Text) (staged : List Staged) (manifests : Dict Text Manifest)
    → All (Apart name) staged
    → manifest_in name (commit_all ts staged manifests) ≡ manifest_in name manifests
commit_all-other ts name [] manifests h = refl
commit_all-other ts name (s ∷ staged) manifests (h, hs) =
    commit_all-other ts name staged
      (put (normalize_name s.table) (committed ts s manifests) manifests) hs
    ∙ manifest_in-put_other name s.table (committed ts s manifests) manifests h

-- The new manifest of each table, over the dictionary before the commit.
abbrev Lands : ℕ → Dict Text Manifest → Dict Text Manifest → List Staged → Type 0
Lands ts before after staged =
    All (λ (t : Staged). manifest_in t.table after ≡ committed ts t before) staged

Lands-put :
    (ts : ℕ) (s : Staged) (m : Manifest) (before after : Dict Text Manifest) (staged : List Staged)
    → All (Apart s.table) staged
    → Lands ts (put (normalize_name s.table) m before) after staged
    → Lands ts before after staged
Lands-put ts s m before after [] h landed = tt
Lands-put ts s m before after (t ∷ staged) (h, hs) (l, ls) = (
  l
      ∙ ap (commit ts t.adds t.dv_updates) (
          manifest_in-put_other t.table s.table m before
            (beq-sym (normalize_name t.table) (normalize_name s.table) h)),
  Lands-put ts s m before after staged hs ls,
)

commit_all-Lands :
    (ts : ℕ) (staged : List Staged) (manifests : Dict Text Manifest)
    → TablesApart staged
    → Lands ts manifests (commit_all ts staged manifests) staged
commit_all-Lands ts [] manifests h = tt
commit_all-Lands ts (s ∷ staged) manifests (h, hs) =
    let next = put (normalize_name s.table) (committed ts s manifests) manifests in
    (
      commit_all-other ts s.table staged next h
          ∙ manifest_in-put s.table (committed ts s manifests) manifests,
      Lands-put ts s (committed ts s manifests) manifests (commit_all ts staged next) staged h
          (commit_all-Lands ts staged next hs),
    )

tx_commit-manifests :
    (json : Json) (staged : List Staged) (db : Db)
    → (tx_commit json staged db).manifests ≡ commit_all (db.next_commit_ts + 1) staged db.manifests
unfolding tx_commit next_ids truncate_to_header
tx_commit-manifests json [] db = refl
tx_commit-manifests json (s ∷ staged) db =
    run_steps-manifests json db.wal (db.next_txn_id + 1) (db.next_commit_ts + 1) (s ∷ staged)
      (next_ids db)

-- A commit that runs to its end, of entries of different tables, commits to the manifest of each
-- staged table its adds and DV updates, all with the one new timestamp, and leaves the manifest of
-- every other table as it was.
pub tx_commit-all :
    (json : Json) (staged : List Staged) (db : Db)
    → TablesApart staged
    → All
        (λ (s : Staged).
          manifest_for s.table (tx_commit json staged db)
          ≡ commit (db.next_commit_ts + 1) s.adds s.dv_updates (manifest_for s.table db))
        staged
      × ((name : Text)
          → All (Apart name) staged
          → manifest_for name (tx_commit json staged db) ≡ manifest_for name db)
unfolding manifest_for
tx_commit-all json staged db h = rw (tx_commit-manifests json staged db) (
  commit_all-Lands (db.next_commit_ts + 1) staged db.manifests h,
  λ name hs. commit_all-other (db.next_commit_ts + 1) name staged db.manifests hs,
)
