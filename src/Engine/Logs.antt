-- ===== src/Engine/Logs.antt =====
-- What the log of a transaction replays to, at each point of its commit.
use dripsql.Base.{◌==◌, false, ◌≡◌, refl, some, [], ◌∷◌, Text, text_eq, nat_eq, arith, text_beq_iff}
use dripsql.Base.Dict.{Dict, get, put, remove, get-put}
use dripsql.Manifest.Handle.{Manifest}
use dripsql.Schema.Names.{normalize_name}
use dripsql.Wal.Pending.{
  ManifestIntent, ManifestCommit, Json, intent_record, commit_record, ok, see, see_intent,
  see_commit, see_all, Pending, no_pending, decode_manifest_intent, decode_manifest_commit,
  pending_txn_groups, grouped_pending,
}
use dripsql.Engine.Commit.{manifest_in}

-- Unmarshal of what Marshal wrote gives the value back.
abbrev pub ReadsIntent : Json → ManifestIntent → Type 0
ReadsIntent json i = json.unmarshal_intent (json.marshal_intent i) ≡ some i

abbrev pub ReadsCommits : Json → Type 0
ReadsCommits json = (c : ManifestCommit) → json.unmarshal_commit (json.marshal_commit c) ≡ some c

pub see-intent_record :
    (json : Json) (i : ManifestIntent) (p : Pending)
    → ReadsIntent json i
    → see json (intent_record json i) p ≡ ok (see_intent i p)
unfolding see intent_record decode_manifest_intent
see-intent_record json i p h = rw h

pub see-commit_record :
    (json : Json) (c : ManifestCommit) (p : Pending)
    → ReadsCommits json
    → see json (commit_record json c) p ≡ ok (see_commit c p)
unfolding see commit_record decode_manifest_commit
see-commit_record json c p h = rw (h c)

module _ (json : Json) (reads : ReadsCommits json) where
  pub groups-intent :
      (i : ManifestIntent)
      → ReadsIntent json i
      → pending_txn_groups json (intent_record json i ∷ []) ≡ ok ((i ∷ []) ∷ [])
  unfolding pending_txn_groups see_all grouped_pending see_intent see_commit get put remove
  groups-intent i h = rw (see-intent_record json i no_pending h) (ground arith)

  -- The commit record of the first table hides that the transaction has a second.
  pub groups-second_intent :
      (i j : ManifestIntent) (c : ManifestCommit)
      → ReadsIntent json i
      → ReadsIntent json j
      → c.txn_id ≡ i.txn_id
      → j.txn_id ≡ i.txn_id
      → pending_txn_groups json
          (intent_record json i ∷ commit_record json c ∷ intent_record json j ∷ [])
        ≡ ok ((j ∷ []) ∷ [])
  unfolding pending_txn_groups see_all grouped_pending see_intent see_commit get put remove
  groups-second_intent i j c hi hj same same' =
      rw
        (
          see-intent_record json i no_pending hi,
          see-commit_record json c _ reads,
          see-intent_record json j _ hj,
        )
        (ground (arith, same, same'))

pub manifest_in-put :
    (t : Text) (m : Manifest) (manifests : Dict Text Manifest)
    → manifest_in t (put (normalize_name t) m manifests) ≡ m
unfolding manifest_in
manifest_in-put t m manifests = rw (
  get-put (normalize_name t) (normalize_name t) m manifests,
  (text_beq_iff (normalize_name t) (normalize_name t)).1 refl,
)

pub manifest_in-put_other :
    (name other : Text) (m : Manifest) (manifests : Dict Text Manifest)
    → (normalize_name other == normalize_name name) ≡ false
    → manifest_in name (put (normalize_name other) m manifests) ≡ manifest_in name manifests
unfolding manifest_in
manifest_in-put_other name other m manifests h =
    rw (get-put (normalize_name other) (normalize_name name) m manifests, h) refl
