-- ===== src/Wal/Pending.antt =====
-- PendingTxns and PendingTxnGroups: which intents of a replayed log have no commit record.
-- The JSON of a record's payload is a parameter.
use dripsql.Base.{
  ℕ, Bool, true, false, Option, none, some, List, [], ◌∷◌, ◌++◌, Text, nat_eq, ◌==◌, if◌then◌else◌,
}
use dripsql.Base.Dict.{Dict, get, put, remove}
use dripsql.Manifest.Records.{SegmentAdd, DvUpdate}
use dripsql.Wal.Log.{WalRecord}

abbrev pub kind_manifest_intent : ℕ
kind_manifest_intent = 1

abbrev pub kind_manifest_commit : ℕ
kind_manifest_commit = 2

abbrev pub kind_checkpoint : ℕ
kind_checkpoint = 3

pub record ManifestIntent : Type 0 where
  pub txn_id : ℕ
  pub commit_ts : ℕ
  pub table : Text
  pub adds : List SegmentAdd
  pub dv_updates : List DvUpdate

pub record ManifestCommit : Type 0 where
  pub txn_id : ℕ
  pub commit_ts : ℕ
  pub manifest_version : ℕ

-- encoding/json at the two types: Marshal, and Unmarshal, which may fail.
pub record Json : Type 0 where
  pub marshal_intent : ManifestIntent → List ℕ
  pub marshal_commit : ManifestCommit → List ℕ
  pub unmarshal_intent : List ℕ → Option ManifestIntent
  pub unmarshal_commit : List ℕ → Option ManifestCommit

-- The errors of the decoders: another kind of record, and JSON that does not parse.
pub data DecodeError : Type 0 where
  wrong_kind bad_json : DecodeError

pub data Decoded {ℓ} (A : Type ℓ) : Type ℓ where
  ok : A → Decoded A
  err : DecodeError → Decoded A

infixl 5 ◌>>=◌
abbrev pub ◌>>=◌ {ℓ κ} : {A : Type ℓ} {B : Type κ} → Decoded A → (A → Decoded B) → Decoded B
ok a >>= f = f a
err e >>= f = err e

abbrev pub parsed {ℓ} : {A : Type ℓ} → Option A → Decoded A
parsed none = err bad_json
parsed (some a) = ok a

unfoldable pub decode_manifest_intent : Json → WalRecord → Decoded ManifestIntent
decode_manifest_intent json rec =
    if rec.kind == kind_manifest_intent
    then parsed (json.unmarshal_intent rec.payload)
    else err wrong_kind

unfoldable pub decode_manifest_commit : Json → WalRecord → Decoded ManifestCommit
decode_manifest_commit json rec =
    if rec.kind == kind_manifest_commit
    then parsed (json.unmarshal_commit rec.payload)
    else err wrong_kind

-- AppendManifestIntent and AppendManifestCommit, as the record that they hand to the log.
unfoldable pub intent_record : Json → ManifestIntent → WalRecord
intent_record json i = record { kind = kind_manifest_intent; payload = json.marshal_intent i }

unfoldable pub commit_record : Json → ManifestCommit → WalRecord
commit_record json c = record { kind = kind_manifest_commit; payload = json.marshal_commit c }

-- The variables of the loop: `intents`, `order` and `seen`.
pub record Pending : Type 0 where
  pub intents : Dict ℕ (List ManifestIntent)
  pub order : List ℕ
  pub seen : Dict ℕ Bool

abbrev pub no_pending : Pending
no_pending = record { intents = []; order = []; seen = [] }

-- A Go map gives the zero value for a missing key.
abbrev pub or_zero {ℓ} : {A : Type ℓ} → A → Option A → A
or_zero z none = z
or_zero z (some a) = a

unfoldable pub see_intent : ManifestIntent → Pending → Pending
see_intent v p = record {
  intents = put v.txn_id (or_zero [] (get v.txn_id p.intents) ++ v ∷ []) p.intents;
  order = if or_zero false (get v.txn_id p.seen) then p.order else p.order ++ v.txn_id ∷ [];
  seen = put v.txn_id true p.seen;
}

unfoldable pub see_commit : ManifestCommit → Pending → Pending
see_commit v p = record p { intents = remove v.txn_id p.intents }

-- One record of the log.
unfoldable pub see : Json → WalRecord → Pending → Decoded Pending
see json rec p =
    if rec.kind == kind_manifest_intent
    then (do v ← decode_manifest_intent json rec; ok (see_intent v p))
    else if rec.kind == kind_manifest_commit
    then (do v ← decode_manifest_commit json rec; ok (see_commit v p))
    else ok p

unfoldable pub see_all : Json → List WalRecord → Pending → Decoded Pending
see_all json [] p = ok p
see_all json (rec ∷ records) p = do p' ← see json rec p; see_all json records p'

-- Unknown ids give no intents: out = append(out, intents[id]...)
unfoldable pub flat_pending : Pending → List ℕ → List ManifestIntent
flat_pending p [] = []
flat_pending p (id ∷ ids) = or_zero [] (get id p.intents) ++ flat_pending p ids

unfoldable pub grouped_pending : Pending → List ℕ → List (List ManifestIntent)
grouped_pending p [] = []
grouped_pending p (id ∷ ids) =
    let rest = grouped_pending p ids in elim (get id p.intents) [ none ↦ rest | some g ↦ g ∷ rest ]

unfoldable pub pending_txns : Json → List WalRecord → Decoded (List ManifestIntent)
pending_txns json records = do p ← see_all json records no_pending; ok (flat_pending p p.order)

unfoldable pub pending_txn_groups : Json → List WalRecord → Decoded (List (List ManifestIntent))
pending_txn_groups json records = do
  p ← see_all json records no_pending
  ok (grouped_pending p p.order)
