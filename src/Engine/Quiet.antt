-- ===== src/Engine/Quiet.antt =====
-- A log with a history: what it replays to when a transaction is logged behind it.
use mathlib.Core.List.{append-nil}
use dripsql.Base.{
  ℕ, ◌≡◌, refl, ap, ◌∙◌, sym, false, none, some, List, [], ◌∷◌, ◌++◌, nat_eq, ◌==◌, arith, All,
  if◌then◌else◌, nat_beq_iff,
}
use dripsql.Base.Dict.{get, get-put, get-remove}
use dripsql.Wal.Log.{WalRecord}
use dripsql.Wal.Pending.{
  ManifestIntent, ManifestCommit, Json, intent_record, commit_record, Decoded, ok, err, ◌>>=◌, see,
  see_intent, see_commit, see_all, Pending, no_pending, pending_txn_groups, grouped_pending,
}
use dripsql.Engine.Logs.{ReadsIntent, ReadsCommits, see-intent_record, see-commit_record}

-- A log whose records can be read and whose intents are all resolved, and in which no record is of
-- the transaction id.
pub record Quiet (json : Json) (log : List WalRecord) (id : ℕ) : Type 0 where
  pub pending : Pending
  pub replays : see_all json log no_pending ≡ ok pending
  pub resolved : (k : ℕ) → get k pending.intents ≡ none
  pub unseen : get id pending.seen ≡ none
  pub older : All (λ (k : ℕ). (id == k) ≡ false) pending.order

bind-append :
    (f g h : Pending → Decoded Pending) (d : Decoded Pending)
    → ((q : Pending) → f q ≡ (g q >>= h))
    → (d >>= f) ≡ ((d >>= g) >>= h)
bind-append f g h (ok q) k = k q
bind-append f g h (err e) k = refl

see_all-append :
    (json : Json) (log more : List WalRecord) (p : Pending)
    → see_all json (log ++ more) p ≡ (see_all json log p >>= λ q. see_all json more q)
unfolding see_all
see_all-append json [] more p = refl
see_all-append json (r ∷ log) more p =
    bind-append _ (see_all json log) (see_all json more) (see json r p)
      (λ q. see_all-append json log more q)

grouped-none :
    (p : Pending) (ids more : List ℕ)
    → All (λ (k : ℕ). get k p.intents ≡ none) ids
    → grouped_pending p (ids ++ more) ≡ grouped_pending p more
unfolding grouped_pending
grouped-none p [] more h = refl
grouped-none p (k ∷ ids) more (h, hs) = ground (arith, h, grouped-none p ids more hs)

resolved-all :
    (p : Pending) (ids : List ℕ)
    → ((k : ℕ) → get k p.intents ≡ none)
    → All (λ (k : ℕ). get k p.intents ≡ none) ids
resolved-all p [] h = tt
resolved-all p (k ∷ ids) h = (h k, resolved-all p ids h)

module _ (json : Json) (reads : ReadsCommits json) (log : List WalRecord) where
  pub groups-empty : (id : ℕ) → Quiet json log id → pending_txn_groups json log ≡ ok []
  unfolding pending_txn_groups grouped_pending
  groups-empty id q = rw q.replays (
      ap (λ ids. ok (grouped_pending q.pending ids)) (sym (append-nil q.pending.order))
      ∙ ap ok (
          grouped-none q.pending q.pending.order []
            (resolved-all q.pending q.pending.order q.resolved)))

  module _ (i : ManifestIntent) (h : ReadsIntent json i) (q : Quiet json log i.txn_id) where
    logged :
        see_all json (log ++ intent_record json i ∷ []) no_pending ≡ ok (see_intent i q.pending)
    unfolding see_all
    logged =
        see_all-append json log (intent_record json i ∷ []) no_pending
        ∙ rw (q.replays, see-intent_record json i q.pending h) refl

    at_end : (see_intent i q.pending).order ≡ q.pending.order ++ i.txn_id ∷ []
    unfolding see_intent
    at_end = rw q.unseen refl

    found :
        (k : ℕ)
        → get k (see_intent i q.pending).intents ≡ (if i.txn_id == k then some (i ∷ []) else none)
    unfolding see_intent
    found k =
        rw (q.resolved i.txn_id, get-put i.txn_id k (i ∷ []) q.pending.intents, q.resolved k) refl

    older_none :
        (ids : List ℕ)
        → All (λ (k : ℕ). (i.txn_id == k) ≡ false) ids
        → All (λ (k : ℕ). get k (see_intent i q.pending).intents ≡ none) ids
    older_none [] hs = tt
    older_none (k ∷ ids) (h, hs) = (rw (found k, h) refl, older_none ids hs)

    own : get i.txn_id (see_intent i q.pending).intents ≡ some (i ∷ [])
    own = rw (found i.txn_id, (nat_beq_iff i.txn_id i.txn_id).1 refl) refl

    committed_none :
        (c : ManifestCommit)
        → c.txn_id ≡ i.txn_id
        → (k : ℕ) → get k (see_commit c (see_intent i q.pending)).intents ≡ none
    unfolding see_commit
    committed_none c same k =
        rw (same, get-remove i.txn_id k (see_intent i q.pending).intents, found k) (ground arith)

    pub groups-logged :
        pending_txn_groups json (log ++ intent_record json i ∷ []) ≡ ok ((i ∷ []) ∷ [])
    unfolding pending_txn_groups grouped_pending
    groups-logged =
        rw (logged, at_end)
          (ap ok (
            grouped-none (see_intent i q.pending) q.pending.order (i.txn_id ∷ [])
              (older_none q.pending.order q.older)
            ∙ ground (arith, own)))

    pub groups-intent_commit :
        (c : ManifestCommit)
        → c.txn_id ≡ i.txn_id
        → pending_txn_groups json ((log ++ intent_record json i ∷ []) ++ commit_record json c ∷ [])
          ≡ ok []
    unfolding pending_txn_groups see_all grouped_pending
    groups-intent_commit c same =
        rw
          (
            see_all-append json (log ++ intent_record json i ∷ []) (commit_record json c ∷ [])
                no_pending,
            logged,
            see-commit_record json c (see_intent i q.pending) reads,
          )
          (ap (λ ids. ok (grouped_pending (see_commit c (see_intent i q.pending)) ids))
              (sym (append-nil (see_commit c (see_intent i q.pending)).order))
            ∙ ap ok (
                grouped-none (see_commit c (see_intent i q.pending)) _ []
                  (resolved-all (see_commit c (see_intent i q.pending)) _ (committed_none c same))))
