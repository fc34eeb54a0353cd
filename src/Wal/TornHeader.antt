-- ===== src/Wal/TornHeader.antt =====
-- A file cut inside its header page: no header is written in place of the torn one.
use native.Mathlib.Nat.{mod-eq_of_lt}
use dripsql.Base.{
  ℕ, suc, ◌∙◌, ◌≤◌, ◌<◌, ◌≡◌, ◌≢◌, refl, ap, List, [], ◌∷◌, ◌++◌, Bool-cases, inl, inr, arith,
  length, drop, true, false, length-append, nat_eq, nat_beq, le→ltb, lt→ltb, text_beq, text_beq_iff,
  get_or,
}
use dripsql.Base.Bytes.{write_at-end, truncate, read_at, zeros}
use dripsql.Wal.Log.{
  WalRecord, ok, err, bad_magic, calm, frame, frame_head, open_wal, replay, append, append_sync,
  after_write, truncate_to, wal_magic,
}
use dripsql.Wal.Frame.{IsRecord, length-frame, padded_bounds}
use dripsql.Wal.Replay.{at_rest}
use dripsql.Wal.Append.{append_opened}

-- A header page that was cut is dropped, and no header is written in its place.
open_wal-torn_header :
    (file : List ℕ)
    → 0 < length file
    → length file < 4096
    → open_wal calm file ≡ (ok [], at_rest [])
unfolding open_wal replay truncate_to truncate zeros
open_wal-torn_header file some_bytes short = rw (nonempty, lt→ltb (length file) 4096 short)
  where
    nonempty : nat_beq (length file) 0 ≡ false
    nonempty = ground arith

pub append_end :
    (file : List ℕ) (r : WalRecord)
    → IsRecord r
    → append calm true r (at_rest file) ≡ (ok (length (file ++ frame r)), at_rest (file ++ frame r))
unfolding after_write
append_end file r v =
    append_opened calm true r (at_rest file) (omega (arith, v)) refl
    ∙ rw (write_at-end (frame r) file _ refl, ← length-frame r, length-append file (frame r))

wrong_magic : (kind : ℕ) (rest : List ℕ) → kind ≢ 0x44 → text_beq (kind ∷ rest) wal_magic ≡ false
wrong_magic kind rest h = elim (Bool-cases (text_beq (kind ∷ rest) wal_magic)) [
  | inl same ↦ absurd (h (omega (arith, ap (λ l. get_or l 0 0) ((text_beq_iff _ _).0 same))))
  | inr other ↦ other
]

frame_first : (r : WalRecord) → IsRecord r → (t : List ℕ) × (frame r ≡ r.kind ∷ t)
unfolding frame frame_head
frame_first r v = (drop 1 (frame r), rw (mod-eq_of_lt v.kind_fits))

no_magic :
    (kind : ℕ) (t : List ℕ)
    → 4096 ≤ suc (length t)
    → kind ≢ 0x44
    → (open_wal calm (kind ∷ t)).0 ≡ err bad_magic
unfolding open_wal replay read_at
no_magic kind t long other = rw (
  nonempty,
  le→ltb (suc (length t)) 4096 long,
  le→ltb (suc (length t)) 6 (omega arith),
  wrong_magic kind _ other,
)
  where
    nonempty : nat_beq (suc (length t)) 0 ≡ false
    nonempty = ground arith

open_wal-no_header :
    (r : WalRecord) → IsRecord r → r.kind ≢ 0x44 → (open_wal calm (frame r)).0 ≡ err bad_magic
open_wal-no_header r v other =
    let (t, starts) = frame_first r v in
    rw starts (
      no_magic r.kind t
        (omega (arith, ap length starts, length-frame r, padded_bounds (length r.payload))) other)

-- A record that Append acknowledged, on a log whose header page had been cut short before it was
-- opened, makes the log unreadable: the next open reports a bad magic number.
pub torn_header_loses :
    (file : List ℕ) (r : WalRecord)
    → 0 < length file
    → length file < 4096
    → IsRecord r
    → r.kind ≢ 0x44
    → let (result, w) = open_wal calm file in
      let (appended, w') = append_sync calm r w in
      (result ≡ ok [])
      × (appended ≡ ok (length (frame r)))
      × ((open_wal calm w'.file).0 ≡ err bad_magic)
unfolding append_sync
torn_header_loses file r some_bytes short v other =
    rw (open_wal-torn_header file some_bytes short, append_end [] r v)
      (refl, refl, open_wal-no_header r v other)
