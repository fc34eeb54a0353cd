-- ===== src/Wal/Append.antt =====
-- Append and TruncateToHeader on an open log: what they leave in the file, faults included.
use mathlib.Core.List.{append_assoc, append-nil}
use mathlib.Core.Path.{subst}
use native.Mathlib.Nat.{le_refl}
use dripsql.Base.{
  ℕ, ◌∙◌, ◌+◌, ◌-◌, ◌^◌, ◌≡◌, ◌⊎◌, refl, ap, sym, some, none, Option, List, [], ◌∷◌, ◌++◌, Bool,
  Bool-cases, inl, inr, arith, length, take, drop, true, false, length-append, ltb, if◌then◌else◌,
  ◌==◌, nat_eq, nat_beq_iff, le→ltb, lt→ltb, ltb→lt, ◌≤◌, ◌<◌, ◌≢◌, ◌&&◌, All, take-all,
}
use dripsql.Base.Bytes.{write_at, write_at-over, write_at-end, truncate, truncate-append}
use dripsql.Wal.Log.{
  WalRecord, Wal, Result, ok, err, io, payload_too_large, Faults, calm, wal_padded_frame_size,
  frame, landed, open_wal, append, after_write, truncate_to_header, file_header,
}
use dripsql.Wal.Frame.{IsRecord, length-frame, padded_bounds}
use dripsql.Wal.Replay.{frames, log_file, frames-append, at_rest, length-file_header}
use dripsql.Wal.Torn.{open_wal-torn}

-- The log is open, its size is the end of the records `rs`, and its file has these up to there and
-- behind them `junk`, which failed writes left.
pub record Holds (rs : List WalRecord) (junk : List ℕ) (w : Wal) : Type 0 where
  pub opened : w.handle ≡ true
  pub sized : w.size ≡ length (log_file rs)
  pub filed : w.file ≡ log_file rs ++ junk

log_file-snoc :
    (rs : List WalRecord) (r : WalRecord) → log_file (rs ++ r ∷ []) ≡ log_file rs ++ frame r
unfolding log_file frames
log_file-snoc rs r =
    ap (λ l. file_header ++ l)
      (frames-append rs (r ∷ []) ∙ ap (λ l. frames rs ++ l) (append-nil (frame r)))
    ∙ sym (append_assoc file_header (frames rs) (frame r))

write_frame :
    (rs : List WalRecord) (buf junk : List ℕ) (file : List ℕ) (off : ℕ)
    → file ≡ log_file rs ++ junk
    → off ≡ length (log_file rs)
    → write_at buf off file ≡ log_file rs ++ (buf ++ drop (length buf) junk)
write_frame rs buf junk file off hf ho = rw hf (write_at-over buf (log_file rs) junk off (sym ho))

-- The buffer written over what was there.
abbrev pub overwrites : List ℕ → List ℕ → List ℕ
overwrites buf junk = buf ++ drop (length buf) junk

-- Whether the append meets a fault.
abbrev pub failing : Faults → Bool → Bool
failing io_faults sync = elim io_faults.write [ none ↦ sync && io_faults.sync | some n ↦ true ]

-- What an append of r to the open log w leaves, by its result.
abbrev pub Appended : Bool → List WalRecord → List ℕ → WalRecord → Wal → Result ℕ × Wal → Type 0
Appended fails rs junk r w (result, w') =
    ((2 ^ 32 ≤ length r.payload) × (result ≡ err payload_too_large) × (w' ≡ w))
    ⊎ ((length r.payload < 2 ^ 32)
        × (((fails ≡ false)
              × (result ≡ ok (length (log_file (rs ++ r ∷ []))))
              × Holds (rs ++ r ∷ []) (drop (length (frame r)) junk) w')
            ⊎ ((fails ≡ true)
                × (result ≡ err io)
                × (k : ℕ) × Holds rs (overwrites (take k (frame r)) junk) w')))

-- The outcome where the payload fits.
abbrev Written : Bool → List WalRecord → List ℕ → WalRecord → Result ℕ × Wal → Type 0
Written fails rs junk r (result, w') =
    ((fails ≡ false)
      × (result ≡ ok (length (log_file (rs ++ r ∷ []))))
      × Holds (rs ++ r ∷ []) (drop (length (frame r)) junk) w')
    ⊎ ((fails ≡ true)
        × (result ≡ err io)
        × (k : ℕ) × Holds rs (overwrites (take k (frame r)) junk) w')

module _ (rs : List WalRecord) (junk : List ℕ) (r : WalRecord) (w : Wal) (h : Holds rs junk w) where
  -- The file after a write of `buf` at the log's size.
  abbrev written : List ℕ → Wal
  written buf = record w { file = write_at buf w.size w.file }

  still : (buf : List ℕ) → Holds rs (overwrites buf junk) (written buf)
  still buf = record {
    opened = h.opened;
    sized = h.sized;
    filed = write_frame rs buf junk w.file w.size h.filed h.sized;
  }

  longer : w.size + wal_padded_frame_size (length r.payload) ≡ length (log_file (rs ++ r ∷ []))
  longer = omega (
    arith,
    h.sized,
    ap length (log_file-snoc rs r),
    length-append (log_file rs) (frame r),
    length-frame r,
  )

  grown :
      Holds
        (rs ++ r ∷ [])
        (drop (length (frame r)) junk)
        (record (written (frame r)) { size = w.size + wal_padded_frame_size (length r.payload) })
  grown = record {
    opened = h.opened;
    sized = longer;
    filed =
        write_frame rs (frame r) junk w.file w.size h.filed h.sized
        ∙ sym (append_assoc (log_file rs) (frame r) _)
        ∙ ap (λ l. l ++ drop (length (frame r)) junk) (sym (log_file-snoc rs r));
  }

  -- The whole frame has landed, and the sync has failed.
  unsynced : Holds rs (overwrites (take (length (frame r)) (frame r)) junk) (written (frame r))
  unsynced =
      subst (λ l. Holds rs (overwrites l junk) (written (frame r)))
        (sym (take-all (length (frame r)) (frame r) (le_refl _))) (still (frame r))

  outcome :
      (fault : Option ℕ) (sync fails : Bool)
      → Written
          (elim fault [ none ↦ sync && fails | some n ↦ true ])
          rs
          junk
          r
          (after_write fault sync fails
            (wal_padded_frame_size (length r.payload))
            (written (landed fault (frame r))))
  unfolding after_write
  outcome (some n) sync fails = inr (refl, refl, n, still (take n (frame r)))
  outcome none true true = inr (refl, refl, length (frame r), unsynced)
  outcome none true false = inl (refl, ap ok longer, grown)
  outcome none false fails = inl (refl, ap ok longer, grown)

pub append_opened :
    (io_faults : Faults) (sync : Bool) (r : WalRecord) (w : Wal)
    → length r.payload < 2 ^ 32
    → w.handle ≡ true
    → append io_faults sync r w
      ≡ after_write io_faults.write sync io_faults.sync
          (wal_padded_frame_size (length r.payload))
          (record w { file = write_at (landed io_faults.write (frame r)) w.size w.file })
unfolding append
append_opened io_faults sync r w v h =
    simp (h, le→ltb (2 ^ 32 - 1) (length r.payload) (omega (arith, v)))

append_too_large :
    (io_faults : Faults) (sync : Bool) (r : WalRecord) (w : Wal)
    → 2 ^ 32 ≤ length r.payload
    → w.handle ≡ true
    → append io_faults sync r w ≡ (err payload_too_large, w)
unfolding append
append_too_large io_faults sync r w v h =
    simp (h, lt→ltb (2 ^ 32 - 1) (length r.payload) (omega (arith, v)))

-- An append to an open log whose records are `rs`, with any bytes behind them. A payload of 2 ^ 32
-- bytes or more is refused, and nothing changes. Any other is appended where neither the write nor
-- a sync that is asked for fails: the result is the end of `rs` and the record, which are now the
-- log's, and behind them are the bytes that the frame did not reach. Where one fails the result is
-- an I/O error and the log's end is that of `rs` as before; behind it the file has a part of the
-- frame, or all of it, over what was there.
pub append-Holds :
    (io_faults : Faults) (sync : Bool) (r : WalRecord) (rs : List WalRecord) (junk : List ℕ)
    (w : Wal)
    → Holds rs junk w
    → Appended (failing io_faults sync) rs junk r w (append io_faults sync r w)
append-Holds io_faults sync r rs junk w h = elim (Bool-cases (ltb (length r.payload) (2 ^ 32))) [
  | inl fits ↦
      let v = ltb→lt (length r.payload) (2 ^ 32) fits in
      rw (append_opened io_faults sync r w v h.opened)
        (inr (v, outcome rs junk r w h io_faults.write sync io_faults.sync))
  | inr large ↦
      let v : 2 ^ 32 ≤ length r.payload = ground arith in
      rw (append_too_large io_faults sync r w v h.opened) (inl (v, refl, refl))
]

header_only : (rs : List WalRecord) → length (log_file rs) ≡ 4096 → rs ≡ []
unfolding log_file frames
header_only [] h = refl
header_only (r ∷ rs) h = absurd (
    omega (
      arith,
      length-append file_header (frame r ++ frames rs),
      length-append (frame r) (frames rs),
      length-file_header,
      length-frame r,
      padded_bounds (length r.payload),
    ))

length-log_file_nil : length (log_file []) ≡ 4096
unfolding log_file frames
length-log_file_nil = ap length (append-nil file_header) ∙ length-file_header

longer_than_header :
    (rs : List WalRecord) (w : Wal)
    → w.size ≡ length (log_file rs)
    → (w.size == 4096) ≡ false
    → rs ≢ []
longer_than_header rs w sized long e =
    let size : w.size ≡ 4096 = sized ∙ ap (λ l. length (log_file l)) e ∙ length-log_file_nil in
    let small = (nat_beq_iff w.size 4096).1 size in cc

emptied :
    (rs : List WalRecord) (junk file : List ℕ)
    → file ≡ log_file rs ++ junk
    → truncate 4096 file ≡ log_file [] ++ []
unfolding log_file frames
emptied rs junk file e =
    ap (truncate 4096) (e ∙ append_assoc file_header (frames rs) junk)
    ∙ truncate-append file_header (frames rs ++ junk) 4096 length-file_header
    ∙ sym (append-nil (file_header ++ []) ∙ append-nil file_header)

-- What TruncateToHeader leaves of the open log w, by whether the truncation fails.
abbrev pub Emptied : Bool → List WalRecord → Wal → Result (Unit {0}) × Wal → Type 0
Emptied fails rs w (result, w') =
    ((rs ≡ []) × (result ≡ ok tt) × (w' ≡ w))
    ⊎ ((rs ≢ []) × (fails ≡ false) × (result ≡ ok tt) × Holds [] [] w')
    ⊎ ((rs ≢ []) × (fails ≡ true) × (result ≡ err io) × (w' ≡ w))

-- TruncateToHeader on an open log whose records are `rs`, with any bytes behind them. A log that has
-- a record is cut to its header, and no byte is left behind that, unless the truncation fails; then
-- there is an I/O error and nothing changes. A log without a record is left as it is, with the bytes
-- that failed writes may have left behind its header.
pub truncate_to_header-Holds :
    (io_faults : Faults) (rs : List WalRecord) (junk : List ℕ) (w : Wal)
    → Holds rs junk w
    → Emptied io_faults.trunc rs w (truncate_to_header io_faults w)
unfolding truncate_to_header
truncate_to_header-Holds io_faults rs junk w h = elim (Bool-cases (w.size == 4096)) [
  | inl small ↦
      simp (h.opened, small)
        (inl
          (header_only rs (omega (arith, h.sized, (nat_beq_iff w.size 4096).0 small)), refl, refl))
  | inr long ↦
      let some_record : rs ≢ [] = λ e. longer_than_header rs w h.sized long e in
      elim (Bool-cases io_faults.trunc) [
        | inl fails ↦ simp (h.opened, long, fails) (inr (inr (some_record, refl, refl, refl)))
        | inr fine ↦
            simp (h.opened, long, fine)
              (inr (
                inl (
                  some_record,
                  refl,
                  refl,
                  record {
                    opened = refl;
                    sized = sym (omega (arith, length-log_file_nil));
                    filed = emptied rs junk w.file h.filed;
                  },
                )))
      ]
]

-- A failed write or not, a prefix of the frame has landed.
landed_prefix : (fault : Option ℕ) (buf : List ℕ) → (k : ℕ) × (landed fault buf ≡ take k buf)
landed_prefix none buf = (length buf, sym (take-all (length buf) buf (le_refl _)))
landed_prefix (some n) buf = (n, refl)

after_write-file :
    (fault : Option ℕ) (sync fails : Bool) (n : ℕ) (w : Wal)
    → (after_write fault sync fails n w).1.file ≡ w.file
unfolding after_write
after_write-file (some k) sync fails n w = refl
after_write-file none true true n w = refl
after_write-file none true false n w = refl
after_write-file none false fails n w = refl

if_either {ℓ} :
    {A B : Type ℓ} (b : Bool) (x y : Result A) (p q : B)
    → let chosen : Result A × B = if b then (x, p) else (y, q) in (chosen.0 ≡ x) ⊎ (chosen.0 ≡ y)
if_either true x y p q = inl refl
if_either false x y p q = inr refl

-- A crash during the append of `r` to a log that holds `rs` and nothing else, or an I/O error of
-- that append, leaves a file that opens to `rs`, or to `rs` and `r`.
pub open_wal-append :
    (io_faults : Faults) (sync : Bool) (r : WalRecord) (rs : List WalRecord)
    → All IsRecord rs
    → IsRecord r
    → let reopened = (open_wal calm (append io_faults sync r (at_rest (log_file rs))).1.file).0 in
      (reopened ≡ ok rs) ⊎ (reopened ≡ ok (rs ++ r ∷ []))
open_wal-append io_faults sync r rs vs v =
    rw (filed, open_wal-torn rs r k vs v)
      (if_either (ltb k (length r.payload + 9)) (ok rs) (ok (rs ++ r ∷ [])) _ _)
  where
    k : ℕ
    k = (landed_prefix io_faults.write (frame r)).0

    filed :
        (append io_faults sync r (at_rest (log_file rs))).1.file ≡ log_file rs ++ take k (frame r)
    filed =
        ap (λ p. p.1.file)
          (append_opened io_faults sync r (at_rest (log_file rs)) (omega (arith, v)) refl)
        ∙ after_write-file io_faults.write sync io_faults.sync _ _
        ∙ write_at-end _ (log_file rs) _ refl
        ∙ ap (λ l. log_file rs ++ l) (landed_prefix io_faults.write (frame r)).1
