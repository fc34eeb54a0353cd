-- ===== src/Wal/Torn.antt =====
-- A write that was cut off: what a crash, or a failed WriteAt, leaves behind a whole log.
use mathlib.Core.List.{append_assoc, append-nil}
use native.Mathlib.Nat.{le_refl}
use dripsql.Base.{
  ℕ, zero, suc, ◌∙◌, ◌+◌, ◌-◌, ◌≤◌, ◌<◌, ◌≡◌, refl, ap, some, none, List, [], ◌∷◌, ◌++◌, Bool-cases,
  inl, inr, arith, length, take, true, false, length-append, ltb, if◌then◌else◌, le→ltb, lt→ltb,
  ltb→lt, All, length-take, take-append-add, min,
}
use dripsql.Base.Bytes.{le_bytes, read_at, read_at-middle, truncate-append}
use dripsql.Base.Crc.{checksum_ieee}
use dripsql.Wal.Log.{
  WalRecord, Wal, ok, calm, wal_padded_frame_size, frame_head, raw_frame, frame, read_frame,
  open_wal,
}
use dripsql.Wal.Frame.{
  IsRecord, read_frame-raw, length-frame, length-raw_frame, padded_bounds, length-frame_head,
  frame_padding, frame-split, head_length,
}
use dripsql.Wal.Replay.{
  log_file, loop_step, loop_end, loop_cut, opened, replay_tail, length-log_file, at_rest,
  open_wal-log_file, opens, left, frames_long,
}

-- What stands behind the header in a frame.
behind_head : WalRecord → List ℕ
behind_head r =
    (r.payload ++ le_bytes 4 (checksum_ieee (frame_head r ++ r.payload))) ++ frame_padding r

frame-head : (r : WalRecord) → frame r ≡ frame_head r ++ behind_head r
unfolding behind_head raw_frame
frame-head r = frame-split r ∙ append_assoc (frame_head r) _ (frame_padding r)

-- Fewer bytes than header, payload and checksum are no frame.
read_frame-torn :
    (pre : List ℕ) (r : WalRecord) (k pos : ℕ) (w : Wal)
    → IsRecord r
    → k < length r.payload + 9
    → length pre ≡ pos
    → w.file ≡ pre ++ take k (frame r)
    → w.size ≡ length w.file
    → read_frame calm pos w ≡ ok none
unfolding read_frame
read_frame-torn pre r k pos w v short hp hf hw = elim (Bool-cases (ltb k 5)) [
  | inl few ↦ rw (lt→ltb w.size (pos + 5) (omega (arith, size, ltb→lt k 5 few)))
  | inr more ↦ rw (
    le→ltb w.size (pos + 5) (omega (arith, size, five more)),
    reads_head more,
    head_length r v,
    lt→ltb w.size (pos + 5 + length r.payload + 4) (omega (arith, size)),
  )
]
  where
    size : w.size ≡ pos + k
    size = omega (
      arith,
      ap length hf,
      length-append pre (take k (frame r)),
      length-take k (frame r),
      length-frame r,
      padded_bounds (length r.payload),
    )

    five : ltb k 5 ≡ false → 5 ≤ k
    five h = ground arith

    head_first : ltb k 5 ≡ false → w.file ≡ pre ++ (frame_head r ++ take (k - 5) (behind_head r))
    head_first h =
        let split : k ≡ 5 + (k - 5) = omega (arith, five h) in
        hf
        ∙ ap (λ l. pre ++ l)
            (ap (λ n. take n (frame r)) split
              ∙ rw (frame-head r)
                  (take-append-add 5 (k - 5) (frame_head r) (behind_head r) (length-frame_head r)))

    reads_head : ltb k 5 ≡ false → read_at 5 pos w.file ≡ some (frame_head r)
    reads_head h =
        rw (head_first h) (read_at-middle pre (frame_head r) _ 5 pos hp (length-frame_head r))

-- A whole frame whose padding is cut is read, and ends the loop.
pub cut_padding :
    (r : WalRecord) (k : ℕ)
    → length r.payload + 9 ≤ k
    → take k (frame r) ≡ raw_frame r ++ take (k - (length r.payload + 9)) (frame_padding r)
cut_padding r k h =
    let split : k ≡ (length r.payload + 9) + (k - (length r.payload + 9)) = omega arith in
    ap (λ n. take n (frame r)) split
    ∙ rw (frame-split r) (
        take-append-add (length r.payload + 9) (k - (length r.payload + 9)) (raw_frame r)
          (frame_padding r) (length-raw_frame r))

-- Opening a log whose last write, of the record `r`, put down `k` bytes of its frame. If header,
-- payload and checksum are among them the record is read; if not it is not, and the file is cut
-- back to the whole frames. No record before it is touched.
pub open_wal-torn :
    (rs : List WalRecord) (r : WalRecord) (k : ℕ)
    → All IsRecord rs
    → IsRecord r
    → open_wal calm (log_file rs ++ take k (frame r)) ≡ (
        if ltb k (length r.payload + 9)
        then (ok rs, at_rest (log_file rs))
        else (ok (rs ++ r ∷ []), at_rest (log_file rs ++ take k (frame r))))
open_wal-torn rs r zero vs v =
    rw (append-nil, lt→ltb 0 (length r.payload + 9) (omega arith)) (open_wal-log_file rs vs)
open_wal-torn rs r (suc k) vs v = elim (Bool-cases (ltb (suc k) (length r.payload + 9))) [
  | inl short ↦ rw short (
      opens _ rs _ (
        replay_tail rs vs tail
        ∙ loop_cut _ _ rs (opened rs vs tail) (omega (arith, size))
            (read_frame-torn (log_file rs) r (suc k) _ _ v (ltb→lt _ _ short) refl refl refl)
        ∙ ap (λ file. (ok rs, record { file = file; handle = true; size = length (log_file rs) }))
            (truncate-append (log_file rs) tail _ refl)))
  | inr full ↦ rw full (
      opens _ (rs ++ r ∷ []) _ (
        replay_tail rs vs tail
        ∙ rw fuel (
            loop_step _ _ _ rs (opened rs vs tail) r (omega (arith, size)) (
              read_frame-raw (log_file rs) _ r v _ _ refl
                (ap (λ l. log_file rs ++ l) (cut_padding r (suc k) (fits full))) (le_refl _))
            ∙ loop_end _ _ (rs ++ r ∷ []) (opened rs vs tail) (omega (arith, size)))))
]
  where
    tail : List ℕ
    tail = take (suc k) (frame r)

    size :
        (length (log_file rs ++ tail)
          ≡ length (log_file rs) + min (suc k) (wal_padded_frame_size (length r.payload)))
        × (length r.payload + 9 ≤ wal_padded_frame_size (length r.payload))
    size = omega (
      arith,
      length-append (log_file rs) tail,
      length-take (suc k) (frame r),
      length-frame r,
      padded_bounds (length r.payload),
    )

    fits : ltb (suc k) (length r.payload + 9) ≡ false → length r.payload + 9 ≤ suc k
    fits h = ground arith

    fuel : left rs vs tail - 1 ≡ suc (left rs vs tail - 2)
    fuel = omega (arith, size, length-log_file rs vs tail, frames_long rs)
