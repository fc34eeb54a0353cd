-- ===== src/Wal/Replay.antt =====
-- What opening a log finds: on a log that was written whole, and on one whose last write was torn.
use mathlib.Core.List.{append_assoc, append-nil}
use mathlib.Core.Path.{subst}
use dripsql.Base.{
  ℕ, zero, suc, nat_beq, text_beq_iff, ◌∙◌, ◌+◌, ◌-◌, ◌≤◌, ◌<◌, ◌≡◌, refl, ap, some, none, List, [],
  ◌∷◌, ◌++◌, arith, nat_eq, length, true, false, length-append, le→ltb, lt→ltb, All,
}
use dripsql.Base.Bytes.{
  le_bytes, from_le, length-le_bytes, read_at, read_at-middle, truncate, zeros, length-zeros,
}
use dripsql.Wal.Log.{
  WalRecord, Wal, ok, calm, wal_padded_frame_size, raw_frame, frame, read_frame, file_header,
  replay_loop, open_wal, replay, after_replay, truncate_to, wal_magic,
}
use dripsql.Wal.Frame.{
  IsRecord, read_frame-raw, length-frame, length-raw_frame, padded_bounds, frame_padding,
  frame-split,
}

unfoldable pub frames : List WalRecord → List ℕ
frames [] = []
frames (r ∷ rs) = frame r ++ frames rs

-- The file that holds the records `rs` and nothing else.
unfoldable pub log_file : List WalRecord → List ℕ
unfolding frames
log_file rs = file_header ++ frames rs

pub frames-append : (rs ss : List WalRecord) → frames (rs ++ ss) ≡ frames rs ++ frames ss
unfolding frames
frames-append [] ss = refl
frames-append (r ∷ rs) ss = rw (frames-append rs ss, append_assoc)

pub frames_long : (rs : List WalRecord) → length rs ≤ length (frames rs)
unfolding frames
frames_long [] = omega arith
frames_long (r ∷ rs) = omega (
  arith,
  frames_long rs,
  length-append (frame r) (frames rs),
  length-frame r,
  padded_bounds (length r.payload),
)

-- One round of the loop, on a frame that is read.
pub loop_step :
    (fuel pos next : ℕ) (records : List WalRecord) (w : Wal) (r : WalRecord)
    → pos < w.size
    → read_frame calm pos w ≡ ok (some (r, next))
    → replay_loop (suc fuel) calm pos records w
      ≡ replay_loop fuel calm (pos + wal_padded_frame_size (length r.payload)) (records ++ r ∷ []) w
unfolding replay_loop
loop_step fuel pos next records w r h e = rw (lt→ltb pos w.size h, e)

pub loop_end :
    (fuel pos : ℕ) (records : List WalRecord) (w : Wal)
    → w.size ≤ pos
    → replay_loop (suc fuel) calm pos records w ≡ (ok records, w)
unfolding replay_loop
loop_end fuel pos records w h = rw (le→ltb pos w.size h)

pub loop_cut :
    (fuel pos : ℕ) (records : List WalRecord) (w : Wal)
    → pos < w.size
    → read_frame calm pos w ≡ ok none
    → replay_loop (suc fuel) calm pos records w
      ≡ (ok records, record w { file = truncate pos w.file; size = pos })
unfolding replay_loop truncate_to
loop_cut fuel pos records w h e = rw (lt→ltb pos w.size h, e)

-- The loop reads frame after frame.
loop_frames :
    (rs : List WalRecord) (total fuel pos : ℕ) (pre tail : List ℕ) (records : List WalRecord)
    (w : Wal)
    → All IsRecord rs
    → total ≡ length rs + fuel
    → length pre ≡ pos
    → w.file ≡ pre ++ (frames rs ++ tail)
    → length w.file ≡ w.size
    → replay_loop total calm pos records w
      ≡ replay_loop fuel calm (pos + length (frames rs)) (records ++ rs) w
unfolding frames
loop_frames [] total fuel pos pre tail records w v ht hp hf hw =
    let same : total ≡ fuel = omega arith in
    let here : pos + 0 ≡ pos = omega arith in rw (same, here, append-nil)
loop_frames (r ∷ rs) zero fuel pos pre tail records w v ht hp hf hw = absurd (omega arith)
loop_frames (r ∷ rs) (suc total) fuel pos pre tail records w (v, vs) ht hp hf hw =
    loop_step total pos _ records w r in_file
      (read_frame-raw pre _ r v w pos hp raw_first (omega (arith, hw)))
    ∙ loop_frames rs total fuel (pos + wal_padded_frame_size (length r.payload)) (pre ++ frame r)
        tail (records ++ r ∷ []) w vs (omega arith)
        (omega (arith, length-append pre (frame r), length-frame r)) (hf ∙ simp append_assoc) hw
    ∙ rw (← length-frame r, next, append_assoc)
  where
    raw_first : w.file ≡ pre ++ (raw_frame r ++ (frame_padding r ++ (frames rs ++ tail)))
    raw_first = hf ∙ rw (frame-split r) (simp append_assoc)

    in_file : pos < w.size
    in_file = omega (
      arith,
      ap length raw_first,
      length-append pre (raw_frame r ++ (frame_padding r ++ (frames rs ++ tail))),
      length-append (raw_frame r) (frame_padding r ++ (frames rs ++ tail)),
      length-raw_frame r,
    )

    next : pos + length (frame r) + length (frames rs) ≡ pos + length (frame r ++ frames rs)
    next = omega (arith, length-append (frame r) (frames rs))

pub length-file_header : length file_header ≡ 4096
unfolding file_header
length-file_header =
    omega (arith, length-le_bytes 2 2, length-zeros 4090, length-append (le_bytes 2 2) (zeros 4090))

-- Opening a file that starts with the header comes down to the loop.
open_loop :
    (file : List ℕ)
    → 4096 ≤ length file
    → read_at 6 0 file ≡ some (0x44 ∷ 0x57 ∷ 0x41 ∷ 0x4c ∷ 2 ∷ 0 ∷ [])
    → replay calm (record { file = file; handle = true; size = 0 })
      ≡ replay_loop
          (length file)
          calm
          4096
          []
          (record { file = file; handle = true; size = length file })
unfolding replay from_le
open_loop file h e =
    rw (nonzero, le→ltb (length file) 4096 h, e, (text_beq_iff wal_magic wal_magic).1 refl)
  where
    nonzero : nat_beq (length file) 0 ≡ false
    nonzero = ground arith

header_read :
    (rest : List ℕ)
    → read_at 6 0 (file_header ++ rest) ≡ some (0x44 ∷ 0x57 ∷ 0x41 ∷ 0x4c ∷ 2 ∷ 0 ∷ [])
unfolding file_header le_bytes
header_read rest =
    read_at-middle [] (0x44 ∷ 0x57 ∷ 0x41 ∷ 0x4c ∷ 2 ∷ 0 ∷ []) (zeros 4090 ++ rest) 6 0 refl refl

-- What opening finds behind a header and whole frames depends on the tail alone.
module _ (rs : List WalRecord) (vs : All IsRecord rs) (tail : List ℕ) where
  abbrev pub whole : List ℕ
  whole = log_file rs ++ tail

  abbrev pub opened : Wal
  opened = record { file = whole; handle = true; size = length whole }

  -- The loop's fuel once the frames are read.
  abbrev pub left : ℕ
  left = length whole - length rs

  pub length-whole : length whole ≡ 4096 + length (frames rs) + length tail
  unfolding log_file
  length-whole = omega (
    arith,
    length-append (file_header ++ frames rs) tail,
    length-append file_header (frames rs),
    length-file_header,
  )

  pub length-log_file : length (log_file rs) ≡ 4096 + length (frames rs)
  unfolding log_file
  length-log_file = omega (arith, length-append file_header (frames rs), length-file_header)

  pub replay_tail :
      replay calm (record { file = whole; handle = true; size = 0 })
      ≡ replay_loop (suc (left - 1)) calm (length (log_file rs)) rs opened
  unfolding log_file
  replay_tail =
      open_loop whole (omega (arith, length-whole)) (rw append_assoc (header_read _))
      ∙ loop_frames rs (length whole) (suc (left - 1)) 4096 file_header tail [] opened vs
          (omega (arith, length-whole, frames_long rs)) length-file_header
          (append_assoc file_header (frames rs) tail) refl
      ∙ rw (← length-file_header, ← length-append file_header (frames rs))

-- `open_wal` where the replay succeeds.
pub opens :
    (file : List ℕ) (records : List WalRecord) (w : Wal)
    → replay calm (record { file = file; handle = true; size = 0 }) ≡ (ok records, w)
    → open_wal calm file ≡ (ok records, w)
unfolding open_wal
opens file records w e = ap after_replay e

-- The log with the bytes of `file`, open.
abbrev pub at_rest : List ℕ → Wal
at_rest file = record { file = file; handle = true; size = length file }

-- Opening a log that was written whole, of records with a type of a byte and a length of 32 bits,
-- returns its records in order and leaves the file alone.
pub open_wal-log_file :
    (rs : List WalRecord)
    → All IsRecord rs
    → open_wal calm (log_file rs) ≡ (ok rs, at_rest (log_file rs))
open_wal-log_file rs vs =
    subst (λ file. open_wal calm file ≡ (ok rs, at_rest file)) (append-nil (log_file rs))
      (opens _ rs _ (
        replay_tail rs vs []
        ∙ loop_end _ _ rs (opened rs vs []) (omega (arith, ap length (append-nil (log_file rs))))))
