-- ===== src/Wal/TornPadding.antt =====
-- A file cut inside the padding of its last frame: the next record is written into that frame's
-- page, and the open after it does not find it.
use mathlib.Core.List.{append_assoc}
use native.Mathlib.Nat.{le_refl, zero-add, suc-add, sub-zero, zero-sub, suc-sub-suc}
use dripsql.Base.{
  ℕ, zero, suc, ◌∙◌, ◌+◌, ◌-◌, ◌≤◌, ◌<◌, ◌≡◌, refl, ap, sym, some, none, List, [], ◌∷◌, ◌++◌,
  Bool-cases, inl, inr, arith, length, take, drop, true, false, length-append, ltb, nat_eq, le→ltb,
  lt→ltb, ltb→lt, All, All, length-take, take-append-drop, drop-append-add,
}
use dripsql.Base.Bytes.{truncate, read_at, read_at-middle, zeros, length-zeros, from_le}
use dripsql.Base.Crc.{checksum_ieee}
use dripsql.Wal.Log.{
  WalRecord, Wal, ok, calm, wal_padded_frame_size, frame, raw_frame, open_wal, append_sync,
  read_frame, replay_loop,
}
use dripsql.Wal.Frame.{
  IsRecord, length-frame, padded_bounds, frame_padding, frame-split, read_frame-raw,
  length-raw_frame,
}
use dripsql.Wal.Replay.{
  frames_long, log_file, opens, opened, left, replay_tail, loop_step, loop_cut, length-log_file,
}
use dripsql.Wal.Torn.{cut_padding, open_wal-torn}
use dripsql.Wal.TornHeader.{append_end}

at_least : (m n : ℕ) → ltb m n ≡ false → n ≤ m
at_least m n h = ground arith

zeros-add : (n k : ℕ) → zeros (n + k) ≡ zeros n ++ zeros k
unfolding zeros
zeros-add zero k = rw zero-add
zeros-add (suc n) k = rw suc-add (ap (λ l. 0 ∷ l) (zeros-add n k))

zeros-split : (n m : ℕ) → n ≤ m → zeros m ≡ zeros n ++ zeros (m - n)
zeros-split n m h = let e : m ≡ n + (m - n) = omega arith in ap zeros e ∙ zeros-add n (m - n)

drop-zeros : (j n : ℕ) → drop j (zeros n) ≡ zeros (n - j)
unfolding zeros
drop-zeros zero n = rw sub-zero
drop-zeros (suc j) zero = rw zero-sub
drop-zeros (suc j) (suc n) = rw suc-sub-suc (drop-zeros j n)

-- Zeros are no frame: the checksum of five zero bytes is not zero.
module _ (pre : List ℕ) (m pos : ℕ) (w : Wal) (hp : length pre ≡ pos) (hf : w.file ≡ pre ++ zeros m)
    (hw : w.size ≡ length w.file) where
  zeros_size : w.size ≡ pos + m
  zeros_size = omega (arith, ap length hf, length-append pre (zeros m), length-zeros m)

  zero_head : 5 ≤ m → read_at 5 pos w.file ≡ some (zeros 5)
  zero_head h =
      rw (hf, zeros-split 5 m h) (read_at-middle pre (zeros 5) _ 5 pos hp (length-zeros 5))

  zero_tail : 9 ≤ m → read_at 4 (pos + 5 + 0) w.file ≡ some (zeros 4)
  zero_tail h =
      let split : w.file ≡ (pre ++ zeros 5) ++ (zeros 4 ++ zeros (m - 5 - 4)) =
        hf
        ∙ ap (λ l. pre ++ l)
            (zeros-split 5 m (omega arith)
              ∙ ap (λ l. zeros 5 ++ l) (zeros-split 4 (m - 5) (omega arith)))
        ∙ sym (append_assoc pre (zeros 5) _) in
      rw split (
        read_at-middle (pre ++ zeros 5) (zeros 4) _ 4 (pos + 5 + 0)
          (omega (arith, length-append pre (zeros 5), length-zeros 5)) (length-zeros 4))

  read_frame-zeros : read_frame calm pos w ≡ ok none
  unfolding read_frame zeros from_le checksum_ieee
  read_frame-zeros = elim (Bool-cases (ltb m 5)) [
    | inl few ↦ rw (lt→ltb w.size (pos + 5) (omega (arith, zeros_size, ltb→lt m 5 few)))
    | inr more ↦ elim (Bool-cases (ltb m 9)) [
      | inl few ↦ rw (
        le→ltb w.size (pos + 5) (omega (arith, zeros_size, at_least m 5 more)),
        zero_head (at_least m 5 more),
        lt→ltb w.size (pos + 5 + 0 + 4) (omega (arith, zeros_size, ltb→lt m 9 few)),
      )
      | inr all ↦ rw (
        le→ltb w.size (pos + 5) (omega (arith, zeros_size, at_least m 9 all)),
        zero_head (at_least m 5 more),
        le→ltb w.size (pos + 5 + 0 + 4) (omega (arith, zeros_size, at_least m 9 all)),
        zero_tail (at_least m 9 all),
      )
    ]
  ]

module _ (rs : List WalRecord) (r s : WalRecord) (k : ℕ) (vs : All IsRecord rs) (v : IsRecord r)
    (whole_r : length r.payload + 9 ≤ k)
    (gap : k + (length s.payload + 9) ≤ wal_padded_frame_size (length r.payload)) where
  -- What stands behind the whole frames, and how much of it replaces the padding of `r`.
  abbrev behind : List ℕ
  behind = take k (frame r) ++ frame s

  abbrev hidden : ℕ
  hidden = wal_padded_frame_size (length r.payload) - k

  sizes :
      (length (take k (frame r)) ≡ k)
      × (length (log_file rs ++ behind)
          ≡ length (log_file rs) + k + wal_padded_frame_size (length s.payload))
      × (hidden < wal_padded_frame_size (length s.payload))
  sizes = omega (
    arith,
    length-take k (frame r),
    length-append (log_file rs) behind,
    length-append (take k (frame r)) (frame s),
    length-frame r,
    length-frame s,
    padded_bounds (length r.payload),
    padded_bounds (length s.payload),
  )

  reads_r :
      read_frame calm (length (log_file rs)) (opened rs vs behind)
      ≡ ok (some (r, length (log_file rs) + 5 + length r.payload + 4))
  reads_r =
      read_frame-raw (log_file rs) _ r v (opened rs vs behind) _ refl
        (ap (λ l. log_file rs ++ l)
          (ap (λ l. l ++ frame s) (cut_padding r k whole_r)
            ∙ append_assoc (raw_frame r) _ (frame s)))
        (le_refl _)

  drop-hidden : drop hidden (frame s) ≡ zeros (wal_padded_frame_size (length s.payload) - hidden)
  unfolding frame_padding
  drop-hidden =
      let raw = length s.payload + 9 in
      let split : hidden ≡ raw + (hidden - raw) = omega (arith, gap) in
      let pad = wal_padded_frame_size (length s.payload) - (5 + length s.payload + 4) in
      let rest : pad - (hidden - raw) ≡ wal_padded_frame_size (length s.payload) - hidden =
        omega (arith, gap) in
      ap (drop hidden) (frame-split s)
      ∙ ap (λ n. drop n (raw_frame s ++ frame_padding s)) split
      ∙ drop-append-add raw (hidden - raw) (raw_frame s) (frame_padding s) (length-raw_frame s)
      ∙ drop-zeros (hidden - raw) pad
      ∙ ap zeros rest

  misses_s :
      read_frame calm
        (length (log_file rs) + wal_padded_frame_size (length r.payload))
        (opened rs vs behind)
      ≡ ok none
  misses_s =
      read_frame-zeros (log_file rs ++ (take k (frame r) ++ take hidden (frame s)))
        (wal_padded_frame_size (length s.payload) - hidden) _ (opened rs vs behind)
        (omega (
          arith,
          sizes,
          length-append (log_file rs) (take k (frame r) ++ take hidden (frame s)),
          length-append (take k (frame r)) (take hidden (frame s)),
          length-take hidden (frame s),
          length-frame s,
        ))
        (ap (λ l. log_file rs ++ (take k (frame r) ++ l))
            (sym (take-append-drop hidden (frame s))
              ∙ ap (λ l. take hidden (frame s) ++ l) drop-hidden)
          ∙ ap (λ l. log_file rs ++ l) (sym (append_assoc (take k (frame r)) _ _))
          ∙ sym (append_assoc (log_file rs) _ _))
        refl

  fuel : left rs vs behind - 1 ≡ suc (suc (left rs vs behind - 3))
  fuel = omega (arith, sizes, length-log_file rs vs behind, frames_long rs)

  abbrev next_page : ℕ
  next_page = length (log_file rs) + wal_padded_frame_size (length r.payload)

  loop_again :
      replay_loop (suc (left rs vs behind - 1)) calm (length (log_file rs)) rs (opened rs vs behind)
      ≡ (
        ok (rs ++ r ∷ []),
        record {
          file = truncate next_page (log_file rs ++ behind);
          handle = true;
          size = next_page;
        },
      )
  loop_again = rw fuel (
      loop_step _ _ _ rs (opened rs vs behind) r (omega (arith, sizes)) reads_r
      ∙ loop_cut _ _ (rs ++ r ∷ []) (opened rs vs behind) (omega (arith, sizes)) misses_s)

  reopened : (open_wal calm ((log_file rs ++ take k (frame r)) ++ frame s)).0 ≡ ok (rs ++ r ∷ [])
  reopened = rw append_assoc (
      ap (λ p. p.0)
        (opens (log_file rs ++ behind) (rs ++ r ∷ []) _ (replay_tail rs vs behind ∙ loop_again)))

-- A record that Append acknowledged is lost if the frame before it had lost its padding: with the
-- record `r` read from a file that ends inside the padding of its frame, the next record `s`, short
-- enough for what is missing of that padding, is written, and the next open finds `r` but not `s`.
pub torn_padding_loses :
    (rs : List WalRecord) (r s : WalRecord) (k : ℕ)
    → All IsRecord rs
    → IsRecord r
    → IsRecord s
    → length r.payload + 9 ≤ k
    → k + (length s.payload + 9) ≤ wal_padded_frame_size (length r.payload)
    → let (result, w) = open_wal calm (log_file rs ++ take k (frame r)) in
      let (appended, w') = append_sync calm s w in
      (result ≡ ok (rs ++ r ∷ []))
      × (appended ≡ ok (length w'.file))
      × ((open_wal calm w'.file).0 ≡ ok (rs ++ r ∷ []))
unfolding append_sync
torn_padding_loses rs r s k vs v u whole_r gap =
    rw
      (
        open_wal-torn rs r k vs v,
        le→ltb k (length r.payload + 9) whole_r,
        append_end (log_file rs ++ take k (frame r)) s u,
      )
      (refl, refl, reopened rs r s k vs v whole_r gap)
