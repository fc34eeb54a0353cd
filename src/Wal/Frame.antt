-- ===== src/Wal/Frame.antt =====
-- One frame of the log: its length, and what `read_frame` makes of it.
use mathlib.Core.List.{append_assoc}
use native.Mathlib.Nat.{mod-eq_of_lt}
use dripsql.Base.{
  ℕ, suc, nat_beq, ◌∙◌, ◌+◌, ◌-◌, ◌%◌, ◌^◌, ◌≤◌, ◌<◌, ◌≡◌, refl, ap, some, List, [], ◌∷◌, ◌++◌,
  arith, nat_eq, nat_beq_iff, length, take, drop, true, take-all, length-append, le→ltb,
}
use dripsql.Base.Bytes.{
  le_bytes, from_le, length-le_bytes, from_le-le_bytes, read_at, read_at-middle, zeros,
  length-zeros,
}
use dripsql.Base.Crc.{checksum_ieee, checksum_ieee-lt}
use dripsql.Wal.Log.{
  WalRecord, Wal, ok, calm, wal_padded_frame_size, frame_head, raw_frame, frame, read_frame,
  read_payload,
}

-- A record that `append` takes: the type is a byte, and the length fits a uint32.
pub record IsRecord (r : WalRecord) : Type 0 where
  pub kind_fits : r.kind < 256
  pub length_fits : length r.payload < 2 ^ 32

pub padded_bounds :
    (n : ℕ)
    → (n + 9 ≤ wal_padded_frame_size n)
      × (wal_padded_frame_size n < n + 9 + 4096)
      × (wal_padded_frame_size n % 4096 ≡ 0)
unfolding wal_padded_frame_size
padded_bounds n = omega arith

unfoldable pub frame_padding : WalRecord → List ℕ
frame_padding r = zeros (wal_padded_frame_size (length r.payload) - (5 + length r.payload + 4))

pub frame-split : (r : WalRecord) → frame r ≡ raw_frame r ++ frame_padding r
unfolding frame frame_padding
frame-split r = refl

pub length-frame_head : (r : WalRecord) → length (frame_head r) ≡ 5
unfolding frame_head
length-frame_head r = omega (arith, length-le_bytes 4 (length r.payload))

pub length-raw_frame : (r : WalRecord) → length (raw_frame r) ≡ length r.payload + 9
unfolding raw_frame
length-raw_frame r =
    let sum = checksum_ieee (frame_head r ++ r.payload) in
    omega (
      arith,
      length-append (frame_head r) (r.payload ++ le_bytes 4 sum),
      length-append r.payload (le_bytes 4 sum),
      length-frame_head r,
      length-le_bytes 4 sum,
    )

pub length-frame : (r : WalRecord) → length (frame r) ≡ wal_padded_frame_size (length r.payload)
unfolding frame
length-frame r =
    let n = 5 + length r.payload + 4 in
    let pad = wal_padded_frame_size (length r.payload) - n in
    omega (
      arith,
      length-append (raw_frame r) (zeros pad),
      length-zeros pad,
      length-raw_frame r,
      padded_bounds (length r.payload),
    )

-- The length field of a header.
pub head_length :
    (r : WalRecord) → IsRecord r → from_le (take 4 (drop 1 (frame_head r))) ≡ length r.payload
unfolding frame_head
head_length r v =
    rw
      (take-all 4 (le_bytes 4 (length r.payload))
        (omega (arith, length-le_bytes 4 (length r.payload))))
      (from_le-le_bytes 4 (length r.payload) v.length_fits)

empty : (xs : List ℕ) → (nat_beq (length xs) 0 ≡ true) → xs ≡ []
empty [] h = refl
empty (x ∷ xs) h = absurd (omega (arith, (nat_beq_iff (suc (length xs)) 0).0 h))

module _ (pre rest : List ℕ) (r : WalRecord) (v : IsRecord r) (w : Wal) (pos : ℕ)
    (at_pos : length pre ≡ pos) (there : w.file ≡ pre ++ (raw_frame r ++ rest))
    (whole : length w.file ≤ w.size) where
  abbrev len : ℕ
  len = length r.payload

  abbrev sum : ℕ
  sum = checksum_ieee (frame_head r ++ r.payload)

  room : pos + 9 + len ≤ w.size
  room = omega (
    arith,
    whole,
    ap length there,
    length-append pre (raw_frame r ++ rest),
    length-append (raw_frame r) rest,
    length-raw_frame r,
  )

  reads_head : read_at 5 pos w.file ≡ some (frame_head r)
  unfolding raw_frame
  reads_head =
      rw (there, append_assoc)
        (read_at-middle pre (frame_head r) _ 5 pos at_pos (length-frame_head r))

  reads_payload : read_at len (pos + 5) w.file ≡ some r.payload
  unfolding raw_frame
  reads_payload =
      let split : w.file ≡ (pre ++ frame_head r) ++ (r.payload ++ (le_bytes 4 sum ++ rest)) =
        there ∙ simp append_assoc in
      rw split (
        read_at-middle (pre ++ frame_head r) r.payload _ len (pos + 5)
          (omega (arith, length-append pre (frame_head r), length-frame_head r)) refl)

  reads_sum : read_at 4 (pos + 5 + len) w.file ≡ some (le_bytes 4 sum)
  unfolding raw_frame
  reads_sum =
      let split : w.file ≡ (pre ++ (frame_head r ++ r.payload)) ++ (le_bytes 4 sum ++ rest) =
        there ∙ simp append_assoc in
      rw split (
        read_at-middle (pre ++ (frame_head r ++ r.payload)) (le_bytes 4 sum) rest 4 (pos + 5 + len)
          (omega (
            arith,
            length-append pre (frame_head r ++ r.payload),
            length-append (frame_head r) r.payload,
            length-frame_head r,
          ))
          (length-le_bytes 4 sum))

  payload_read : read_payload calm len (pos + 5) w.file ≡ ok r.payload
  payload_read = ground (arith, reads_payload, empty r.payload)

  -- A whole frame, padded or not, is read back.
  pub read_frame-raw : read_frame calm pos w ≡ ok (some (r, pos + 5 + len + 4))
  unfolding read_frame frame_head
  read_frame-raw = rw (
    le→ltb w.size (pos + 5) (omega (arith, room)),
    reads_head,
    head_length r v,
    le→ltb w.size (pos + 5 + len + 4) (omega (arith, room)),
    payload_read,
    reads_sum,
    from_le-le_bytes 4 sum (checksum_ieee-lt _),
    (nat_beq_iff sum sum).1 refl,
    mod-eq_of_lt v.kind_fits,
  )
