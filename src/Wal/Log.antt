-- ===== src/Wal/Log.antt =====
-- The log file of internal/storage/wal.go: its frames, Append, and the replay at open.
-- The file is its bytes. `Faults` says which calls of the operating system fail.
use dripsql.Base.{
  ℕ, zero, suc, ◌+◌, ◌-◌, ◌%◌, ◌^◌, Bool, true, false, ◌&&◌, not, Option, none, some, List, [], ◌∷◌,
  ◌++◌, ltb, ◌==◌, nat_eq, text_eq, if◌then◌else◌, length, take, drop, get_or,
}
use dripsql.Base.Bytes.{le_bytes, from_le, read_at, write_at, truncate, zeros}
use dripsql.Base.Crc.{checksum_ieee}

pub data Error : Type 0 where
  closed payload_too_large io bad_magic bad_version : Error
  -- no Go value: the loop of `replay` ran out of fuel
  stuck : Error

pub data Result {ℓ} (A : Type ℓ) : Type ℓ where
  ok : A → Result A
  err : Error → Result A

infixl 5 ◌>>=◌
abbrev pub ◌>>=◌ {ℓ κ} : {A : Type ℓ} {B : Type κ} → Result A → (A → Result B) → Result B
ok a >>= f = f a
err e >>= f = err e

-- "DWAL"
abbrev pub wal_magic : List ℕ
wal_magic = 0x44 ∷ 0x57 ∷ 0x41 ∷ 0x4c ∷ []

abbrev pub wal_version : ℕ
wal_version = 2

abbrev pub wal_header_len : ℕ
wal_header_len = 6

abbrev pub wal_frame_hdr_len : ℕ
wal_frame_hdr_len = 5

abbrev pub wal_frame_tail_len : ℕ
wal_frame_tail_len = 4

abbrev pub wal_page_size : ℕ
wal_page_size = 4096

unfoldable pub wal_padded_frame_size : ℕ → ℕ
wal_padded_frame_size payload_len =
    let raw = wal_frame_hdr_len + payload_len + wal_frame_tail_len in
    let pad = (wal_page_size - raw % wal_page_size) % wal_page_size in raw + pad

pub record WalRecord : Type 0 where
  pub kind : ℕ
  pub payload : List ℕ

-- `handle` is false once the file is closed (w.f == nil).
pub record Wal : Type 0 where
  pub file : List ℕ
  pub handle : Bool
  pub size : ℕ

-- Which calls fail: a write after a number of bytes, a read by its offset.
pub record Faults : Type 0 where
  pub write : Option ℕ
  pub sync : Bool
  pub stat : Bool
  pub trunc : Bool
  pub seek : Bool
  pub read : ℕ → Bool

abbrev pub calm : Faults
calm = record {
  write = none;
  sync = false;
  stat = false;
  trunc = false;
  seek = false;
  read = λ _. false;
}

unfoldable pub frame_head : WalRecord → List ℕ
frame_head rec = (rec.kind % 256) ∷ le_bytes 4 (length rec.payload)

-- Header, payload and checksum.
unfoldable pub raw_frame : WalRecord → List ℕ
unfolding frame_head
raw_frame rec =
    frame_head rec ++ (rec.payload ++ le_bytes 4 (checksum_ieee (frame_head rec ++ rec.payload)))

-- What `append` fills its buffer with, padding included.
unfoldable pub frame : WalRecord → List ℕ
unfolding raw_frame
frame rec =
    let n = wal_frame_hdr_len + length rec.payload + wal_frame_tail_len in
    raw_frame rec ++ zeros (wal_padded_frame_size (length rec.payload) - n)

-- What a failed write leaves: the first `n` bytes of the buffer have landed.
abbrev pub landed : Option ℕ → List ℕ → List ℕ
landed none buf = buf
landed (some n) buf = take n buf

unfoldable pub after_sync : Bool → Bool → ℕ → Wal → Result ℕ × Wal
after_sync sync fails padded w =
    if sync && fails
    then (err io, w)
    else (ok (w.size + padded), record w { size = w.size + padded })

unfoldable pub after_write : Option ℕ → Bool → Bool → ℕ → Wal → Result ℕ × Wal
unfolding after_sync
after_write (some n) sync fails padded w = (err io, w)
after_write none sync fails padded w = after_sync sync fails padded w

unfoldable pub append : Faults → Bool → WalRecord → Wal → Result ℕ × Wal
append io_faults sync rec w =
    if not w.handle
    then (err closed, w)
    else if ltb (2 ^ 32 - 1) (length rec.payload)
    then (err payload_too_large, w)
    else (let padded = wal_padded_frame_size (length rec.payload) in
        let buf = landed io_faults.write (frame rec) in
        after_write io_faults.write sync io_faults.sync padded
          (record w { file = write_at buf w.size w.file }))

-- Append and AppendNoSync.
unfoldable pub append_sync : Faults → WalRecord → Wal → Result ℕ × Wal
append_sync io_faults rec w = append io_faults true rec w

unfoldable pub append_no_sync : Faults → WalRecord → Wal → Result ℕ × Wal
append_no_sync io_faults rec w = append io_faults false rec w

-- Truncate and Seek; w.size is set when both succeed.
unfoldable pub truncate_to : Faults → ℕ → Wal → Result (Unit {0}) × Wal
truncate_to io_faults to w =
    if io_faults.trunc
    then (err io, w)
    else if io_faults.seek
    then (err io, record w { file = truncate to w.file })
    else (ok tt, record w { file = truncate to w.file; size = to })

unfoldable pub truncate_to_header : Faults → Wal → Result (Unit {0}) × Wal
truncate_to_header io_faults w =
    if not w.handle
    then (err closed, w)
    else if w.size == wal_page_size
    then (ok tt, w)
    else if io_faults.trunc
    then (err io, w)
    else (ok tt, record w { file = truncate wal_page_size w.file; size = wal_page_size })

abbrev pub read_bytes : Faults → ℕ → ℕ → List ℕ → Result (List ℕ)
read_bytes io_faults n off file =
    if io_faults.read off
    then err io
    else elim (read_at n off file) [ none ↦ err io | some bs ↦ ok bs ]

-- `if length > 0 { ReadAt }`
abbrev pub read_payload : Faults → ℕ → ℕ → List ℕ → Result (List ℕ)
read_payload io_faults n off file = if n == 0 then ok [] else read_bytes io_faults n off file

-- `ok none` is the Go result (_, _, false, nil); `ok (some (rec, end))` is (rec, end, true, nil).
unfoldable pub read_frame : Faults → ℕ → Wal → Result (Option (WalRecord × ℕ))
read_frame io_faults pos w = if ltb w.size (pos + wal_frame_hdr_len) then ok none else do
  hdr ← read_bytes io_faults wal_frame_hdr_len pos w.file
  let len = from_le (take 4 (drop 1 hdr))
  let end = pos + wal_frame_hdr_len + len + wal_frame_tail_len
  if ltb w.size end then ok none else do
    payload ← read_payload io_faults len (pos + wal_frame_hdr_len) w.file
    tail ← read_bytes io_faults wal_frame_tail_len (pos + wal_frame_hdr_len + len) w.file
    if from_le tail == checksum_ieee (hdr ++ payload)
        then ok (some (record { kind = get_or hdr 0 0; payload = payload }, end))
        else ok none

-- The records found so far, or the error of the truncation.
abbrev pub after_truncate : List WalRecord → Result (Unit {0}) × Wal → Result (List WalRecord) × Wal
after_truncate records (ok _, w) = (ok records, w)
after_truncate records (err e, w) = (err e, w)

-- The loop of `replay`. A step of the fuel is a round; each round passes a page at least.
unfoldable pub replay_loop : ℕ → Faults → ℕ → List WalRecord → Wal → Result (List WalRecord) × Wal
replay_loop zero io_faults pos records w = (err stuck, w)
replay_loop (suc fuel) io_faults pos records w =
    if not (ltb pos w.size) then (ok records, w) else elim (read_frame io_faults pos w) [
      | err e ↦ (err e, w)
      | ok none ↦ after_truncate records (truncate_to io_faults pos w)
      | ok (some (rec, end)) ↦
          replay_loop fuel io_faults (pos + wal_padded_frame_size (length rec.payload))
            (records ++ rec ∷ []) w
    ]

unfoldable pub file_header : List ℕ
file_header = wal_magic ++ (le_bytes 2 wal_version ++ zeros (wal_page_size - wal_header_len))

after_header : Option ℕ → Bool → Wal → Result (List WalRecord) × Wal
after_header (some n) fails w = (err io, w)
after_header none fails w =
    if fails then (err io, w) else (ok [], record w { size = wal_page_size })

-- The branch of `replay` on a new file.
write_header : Faults → Wal → Result (List WalRecord) × Wal
unfolding after_header file_header
write_header io_faults w =
    after_header io_faults.write io_faults.sync
      (record w { file = write_at (landed io_faults.write file_header) 0 w.file })

-- The branch of `replay` on a file shorter than a page: `return nil, w.truncate(0, …)`.
drop_torn_header : Faults → Wal → Result (List WalRecord) × Wal
drop_torn_header io_faults w = after_truncate [] (truncate_to io_faults 0 w)

check_header : List ℕ → Result (Unit {0})
check_header hdr =
    if not (take 4 hdr == wal_magic)
    then err bad_magic
    else if not (from_le (take 2 (drop 4 hdr)) == wal_version)
    then err bad_version
    else ok tt

unfoldable pub replay : Faults → Wal → Result (List WalRecord) × Wal
unfolding write_header drop_torn_header check_header
replay io_faults w0 =
    if io_faults.stat
    then (err io, w0)
    else (let w = record w0 { size = length w0.file } in
        if w.size == 0
        then write_header io_faults w
        else if ltb w.size wal_page_size
        then drop_torn_header io_faults w
        else elim (do hdr ← read_bytes io_faults wal_header_len 0 w.file; check_header hdr) [
          | err e ↦ (err e, w)
          | ok _ ↦ replay_loop w.size io_faults wal_page_size [] w
        ])

-- An error of the replay closes the file.
abbrev pub after_replay : Result (List WalRecord) × Wal → Result (List WalRecord) × Wal
after_replay (ok records, w) = (ok records, w)
after_replay (err e, w) = (err e, record w { handle = false })

-- OpenWAL on the bytes that the file has; a new file has none.
unfoldable pub open_wal : Faults → List ℕ → Result (List WalRecord) × Wal
open_wal io_faults file =
    after_replay (replay io_faults (record { file = file; handle = true; size = 0 }))

unfoldable pub close : Wal → Wal
close w = record w { handle = false }
