-- ===== src/Tests/Logs.antt =====
-- The log of internal/storage/wal.go at two small records.
use dripsql.Base.{
  ◌+◌, ◌≤◌, ◌≡◌, ◌⊎◌, refl, sym, true, some, [], ◌∷◌, ◌++◌, arith, ltb, if◌then◌else◌, length, take,
  codes,
}
use dripsql.Wal.Log.{
  WalRecord, Faults, ok, err, bad_magic, calm, append, append_sync, truncate_to_header, open_wal,
  frame, wal_padded_frame_size,
}
use dripsql.Wal.Frame.{IsRecord}
use dripsql.Wal.Replay.{log_file, at_rest, open_wal-log_file}
use dripsql.Wal.Torn.{open_wal-torn}
use dripsql.Wal.Append.{
  Holds, failing, Appended, Emptied, append-Holds, truncate_to_header-Holds, open_wal-append,
}
use dripsql.Wal.TornHeader.{torn_header_loses}
use dripsql.Wal.TornPadding.{torn_padding_loses}
use mathlib.Core.List.{append-nil}

abbrev first : WalRecord
first = record { kind = 1; payload = codes "ab" }

abbrev second : WalRecord
second = record { kind = 2; payload = codes "c" }

first-IsRecord : IsRecord first
first-IsRecord = record { kind_fits = omega arith; length_fits = omega arith }

second-IsRecord : IsRecord second
second-IsRecord = record { kind_fits = omega arith; length_fits = omega arith }

-- A disk whose writes stop after seven bytes.
abbrev full_disk : Faults
full_disk = record calm { write = some 7 }

one-Holds : Holds (first ∷ []) [] (at_rest (log_file (first ∷ [])))
one-Holds = record { opened = refl; sized = refl; filed = sym (append-nil (log_file (first ∷ []))) }

open_wal-log_file_example :
    open_wal calm (log_file (first ∷ second ∷ []))
    ≡ (ok (first ∷ second ∷ []), at_rest (log_file (first ∷ second ∷ [])))
open_wal-log_file_example =
    open_wal-log_file (first ∷ second ∷ []) (first-IsRecord, (second-IsRecord, tt))

open_wal-torn_example : open_wal calm (log_file (first ∷ []) ++ take 6 (frame second)) ≡ (
    if ltb 6 (length second.payload + 9)
    then (ok (first ∷ []), at_rest (log_file (first ∷ [])))
    else (ok (first ∷ second ∷ []), at_rest (log_file (first ∷ []) ++ take 6 (frame second))))
open_wal-torn_example = open_wal-torn (first ∷ []) second 6 (first-IsRecord, tt) second-IsRecord

append-Holds_example :
    Appended
      (failing full_disk true)
      (first ∷ [])
      []
      second
      (at_rest (log_file (first ∷ [])))
      (append full_disk true second (at_rest (log_file (first ∷ []))))
append-Holds_example =
    append-Holds full_disk true second (first ∷ []) [] (at_rest (log_file (first ∷ []))) one-Holds

truncate_to_header-Holds_example :
    Emptied calm.trunc
      (first ∷ [])
      (at_rest (log_file (first ∷ [])))
      (truncate_to_header calm (at_rest (log_file (first ∷ []))))
truncate_to_header-Holds_example =
    truncate_to_header-Holds calm (first ∷ []) [] (at_rest (log_file (first ∷ []))) one-Holds

open_wal-append_example :
    let reopened =
      (open_wal calm (append full_disk true second (at_rest (log_file (first ∷ [])))).1.file).0 in
    (reopened ≡ ok (first ∷ [])) ⊎ (reopened ≡ ok (first ∷ second ∷ []))
open_wal-append_example =
    open_wal-append full_disk true second (first ∷ []) (first-IsRecord, tt) second-IsRecord

torn_header_loses_example :
    let (result, w) = open_wal calm (0 ∷ []) in
    let (appended, w') = append_sync calm first w in
    (result ≡ ok [])
    × (appended ≡ ok (length (frame first)))
    × ((open_wal calm w'.file).0 ≡ err bad_magic)
torn_header_loses_example =
    torn_header_loses (0 ∷ []) first (omega arith) (omega arith) first-IsRecord
      (λ e. absurd (omega (arith, e)))

room : 100 + (length second.payload + 9) ≤ wal_padded_frame_size (length first.payload)
unfolding wal_padded_frame_size
room = omega arith

torn_padding_loses_example :
    let (result, w) = open_wal calm (log_file [] ++ take 100 (frame first)) in
    let (appended, w') = append_sync calm second w in
    (result ≡ ok (first ∷ []))
    × (appended ≡ ok (length w'.file))
    × ((open_wal calm w'.file).0 ≡ ok (first ∷ []))
torn_padding_loses_example =
    torn_padding_loses [] first second 100 tt first-IsRecord second-IsRecord (omega arith) room
