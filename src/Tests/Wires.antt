-- ===== src/Tests/Wires.antt =====
-- The wire format of internal/storage/wire.go at one page and a few fields.
use dripsql.Base.{ℕ, negsuc, ◌≤◌, ◌≡◌, ◌++◌, true, some, none, List, [], ◌∷◌, arith, codes, length}
use dripsql.Base.Bytes.{zeros}
use dripsql.Storage.Wire.{
  Page, Reader, write_page, decode_page_entry, write_footer_suffix, read_footer_suffix,
}
use dripsql.Storage.PageEntry.{
  IsPage, and_then, decode_page_entry-write_page, read-write_footer_suffix,
}
use dripsql.Storage.Fields.{Field, word, raw, text, put_fields, get_fields, get_fields-put_fields}
use dripsql.Storage.Reads.{Call, Stays, IsInt, call_all, call_all-Stays}

abbrev page : Page
page = record {
  payload_offset = 4096;
  payload_length = 300;
  row_start = 0;
  rows = 128;
  null_count = 2;
  kind = 4;
  encoding = 5;
  flags = 1;
  reserved = 0;
}

page-IsPage : IsPage page
page-IsPage = record {
  payload_offset = omega arith;
  payload_length = omega arith;
  row_start = omega arith;
  rows = omega arith;
  null_count = omega arith;
  kind = omega arith;
  encoding = omega arith;
  flags = omega arith;
  reserved = omega arith;
}

zeros_32 : 32 ≤ length (zeros 40)
unfolding zeros
zeros_32 = omega arith

zeros_24 : 24 ≤ length (zeros 40)
unfolding zeros
zeros_24 = omega arith

decode_page_entry-write_page_example :
    and_then (write_page (zeros 40) page) decode_page_entry ≡ some page
decode_page_entry-write_page_example =
    decode_page_entry-write_page (zeros 40) page zeros_32 page-IsPage

read-write_footer_suffix_example :
    and_then (write_footer_suffix (zeros 40) 900 70) read_footer_suffix
    ≡ some (record { footer_length = 900; sidecar_length = 70; magic_ok = true })
read-write_footer_suffix_example =
    read-write_footer_suffix (zeros 40) 900 70 zeros_24 (omega arith) (omega arith)

abbrev fields : List Field
fields = word 4 100000 ∷ text (codes "id") ∷ raw (7 ∷ []) ∷ []

abbrev before : List ℕ
before = 1 ∷ []

get_fields-put_fields_example :
    (out : List ℕ) × (put_fields fields before ≡ some out)
    × (get_fields fields (record { buf = out ++ 9 ∷ []; at = length before; failure = none })
        ≡ some (fields, record { buf = out ++ 9 ∷ []; at = length out; failure = none }))
get_fields-put_fields_example =
    get_fields-put_fields fields before (9 ∷ []) (omega arith, (omega arith, (tt, tt)))

abbrev short : Reader
short = record { buf = 1 ∷ 2 ∷ []; at = 1; failure = none }

abbrev calls : List Call
calls = Call.word 1 ∷ Call.raw (negsuc 0) ∷ Call.text ∷ []

call_all-Stays_example : Stays short (call_all calls short)
unfolding IsInt
call_all-Stays_example =
    call_all-Stays calls short (omega arith, (omega arith, tt)) (omega arith)
      (omega arith, (tt, (omega arith, tt)))
