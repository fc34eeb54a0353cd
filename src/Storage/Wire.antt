-- ===== src/Storage/Wire.antt =====
-- internal/storage/wire.go: page entries, the footer's suffix, and the buffer and the reader that
-- the segment encoder and the sidecars share.
use dripsql.Base.{
  ℕ, ◌+◌, ◌-◌, ◌%◌, ◌^◌, Bool, true, false, ◌&&◌, Option, none, some, List, [], ◌++◌, Text, text_eq,
  nat_eq, ◌==◌, if◌then◌else◌, ltb, ℤ, pos, negsuc, codes, length, take, drop,
}
use dripsql.Base.Bytes.{le_bytes, from_le}

abbrev pub magic : Text
magic = codes "DRIPV4S3"

abbrev pub page_entry_size : ℕ
page_entry_size = 32

abbrev pub footer_suffix_size : ℕ
footer_suffix_size = 24

pub record Page : Type 0 where
  pub payload_offset : ℕ
  pub payload_length : ℕ
  pub row_start : ℕ
  pub rows : ℕ
  pub null_count : ℕ
  pub kind : ℕ
  pub encoding : ℕ
  pub flags : ℕ
  pub reserved : ℕ

unfoldable pub page_bytes : Page → List ℕ
page_bytes p =
    le_bytes 8 p.payload_offset
    ++ (le_bytes 8 p.payload_length
        ++ (le_bytes 4 p.row_start
            ++ (le_bytes 4 p.rows
                ++ (le_bytes 4 p.null_count
                    ++ (le_bytes 1 p.kind
                        ++ (le_bytes 1 p.encoding
                            ++ (le_bytes 1 p.flags ++ le_bytes 1 p.reserved)))))))

-- `none` is the panic on a slice that is too short.
unfoldable pub write_page : List ℕ → Page → Option (List ℕ)
unfolding page_bytes
write_page dst p =
    if ltb (length dst) page_entry_size
    then none
    else some (page_bytes p ++ drop page_entry_size dst)

-- encoding/binary's Uint64 and its like on src[off : off+n].
unfoldable pub word_at : ℕ → ℕ → List ℕ → ℕ
word_at n off src = from_le (take n (drop off src))

-- The pointer cast, on a 64-bit little-endian machine.
unfoldable pub decode_page_entry : List ℕ → Option Page
unfolding word_at
decode_page_entry src =
    if ltb (length src) page_entry_size
    then none
    else some (record {
      payload_offset = word_at 8 0 src;
      payload_length = word_at 8 8 src;
      row_start = word_at 4 16 src;
      rows = word_at 4 20 src;
      null_count = word_at 4 24 src;
      kind = word_at 1 28 src;
      encoding = word_at 1 29 src;
      flags = word_at 1 30 src;
      reserved = word_at 1 31 src;
    })

unfoldable pub write_footer_suffix : List ℕ → ℕ → ℕ → Option (List ℕ)
write_footer_suffix dst footer_length sidecar_length =
    if ltb (length dst) footer_suffix_size
    then none
    else some (
        le_bytes 8 sidecar_length
        ++ (le_bytes 8 footer_length ++ (magic ++ drop footer_suffix_size dst)))

pub record Suffix : Type 0 where
  pub footer_length : ℕ
  pub sidecar_length : ℕ
  pub magic_ok : Bool

unfoldable pub read_footer_suffix : List ℕ → Option Suffix
unfolding word_at
read_footer_suffix src =
    if ltb (length src) footer_suffix_size
    then none
    else some (record {
      footer_length = word_at 8 8 src;
      sidecar_length = word_at 8 0 src;
      magic_ok = take 8 (drop 16 src) == magic;
    })

-- wireBuffer is its bytes: U8, U16, U32 and U64 at n = 1, 2, 4 and 8.
unfoldable pub put_word : ℕ → ℕ → List ℕ → List ℕ
put_word n v buf = buf ++ le_bytes n v

unfoldable pub put_raw : List ℕ → List ℕ → List ℕ
put_raw b buf = buf ++ b

-- `none` is the panic.
unfoldable pub put_len_prefixed_string : Text → List ℕ → Option (List ℕ)
unfolding put_word
put_len_prefixed_string s buf =
    if ltb 0xFFFF (length s) then none else some (put_word 2 (length s) buf ++ s)

pub data WireError : Type 0 where
  negative_length : WireError
  short_read : (at wanted have : ℕ) → WireError

pub record Reader : Type 0 where
  pub buf : List ℕ
  pub at : ℕ
  pub failure : Option WireError

unfoldable pub new_wire_reader : List ℕ → Reader
new_wire_reader buf = record { buf = buf; at = 0; failure = none }

unfoldable pub remaining : Reader → ℕ
remaining r = length r.buf - r.at

abbrev is_nil : Option WireError → Bool
is_nil none = true
is_nil (some e) = false

unfoldable pub at_end : Reader → Bool
at_end r = is_nil r.failure && r.at == length r.buf

-- r.pos+n > len(r.buf) on 64-bit ints: a sum of 2 ^ 63 or more is negative, and so not greater.
unfoldable pub past_end : ℕ → ℕ → Bool
past_end sum len = ltb (sum % 2 ^ 64) (2 ^ 63) && ltb len (sum % 2 ^ 64)

-- The answer of `need`, with the reader that it leaves.
unfoldable pub need_nat : ℕ → Reader → Bool × Reader
unfolding past_end
need_nat n r =
    if past_end (r.at + n) (length r.buf)
    then (false, record r { failure = some (short_read r.at n (length r.buf - r.at)) })
    else (true, r)

-- An earlier error stays.
unfoldable pub need_unless : Option WireError → ℤ → Reader → Bool × Reader
unfolding need_nat
need_unless (some e) n r = (false, r)
need_unless none (negsuc n) r = (false, record r { failure = some negative_length })
need_unless none (pos n) r = need_nat n r

unfoldable pub need : ℤ → Reader → Bool × Reader
unfolding need_unless
need n r = need_unless r.failure n r

abbrev pub advanced : ℕ → Reader → Reader
advanced n r = record r { at = r.at + n }

-- r.buf[r.pos : r.pos+n], with the reader behind it; `none` is the panic where the end is not within
-- the buffer.
unfoldable pub slice : ℕ → Reader → Option (List ℕ × Reader)
slice n r =
    if ltb (length r.buf) (r.at + n) then none else some (take n (drop r.at r.buf), advanced n r)

abbrev pub as_word : Option (List ℕ × Reader) → Option (ℕ × Reader)
as_word none = none
as_word (some (b, r)) = some (from_le b, r)

unfoldable pub word_if : ℕ → Bool × Reader → Option (ℕ × Reader)
unfolding slice
word_if n (ok, r) = if ok then as_word (slice n r) else some (0, r)

-- U8, U16, U32 and U64 at n = 1, 2, 4 and 8.
unfoldable pub get_word : ℕ → Reader → Option (ℕ × Reader)
unfolding need word_if
get_word n r = word_if n (need (pos n) r)

-- A slice of a negative length panics.
unfoldable pub slice_int : ℤ → Reader → Option (List ℕ × Reader)
unfolding slice
slice_int (pos n) r = slice n r
slice_int (negsuc n) r = none

-- A nil slice is the empty one.
unfoldable pub raw_if : ℤ → Bool × Reader → Option (List ℕ × Reader)
unfolding slice_int
raw_if n (ok, r) = if ok then slice_int n r else some ([], r)

unfoldable pub get_raw : ℤ → Reader → Option (List ℕ × Reader)
unfolding need raw_if
get_raw n r = raw_if n (need n r)

abbrev pub string_of : Option (ℕ × Reader) → Option (Text × Reader)
string_of none = none
string_of (some (n, r)) = get_raw (pos n) r

unfoldable pub get_len_prefixed_string : Reader → Option (Text × Reader)
unfolding get_word get_raw
get_len_prefixed_string r = string_of (get_word 2 r)
