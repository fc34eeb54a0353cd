-- ===== src/Storage/Fields.antt =====
-- Sequences of fields through wireBuffer and wireReader.
use mathlib.Core.List.{append_assoc, append-nil}
use dripsql.Base.{
  ℕ, ◌+◌, ◌^◌, ◌<◌, ◌≤◌, ◌≡◌, refl, ap, sym, ◌∙◌, true, false, Option, none, some, List, [], ◌∷◌,
  ◌++◌, arith, pos, All, length, take, drop, take-append, drop-append, length-append, le→ltb,
}
use dripsql.Base.Bytes.{le_bytes, length-le_bytes, from_le-le_bytes}
use dripsql.Storage.Wire.{
  Reader, put_word, put_raw, put_len_prefixed_string, need, need_nat, past_end, slice, slice_int,
  word_if, raw_if, get_word, get_raw, get_len_prefixed_string, advanced,
}
use dripsql.Storage.PageEntry.{and_then}

-- What is written: a word of n bytes, raw bytes, a string with its length.
pub data Field : Type 0 where
  word : (n v : ℕ) → Field
  raw : List ℕ → Field
  text : List ℕ → Field

unfoldable pub put_field : Field → List ℕ → Option (List ℕ)
put_field (word n v) buf = some (put_word n v buf)
put_field (raw b) buf = some (put_raw b buf)
put_field (text s) buf = put_len_prefixed_string s buf

unfoldable pub put_fields : List Field → List ℕ → Option (List ℕ)
unfolding put_field
put_fields [] buf = some buf
put_fields (f ∷ fs) buf = and_then (put_field f buf) (put_fields fs)

abbrev pub map_value {ℓ κ} :
    {A : Type ℓ} {B : Type κ} → (A → B) → Option (A × Reader) → Option (B × Reader)
map_value f none = none
map_value f (some (a, r)) = some (f a, r)

-- Reads a field of the same shape; `none` is a panic.
unfoldable pub get_field : Field → Reader → Option (Field × Reader)
get_field (word n v) r = map_value (word n) (get_word n r)
get_field (raw b) r = map_value raw (get_raw (pos (length b)) r)
get_field (text s) r = map_value text (get_len_prefixed_string r)

unfoldable pub get_fields : List Field → Reader → Option (List Field × Reader)
unfolding get_field
get_fields [] r = some ([], r)
get_fields (f ∷ fs) r =
    and_then (get_field f r) (λ (v, r'). map_value (λ vs. v ∷ vs) (get_fields fs r'))

abbrev pub FieldFits : Field → Type 0
FieldFits (word n v) = v < 256 ^ n
FieldFits (raw b) = Unit
FieldFits (text s) = length s ≤ 0xFFFF

abbrev field_bytes : Field → List ℕ
field_bytes (word n v) = le_bytes n v
field_bytes (raw b) = b
field_bytes (text s) = le_bytes 2 (length s) ++ s

abbrev fields_bytes : List Field → List ℕ
fields_bytes [] = []
fields_bytes (f ∷ fs) = field_bytes f ++ fields_bytes fs

-- A reader without an error at the end of `pre`.
abbrev reader_at : List ℕ → List ℕ → Reader
reader_at pre rest = record { buf = pre ++ rest; at = length pre; failure = none }

put_field-bytes :
    (f : Field) (buf : List ℕ) → FieldFits f → put_field f buf ≡ some (buf ++ field_bytes f)
unfolding put_field put_word put_raw put_len_prefixed_string
put_field-bytes (word n v) buf h = refl
put_field-bytes (raw b) buf h = refl
put_field-bytes (text s) buf h =
    rw (le→ltb 0xFFFF (length s) h) (ap some (append_assoc buf (le_bytes 2 (length s)) s))

put_fields-bytes :
    (fs : List Field) (buf : List ℕ)
    → All FieldFits fs
    → put_fields fs buf ≡ some (buf ++ fields_bytes fs)
unfolding put_fields
put_fields-bytes [] buf h = ap some (sym (append-nil buf))
put_fields-bytes (f ∷ fs) buf (h, hs) = rw (put_field-bytes f buf h) (
    put_fields-bytes fs (buf ++ field_bytes f) hs
    ∙ ap some (append_assoc buf (field_bytes f) (fields_bytes fs)))

not_past : (sum len : ℕ) → sum ≤ len → past_end sum len ≡ false
unfolding past_end
not_past sum len h = ground arith

-- What stands behind `pre` is there to be read, and the reader moves behind it.
module _ (pre b rest : List ℕ) (n : ℕ) (long : length b ≡ n) where
  need-reader_at : need (pos n) (reader_at pre (b ++ rest)) ≡ (true, reader_at pre (b ++ rest))
  unfolding need need_nat past_end
  need-reader_at =
      let room : length pre + n ≤ length (pre ++ (b ++ rest)) =
        omega (arith, length-append pre (b ++ rest), length-append b rest, long) in
      let fits : past_end (length pre + n) (length (pre ++ (b ++ rest))) ≡ false =
        not_past (length pre + n) (length (pre ++ (b ++ rest))) room in
      rw fits refl

  take-reader_at : take n (drop (length pre) (pre ++ (b ++ rest))) ≡ b
  take-reader_at = rw (drop-append (length pre) pre (b ++ rest) refl) (take-append n b rest long)

  advanced-reader_at : advanced n (reader_at pre (b ++ rest)) ≡ reader_at (pre ++ b) rest
  advanced-reader_at = rw (append_assoc pre b rest, length-append pre b, long) refl

  slice-reader_at : slice n (reader_at pre (b ++ rest)) ≡ some (b, reader_at (pre ++ b) rest)
  unfolding slice
  slice-reader_at =
      rw
        (
          le→ltb (length (pre ++ (b ++ rest))) (length pre + n)
              (omega (arith, length-append pre (b ++ rest), length-append b rest, long)),
          take-reader_at,
          advanced-reader_at,
        )
        refl

  get_raw-reader_at :
      get_raw (pos n) (reader_at pre (b ++ rest)) ≡ some (b, reader_at (pre ++ b) rest)
  unfolding get_raw raw_if slice_int
  get_raw-reader_at = rw need-reader_at slice-reader_at

get_word-reader_at :
    (pre rest : List ℕ) (n v : ℕ)
    → v < 256 ^ n
    → get_word n (reader_at pre (le_bytes n v ++ rest))
      ≡ some (v, reader_at (pre ++ le_bytes n v) rest)
unfolding get_word word_if
get_word-reader_at pre rest n v h =
    let long = length-le_bytes n v in
    rw
      (
        need-reader_at pre (le_bytes n v) rest n long,
        slice-reader_at pre (le_bytes n v) rest n long,
        from_le-le_bytes n v h,
      )
      refl

get_string-reader_at :
    (s pre rest : List ℕ)
    → length s ≤ 0xFFFF
    → get_len_prefixed_string (reader_at pre ((le_bytes 2 (length s) ++ s) ++ rest))
      ≡ some (s, reader_at (pre ++ (le_bytes 2 (length s) ++ s)) rest)
unfolding get_len_prefixed_string
get_string-reader_at s pre rest h =
    let len = le_bytes 2 (length s) in
    rw
      (
        append_assoc len s rest,
        get_word-reader_at pre (s ++ rest) 2 (length s) (omega arith),
        get_raw-reader_at (pre ++ len) s rest (length s) refl,
        append_assoc pre len s,
      )
      refl

get_field-reader_at :
    (f : Field) (pre rest : List ℕ)
    → FieldFits f
    → get_field f (reader_at pre (field_bytes f ++ rest))
      ≡ some (f, reader_at (pre ++ field_bytes f) rest)
unfolding get_field
get_field-reader_at (word n v) pre rest h = rw (get_word-reader_at pre rest n v h) refl
get_field-reader_at (raw b) pre rest h = rw (get_raw-reader_at pre b rest (length b) refl) refl
get_field-reader_at (text s) pre rest h = rw (get_string-reader_at s pre rest h) refl

get_fields-reader_at :
    (fs : List Field) (pre rest : List ℕ)
    → All FieldFits fs
    → get_fields fs (reader_at pre (fields_bytes fs ++ rest))
      ≡ some (fs, reader_at (pre ++ fields_bytes fs) rest)
unfolding get_fields
get_fields-reader_at [] pre rest h = rw (append-nil pre) refl
get_fields-reader_at (f ∷ fs) pre rest (h, hs) =
    rw
      (
        append_assoc (field_bytes f) (fields_bytes fs) rest,
        get_field-reader_at f pre (fields_bytes fs ++ rest) h,
        get_fields-reader_at fs (pre ++ field_bytes f) rest hs,
        append_assoc pre (field_bytes f) (fields_bytes fs),
      )
      refl

-- Fields that fit their width, written behind any bytes, are written, and a reader that stands
-- where they begin reads them back, whatever follows, without a panic, and stands behind them without an error.
pub get_fields-put_fields :
    (fs : List Field) (pre rest : List ℕ)
    → All FieldFits fs
    → (out : List ℕ) × (put_fields fs pre ≡ some out)
      × (get_fields fs (record { buf = out ++ rest; at = length pre; failure = none })
          ≡ some (fs, record { buf = out ++ rest; at = length out; failure = none }))
get_fields-put_fields fs pre rest h = (
  pre ++ fields_bytes fs,
  put_fields-bytes fs pre h,
  rw (append_assoc pre (fields_bytes fs) rest) (
      get_fields-reader_at fs pre rest h
      ∙ ap
          (λ b. some (fs, record { buf = b; at = length (pre ++ fields_bytes fs); failure = none }))
          (append_assoc pre (fields_bytes fs) rest)),
)
