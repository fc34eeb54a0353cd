-- ===== src/Schema/Encodings.antt =====
-- internal/schema/encoding.go: the encodings of a column, their names and their wire byte.
use dripsql.Base.{
  ℕ, ◌≡◌, refl, Bool, true, not, ◌&&◌, Option, none, some, [], ◌∷◌, Text, text_eq, nat_eq, ◌==◌,
  codes, if◌then◌else◌, leb, ltb, text_beq, arith, All, ◌+◌,
}
use dripsql.Base.Dict.{Dict, get, get-subset}
use dripsql.Schema.Names.{normalize_name, trim_space, trim_left, is_space, to_lower, lower}

-- A uint8; `enc_other` stands for the values above EncPcodec.
pub data Encoding : Type 0 where
  enc_invalid enc_plain enc_dict enc_constant enc_sequence enc_for enc_delta enc_flate : Encoding
  enc_zstd enc_alp enc_alprd enc_fsst enc_pcodec : Encoding
  enc_other : ℕ → Encoding

-- The iota values; `enc_other u` is `u` behind the last.
unfoldable pub encoding_byte : Encoding → ℕ
encoding_byte enc_invalid = 0
encoding_byte enc_plain = 1
encoding_byte enc_dict = 2
encoding_byte enc_constant = 3
encoding_byte enc_sequence = 4
encoding_byte enc_for = 5
encoding_byte enc_delta = 6
encoding_byte enc_flate = 7
encoding_byte enc_zstd = 8
encoding_byte enc_alp = 9
encoding_byte enc_alprd = 10
encoding_byte enc_fsst = 11
encoding_byte enc_pcodec = 12
encoding_byte (enc_other u) = 13 + u

unfoldable pub encoding_string : Encoding → Text
encoding_string enc_invalid = codes "invalid"
encoding_string enc_plain = codes "plain"
encoding_string enc_dict = codes "dict"
encoding_string enc_constant = codes "const"
encoding_string enc_sequence = codes "seq"
encoding_string enc_for = codes "for"
encoding_string enc_delta = codes "delta"
encoding_string enc_flate = codes "flate"
encoding_string enc_zstd = codes "zstd"
encoding_string enc_alp = codes "alp"
encoding_string enc_alprd = codes "alp-rd"
encoding_string enc_fsst = codes "fsst"
encoding_string enc_pcodec = codes "pcodec"
encoding_string (enc_other u) = codes "encoding(?)"

-- encMax
abbrev pub enc_max : ℕ
enc_max = 12

-- `none` is a panic.
unfoldable pub wire : Encoding → Option ℕ
unfolding encoding_byte
wire e =
    if encoding_byte e == 0
    then none
    else if ltb enc_max (encoding_byte e)
    then none
    else some (encoding_byte e)

unfoldable pub encoding_valid : Encoding → Bool
unfolding encoding_byte
encoding_valid e = not (encoding_byte e == 0) && leb (encoding_byte e) enc_max

-- The cases of ParseEncodingStrict, in order.
abbrev pub strict_names : Dict Text Encoding
strict_names =
    (codes "plain", enc_plain)
    ∷ (codes "dict", enc_dict)
    ∷ (codes "const", enc_constant)
    ∷ (codes "seq", enc_sequence)
    ∷ (codes "for", enc_for)
    ∷ (codes "delta", enc_delta)
    ∷ (codes "flate", enc_flate)
    ∷ (codes "zstd", enc_zstd)
    ∷ (codes "alp", enc_alp)
    ∷ (codes "alp-rd", enc_alprd)
    ∷ (codes "fsst", enc_fsst)
    ∷ (codes "pcodec", enc_pcodec)
    ∷ []

-- `none` is `EncInvalid, false`.
unfoldable pub parse_encoding_strict : Text → Option Encoding
parse_encoding_strict name = get (normalize_name name) strict_names

-- The cases of ParseEncoding, in order.
abbrev pub ddl_names : Dict Text Encoding
ddl_names =
    (codes "plain", enc_plain)
    ∷ (codes "flat", enc_plain)
    ∷ (codes "dict", enc_dict)
    ∷ (codes "dictionary", enc_dict)
    ∷ (codes "const", enc_constant)
    ∷ (codes "constant", enc_constant)
    ∷ (codes "seq", enc_sequence)
    ∷ (codes "sequence", enc_sequence)
    ∷ (codes "for", enc_for)
    ∷ (codes "for+bitpack", enc_for)
    ∷ (codes "delta", enc_delta)
    ∷ (codes "delta+bitpack", enc_delta)
    ∷ (codes "flate", enc_flate)
    ∷ (codes "zstd", enc_zstd)
    ∷ (codes "alp", enc_alp)
    ∷ (codes "alp-rd", enc_alprd)
    ∷ (codes "fsst", enc_fsst)
    ∷ (codes "pcodec", enc_pcodec)
    ∷ []

unfoldable pub parse_encoding : Text → Option Encoding
parse_encoding name = get (normalize_name name) ddl_names

-- A valid encoding is read back from its name.
pub parse-encoding_string :
    (e : Encoding) → encoding_valid e ≡ true → parse_encoding_strict (encoding_string e) ≡ some e
unfolding encoding_string encoding_valid encoding_byte parse_encoding_strict get text_beq
    normalize_name trim_space trim_left is_space to_lower lower
parse-encoding_string enc_invalid h = cc
parse-encoding_string (enc_other u) h = ground arith
parse-encoding_string enc_plain h = refl
parse-encoding_string enc_dict h = refl
parse-encoding_string enc_constant h = refl
parse-encoding_string enc_sequence h = refl
parse-encoding_string enc_for h = refl
parse-encoding_string enc_delta h = refl
parse-encoding_string enc_flate h = refl
parse-encoding_string enc_zstd h = refl
parse-encoding_string enc_alp h = refl
parse-encoding_string enc_alprd h = refl
parse-encoding_string enc_fsst h = refl
parse-encoding_string enc_pcodec h = refl

names_agree : All (λ (p : Text × Encoding). get p.0 ddl_names ≡ some p.1) strict_names
unfolding get text_beq
names_agree = (
  refl,
  (refl, (refl, (refl, (refl, (refl, (refl, (refl, (refl, (refl, (refl, (refl, tt))))))))))),
)

-- DDL understands every name that the catalog does, and as the same encoding.
pub parse_encoding-strict :
    (name : Text) (e : Encoding)
    → parse_encoding_strict name ≡ some e
    → parse_encoding name ≡ some e
unfolding parse_encoding_strict parse_encoding
parse_encoding-strict name e h =
    get-subset strict_names ddl_names names_agree (normalize_name name) e h
