-- ===== src/Tests/Schemas.antt =====
-- The schema of internal/schema at a table of users.
use dripsql.Base.{
  ◌&&◌, ℕ, ◌≡◌, ◌↔◌, refl, true, false, some, none, [], ◌∷◌, codes, Text, text_eq, text_beq, pos,
}
use dripsql.Base.Dict.{get}
use dripsql.Schema.Names.{normalize_name, trim_space, trim_left, is_space, to_lower, lower}
use dripsql.Schema.Types.{
  SqlType, plain_type, kind_int64, kind_named, type_string, parse_type, valid, is_named,
}
use dripsql.Schema.TypeForm.{is_some, is_known, parse_type-type_string, type_string-valid}
use dripsql.Schema.Encodings.{
  enc_for, enc_plain, encoding_string, encoding_valid, encoding_byte, parse_encoding_strict,
  parse-encoding_string,
}
use dripsql.Schema.Specs.{
  ColumnSpec, TableSpec, TableOptions, table_validate, options_validate, segment_rows_validate,
}
use dripsql.Schema.SpecsValid.{IsTable, table_validate_iff}
use dripsql.Schema.OptionNames.{
  storage_string, profile_string, compression_string, parse_storage_kind_strict,
  parse_profile_strict, parse_compression_strict, parse-options_string,
}

abbrev options : TableOptions
options = record {
  storage = 1;
  profile = 2;
  segment_rows = record { auto = false; rows = pos 100 };
  sort_by = codes "id" ∷ [];
  compression = 4;
  time_column = [];
}

abbrev id_column : ColumnSpec
id_column = record {
  name = codes "id";
  col_type = plain_type kind_int64;
  nullable = false;
  codec = enc_plain;
}

abbrev users : TableSpec
users = record { name = codes "users"; columns = id_column ∷ []; options = options }

abbrev mood : SqlType
mood = record { kind = kind_named; name = codes "mood" }

-- Prints a number below ten.
abbrev digit : ℕ → Text
digit k = k ∷ []

mood-normal : normalize_name (codes "mood") ≡ codes "mood"
unfolding normalize_name trim_space trim_left is_space to_lower lower
mood-normal = refl

mood_written : type_string mood ≡ some (codes "named:mood")
unfolding type_string is_named text_beq
mood_written = refl

options_accepted : options_validate options ≡ none
unfolding options_validate segment_rows_validate
options_accepted = refl

for_valid : encoding_valid enc_for ≡ true
unfolding encoding_valid encoding_byte
for_valid = refl

for_strict : parse_encoding_strict (codes " FOR") ≡ some enc_for
unfolding parse_encoding_strict get text_beq normalize_name trim_space trim_left is_space to_lower
    lower
for_strict = refl

parse_type-type_string_example : parse_type (codes "named:mood") ≡ some mood
parse_type-type_string_example =
    parse_type-type_string mood (codes "named:mood") mood-normal mood_written

type_string-valid_example : is_some (type_string mood) ≡ (valid mood && is_known kind_named)
type_string-valid_example = type_string-valid mood

parse-encoding_string_example : parse_encoding_strict (encoding_string enc_for) ≡ some enc_for
parse-encoding_string_example = parse-encoding_string enc_for for_valid

table_validate_iff_example : (table_validate users ≡ none) ↔ IsTable users
table_validate_iff_example = table_validate_iff users

parse-options_string_example :
    (parse_storage_kind_strict (storage_string digit options.storage) ≡ some options.storage)
    × (parse_profile_strict (profile_string digit options.profile) ≡ some options.profile)
    × (parse_compression_strict (compression_string digit options.compression)
        ≡ some options.compression)
parse-options_string_example = parse-options_string digit options options_accepted
