-- ===== src/Schema/Types.antt =====
-- internal/schema/type.go: the SQL types, their names, and the form that the catalog keeps.
use dripsql.Base.{
  ℕ, Bool, true, false, not, ◌&&◌, Option, none, some, [], ◌∷◌, ◌++◌, Text, text_eq, ◌==◌, codes,
  if◌then◌else◌, length, take, drop,
}
use dripsql.Base.Dict.{Dict, get}
use dripsql.Schema.Names.{trim_space, normalize_name}

-- A uint8; `kind_other` stands for the values above KindNamed.
pub data Kind : Type 0 where
  kind_invalid kind_bool kind_int16 kind_int32 kind_int64 kind_float32 kind_float64 kind_decimal :
      Kind
  kind_text kind_bytes kind_uuid kind_timestamp kind_time kind_date kind_json kind_named : Kind
  kind_other : ℕ → Kind

pub record SqlType : Type 0 where
  pub kind : Kind
  pub name : Text

unfoldable pub kind_string : Kind → Text
kind_string kind_bool = codes "bool"
kind_string kind_int16 = codes "int16"
kind_string kind_int32 = codes "int32"
kind_string kind_int64 = codes "int64"
kind_string kind_float32 = codes "float32"
kind_string kind_float64 = codes "float64"
kind_string kind_decimal = codes "decimal"
kind_string kind_text = codes "text"
kind_string kind_bytes = codes "bytes"
kind_string kind_uuid = codes "uuid"
kind_string kind_timestamp = codes "timestamp"
kind_string kind_time = codes "time"
kind_string kind_date = codes "date"
kind_string kind_json = codes "json"
kind_string kind_named = codes "named"
kind_string kind_invalid = codes "invalid"
kind_string (kind_other u) = codes "invalid"

abbrev pub plain_type : Kind → SqlType
plain_type k = record { kind = k; name = [] }

unfoldable pub named : Text → SqlType
named name = record { kind = kind_named; name = name }

-- The cases of the switch in Parse, in order.
abbrev pub primitives : Dict Text Kind
primitives =
    (codes "bool", kind_bool)
    ∷ (codes "int16", kind_int16)
    ∷ (codes "int32", kind_int32)
    ∷ (codes "int64", kind_int64)
    ∷ (codes "float32", kind_float32)
    ∷ (codes "float64", kind_float64)
    ∷ (codes "decimal", kind_decimal)
    ∷ (codes "text", kind_text)
    ∷ (codes "bytes", kind_bytes)
    ∷ (codes "uuid", kind_uuid)
    ∷ (codes "timestamp", kind_timestamp)
    ∷ (codes "time", kind_time)
    ∷ (codes "date", kind_date)
    ∷ (codes "json", kind_json)
    ∷ []

abbrev pub parsed : Text → Option Kind → SqlType
parsed name none = named name
parsed name (some k) = plain_type k

unfoldable pub parse : Text → SqlType
unfolding named
parse name = parsed (normalize_name name) (get (normalize_name name) primitives)

unfoldable pub is_named : SqlType → Bool
is_named t = elim t.kind [ kind_named ↦ true | _ ↦ false ]

unfoldable pub is_invalid : SqlType → Bool
is_invalid t = elim t.kind [ kind_invalid ↦ true | _ ↦ false ]

unfoldable pub valid : SqlType → Bool
unfolding is_invalid is_named
valid t = if is_invalid t then false else if is_named t then not (t.name == []) else t.name == []

unfoldable pub to_string : SqlType → Text
unfolding is_named kind_string
to_string t = if is_named t && not (t.name == []) then t.name else kind_string t.kind

-- The switch in ParseKindStrict has those of Parse and one more.
abbrev pub strict_kinds : Dict Text Kind
strict_kinds = primitives ++ (codes "named", kind_named) ∷ []

-- `none` is `KindInvalid, false`.
unfoldable pub parse_kind_strict : Text → Option Kind
parse_kind_strict name = get (normalize_name name) strict_kinds

-- `none` is an error.
unfoldable pub type_string : SqlType → Option Text
unfolding is_named is_invalid kind_string
type_string t =
    if is_named t
    then if t.name == [] then none else some (codes "named:" ++ t.name)
    else if is_invalid t
    then none
    else if kind_string t.kind == codes "invalid"
    then none
    else if t.name == []
    then some (kind_string t.kind)
    else none

unfoldable pub has_prefix : Text → Text → Bool
has_prefix s p = take (length p) s == p

abbrev pub known_kind : Option Kind → Option SqlType
known_kind none = none
known_kind (some kind_named) = none
known_kind (some k) = some (plain_type k)

abbrev pub named_of : Text → Option SqlType
named_of name = if name == [] then none else some (record { kind = kind_named; name = name })

unfoldable pub parse_type : Text → Option SqlType
unfolding has_prefix parse_kind_strict
parse_type s =
    let trimmed = normalize_name s in
    if trimmed == []
    then none
    else if has_prefix trimmed (codes "named:")
    then named_of (trim_space (drop (length (codes "named:")) trimmed))
    else known_kind (parse_kind_strict trimmed)
