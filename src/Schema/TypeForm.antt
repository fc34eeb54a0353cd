-- ===== src/Schema/TypeForm.antt =====
-- The form in which the catalog keeps a type: what TypeString writes, ParseType reads back.
use mathlib.Core.Path.{subst}
use dripsql.Base.{
  ℕ, ◌≡◌, refl, ap, sym, ◌∙◌, Bool, true, false, not, ◌&&◌, Option, none, some, [], ◌∷◌, ◌++◌, Text,
  text_eq, ◌==◌, codes, arith, text_beq,
}
use dripsql.Base.Dict.{get}
use dripsql.Schema.Names.{is_space, trim_left, trim_space, lower, to_lower, normalize_name}
use dripsql.Schema.Normal.{trim_space-append, trim_space-normalize_name, to_lower-normalize_name}
use dripsql.Schema.Types.{
  Kind, SqlType, plain_type, kind_invalid, kind_bool, kind_int16, kind_int32, kind_int64,
  kind_float32, kind_float64, kind_decimal, kind_text, kind_bytes, kind_uuid, kind_timestamp,
  kind_time, kind_date, kind_json, kind_named, kind_other, kind_string, is_named, is_invalid, valid,
  type_string, parse_type, parse_kind_strict, has_prefix,
}

-- What is written of a type, if anything is, reads back as the type.
abbrev ReadsBack : SqlType → Option Text → Type 0
ReadsBack t none = Unit
ReadsBack t (some s) = parse_type s ≡ some t

plain-ReadsBack : (k : Kind) → ReadsBack (plain_type k) (type_string (plain_type k))
unfolding type_string is_named is_invalid kind_string parse_type normalize_name trim_space trim_left
    is_space to_lower lower has_prefix parse_kind_strict get text_beq
plain-ReadsBack kind_invalid = tt
plain-ReadsBack kind_bool = refl
plain-ReadsBack kind_int16 = refl
plain-ReadsBack kind_int32 = refl
plain-ReadsBack kind_int64 = refl
plain-ReadsBack kind_float32 = refl
plain-ReadsBack kind_float64 = refl
plain-ReadsBack kind_decimal = refl
plain-ReadsBack kind_text = refl
plain-ReadsBack kind_bytes = refl
plain-ReadsBack kind_uuid = refl
plain-ReadsBack kind_timestamp = refl
plain-ReadsBack kind_time = refl
plain-ReadsBack kind_date = refl
plain-ReadsBack kind_json = refl
plain-ReadsBack kind_named = tt
plain-ReadsBack (kind_other u) = tt

abbrev prefix : Text
prefix = codes "named:"

trim_left-prefix : (n : Text) → trim_left (prefix ++ n) ≡ prefix ++ n
unfolding trim_left is_space
trim_left-prefix n = refl

normalize_name-prefix :
    (c : ℕ) (n : Text)
    → normalize_name (c ∷ n) ≡ c ∷ n
    → normalize_name (prefix ++ c ∷ n) ≡ prefix ++ c ∷ n
unfolding normalize_name to_lower lower
normalize_name-prefix c n h =
    let trimmed = ap trim_space (sym h) ∙ trim_space-normalize_name (c ∷ n) ∙ h in
    let lowered = ap to_lower (sym h) ∙ to_lower-normalize_name (c ∷ n) ∙ h in
    rw (trim_space-append prefix (c ∷ n) (λ e. cc) (trim_left-prefix (c ∷ n)) trimmed)
      (ap (λ r. prefix ++ r) lowered)

named-ReadsBack :
    (c : ℕ) (n : Text)
    → normalize_name (c ∷ n) ≡ c ∷ n
    → parse_type (prefix ++ c ∷ n) ≡ some (record { kind = kind_named; name = c ∷ n })
unfolding parse_type has_prefix text_beq
named-ReadsBack c n h =
    rw (normalize_name-prefix c n h, ap trim_space (sym h) ∙ trim_space-normalize_name (c ∷ n) ∙ h)

form-ReadsBack :
    (k : Kind) (n : Text)
    → normalize_name n ≡ n
    → ReadsBack (record { kind = k; name = n }) (type_string (record { kind = k; name = n }))
unfolding type_string is_named is_invalid kind_string text_beq
form-ReadsBack k [] h = plain-ReadsBack k
form-ReadsBack kind_named (c ∷ n) h = named-ReadsBack c n h
form-ReadsBack _ (c ∷ n) h = tt

-- What TypeString writes of a type with a normal name, ParseType reads back as that type.
pub parse_type-type_string :
    (t : SqlType) (s : Text)
    → normalize_name t.name ≡ t.name
    → type_string t ≡ some s
    → parse_type s ≡ some t
parse_type-type_string t s h written = subst (ReadsBack t) written (form-ReadsBack t.kind t.name h)

is_invalid-kind_string :
    (k : Kind) (n : Text)
    → is_invalid (record { kind = k; name = n }) ≡ true
    → (kind_string k == codes "invalid") ≡ true
unfolding is_invalid kind_string text_beq
is_invalid-kind_string kind_invalid n h = refl
is_invalid-kind_string _ n h = cc

abbrev pub is_some {ℓ} : {A : Type ℓ} → Option A → Bool
is_some none = false
is_some (some a) = true

-- The kinds that the schema has, which the zero value and any other byte are not.
abbrev pub is_known : Kind → Bool
is_known kind_invalid = false
is_known (kind_other u) = false
is_known _ = true

kind_string-is_known : (k : Kind) → (kind_string k == codes "invalid") ≡ not (is_known k)
unfolding kind_string text_beq
kind_string-is_known kind_invalid = refl
kind_string-is_known kind_bool = refl
kind_string-is_known kind_int16 = refl
kind_string-is_known kind_int32 = refl
kind_string-is_known kind_int64 = refl
kind_string-is_known kind_float32 = refl
kind_string-is_known kind_float64 = refl
kind_string-is_known kind_decimal = refl
kind_string-is_known kind_text = refl
kind_string-is_known kind_bytes = refl
kind_string-is_known kind_uuid = refl
kind_string-is_known kind_timestamp = refl
kind_string-is_known kind_time = refl
kind_string-is_known kind_date = refl
kind_string-is_known kind_json = refl
kind_string-is_known kind_named = refl
kind_string-is_known (kind_other u) = refl

is_named-is_known :
    (k : Kind) (n : Text) → is_named (record { kind = k; name = n }) ≡ true → is_known k ≡ true
unfolding is_named
is_named-is_known kind_named n h = refl
is_named-is_known _ n h = cc

-- The types with a written form are exactly the valid ones whose kind is one of the schema's.
pub type_string-valid : (t : SqlType) → is_some (type_string t) ≡ (valid t && is_known t.kind)
unfolding type_string valid
type_string-valid t = ground (
  arith,
  is_invalid-kind_string t.kind t.name,
  kind_string-is_known t.kind,
  is_named-is_known t.kind t.name,
)
