-- ===== src/Schema/OptionNames.antt =====
-- internal/schema/schema.go: the names of the table options, as the catalog keeps them.
use dripsql.Base.{
  ℕ, zero, suc, ◌≤◌, ◌≡◌, refl, Option, none, some, [], ◌∷◌, ◌++◌, Text, text_eq, nat_eq, codes,
  text_beq, arith,
}
use dripsql.Base.Dict.{Dict, get}
use dripsql.Schema.Names.{normalize_name, trim_space, trim_left, is_space, to_lower, lower}
use dripsql.Schema.Specs.{TableOptions, options_validate}
use dripsql.Schema.SpecsValid.{IsOptions-iff}

-- The cases of a switch, and `Sprintf("what(%d)", k)` for the others; `digits` prints a number.
unfoldable pub name_or : (ℕ → Text) → Text → Option Text → ℕ → Text
name_or digits what (some name) k = name
name_or digits what none k = what ++ (codes "(" ++ (digits k ++ codes ")"))

abbrev storage_cases : Dict ℕ Text
storage_cases =
    (0, codes "default") ∷ (1, codes "columnar") ∷ (2, codes "row") ∷ (3, codes "hybrid") ∷ []

abbrev profile_cases : Dict ℕ Text
profile_cases =
    (0, codes "default")
    ∷ (1, codes "event_analytics")
    ∷ (2, codes "time_series")
    ∷ (3, codes "dimension_table")
    ∷ (4, codes "log_analytics")
    ∷ []

abbrev compression_cases : Dict ℕ Text
compression_cases =
    (0, codes "default")
    ∷ (1, codes "auto")
    ∷ (2, codes "none")
    ∷ (3, codes "fast")
    ∷ (4, codes "best")
    ∷ []

unfoldable pub storage_string : (ℕ → Text) → ℕ → Text
unfolding name_or
storage_string digits k = name_or digits (codes "storage") (get k storage_cases) k

unfoldable pub profile_string : (ℕ → Text) → ℕ → Text
unfolding name_or
profile_string digits k = name_or digits (codes "profile") (get k profile_cases) k

unfoldable pub compression_string : (ℕ → Text) → ℕ → Text
unfolding name_or
compression_string digits k = name_or digits (codes "compression") (get k compression_cases) k

-- `none` is the answer `false`.
unfoldable pub parse_storage_kind_strict : Text → Option ℕ
parse_storage_kind_strict name =
    let cases : Dict Text ℕ =
      (codes "default", 0) ∷ (codes "columnar", 1) ∷ (codes "row", 2) ∷ (codes "hybrid", 3) ∷ [] in
    get (normalize_name name) cases

unfoldable pub parse_profile_strict : Text → Option ℕ
parse_profile_strict name =
    let cases : Dict Text ℕ =
      (codes "default", 0)
      ∷ (codes "event_analytics", 1)
      ∷ (codes "time_series", 2)
      ∷ (codes "dimension_table", 3)
      ∷ (codes "log_analytics", 4)
      ∷ [] in
    get (normalize_name name) cases

unfoldable pub parse_compression_strict : Text → Option ℕ
parse_compression_strict name =
    let cases : Dict Text ℕ =
      (codes "default", 0)
      ∷ (codes "auto", 1)
      ∷ (codes "none", 2)
      ∷ (codes "fast", 3)
      ∷ (codes "best", 4)
      ∷ [] in
    get (normalize_name name) cases

module _ (digits : ℕ → Text) where
  storage-back : (k : ℕ) → k ≤ 3 → parse_storage_kind_strict (storage_string digits k) ≡ some k
  unfolding parse_storage_kind_strict storage_string name_or get text_beq normalize_name trim_space
      trim_left is_space to_lower lower
  storage-back zero h = refl
  storage-back (suc zero) h = refl
  storage-back (suc (suc zero)) h = refl
  storage-back (suc (suc (suc zero))) h = refl
  storage-back (suc (suc (suc (suc k)))) h = absurd (omega arith)

  profile-back : (k : ℕ) → k ≤ 4 → parse_profile_strict (profile_string digits k) ≡ some k
  unfolding parse_profile_strict profile_string name_or get text_beq normalize_name trim_space
      trim_left is_space to_lower lower
  profile-back zero h = refl
  profile-back (suc zero) h = refl
  profile-back (suc (suc zero)) h = refl
  profile-back (suc (suc (suc zero))) h = refl
  profile-back (suc (suc (suc (suc zero)))) h = refl
  profile-back (suc (suc (suc (suc (suc k))))) h = absurd (omega arith)

  compression-back :
      (k : ℕ) → k ≤ 4 → parse_compression_strict (compression_string digits k) ≡ some k
  unfolding parse_compression_strict compression_string name_or get text_beq normalize_name
      trim_space trim_left is_space to_lower lower
  compression-back zero h = refl
  compression-back (suc zero) h = refl
  compression-back (suc (suc zero)) h = refl
  compression-back (suc (suc (suc zero))) h = refl
  compression-back (suc (suc (suc (suc zero)))) h = refl
  compression-back (suc (suc (suc (suc (suc k))))) h = absurd (omega arith)

-- Options that Validate accepts have names from which the catalog reads the same options back.
pub parse-options_string :
    (digits : ℕ → Text) (o : TableOptions)
    → options_validate o ≡ none
    → (parse_storage_kind_strict (storage_string digits o.storage) ≡ some o.storage)
      × (parse_profile_strict (profile_string digits o.profile) ≡ some o.profile)
      × (parse_compression_strict (compression_string digits o.compression) ≡ some o.compression)
parse-options_string digits o ok =
    let (storage, profile, rows, compression) = (IsOptions-iff o).0 ok in
    (
      storage-back digits o.storage storage,
      profile-back digits o.profile profile,
      compression-back digits o.compression compression,
    )
