-- ===== src/Schema/SpecsValid.antt =====
-- What Validate accepts: exactly the tables whose names, columns, options and references are sound.
use dripsql.Base.{
  ℕ, zero, suc, ℤ, pos, negsuc, ◌≤◌, ◌≡◌, ◌≢◌, ◌↔◌, refl, ap, sym, ◌∙◌, Bool, true, false, ◌||◌,
  inl, inr, none, some, List, [], ◌∷◌, map, Text, text_eq, All, arith, text_beq_iff, ◌⊎◌,
}
use dripsql.Schema.Names.{normalize_name, trim_space}
use dripsql.Schema.Types.{valid}
use dripsql.Schema.Specs.{
  ColumnSpec, TableSpec, TableOptions, Verdict, SpecError, or_else, fail_if, mem_name,
  require_trimmed_name, column_validate, columns_loop, sort_by_loop, references_validate,
  table_validate, options_validate, Seen, stopped, names, continue_with, is_empty, no_columns,
  duplicate_column, segment_rows_validate, SegmentRowsOption,
}

or_else-none : (a b : Verdict) → (or_else a b ≡ none) ↔ ((a ≡ none) × (b ≡ none))
or_else-none none b = (λ h. (refl, h), λ h. h.1)
or_else-none (some e) b = (λ h. cc, λ h. h.0)

fail_if-none : (b : Bool) (e : SpecError) → (fail_if b e ≡ none) ↔ (b ≡ false)
fail_if-none true e = (λ h. cc, λ h. cc)
fail_if-none false e = (λ h. refl, λ h. refl)

abbrev pub column_names : List ColumnSpec → List Text
column_names = map (λ (c : ColumnSpec). normalize_name c.name)

-- No name comes twice, and none is in `seen`.
abbrev pub Fresh : List Text → List Text → Type 0
Fresh seen [] = Unit
Fresh seen (x ∷ xs) = (mem_name x seen ≡ false) × Fresh (x ∷ seen) xs

-- A name with no space around it.
abbrev pub IsTrimmed : Text → Type 0
IsTrimmed n = (trim_space n ≢ []) × (trim_space n ≡ n)

abbrev pub IsColumn : ColumnSpec → Type 0
IsColumn c = IsTrimmed c.name × (valid c.col_type ≡ true)

-- No negative number of rows, and none with the automatic choice.
abbrev pub IsSegmentRows : SegmentRowsOption → Type 0
IsSegmentRows o = (n : ℕ) × (o.rows ≡ pos n) × (o.auto ≡ true → n ≡ 0)

abbrev pub IsOptions : TableOptions → Type 0
IsOptions o = (o.storage ≤ 3) × (o.profile ≤ 4) × IsSegmentRows o.segment_rows × (o.compression ≤ 4)

abbrev pub Accepted : List Text → List ColumnSpec → Type 0
Accepted seen cols = All IsColumn cols × Fresh seen (column_names cols)

-- What the table sorts by and its time column are columns of it.
abbrev pub Referenced : TableOptions → List Text → Type 0
Referenced o cols =
    All (λ (n : Text). mem_name (normalize_name n) cols ≡ true) o.sort_by
    × (o.time_column ≢ [] → mem_name (normalize_name o.time_column) cols ≡ true)

abbrev pub IsTable : TableSpec → Type 0
IsTable s =
    IsTrimmed s.name
    × (s.columns ≢ [])
    × IsOptions s.options
    × Accepted [] s.columns
    × Referenced s.options (column_names s.columns)

require_iff : (n : Text) → (require_trimmed_name n ≡ none) ↔ IsTrimmed n
unfolding require_trimmed_name
require_iff n = ground (arith, text_beq_iff (trim_space n) [], text_beq_iff (trim_space n) n)

IsColumn-iff : (c : ColumnSpec) → (column_validate c ≡ none) ↔ IsColumn c
unfolding column_validate
IsColumn-iff c = ground (arith, require_iff c.name)

IsSegmentRows-iff :
    (auto : Bool) (rows : ℤ)
    → (segment_rows_validate (record { auto = auto; rows = rows }) ≡ none)
      ↔ IsSegmentRows (record { auto = auto; rows = rows })
unfolding segment_rows_validate
IsSegmentRows-iff true (pos zero) = (λ h. (0, refl, λ e. refl), λ h. refl)
IsSegmentRows-iff true (pos (suc n)) =
    (λ h. absurd (ground arith), λ (m, e, z). let m0 = z refl in cc)
IsSegmentRows-iff true (negsuc n) = (λ h. cc, λ (m, e, z). cc)
IsSegmentRows-iff false (pos n) = (λ h. (n, refl, λ e. cc), λ h. refl)
IsSegmentRows-iff false (negsuc n) = (λ h. cc, λ (m, e, z). cc)

pub IsOptions-iff : (o : TableOptions) → (options_validate o ≡ none) ↔ IsOptions o
unfolding options_validate
IsOptions-iff o = ground (arith, IsSegmentRows-iff o.segment_rows.auto o.segment_rows.rows)

-- The names seen after the loop, the last in front.
abbrev seen_after : List Text → List Text → List Text
seen_after seen [] = seen
seen_after seen (x ∷ xs) = seen_after (x ∷ seen) xs

mem_name-seen_after :
    (n : Text) (seen xs : List Text)
    → mem_name n (seen_after seen xs) ≡ (mem_name n xs || mem_name n seen)
unfolding mem_name
mem_name-seen_after n seen [] = refl
mem_name-seen_after n seen (x ∷ xs) = rw (mem_name-seen_after n (x ∷ seen) xs) (ground arith)

continue_with-names :
    (v : Verdict) (rest : Seen) (out : List Text)
    → (continue_with v rest ≡ names out) ↔ ((v ≡ none) × (rest ≡ names out))
continue_with-names none rest out = (λ h. (refl, h), λ h. h.1)
continue_with-names (some e) rest out = (λ h. cc, λ h. cc)

columns_loop-names :
    (seen : List Text) (cols : List ColumnSpec) (out : List Text)
    → columns_loop seen cols ≡ names out
    → Accepted seen cols × (out ≡ seen_after seen (column_names cols))
unfolding columns_loop
columns_loop-names seen [] out h = ((tt, tt), cc)
columns_loop-names seen (c ∷ cols) out h =
    let name = normalize_name c.name in
    let step =
      (continue_with-names
          (or_else (column_validate c) (fail_if (mem_name name seen) duplicate_column))
          (columns_loop (name ∷ seen) cols) out).0
        h in
    let both =
      (or_else-none (column_validate c) (fail_if (mem_name name seen) duplicate_column)).0 step.0 in
    let rest = columns_loop-names (name ∷ seen) cols out step.1 in
    (
      (
        ((IsColumn-iff c).0 both.0, rest.0.0),
        ((fail_if-none (mem_name name seen) duplicate_column).0 both.1, rest.0.1),
      ),
      rest.1,
    )

columns_loop-Accepted :
    (seen : List Text) (cols : List ColumnSpec)
    → Accepted seen cols
    → columns_loop seen cols ≡ names (seen_after seen (column_names cols))
unfolding columns_loop
columns_loop-Accepted seen [] h = refl
columns_loop-Accepted seen (c ∷ cols) ((col, cols_ok), (new, fresh)) =
    rw ((IsColumn-iff c).1 col, new)
      (columns_loop-Accepted (normalize_name c.name ∷ seen) cols (cols_ok, fresh))

sort_by_loop_iff :
    (seen keys : List Text)
    → (sort_by_loop seen keys ≡ none)
      ↔ All (λ (n : Text). mem_name (normalize_name n) seen ≡ true) keys
unfolding sort_by_loop
sort_by_loop_iff seen [] = (λ h. tt, λ h. refl)
sort_by_loop_iff seen (k ∷ keys) = ground (arith, sort_by_loop_iff seen keys)

references_iff :
    (o : TableOptions) (seen : List Text)
    → (references_validate o (names seen) ≡ none) ↔ Referenced o seen
unfolding references_validate
references_iff o seen =
    ground (arith, sort_by_loop_iff seen o.sort_by, text_beq_iff o.time_column [])

All-imp :
    {P : Text → Type 0} {Q : Text → Type 0} (xs : List Text)
    → ((x : Text) → P x → Q x)
    → All P xs
    → All Q xs
All-imp [] f h = tt
All-imp (x ∷ xs) f (p, ps) = (f x p, All-imp xs f ps)

-- Only membership counts, so the order of the names does not.
Referenced-same :
    (o : TableOptions) (xs ys : List Text)
    → ((n : Text) → mem_name n xs ≡ mem_name n ys)
    → Referenced o ys
    → Referenced o xs
Referenced-same o xs ys same (sorted, timed) = (
  All-imp o.sort_by (λ n h. same (normalize_name n) ∙ h) sorted,
  λ h. same (normalize_name o.time_column) ∙ timed h,
)

mem_name-names : (xs : List Text) (n : Text) → mem_name n (seen_after [] xs) ≡ mem_name n xs
unfolding mem_name
mem_name-names xs n = mem_name-seen_after n [] xs ∙ ground arith

is_empty_iff : (cols : List ColumnSpec) → (is_empty cols ≡ false) ↔ (cols ≢ [])
is_empty_iff [] = (λ h. cc, λ h. absurd (h refl))
is_empty_iff (c ∷ cols) = (λ h e. cc, λ h. refl)

Seen-cases :
    (s : Seen) → ((e : SpecError) × (s ≡ stopped e)) ⊎ ((out : List Text) × (s ≡ names out))
Seen-cases (stopped e) = inl (e, refl)
Seen-cases (names out) = inr (out, refl)

-- The verdict of the loop and that on the references, as one.
columns_sound :
    (o : TableOptions) (cols : List ColumnSpec)
    → references_validate o (columns_loop [] cols) ≡ none
    → Accepted [] cols × Referenced o (column_names cols)
unfolding references_validate
columns_sound o cols h = elim (Seen-cases (columns_loop [] cols)) [
  | inl (e, stop) ↦ let bad : some e ≡ none = sym (ap (references_validate o) stop) ∙ h in cc
  | inr (out, end) ↦
      let found = columns_loop-names [] cols out end in
      let seen = (references_iff o out).0 (sym (ap (references_validate o) end) ∙ h) in
      (
        found.0,
        Referenced-same o (column_names cols) out
            (λ n. sym (ap (mem_name n) found.1 ∙ mem_name-names (column_names cols) n)) seen,
      )
]

columns_complete :
    (o : TableOptions) (cols : List ColumnSpec)
    → Accepted [] cols
    → Referenced o (column_names cols)
    → references_validate o (columns_loop [] cols) ≡ none
columns_complete o cols ok refs =
    ap (references_validate o) (columns_loop-Accepted [] cols ok)
    ∙ (references_iff o (seen_after [] (column_names cols))).1 (
        Referenced-same o (seen_after [] (column_names cols)) (column_names cols)
          (mem_name-names (column_names cols)) refs)

or_else3 :
    (a b c d : Verdict)
    → (or_else a (or_else b (or_else c d)) ≡ none)
      ↔ ((a ≡ none) × (b ≡ none) × (c ≡ none) × (d ≡ none))
or_else3 a b c d = ground (
  arith,
  or_else-none a (or_else b (or_else c d)),
  or_else-none b (or_else c d),
  or_else-none c d,
)

-- Validate accepts a table exactly when it has a column, its name and those of its columns are there
-- and trimmed, the columns have valid types and different normalised names, what it sorts by and its
-- time column are columns of it, and of the options the storage is at most 3, the profile and the
-- compression are at most 4, and the rows of a segment are not negative, and zero where they are
-- chosen automatically.
pub table_validate_iff : (s : TableSpec) → (table_validate s ≡ none) ↔ IsTable s
unfolding table_validate
table_validate_iff s =
    let steps =
      or_else3 (require_trimmed_name s.name) (fail_if (is_empty s.columns) no_columns)
        (options_validate s.options) (references_validate s.options (columns_loop [] s.columns)) in
    let some_columns = fail_if-none (is_empty s.columns) no_columns in
    (
      λ h.
          let (named, columns, opts, refs) = steps.0 h in
          let found = columns_sound s.options s.columns refs in
          (
            (require_iff s.name).0 named,
            (is_empty_iff s.columns).0 (some_columns.0 columns),
            (IsOptions-iff s.options).0 opts,
            found.0,
            found.1,
          ),
      λ (named, columns, opts, ok, refs). steps.1 (
        (require_iff s.name).1 named,
        some_columns.1 ((is_empty_iff s.columns).1 columns),
        (IsOptions-iff s.options).1 opts,
        columns_complete s.options s.columns ok refs,
      ),
    )
