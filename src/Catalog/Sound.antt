-- ===== src/Catalog/Sound.antt =====
-- What a catalog that Validate accepts can be relied on for.
use mathlib.Core.Path.{subst}
use dripsql.Base.{
  ℕ, ◌<◌, ◌≡◌, ◌⊎◌, inl, inr, refl, ap, sym, ◌∙◌, false, not, Bool-cases, Option, none, some, List,
  [], ◌∷◌, All, arith, nat_eq, ◌==◌, nat_beq_iff, Text,
}
use dripsql.Base.Dict.{Dict, get, put, get-put}
use dripsql.Schema.Names.{normalize_name}
use dripsql.Catalog.File.{Column, Table, CatFile}
use dripsql.Catalog.Validate.{
  Check, CatalogError, key_dropped, ◌andalso◌, ◌unless◌, mem_id, Columns, by_id, failed,
  go_on_columns, check_column, active_with, columns_loop, live_column, check_primary_key,
  check_references, validate_table, tables_loop, check_tables, Names, collected, stopped,
  types_loop, validate, is_present,
}

andalso-none : (a b : Check) → (a andalso b) ≡ none → (a ≡ none) × (b ≡ none)
andalso-none none b h = (refl, h)
andalso-none (some e) b h = cc

abbrev pub HasColumn : Column → List Column → Type 0
HasColumn c [] = ⊥
HasColumn c (x ∷ xs) = (x ≡ c) ⊎ HasColumn c xs

-- A column of the table with this identity that is not dropped.
abbrev pub LiveColumn : List Column → ℕ → Type 0
LiveColumn cols id =
    (c : Column) × (HasColumn c cols) × (c.column_id ≡ id) × (c.dropped_at_generation ≡ none)

-- What the dictionary holds is a column of the table under its identity.
abbrev Indexed : List Column → Dict ℕ Column → Type 0
Indexed cols dict =
    (id : ℕ) (c : Column) → get id dict ≡ some c → HasColumn c cols × (c.column_id ≡ id)

go_on_columns-by_id :
    (v : Check) (rest : Columns) (out : Dict ℕ Column)
    → go_on_columns v rest ≡ by_id out
    → rest ≡ by_id out
go_on_columns-by_id none rest out h = h
go_on_columns-by_id (some e) rest out h = cc

abbrev dict_of : Columns → Dict ℕ Column
dict_of (failed e) = []
dict_of (by_id d) = d

some-inj : (a b : Column) → Path (Option Column) (some a) (some b) → a ≡ b
some-inj a b h = cc

Indexed-put :
    (cols : List Column) (dict : Dict ℕ Column) (c : Column)
    → HasColumn c cols
    → Indexed cols dict
    → Indexed cols (put c.column_id c dict)
Indexed-put cols dict c here old id d found = elim (Bool-cases (c.column_id == id)) [
  | inl same ↦
      let e : c ≡ d = some-inj c d (sym (get-put c.column_id id c dict ∙ rw same refl) ∙ found) in
      subst (λ x. HasColumn x cols × (x.column_id ≡ id)) e
        (here, (nat_beq_iff c.column_id id).0 same)
  | inr other ↦ old id d (sym (get-put c.column_id id c dict ∙ rw other refl) ∙ found)
]

-- The loop indexes columns of the table only.
columns_loop-Indexed :
    (cols : List Column) (types : List Text) (next : ℕ) (dict : Dict ℕ Column) (active : List Text)
    (cs : List Column) (out : Dict ℕ Column)
    → All (λ c. HasColumn c cols) cs
    → Indexed cols dict
    → columns_loop types next dict active cs ≡ by_id out
    → Indexed cols out
unfolding columns_loop
columns_loop-Indexed cols types next dict active [] out here old h =
    λ id c found. old id c (ap (λ m. get id (dict_of m)) h ∙ found)
columns_loop-Indexed cols types next dict active (c ∷ cs) out (first, rest) old h =
    columns_loop-Indexed cols types next (put c.column_id c dict) (active_with c active) cs out rest
      (Indexed-put cols dict c first old)
      (go_on_columns-by_id (check_column types next dict active c) _ out h)

weaken :
    (x : Column) (cols cs : List Column)
    → All (λ c. HasColumn c cols) cs
    → All (λ c. HasColumn c (x ∷ cols)) cs
weaken x cols [] h = tt
weaken x cols (c ∷ cs) (h, hs) = (inr h, weaken x cols cs hs)

all_columns : (cols : List Column) → All (λ c. HasColumn c cols) cols
all_columns [] = tt
all_columns (c ∷ cs) = (inl refl, weaken c cs cs (all_columns cs))

not_dropped : (o : Option ℕ) → (key_dropped unless not (is_present o)) ≡ none → o ≡ none
not_dropped none h = refl
not_dropped (some g) h = cc

live_column-live :
    (o : Option Column)
    → live_column o ≡ none
    → (c : Column) × (o ≡ some c) × (c.dropped_at_generation ≡ none)
live_column-live none h = cc
live_column-live (some c) h = (c, refl, not_dropped c.dropped_at_generation h)

primary_key-live :
    (cols : List Column) (dict : Dict ℕ Column) (ids : List ℕ)
    → Indexed cols dict
    → check_primary_key dict ids ≡ none
    → All (LiveColumn cols) ids
unfolding check_primary_key
primary_key-live cols dict [] h ok = tt
primary_key-live cols dict (id ∷ ids) h ok =
    let both = andalso-none (live_column (get id dict)) (check_primary_key dict ids) ok in
    let found = live_column-live (get id dict) both.0 in
    let here = h id found.0 found.1 in
    ((found.0, here.0, here.1, found.2), primary_key-live cols dict ids h both.1)

Indexed-empty : (cols : List Column) → Indexed cols []
unfolding get
Indexed-empty cols id c h = cc

Columns-cases :
    (m : Columns) → ((e : CatalogError) × (m ≡ failed e)) ⊎ ((d : Dict ℕ Column) × (m ≡ by_id d))
Columns-cases (failed e) = inl (e, refl)
Columns-cases (by_id d) = inr (d, refl)

validate_table-live :
    (t : Table) (types : List Text)
    → validate_table t types ≡ none
    → All (LiveColumn t.columns) t.primary_key
unfolding validate_table check_references
validate_table-live t types ok =
    let refs =
      (andalso-none _ (check_references t (columns_loop types t.next_column_id [] [] t.columns))
        ok).1 in
    elim (Columns-cases (columns_loop types t.next_column_id [] [] t.columns)) [
      | inl (e, stop) ↦ let bad : some e ≡ none = sym (ap (check_references t) stop) ∙ refs in cc
      | inr (dict, end) ↦
          primary_key-live t.columns dict t.primary_key
            (columns_loop-Indexed t.columns types t.next_column_id [] [] t.columns dict
              (all_columns t.columns) (Indexed-empty t.columns) end)
            (andalso-none (check_primary_key dict t.primary_key) _
              (sym (ap (check_references t) end) ∙ refs)).0
    ]

-- Identities that are not in `ids`, differ from each other and are below the next one.
abbrev pub TablesOk : ℕ → List ℕ → List Table → Type 0
TablesOk next ids [] = Unit
TablesOk next ids (t ∷ ts) =
    (mem_id t.table_id ids ≡ false) × (t.table_id < next) × TablesOk next (t.table_id ∷ ids) ts

tables_loop-facts :
    (next : ℕ) (types : List Text) (ids : List ℕ) (names : List Text) (t : Table) (ts : List Table)
    → tables_loop next types ids names (t ∷ ts) ≡ none
    → (mem_id t.table_id ids ≡ false)
      × (t.table_id < next)
      × (validate_table t types ≡ none)
      × (tables_loop next types (t.table_id ∷ ids) (normalize_name t.name ∷ names) ts ≡ none)
unfolding tables_loop
tables_loop-facts next types ids names t ts ok = ground arith

tables_loop-live :
    (next : ℕ) (types : List Text) (ids : List ℕ) (names : List Text) (ts : List Table)
    → tables_loop next types ids names ts ≡ none
    → TablesOk next ids ts × All (λ (t : Table). All (LiveColumn t.columns) t.primary_key) ts
unfolding tables_loop
tables_loop-live next types ids names [] ok = (tt, tt)
tables_loop-live next types ids names (t ∷ ts) ok =
    let facts = tables_loop-facts next types ids names t ts ok in
    let rest =
      tables_loop-live next types (t.table_id ∷ ids) (normalize_name t.name ∷ names) ts facts.3 in
    ((facts.0, facts.1, rest.0), (validate_table-live t types facts.2, rest.1))

check_tables-live :
    (f : CatFile) (types : Names)
    → check_tables f types ≡ none
    → TablesOk f.next_table_id [] f.tables
      × All (λ (t : Table). All (LiveColumn t.columns) t.primary_key) f.tables
check_tables-live f (stopped e) ok = cc
check_tables-live f (collected types) ok = tables_loop-live f.next_table_id types [] [] f.tables ok

-- In a catalog that Validate accepts, the identities of the tables are below the next one to be
-- given and differ from each other, and the primary key of each table is of columns that the table
-- has and has not dropped.
pub validate-live :
    (f : CatFile)
    → validate (some f) ≡ none
    → TablesOk f.next_table_id [] f.tables
      × All (λ (t : Table). All (LiveColumn t.columns) t.primary_key) f.tables
unfolding validate
validate-live f ok =
    let types = types_loop f.next_type_id [] [] f.types in
    check_tables-live f types (andalso-none _ (check_tables f types) (andalso-none _ _ ok).1).1
