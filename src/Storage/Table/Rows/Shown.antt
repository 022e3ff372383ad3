-- ===== src/Storage/Table/Rows/Shown.antt =====
-- What the printing functions of src/storage.c ought to show, written without their code: rows of
-- tab-separated cells, and the meaning of a condition on a row.
use mathlib.Core.Path.{subst}
use mathlib.Core.Option.{some-injective}
use week7_02_sql_index.Prelude.{
  if◌then◌else◌, Option, ℕ, Bool, true, false, none, some, List, [], ◌∷◌, ◌++◌, ◌≡◌, ◌≢◌, ◌↔◌, refl,
  ap, sym, ◌∙◌, map, get_elem?, get_or, append_assoc, All, ℤ, ◌<ℤ◌, eq_of_parts, arith,
}
use week7_02_sql_index.Text.{Bytes, str_eq_iff}
use week7_02_sql_index.Sql.{DataType, WhereOperator, LiteralValue, ColumnSchema, TableSchema}
use week7_02_sql_index.Number.Defs.{read_int}
use week7_02_sql_index.Storage.Table.Defs.{selected_text}
use week7_02_sql_index.Storage.Table.Scan.{
  printed, column_names, storage_print_rows, storage_print_rows_where_equals, typed_matches,
  compare_ints, csv_value_matches_where,
}
use week7_02_sql_index.Storage.Table.Rows.File.{IsTable, IsRow, Readable, table_file}
use week7_02_sql_index.Storage.Table.Rows.Print.{
  rows_out, IsTyped, IsCondition, or_false, satisfying, IsRow-Readable, storage_print_rows-rows,
  storage_print_rows_where_equals-rows,
}

-- Output

-- cells with a tab between two of them
abbrev tabbed : List Bytes → Bytes
tabbed [] = []
tabbed (v ∷ []) = v
tabbed (v ∷ w ∷ vs) = v ++ b'\t' ∷ tabbed (w ∷ vs)

-- the cells at some positions
abbrev cells : List ℕ → List Bytes → List Bytes
cells [] row = []
cells (i ∷ is) row = get_or row i [] ∷ cells is row

-- each row on a line of its own
abbrev pub shown_table : List ℕ → List (List Bytes) → Bytes
shown_table is [] = []
shown_table is (row ∷ rows) = tabbed (cells is row) ++ b'\n' ∷ shown_table is rows

abbrev pub heading : TableSchema → List Bytes
heading schema = map (λ c. c.name) schema.columns

selected_text-tabbed :
    (row : List Bytes) (is : List ℕ) → selected_text row is ≡ tabbed (cells is row) ++ b'\n' ∷ []
selected_text-tabbed row [] = refl
selected_text-tabbed row (i ∷ []) = refl
selected_text-tabbed row (i ∷ j ∷ is) =
    ap (λ line. get_or row i [] ++ b'\t' ∷ line) (selected_text-tabbed row (j ∷ is))
    ∙ sym (append_assoc (get_or row i []) (b'\t' ∷ tabbed (cells (j ∷ is) row)) (b'\n' ∷ []))

rows_out-shown_table :
    (is : List ℕ) (rows : List (List Bytes)) → rows_out is rows ≡ shown_table is rows
rows_out-shown_table is [] = refl
rows_out-shown_table is (row ∷ rows) =
    ap (λ line. line ++ rows_out is rows) (selected_text-tabbed row is)
    ∙ append_assoc (tabbed (cells is row)) (b'\n' ∷ []) (rows_out is rows)
    ∙ ap (λ rest. tabbed (cells is row) ++ b'\n' ∷ rest) (rows_out-shown_table is rows)

column_names-map : (cs : List ColumnSchema) → column_names cs ≡ map (λ c. c.name) cs
column_names-map [] = refl
column_names-map (c ∷ cs) = ap (λ names. c.name ∷ names) (column_names-map cs)

-- a header and rows, as they are printed and as they ought to be
output-shown_table :
    (schema : TableSchema) (is : List ℕ) (rows : List (List Bytes))
    → selected_text (column_names schema.columns) is ++ rows_out is rows
      ≡ shown_table is (heading schema ∷ rows)
output-shown_table schema is rows =
    ap (λ names. selected_text names is ++ rows_out is rows) (column_names-map schema.columns)
    ∙ rows_out-shown_table is (heading schema ∷ rows)

-- Conditions

-- a comparison of two integers
abbrev Stands : WhereOperator → ℤ → ℤ → Type 0
Stands WhereOperator.equal x y = x ≡ y
Stands WhereOperator.not_equal x y = x ≢ y
Stands WhereOperator.greater x y = y <ℤ x
Stands WhereOperator.less x y = x <ℤ y

-- A string is compared as it is, an int column's text by the integer that `read_int` finds in it.
abbrev Holds : DataType → WhereOperator → LiteralValue → Bytes → Type 0
Holds DataType.string WhereOperator.equal value v = v ≡ value.text
Holds DataType.string WhereOperator.not_equal value v = v ≢ value.text
Holds DataType.string WhereOperator.greater value v = ⊥
Holds DataType.string WhereOperator.less value v = ⊥
Holds DataType.int op value v =
    (x : ℤ) × (y : ℤ) × (read_int v ≡ some x) × (read_int value.text ≡ some y) × Stands op x y

abbrev pub Satisfies : TableSchema → ℕ → WhereOperator → LiteralValue → List Bytes → Type 0
Satisfies schema i op value row =
    (c : ColumnSchema) × (get_elem? schema.columns i ≡ some c)
    × Holds c.type op value (get_or row i [])

-- Of some rows, those that are wanted, in their order.
pub data Selects (Wanted : List Bytes → Type 0)
    : List (List Bytes) → List (List Bytes) → Type 0 where
  none_left : Selects Wanted [] []
  keep :
      {row : List Bytes} {rows kept : List (List Bytes)}
      → Wanted row
      → Selects Wanted rows kept
      → Selects Wanted (row ∷ rows) (row ∷ kept)
  drop :
      {row : List Bytes} {rows kept : List (List Bytes)}
      → (Wanted row → ⊥)
      → Selects Wanted rows kept
      → Selects Wanted (row ∷ rows) kept

compare_ints-Stands : (op : WhereOperator) (x y : ℤ) → (compare_ints op x y ≡ true) ↔ Stands op x y
compare_ints-Stands WhereOperator.equal x y = ground (arith, eq_of_parts x y)
compare_ints-Stands WhereOperator.not_equal x y = ground (arith, eq_of_parts x y)
compare_ints-Stands WhereOperator.greater x y = ground arith
compare_ints-Stands WhereOperator.less x y = ground arith

typed_matches-Holds :
    (ty : DataType) (op : WhereOperator) (value : LiteralValue) (v : Bytes)
    → IsTyped ty op value
    → Readable ty v
    → (or_false (typed_matches ty op v value) ≡ true) ↔ Holds ty op value v
typed_matches-Holds DataType.string WhereOperator.equal value v h r = str_eq_iff v value.text
typed_matches-Holds DataType.string WhereOperator.not_equal value v h r =
    ground (arith, str_eq_iff v value.text)
typed_matches-Holds DataType.string WhereOperator.greater value v h r = absurd (h.0 refl)
typed_matches-Holds DataType.string WhereOperator.less value v h r = absurd (h.1 refl)
typed_matches-Holds DataType.int op value v (int, readable) r =
    let (x, ex) = some_of (read_int v) r in
    let (y, ey) = some_of (read_int value.text) readable in
    let (stands, true_of) = compare_ints-Stands op x y in
    rw (int, ex, ey)
      (
        (λ e. (x, y, refl, refl, stands e)),
        λ (x', y', ex', ey', s). true_of (
            subst (λ z. Stands op z y) (some-injective x' x (sym ex'))
              (subst (λ z. Stands op x' z) (some-injective y' y (sym ey')) s)),
      )
  where
    some_of : (o : Option ℤ) → o ≢ none → (x : ℤ) × (o ≡ some x)
    some_of none n = absurd (n refl)
    some_of (some x) n = (x, refl)

module _ (schema : TableSchema) (i : ℕ) (op : WhereOperator) (value : LiteralValue)
    (condition : IsCondition schema i op value) where
  matches-Satisfies :
      (row : List Bytes)
      → IsRow schema.columns row
      → (or_false (csv_value_matches_where schema row i op value) ≡ true)
        ↔ Satisfies schema i op value row
  unfolding csv_value_matches_where
  matches-Satisfies row h =
      let (c, at, typed) = condition in
      let (holds, true_of) =
        typed_matches-Holds c.type op value (get_or row i []) typed
          (IsRow-Readable schema.columns row i c h at) in
      rw at (
        (λ e. (c, refl, holds e)),
        λ (c', at', s). true_of (
            subst (λ (d : ColumnSchema). Holds d.type op value (get_or row i []))
              (some-injective c' c (sym at')) s),
      )

  satisfying-Selects :
      (rows : List (List Bytes))
      → All (IsRow schema.columns) rows
      → Selects (Satisfies schema i op value) rows (satisfying schema i op value rows)
  satisfying-Selects [] h = none_left
  satisfying-Selects (row ∷ rows) h =
      by_test (or_false (csv_value_matches_where schema row i op value)) (matches-Satisfies row h.0)
        (satisfying-Selects rows h.1)
    where
      by_test :
          {kept : List (List Bytes)} (b : Bool)
          → (b ≡ true) ↔ Satisfies schema i op value row
          → Selects (Satisfies schema i op value) rows kept
          → Selects (Satisfies schema i op value) (row ∷ rows) (if b then row ∷ kept else kept)
      by_test true (holds, _) s = keep (holds refl) s
      by_test false (_, true_of) s = drop (λ w. let e = true_of w in cc e) s

module _ (schema : TableSchema) (table : IsTable schema) (selected_indices : List ℕ) where
  -- `storage_print_rows` shows the names of the selected columns and the selected values of every row, in
  -- order: a line for each, with a tab between two cells.
  pub storage_print_rows-shown_table :
      (rows : List (List Bytes))
      → All (IsRow schema.columns) rows
      → storage_print_rows schema selected_indices (some (table_file schema rows))
        ≡ printed (shown_table selected_indices (heading schema ∷ rows))
  storage_print_rows-shown_table rows h =
      storage_print_rows-rows schema table selected_indices rows h
      ∙ ap printed (output-shown_table schema selected_indices rows)

  -- For a condition that can be decided, `storage_print_rows_where_equals` shows the names of the selected
  -- columns and the selected values of exactly the rows that satisfy it, in order: strings that are the
  -- same as the literal or differ from it, and integers, as `read_int` reads them, that are the same,
  -- differ, or are above or below the literal's.
  pub storage_print_rows_where_equals-Selects :
      (i : ℕ) (op : WhereOperator) (value : LiteralValue)
      → IsCondition schema i op value
      → (rows : List (List Bytes)) → All (IsRow schema.columns) rows
      → (kept : List (List Bytes)) × Selects (Satisfies schema i op value) rows kept
        × (storage_print_rows_where_equals schema selected_indices i op value
              (some (table_file schema rows))
            ≡ printed (shown_table selected_indices (heading schema ∷ kept)))
  storage_print_rows_where_equals-Selects i op value condition rows h =
      let kept = satisfying schema i op value rows in
      (
        kept,
        satisfying-Selects schema i op value condition rows h,
        storage_print_rows_where_equals-rows schema table selected_indices i op value condition rows
              h
            ∙ ap printed (output-shown_table schema selected_indices kept),
      )
