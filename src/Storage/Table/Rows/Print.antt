-- ===== src/Storage/Table/Rows/Print.antt =====
-- What the printing functions show of a table's rows.
use week7_02_sql_index.Prelude.{
  ℕ, zero, suc, Bool, true, false, Option, none, some, List, [], ◌∷◌, ◌++◌, ◌≡◌, ◌≢◌, refl,
  if◌then◌else◌, map, get_elem?, get_or, All, ℤ,
}
use week7_02_sql_index.Text.{Bytes}
use week7_02_sql_index.Sql.{
  DataType, LiteralType, WhereOperator, LiteralValue, ColumnSchema, TableSchema,
}
use week7_02_sql_index.Number.Defs.{read_int}
use week7_02_sql_index.Storage.Csv.Defs.{write_csv_row}
use week7_02_sql_index.Storage.Table.Defs.{selected_text}
use week7_02_sql_index.Storage.Table.Scan.{
  Printed, printed, refused, print_first, print_selected_header, print_lines, storage_print_rows,
  typed_matches, both_ints, compare_ints, csv_value_matches_where, print_matching,
  storage_print_rows_where_equals,
}
use week7_02_sql_index.Storage.Table.Rows.File.{
  IsTable, IsRow, Readable, table_file, row_line, after_header-table_file,
}

-- the printed lines of some rows
abbrev pub rows_out : List ℕ → List (List Bytes) → Bytes
rows_out selected_indices [] = []
rows_out selected_indices (row ∷ rows) =
    selected_text row selected_indices ++ rows_out selected_indices rows

-- a condition that can be decided on every row
abbrev pub IsTyped : DataType → WhereOperator → LiteralValue → Type 0
IsTyped DataType.string op value = (op ≢ WhereOperator.greater) × (op ≢ WhereOperator.less)
IsTyped DataType.int op value = (value.type ≡ LiteralType.int) × (read_int value.text ≢ none)

abbrev pub IsCondition : TableSchema → ℕ → WhereOperator → LiteralValue → Type 0
IsCondition schema i op value =
    (c : ColumnSchema) × (get_elem? schema.columns i ≡ some c) × IsTyped c.type op value

abbrev pub or_false : Option Bool → Bool
or_false none = false
or_false (some b) = b

-- the rows that satisfy a condition
abbrev pub satisfying :
    TableSchema → ℕ → WhereOperator → LiteralValue → List (List Bytes) → List (List Bytes)
satisfying schema i op value [] = []
satisfying schema i op value (row ∷ rows) =
    let rest = satisfying schema i op value rows in
    if or_false (csv_value_matches_where schema row i op value) then row ∷ rest else rest

pub IsRow-Readable :
    (cs : List ColumnSchema) (vs : List Bytes) (i : ℕ) (c : ColumnSchema)
    → IsRow cs vs
    → get_elem? cs i ≡ some c
    → Readable c.type (get_or vs i [])
IsRow-Readable [] [] i c h e = cc
IsRow-Readable [] (v ∷ vs) i c h e = absurd h
IsRow-Readable (d ∷ cs) [] i c h e = absurd h
IsRow-Readable (d ∷ cs) (v ∷ vs) zero c h e = let same : d ≡ c = cc in rw same at h.1
IsRow-Readable (d ∷ cs) (v ∷ vs) (suc i) c h e = IsRow-Readable cs vs i c h.2 e

both_ints-decided :
    (op : WhereOperator) (v t : Option ℤ)
    → v ≢ none
    → t ≢ none
    → (b : Bool) × (both_ints op v t ≡ some b)
both_ints-decided op none t v n = absurd (v refl)
both_ints-decided op (some x) none v n = absurd (n refl)
both_ints-decided op (some x) (some y) v n = (compare_ints op x y, refl)

typed_matches-decided :
    (ty : DataType) (op : WhereOperator) (v : Bytes) (value : LiteralValue)
    → IsTyped ty op value
    → Readable ty v
    → (b : Bool) × (typed_matches ty op v value ≡ some b)
typed_matches-decided DataType.string WhereOperator.equal v value h r = (_, refl)
typed_matches-decided DataType.string WhereOperator.not_equal v value h r = (_, refl)
typed_matches-decided DataType.string WhereOperator.greater v value h r = absurd (h.0 refl)
typed_matches-decided DataType.string WhereOperator.less v value h r = absurd (h.1 refl)
typed_matches-decided DataType.int op v value h r =
    rw h.0 (both_ints-decided op (read_int v) (read_int value.text) r h.1)

module _ (schema : TableSchema) (i : ℕ) (op : WhereOperator) (value : LiteralValue)
    (condition : IsCondition schema i op value) where
  -- on a row the condition is decided
  pub matches-decided :
      (row : List Bytes)
      → IsRow schema.columns row
      → csv_value_matches_where schema row i op value
        ≡ some (or_false (csv_value_matches_where schema row i op value))
  unfolding csv_value_matches_where
  matches-decided row h =
      let (c, at, typed) = condition in
      let (b, decided) =
        typed_matches-decided c.type op (get_or row i []) value typed
          (IsRow-Readable schema.columns row i c h at) in
      rw (at, decided)

module _ (schema : TableSchema) (table : IsTable schema) (selected_indices : List ℕ) where
  print_lines-rows :
      (rows : List (List Bytes))
      → All (IsRow schema.columns) rows
      → print_lines schema selected_indices (map write_csv_row rows)
        ≡ printed (rows_out selected_indices rows)
  unfolding print_lines
  print_lines-rows [] h = refl
  print_lines-rows (row ∷ rows) h =
      rw ((row_line schema table row h.0).1, print_lines, print_lines-rows rows h.1)

  pub storage_print_rows-rows :
      (rows : List (List Bytes))
      → All (IsRow schema.columns) rows
      → storage_print_rows schema selected_indices (some (table_file schema rows))
        ≡ printed (print_selected_header schema selected_indices ++ rows_out selected_indices rows)
  unfolding storage_print_rows
  storage_print_rows-rows rows h =
      rw (after_header-table_file schema table _ _ refused _ rows h, print_lines-rows rows h)

  module _ (i : ℕ) (op : WhereOperator) (value : LiteralValue)
      (condition : IsCondition schema i op value) where
    print_matching-rows :
        (rows : List (List Bytes))
        → All (IsRow schema.columns) rows
        → print_matching schema selected_indices i op value (map write_csv_row rows)
          ≡ printed (rows_out selected_indices (satisfying schema i op value rows))
    unfolding print_matching
    print_matching-rows [] h = refl
    print_matching-rows (row ∷ rows) h =
        rw
          (
            (row_line schema table row h.0).1,
            matches-decided schema i op value condition row h.0,
            print_matching,
          )
          (by_test (or_false (csv_value_matches_where schema row i op value))
            (print_matching-rows rows h.1))
      where
        by_test :
            {p : Printed} (b : Bool)
            → p ≡ printed (rows_out selected_indices (satisfying schema i op value rows))
            → elim b [ true ↦ print_first (selected_text row selected_indices) p | false ↦ p ]
              ≡ printed (
                  rows_out selected_indices (
                    let rest = satisfying schema i op value rows in if b then row ∷ rest else rest))
        by_test true e = rw e refl
        by_test false e = e

    pub storage_print_rows_where_equals-rows :
        (rows : List (List Bytes))
        → All (IsRow schema.columns) rows
        → storage_print_rows_where_equals schema selected_indices i op value
            (some (table_file schema rows))
          ≡ printed (
              print_selected_header schema selected_indices
              ++ rows_out selected_indices (satisfying schema i op value rows))
    unfolding storage_print_rows_where_equals
    storage_print_rows_where_equals-rows rows h =
        rw (after_header-table_file schema table _ _ refused _ rows h, print_matching-rows rows h)
