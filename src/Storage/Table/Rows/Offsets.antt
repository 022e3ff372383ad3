-- ===== src/Storage/Table/Rows/Offsets.antt =====
-- A row is read again at the offset that the index has for its key.
use week7_02_sql_index.Prelude.{
  ℕ, Bool, false, Option, none, some, List, [], ◌∷◌, ◌++◌, ◌≡◌, refl, ap, ◌∙◌, if◌then◌else◌,
  length, length-append, get_or, append_assoc, append-nil, All, arith, Bool-cases, inl, inr, ℤ,
  eqb_ℤ, eq_of_parts,
}
use week7_02_sql_index.Text.{Bytes}
use week7_02_sql_index.Sql.{LiteralType, LiteralValue, WhereOperator, TableSchema}
use week7_02_sql_index.Number.Defs.{read_int}
use week7_02_sql_index.Storage.Csv.Defs.{write_csv_row}
use week7_02_sql_index.Storage.Table.Defs.{Outcome, done, selected_text, print_row_from_open_file}
use week7_02_sql_index.Storage.Table.Append.{fgets-FileLine, drop_whole}
use week7_02_sql_index.Storage.Table.Scan.{compare_ints, csv_value_matches_where}
use week7_02_sql_index.Storage.Table.Rows.File.{IsTable, IsRow, rows_text, row_line}
use week7_02_sql_index.Storage.Table.Rows.Print.{rows_out, or_false, satisfying}
use week7_02_sql_index.Storage.Table.Rows.Values.{IsIntColumn, int_at, int_at-readable}
use week7_02_sql_index.Storage.Table.Rows.Keys.{DistinctInts, keys, row_offset}

-- the rows whose integer in a column passes a test
abbrev pub rows_where : (ℤ → Bool) → ℕ → List (List Bytes) → List (List Bytes)
rows_where test i [] = []
rows_where test i (row ∷ rows) =
    let rest = rows_where test i rows in if test (int_at i row) then row ∷ rest else rest

-- An integer comparison with a literal selects the rows whose integers compare so.
pub satisfying-rows_where :
    (schema : TableSchema) (i : ℕ) (op : WhereOperator) (value : LiteralValue) (target : ℤ)
    → IsIntColumn schema i
    → value.type ≡ LiteralType.int
    → read_int value.text ≡ some target
    → (rows : List (List Bytes)) → All (IsRow schema.columns) rows
    → satisfying schema i op value rows ≡ rows_where (λ v. compare_ints op v target) i rows
unfolding csv_value_matches_where
satisfying-rows_where schema i op value target int ty read [] h = refl
satisfying-rows_where schema i op value target int ty read (row ∷ rows) h =
    let decided : csv_value_matches_where schema row i op value
        ≡ some (compare_ints op (int_at i row) target) =
      matches (int_at i row) (int_at-readable schema i row int h.0) in
    ap
      (λ b. let rest = satisfying schema i op value rows in if or_false b then row ∷ rest else rest)
      decided
    ∙ ap (λ rest. if compare_ints op (int_at i row) target then row ∷ rest else rest)
        (satisfying-rows_where schema i op value target int ty read rows h.1)
  where
    matches :
        (v : ℤ)
        → read_int (get_or row i []) ≡ some v
        → csv_value_matches_where schema row i op value ≡ some (compare_ints op v target)
    matches v e = let (c, at, same) = int in rw (at, same, ty, e, read)

module _ (schema : TableSchema) (table : IsTable schema) (selected_indices : List ℕ) where
  pub print_row-before :
      (before : Bytes) (row : List Bytes) (rest : Bytes)
      → IsRow schema.columns row
      → print_row_from_open_file
          (before ++ (write_csv_row row ++ rest))
          schema
          (length before)
          selected_indices
        ≡ done (selected_text row selected_indices)
  unfolding print_row_from_open_file
  print_row-before before row rest h =
      let (line, reads) = row_line schema table row h in
      rw (
        drop_whole before (write_csv_row row ++ rest),
        fgets-FileLine (write_csv_row row) rest line,
        reads,
      )

rows_where-absent :
    (i : ℕ) (key : ℤ) (rows : List (List Bytes))
    → All (λ j. eqb_ℤ key j ≡ false) (keys i rows)
    → rows_where (λ v. eqb_ℤ v key) i rows ≡ []
rows_where-absent i key [] h = refl
rows_where-absent i key (row ∷ rows) h =
    let other : eqb_ℤ (int_at i row) key ≡ false = ground (arith, h.0) in
    rw other (rows_where-absent i key rows h.1)

-- what is printed at an offset, and nothing without one
abbrev pub printed_at : Bytes → TableSchema → List ℕ → Option ℕ → Outcome Bytes
printed_at file schema selected_indices none = done []
printed_at file schema selected_indices (some o) =
    print_row_from_open_file file schema o selected_indices

module _ (schema : TableSchema) (table : IsTable schema) (selected_indices : List ℕ) (i : ℕ) where
  -- At the offset of a key are printed the rows with that key: one row, or none.
  pub printed_at-row_offset :
      (key : ℤ) (before : Bytes) (rows : List (List Bytes))
      → All (IsRow schema.columns) rows
      → DistinctInts (keys i rows)
      → printed_at
          (before ++ rows_text rows)
          schema
          selected_indices
          (row_offset i key (length before) rows)
        ≡ done (rows_out selected_indices (rows_where (λ v. eqb_ℤ v key) i rows))
  printed_at-row_offset key before [] h d = refl
  printed_at-row_offset key before (row ∷ rows) h d = elim (Bool-cases (eqb_ℤ (int_at i row) key)) [
    | inl same ↦
        let equal : int_at i row ≡ key = eq_of_parts (int_at i row) key (ground (arith, same)) in
        let alone = rows_where-absent i key rows (rw equal at d.0) in
        rw (same, alone, append-nil)
          (print_row-before schema table selected_indices before row (rows_text rows) h.0)
    | inr other ↦
        let split = append_assoc before (write_csv_row row) (rows_text rows) in
        let further = length-append before (write_csv_row row) in
        rw (other, ← split, ← further)
          (printed_at-row_offset key (before ++ write_csv_row row) rows h.1 d.1)
  ]
