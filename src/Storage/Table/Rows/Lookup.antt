-- ===== src/Storage/Table/Rows/Lookup.antt =====
-- A lookup through the index against the scan of all rows.
use week7_02_sql_index.Prelude.{
  ℕ, Option, none, some, List, [], ◌++◌, ◌≡◌, refl, ap, sym, ◌∙◌, length, append-nil, All, ℤ,
}
use week7_02_sql_index.Text.{Bytes}
use week7_02_sql_index.Sql.{
  LiteralType, LiteralValue, WhereOperator, TableSchema, file_unopened, header_unreadable,
}
use week7_02_sql_index.Number.Defs.{read_int}
use week7_02_sql_index.Bptree.Spec.{lookup}
use week7_02_sql_index.Storage.Table.Defs.{
  Outcome, failed, done, header_line, print_row_from_open_file,
}
use week7_02_sql_index.Storage.Table.Scan.{
  Printed, printed, refused, print_first, print_selected_header, storage_print_row_at_offset,
  storage_print_rows_where_equals,
}
use week7_02_sql_index.Storage.Table.Rows.File.{IsTable, IsRow, table_file, after_header-table_file}
use week7_02_sql_index.Storage.Table.Rows.Print.{
  rows_out, IsCondition, storage_print_rows_where_equals-rows,
}
use week7_02_sql_index.Storage.Table.Rows.Values.{IsIntColumn}
use week7_02_sql_index.Storage.Table.Rows.Keys.{
  DistinctInts, keys, index_rows, row_offset, first_of, lookup-index_rows,
}
use week7_02_sql_index.Storage.Table.Rows.Offsets.{
  satisfying-rows_where, printed_at, printed_at-row_offset,
}

first_of-none : (o : Option ℕ) → first_of o none ≡ o
first_of-none none = refl
first_of-none (some o) = refl

-- an int column and an int literal that can be read
pub int-IsCondition :
    (schema : TableSchema) (i : ℕ) (op : WhereOperator) (value : LiteralValue) (target : ℤ)
    → IsIntColumn schema i
    → value.type ≡ LiteralType.int
    → read_int value.text ≡ some target
    → IsCondition schema i op value
int-IsCondition schema i op value target (c, at, int) ty read =
    (c, at, rw int (ty, (λ none_read. cc)))

module _ (schema : TableSchema) (table : IsTable schema) (selected_indices : List ℕ) where
  -- the header and what stands at the offset
  at_offset :
      (rows : List (List Bytes)) (o : Option ℕ) (out : Bytes)
      → All (IsRow schema.columns) rows
      → printed_at (table_file schema rows) schema selected_indices o ≡ done out
      → storage_print_row_at_offset schema selected_indices (some (table_file schema rows)) o
        ≡ printed (print_selected_header schema selected_indices ++ out)
  unfolding storage_print_row_at_offset
  at_offset rows none out h e = let same : [] ≡ out = cc in rw (← same, append-nil) refl
  at_offset rows (some o) out h e =
      ap (print_first (print_selected_header schema selected_indices)) (
        after_header-table_file schema table (refused file_unopened) (refused header_unreadable)
          refused
          (λ line lines.
            shown_at (print_row_from_open_file (table_file schema rows) schema o selected_indices))
          rows h
        ∙ ap shown_at e)
    where
      shown_at : Outcome Bytes → Printed
      shown_at o = elim o [ failed e ↦ refused e | done out ↦ printed out ]

  -- With different keys, what `storage_print_row_at_offset` shows at the offset that the index has for a key
  -- is what `storage_print_rows_where_equals` shows for the condition on the key.
  pub storage_print_row_at_offset-scan :
      (i : ℕ) (value : LiteralValue) (target : ℤ) (rows : List (List Bytes))
      → IsIntColumn schema i
      → value.type ≡ LiteralType.int
      → read_int value.text ≡ some target
      → All (IsRow schema.columns) rows
      → DistinctInts (keys i rows)
      → storage_print_row_at_offset schema selected_indices
          (some (table_file schema rows))
          (lookup target (index_rows i (length (header_line schema.columns)) rows []))
        ≡ storage_print_rows_where_equals schema selected_indices i WhereOperator.equal value
            (some (table_file schema rows))
  storage_print_row_at_offset-scan i value target rows int ty read h d =
      let start = length (header_line schema.columns) in
      let op = WhereOperator.equal in
      let condition = int-IsCondition schema i op value target int ty read in
      ap (storage_print_row_at_offset schema selected_indices (some (table_file schema rows))) (
        lookup-index_rows i target start rows [] d ∙ first_of-none (row_offset i target start rows))
      ∙ at_offset rows (row_offset i target start rows) _ h (
          printed_at-row_offset schema table selected_indices i target (header_line schema.columns)
            rows h d)
      ∙ ap
          (λ found.
            printed
              (print_selected_header schema selected_indices ++ rows_out selected_indices found))
          (sym (satisfying-rows_where schema i op value target int ty read rows h))
      ∙ sym (
          storage_print_rows_where_equals-rows schema table selected_indices i op value condition
            rows h)
