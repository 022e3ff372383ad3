-- ===== src/Executor/Select.antt =====
-- `execute_select` and `execute_program` of src/executor.c.
use week7_02_sql_index.Prelude.{
  ℕ, suc, ◌*◌, Bool, true, false, not, ◌&&◌, Option, none, some, List, [], ◌∷◌, ◌++◌, ◌==◌,
  if◌then◌else◌, length, get_elem?, ℤ, pos,
}
use week7_02_sql_index.Text.{Bytes, codes}
use week7_02_sql_index.Sql.{
  LiteralType, WhereOperator, ColumnSchema, ColumnRef, TableSchema, WhereClause, SelectStatement,
  Statement, insert, select, Result, err, ok, ◌>>=◌, error_at, file_error, FileError,
  integer_out_of_range, select_column_unknown, where_column_unknown, where_type_wrong,
  where_operator_wrong, range_scan_failed,
}
use week7_02_sql_index.Schema.Defs.{is_int}
use week7_02_sql_index.Number.Defs.{read_int, int_text}
use week7_02_sql_index.Bptree.Search.{
  SearchResult, found, missing, fault, bptree_search, bptree_visit_greater_than,
  bptree_visit_less_than,
}
use week7_02_sql_index.Storage.Table.Scan.{
  Printed, storage_print_rows, storage_print_row_at_offset, storage_print_rows_at_offsets,
  storage_print_rows_where_equals,
}
use week7_02_sql_index.Executor.State.{
  AppConfig, PkIndex, TableRuntimeState, text, elapsed, World, Exec, ◌&>◌, runtime_error, lift,
  print, count_scan, data_file, get_table_state_index,
}
use week7_02_sql_index.Executor.Values.{
  error_from, find_schema_column, validate_literal_type, int_literal_in_range,
}
use week7_02_sql_index.Executor.Insert.{load_schema, execute_insert}

-- Columns

abbrev pub column_index : ColumnRef → Option ℕ → Result ℕ
column_index ref none = error_from select_column_unknown ref.location
column_index ref (some i) = ok i

unfoldable pub named_columns : List ColumnSchema → List ColumnRef → Result (List ℕ)
named_columns columns [] = ok []
named_columns columns (ref ∷ refs) = column_index ref (find_schema_column columns ref.name) >>= λ i.
    named_columns columns refs >>= λ is. ok (i ∷ is)

-- the indices of all columns, from `i` on
abbrev pub all_columns : ℕ → List ColumnSchema → List ℕ
all_columns i [] = []
all_columns i (c ∷ cs) = i ∷ all_columns (suc i) cs

unfoldable pub resolve_selected_columns : TableSchema → Option (List ColumnRef) → Result (List ℕ)
resolve_selected_columns schema none = ok (all_columns 0 schema.columns)
resolve_selected_columns schema (some refs) = named_columns schema.columns refs

abbrev pub is_order : WhereOperator → Bool
is_order WhereOperator.equal = false
is_order WhereOperator.not_equal = false
is_order WhereOperator.greater = true
is_order WhereOperator.less = true

abbrev pub where_checks : WhereClause → ℕ → Option ColumnSchema → Result ℕ
where_checks clause i none = error_from where_column_unknown clause.column.location
where_checks clause i (some column) =
    if not (validate_literal_type column.type clause.value.type)
    then error_from where_type_wrong clause.value.location
    else if is_int column.type && not (int_literal_in_range clause.value.text)
    then error_from integer_out_of_range clause.value.location
    else if not (is_int column.type) && is_order clause.operator
    then error_from where_operator_wrong clause.value.location
    else ok i

abbrev pub where_found : TableSchema → WhereClause → Option ℕ → Result ℕ
where_found schema clause none = error_from where_column_unknown clause.column.location
where_found schema clause (some i) = where_checks clause i (get_elem? schema.columns i)

unfoldable pub resolve_where_column : TableSchema → WhereClause → Result ℕ
resolve_where_column schema clause =
    where_found schema clause (find_schema_column schema.columns clause.column.name)

-- Offsets of a range scan

pub record OffsetList : Type 0 where
  pub offsets : List ℕ
  pub capacity : ℕ

abbrev pub offset_list : List ℕ → ℕ → OffsetList
offset_list offsets capacity = record { offsets = offsets; capacity = capacity }

-- `realloc` answers for a number of entries; the capacity stays below the bounds of `int`.
unfoldable pub append_offset : (ℕ → Bool) → ℤ → ℕ → OffsetList → OffsetList × Bool
append_offset realloc key offset list =
    let next_capacity = if list.capacity == 0 then 16 else list.capacity * 2 in
    let offsets = list.offsets ++ offset ∷ [] in
    if length list.offsets == list.capacity
    then (if realloc next_capacity
        then (offset_list offsets next_capacity, true)
        else (list, false))
    else (offset_list offsets list.capacity, true)

-- Output

abbrev pub where_operator_text : WhereOperator → Bytes
where_operator_text WhereOperator.equal = codes "="
where_operator_text WhereOperator.greater = codes ">"
where_operator_text WhereOperator.less = codes "<"
where_operator_text WhereOperator.not_equal = codes "!="

abbrev pub condition_text : WhereClause → Bytes
condition_text clause =
    clause.column.name ++ b' ' ∷ (where_operator_text clause.operator ++ b' ' ∷ clause.value.text)

abbrev pub answer_of : Option FileError → Result {0} Unit
answer_of none = ok tt
answer_of (some e) = err (error_at (file_error e) 0 0)

-- what a printing function writes, and its result
abbrev pub show : Printed → Exec Unit
show p w = (print (text p.out) w, answer_of p.error)

-- `if (result) { printf("elapsed: ...") }`
abbrev pub timed : World × Result {0} Unit → World × Result {0} Unit
timed r = r &> λ u w. (print elapsed w, ok tt)

abbrev pub offset_of : SearchResult → Option ℕ
offset_of (found row_offset) = some row_offset
offset_of missing = none
offset_of fault = none

abbrev pub search_index : Option PkIndex → ℤ → Option ℕ
search_index none target_id = none
search_index (some index) target_id = offset_of (bptree_search index.tree target_id)

abbrev pub is_int_literal : LiteralType → Bool
is_int_literal LiteralType.int = true
is_int_literal LiteralType.string = false

abbrev pub on_key : LiteralType → ℕ → Option ℕ → Bool
on_key type where_column_index none = false
on_key type where_column_index (some primary_key_index) =
    where_column_index == primary_key_index && is_int_literal type

abbrev pub uses_index : WhereOperator → Bool
uses_index WhereOperator.not_equal = false
uses_index _ = true

module _ (calloc realloc : ℕ → ℕ → Bool) (config : AppConfig) (schema : TableSchema)
    (selected_indices : List ℕ) where
  module _ (clause : WhereClause) where
    abbrev pub of_target : {A : Type 0} → Option ℤ → (ℤ → Exec A) → Exec A
    of_target none next w = (w, error_from integer_out_of_range clause.value.location)
    of_target (some target_id) next w = next target_id w

    abbrev pub show_found : ℤ → ℕ × TableRuntimeState → Exec Unit
    show_found target_id (i, s) w =
        show
          (storage_print_row_at_offset schema selected_indices (data_file config schema w)
            (search_index s.pk_index target_id))
          (print
            (text (
              codes "[INDEX] WHERE "
              ++ (clause.column.name ++ (codes " = " ++ (clause.value.text ++ b'\n' ∷ [])))))
            w)

    unfoldable pub execute_select_with_index : Exec Unit
    execute_select_with_index w =
        of_target (read_int clause.value.text)
          (λ target_id w. get_table_state_index config schema calloc w &> show_found target_id) w

    -- the scan upwards for `>`, else downwards
    abbrev pub visit_range :
        WhereOperator
        → (ℤ → ℕ → OffsetList → OffsetList × Bool)
        → Option PkIndex
        → ℤ
        → Option (OffsetList × Bool)
    visit_range op visit none target_id = some (offset_list [] 0, true)
    visit_range WhereOperator.greater visit (some index) target_id =
        bptree_visit_greater_than visit index.tree target_id (offset_list [] 0)
    visit_range _ visit (some index) target_id =
        bptree_visit_less_than visit index.tree target_id (offset_list [] 0)

    -- behind the scan; a fault is `none`
    abbrev pub show_range : Option (OffsetList × Bool) → Exec Unit
    show_range none w = runtime_error range_scan_failed w
    show_range (some (list, false)) w = runtime_error range_scan_failed w
    show_range (some (list, true)) w =
        show
          (storage_print_rows_at_offsets schema selected_indices (data_file config schema w)
            list.offsets)
          (print
            (text (
              codes "[INDEX-RANGE] WHERE "
              ++ (condition_text clause
                  ++ (codes " ("
                      ++ (int_text (pos (length list.offsets))
                          ++ (codes " rows)" ++ b'\n' ∷ []))))))
            w)

    abbrev pub scan_range : ℤ → ℕ × TableRuntimeState → Exec Unit
    scan_range target_id (i, s) w =
        show_range
          (visit_range clause.operator (append_offset (realloc w.scans)) s.pk_index target_id)
          (count_scan w)

    unfoldable pub execute_select_with_index_range : Exec Unit
    execute_select_with_index_range w =
        of_target (read_int clause.value.text)
          (λ target_id w. get_table_state_index config schema calloc w &> scan_range target_id) w

    unfoldable pub execute_select_with_scan : ℕ → Exec Unit
    execute_select_with_scan where_column_index w =
        show
          (storage_print_rows_where_equals schema selected_indices where_column_index
            clause.operator clause.value (data_file config schema w))
          (print (text (codes "[SCAN] WHERE " ++ (condition_text clause ++ b'\n' ∷ []))) w)

    -- `use_index_lookup`, `use_index_range` or neither
    abbrev pub by_operator : WhereOperator → Exec Unit
    by_operator WhereOperator.equal w = execute_select_with_index w
    by_operator _ w = execute_select_with_index_range w

    unfoldable pub select_where : ℕ → Exec Unit
    select_where where_column_index w =
        let indexed = get_table_state_index config schema calloc w &> λ state w.
        timed (by_operator clause.operator w) in
        if on_key clause.value.type where_column_index schema.primary_key_index
          && uses_index clause.operator
        then indexed
        else timed (execute_select_with_scan where_column_index w)

  abbrev pub select_rows : Option WhereClause → Exec Unit
  select_rows none w =
      timed (show (storage_print_rows schema selected_indices (data_file config schema w)) w)
  select_rows (some clause) w = lift (resolve_where_column schema clause) w &> select_where clause

module _ (schema_files : Bytes → Option Bytes) (calloc realloc : ℕ → ℕ → Bool)
    (config : AppConfig) where
  unfoldable pub execute_select : SelectStatement → Exec Unit
  execute_select statement w =
      lift (load_schema schema_files config statement.table_name) w &> λ schema w.
      lift (resolve_selected_columns schema statement.columns) w &> λ selected_indices w.
      select_rows calloc realloc config schema selected_indices statement.where_clause w

  abbrev pub execute_statement : Statement → Exec Unit
  execute_statement (insert place statement) w =
      execute_insert schema_files config calloc statement w
  execute_statement (select place statement) w = execute_select statement w

  -- for (i = 0; i < program->count; i++)
  unfoldable pub execute_program : List Statement → Exec Unit
  execute_program [] w = (w, ok tt)
  execute_program (statement ∷ statements) w =
      execute_statement statement w &> λ u w. execute_program statements w
