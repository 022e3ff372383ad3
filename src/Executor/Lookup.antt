-- ===== src/Executor/Lookup.antt =====
-- SELECT by the primary key: the index shows what the scan shows.
use week7_02_sql_index.Prelude.{
  ℕ, Bool, true, ◌&&◌, Option, none, some, List, [], ◌∷◌, ◌++◌, ◌≡◌, refl, ap, ◌∙◌, ◌==◌,
  if◌then◌else◌, arith, ℤ,
}
use week7_02_sql_index.Text.{Bytes, codes}
use week7_02_sql_index.Sql.{TableSchema, LiteralType, WhereOperator, WhereClause, Result, ok, err}
use week7_02_sql_index.Number.Defs.{read_int}
use week7_02_sql_index.Bptree.Spec.{lookup}
use week7_02_sql_index.Bptree.Order.Lists.{of_lookup}
use week7_02_sql_index.Bptree.Contract.Search.{bptree_search-lookup}
use week7_02_sql_index.Storage.Table.Scan.{
  storage_print_row_at_offset, storage_print_rows_where_equals,
}
use week7_02_sql_index.Storage.Table.Rows.Lookup.{storage_print_row_at_offset-scan}
use week7_02_sql_index.Executor.State.{
  AppConfig, TableRuntimeState, World, Exec, ◌&>◌, text, print, data_file, find_table_state,
  get_table_state_index,
}
use week7_02_sql_index.Executor.Select.{
  show, timed, offset_of, search_index, of_target, show_found, execute_select_with_index,
  by_operator, select_where, on_key, uses_index, is_int_literal, execute_select_with_scan,
}
use week7_02_sql_index.Executor.Coherent.Defs.{
  IsConfig, IsKeyed, TableFile, index_of, IsOpen, IsCoherent,
}
use week7_02_sql_index.Executor.Coherent.Open.{Opened, get_table_state_index-Opened}
use week7_02_sql_index.Executor.Coherent.States.{get_table_state_index-found}

offset_of-lookup : (o : Option ℕ) → offset_of (of_lookup o) ≡ o
offset_of-lookup none = refl
offset_of-lookup (some o) = refl

module _ (config : AppConfig) (schema : TableSchema) (i : ℕ) (k : IsKeyed schema i) where
  search_index-lookup :
      (rows : List (List Bytes)) (s : TableRuntimeState) (target : ℤ)
      → IsOpen config schema i rows s
      → search_index s.pk_index target ≡ lookup target (index_of config schema i rows)
  search_index-lookup rows s target o =
      ap (λ p. search_index p target) o.has_index
      ∙ ap offset_of (bptree_search-lookup o.index.tree target o.valid)
      ∙ offset_of-lookup _
      ∙ ap (lookup target) o.indexed

  -- with a file, or before the first row
  shown_file :
      (selected_indices : List ℕ) (clause : WhereClause) (target : ℤ) (rows : List (List Bytes))
      (w : World)
      → IsCoherent config schema i rows w
      → clause.value.type ≡ LiteralType.int
      → read_int clause.value.text ≡ some target
      → (file : Option Bytes) → TableFile config schema i rows file
      → storage_print_row_at_offset schema selected_indices file
          (lookup target (index_of config schema i rows))
        ≡ storage_print_rows_where_equals schema selected_indices i WhereOperator.equal clause.value
            file
  unfolding storage_print_row_at_offset storage_print_rows_where_equals
  shown_file selected_indices clause target rows w h ty read none f =
      ap
        (λ rs.
          storage_print_row_at_offset schema selected_indices none
            (lookup target (index_of config schema i rs)))
        f
  shown_file selected_indices clause target rows w h ty read (some file) f = rw f (
      storage_print_row_at_offset-scan schema k.table selected_indices i clause.value target rows
        k.int ty read h.readable h.distinct)

  module _ (calloc realloc : ℕ → ℕ → Bool) (selected_indices : List ℕ) (clause : WhereClause) where
    abbrev pub index_line : Bytes
    index_line =
        codes "[INDEX] WHERE "
        ++ (clause.column.name ++ (codes " = " ++ (clause.value.text ++ b'\n' ∷ [])))

    -- When the table's state is there, `execute_select_with_index` shows behind its first line what
    -- `storage_print_rows_where_equals` shows for the same condition.
    pub execute_select_with_index-scan :
        (rows : List (List Bytes)) (w : World) (n : ℕ) (s : TableRuntimeState) (target : ℤ)
        → IsCoherent config schema i rows w
        → find_table_state config schema w.states ≡ some (n, s)
        → IsOpen config schema i rows s
        → clause.value.type ≡ LiteralType.int
        → read_int clause.value.text ≡ some target
        → execute_select_with_index calloc realloc config schema selected_indices clause w
          ≡ show
              (storage_print_rows_where_equals schema selected_indices i WhereOperator.equal
                clause.value
                (data_file config schema w))
              (print (text index_line) w)
    unfolding execute_select_with_index
    execute_select_with_index-scan rows w n s target h finds opened ty read =
        ap
          (λ t.
            of_target calloc realloc config schema selected_indices clause t
              (λ target_id w.
                get_table_state_index config schema calloc w
                &> show_found calloc realloc config schema selected_indices clause target_id)
              w)
          read
        ∙ ap (λ r. r &> show_found calloc realloc config schema selected_indices clause target)
            (get_table_state_index-found config schema calloc w n s finds)
        ∙ ap (λ p. show p (print (text index_line) w))
            (ap (storage_print_row_at_offset schema selected_indices (data_file config schema w))
                (search_index-lookup rows s target opened)
              ∙ shown_file selected_indices clause target rows w h ty read
                  (data_file config schema w) h.file)

    pub on_key-int :
        (ty : LiteralType) → ty ≡ LiteralType.int → on_key ty i schema.primary_key_index ≡ true
    on_key-int ty e =
        ap (on_key ty i) k.key ∙ ap (λ t. (i == i) && is_int_literal t) e ∙ ground arith

    -- With memory, a SELECT for one key of a coherent table opens the table's state and then shows, behind the
    -- line that names the index, exactly what the scan of all rows shows for the condition.
    pub select_where-scan :
        (c : IsConfig config)
        → ((t n : ℕ) → calloc t n ≡ true)
        → (rows : List (List Bytes)) (w : World) (target : ℤ) → IsCoherent config schema i rows w
        → clause.operator ≡ WhereOperator.equal
        → clause.value.type ≡ LiteralType.int
        → read_int clause.value.text ≡ some target
        → select_where calloc realloc config schema selected_indices clause i w ≡ (
            get_table_state_index config schema calloc w &> λ state w'. timed (
              show
                (storage_print_rows_where_equals schema selected_indices i WhereOperator.equal
                  clause.value
                  (data_file config schema w'))
                (print (text index_line) w')))
    unfolding select_where
    select_where-scan c enough rows w target h equal ty read =
        let indexed = get_table_state_index config schema calloc w &> λ state w'.
        looked_up clause.operator w' in
        let scanned =
          timed
            (execute_select_with_scan calloc realloc config schema selected_indices clause i w) in
        ap (λ b. if b && uses_index clause.operator then indexed else scanned)
          (on_key-int clause.value.type ty)
        ∙ ap
            (λ op.
              if uses_index op
              then (get_table_state_index config schema calloc w &> λ state w'. looked_up op w')
              else scanned)
            equal
        ∙ by_answer (get_table_state_index config schema calloc w)
            (get_table_state_index-Opened config schema i c k calloc enough rows w h)
      where
        looked_up : WhereOperator → Exec Unit
        looked_up op w' =
            timed (by_operator calloc realloc config schema selected_indices clause op w')

        by_answer :
            (r : World × Result (ℕ × TableRuntimeState))
            → Opened config schema i c k rows r
            → (r &> λ state w'. looked_up WhereOperator.equal w') ≡ (
                r &> λ state w'. timed (
                  show
                    (storage_print_rows_where_equals schema selected_indices i WhereOperator.equal
                      clause.value
                      (data_file config schema w'))
                    (print (text index_line) w')))
        by_answer (w', err e) g = refl
        by_answer (w', ok (n, s)) (h', finds, opened) =
            ap timed (execute_select_with_index-scan rows w' n s target h' finds opened ty read)
