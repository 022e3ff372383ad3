-- ===== src/Executor/Coherent/Program.antt =====
-- A program of statements keeps a table coherent.
use week7_02_sql_index.Prelude.{
  ℕ, Bool, true, false, ◌&&◌, Option, none, some, List, [], ◌∷◌, ◌++◌, ◌≡◌, sym, append_assoc,
  append-nil, if-either, All, ℤ,
}
use mathlib.Core.Path.{subst}
use week7_02_sql_index.Text.{Bytes}
use week7_02_sql_index.Sql.{
  TableSchema, WhereOperator, WhereClause, Statement, insert, select, Result, ok, err,
}
use week7_02_sql_index.Number.Defs.{read_int}
use week7_02_sql_index.Executor.State.{
  AppConfig, TableRuntimeState, Output, elapsed, World, Exec, ◌&>◌, lift, print, count_scan,
  get_table_state_index,
}
use week7_02_sql_index.Executor.Insert.{load_schema, execute_insert, insert_row}
use week7_02_sql_index.Executor.Select.{
  OffsetList, timed, of_target, execute_select_with_index, visit_range, show_range,
  execute_select_with_index_range, execute_select_with_scan, by_operator, on_key, uses_index,
  select_where, select_rows, resolve_where_column, resolve_selected_columns, execute_select,
  execute_statement, execute_program, append_offset,
}
use week7_02_sql_index.Executor.Checks.{AreLiterals}
use week7_02_sql_index.Executor.Coherent.Defs.{IsConfig, IsKeyed, IsCoherent}
use week7_02_sql_index.Executor.Coherent.Open.{Opened, get_table_state_index-Opened}
use week7_02_sql_index.Executor.Coherent.Insert.{Inserted, insert_row-Inserted}

module _ (config : AppConfig) (schema : TableSchema) (i : ℕ) (c : IsConfig config)
    (k : IsKeyed schema i) where
  abbrev Same : {A : Type 0} → List (List Bytes) → World × Result A → Type 0
  Same rows r = IsCoherent config schema i rows r.0

  Same-bind :
      {A B : Type 0} (rows : List (List Bytes)) (r : World × Result A) (f : A → Exec B)
      → Same rows r
      → ((a : A) (w : World) → IsCoherent config schema i rows w → Same rows (f a w))
      → Same rows (r &> f)
  Same-bind rows (w, err e) f h g = h
  Same-bind rows (w, ok a) f h g = g a w h

  printed-Same :
      (rows : List (List Bytes)) (o : Output) (w : World)
      → IsCoherent config schema i rows w
      → IsCoherent config schema i rows (print o w)
  printed-Same rows o w h = record {
    readable = h.readable;
    distinct = h.distinct;
    file = h.file;
    state = h.state;
  }

  timed-Same :
      (rows : List (List Bytes)) (r : World × Result {0} Unit) → Same rows r → Same rows (timed r)
  timed-Same rows r h = Same-bind rows r _ h (λ u w h'. printed-Same rows elapsed w h')

  module _ (calloc realloc : ℕ → ℕ → Bool) (enough : (t n : ℕ) → calloc t n ≡ true)
      (selected_indices : List ℕ) where
    opened-Same :
        (rows : List (List Bytes)) (w : World)
        → IsCoherent config schema i rows w
        → Same rows (get_table_state_index config schema calloc w)
    opened-Same rows w h =
        by_answer (get_table_state_index config schema calloc w)
          (get_table_state_index-Opened config schema i c k calloc enough rows w h)
      where
        by_answer :
            (r : World × Result (ℕ × TableRuntimeState))
            → Opened config schema i c k rows r
            → Same rows r
        by_answer (w, err e) g = g
        by_answer (w, ok (n, s)) g = g.0

    module _ (clause : WhereClause) where
      with_target :
          {A : Type 0} (rows : List (List Bytes)) (o : Option ℤ) (next : ℤ → Exec A) (w : World)
          → IsCoherent config schema i rows w
          → ((t : ℤ) → Same rows (next t w))
          → Same rows (of_target calloc realloc config schema selected_indices clause o next w)
      with_target rows none next w h g = h
      with_target rows (some t) next w h g = g t

      index-Same :
          (rows : List (List Bytes)) (w : World)
          → IsCoherent config schema i rows w
          → Same rows
              (execute_select_with_index calloc realloc config schema selected_indices clause w)
      unfolding execute_select_with_index
      index-Same rows w h = with_target rows (read_int clause.value.text) _ w h (λ t.
          Same-bind rows (get_table_state_index config schema calloc w) _ (opened-Same rows w h)
            (λ s w' h'. printed-Same rows _ _ (printed-Same rows _ w' h')))

      range-Same :
          (rows : List (List Bytes)) (w : World)
          → IsCoherent config schema i rows w
          → Same rows (
              execute_select_with_index_range calloc realloc config schema selected_indices clause
                w)
      unfolding execute_select_with_index_range
      range-Same rows w h = with_target rows (read_int clause.value.text) _ w h (λ t.
          Same-bind rows (get_table_state_index config schema calloc w) _ (opened-Same rows w h)
            (λ s w' h'.
              by_scan
                (visit_range calloc realloc config schema selected_indices clause clause.operator
                  (append_offset (realloc w'.scans)) (s.1).pk_index t)
                (count_scan w')
                (record {
                  readable = h'.readable;
                  distinct = h'.distinct;
                  file = h'.file;
                  state = h'.state;
                })))
        where
          by_scan :
              (o : Option (OffsetList × Bool)) (w : World)
              → IsCoherent config schema i rows w
              → Same rows (show_range calloc realloc config schema selected_indices clause o w)
          by_scan none w h = h
          by_scan (some (list, false)) w h = h
          by_scan (some (list, true)) w h = printed-Same rows _ _ (printed-Same rows _ w h)

      scan-Same :
          (rows : List (List Bytes)) (j : ℕ) (w : World)
          → IsCoherent config schema i rows w
          → Same rows
              (execute_select_with_scan calloc realloc config schema selected_indices clause j w)
      unfolding execute_select_with_scan
      scan-Same rows j w h = printed-Same rows _ _ (printed-Same rows _ w h)

      by_operator-Same :
          (rows : List (List Bytes)) (op : WhereOperator) (w : World)
          → IsCoherent config schema i rows w
          → Same rows (by_operator calloc realloc config schema selected_indices clause op w)
      by_operator-Same rows WhereOperator.equal w h = index-Same rows w h
      by_operator-Same rows WhereOperator.not_equal w h = range-Same rows w h
      by_operator-Same rows WhereOperator.greater w h = range-Same rows w h
      by_operator-Same rows WhereOperator.less w h = range-Same rows w h

      select_where-Same :
          (rows : List (List Bytes)) (j : ℕ) (w : World)
          → IsCoherent config schema i rows w
          → Same rows (select_where calloc realloc config schema selected_indices clause j w)
      unfolding select_where
      select_where-Same rows j w h =
          if-either (Same rows)
            (on_key clause.value.type j schema.primary_key_index && uses_index clause.operator) _ _
            (λ e.
              Same-bind rows (get_table_state_index config schema calloc w) _ (opened-Same rows w h)
                (λ s w' h'. timed-Same rows _ (by_operator-Same rows clause.operator w' h')))
            (λ e. timed-Same rows _ (scan-Same rows j w h))

    select_rows-Same :
        (rows : List (List Bytes)) (o : Option WhereClause) (w : World)
        → IsCoherent config schema i rows w
        → Same rows (select_rows calloc realloc config schema selected_indices o w)
    select_rows-Same rows none w h = timed-Same rows _ (printed-Same rows _ w h)
    select_rows-Same rows (some clause) w h =
        Same-bind rows (lift (resolve_where_column schema clause) w) _ h
          (λ j w' h'. select_where-Same clause rows j w' h')

  module _ (schema_files : Bytes → Option Bytes) (calloc realloc : ℕ → ℕ → Bool)
      (enough : (t n : ℕ) → calloc t n ≡ true) where
    -- a statement about this table, whose literals fit
    abbrev pub IsOn : Statement → Type 0
    IsOn (insert place s) =
        (load_schema schema_files config s.table_name ≡ ok schema) × AreLiterals s.values
    IsOn (select place s) = load_schema schema_files config s.table_name ≡ ok schema

    -- rows of the table, the given ones first
    abbrev pub Grown : List (List Bytes) → World × Result {0} Unit → Type 0
    Grown rows r = (more : List (List Bytes)) × IsCoherent config schema i (rows ++ more) r.0

    unchanged :
        (rows : List (List Bytes)) (r : World × Result {0} Unit) → Same rows r → Grown rows r
    unchanged rows r h = ([], rw (append-nil rows) h)

    statement-Grown :
        (rows : List (List Bytes)) (s : Statement) (w : World)
        → IsOn s
        → IsCoherent config schema i rows w
        → Grown rows (execute_statement schema_files calloc realloc config s w)
    unfolding execute_insert execute_select
    statement-Grown rows (insert place s) w (loads, fits) h =
        subst (λ r. Grown rows (lift r w &> λ schema w. insert_row config schema calloc s w))
          (sym loads)
          (by_answer (insert_row config schema calloc s w)
            (insert_row-Inserted config schema i c k calloc enough rows s w fits h))
      where
        by_answer :
            (r : World × Result {0} Unit)
            → Inserted config schema i c k calloc enough rows r
            → Grown rows r
        by_answer (w, err e) g = unchanged rows (w, err e) g
        by_answer (w, ok u) (row, g) = (row ∷ [], g)
    statement-Grown rows (select place s) w loads h =
        subst
          (λ r. Grown rows (
            lift r w &> λ schema w.
            lift (resolve_selected_columns schema s.columns) w &> λ selected_indices w.
            select_rows calloc realloc config schema selected_indices s.where_clause w))
          (sym loads)
          (unchanged rows
            (lift (resolve_selected_columns schema s.columns) w &> λ selected_indices w.
              select_rows calloc realloc config schema selected_indices s.where_clause w)
            (Same-bind rows (lift (resolve_selected_columns schema s.columns) w) _ h
              (λ selected_indices w' h'.
                select_rows-Same calloc realloc enough selected_indices rows s.where_clause w' h')))

    Grown-bind :
        (rows : List (List Bytes)) (r : World × Result {0} Unit) (f : Unit → Exec Unit)
        → Grown rows r
        → ((more : List (List Bytes)) (w : World)
            → IsCoherent config schema i more w
            → Grown more (f tt w))
        → Grown rows (r &> f)
    Grown-bind rows (w, err e) f h g = h
    Grown-bind rows (w, ok u) f (first, h) g =
        let (then_more, h') = g (rows ++ first) w h in
        (
          first ++ then_more,
          subst (λ rs. IsCoherent config schema i rs (f tt w).0) (append_assoc rows first then_more)
              h',
        )

    -- With memory, statements about a coherent table leave it coherent, wherever the program stops: its rows are
    -- the old ones and others behind them.
    pub execute_program-Grown :
        (rows : List (List Bytes)) (program : List Statement) (w : World)
        → All IsOn program
        → IsCoherent config schema i rows w
        → Grown rows (execute_program schema_files calloc realloc config program w)
    unfolding execute_program
    execute_program-Grown rows [] w on h = unchanged rows (w, ok tt) h
    execute_program-Grown rows (s ∷ program) w on h =
        Grown-bind rows (execute_statement schema_files calloc realloc config s w) _
          (statement-Grown rows s w on.0 h)
          (λ more w' h'. execute_program-Grown more program w' on.1 h')
