-- ===== src/Executor/Insert.antt =====
-- `execute_insert` of src/executor.c.
use week7_02_sql_index.Prelude.{
  ℕ, Bool, true, false, Option, none, some, List, [], if◌then◌else◌, get_or, ℤ, eqb_ℤ, leb_ℤ,
}
use week7_02_sql_index.Text.{Bytes, codes}
use week7_02_sql_index.Sql.{
  TableSchema, InsertStatement, Result, ok, key_unreadable, key_exists, key_not_registered,
}
use week7_02_sql_index.Number.Defs.{read_int, int_max, succ_ℤ}
use week7_02_sql_index.Schema.Defs.{load_table_schema}
use week7_02_sql_index.Bptree.Node.{BPlusTree}
use week7_02_sql_index.Bptree.Insert.{bptree_insert}
use week7_02_sql_index.Bptree.Search.{SearchResult, found, missing, fault, bptree_search}
use week7_02_sql_index.Storage.Table.Defs.{Outcome, failed, done, storage_append_row}
use week7_02_sql_index.Executor.State.{
  AppConfig, PkIndex, TableRuntimeState, World, Exec, ◌&>◌, runtime_error, lift, of_outcome,
  put_state, put_file, data_file, data_path, build_table_path, find_table_state,
  get_table_state_index,
}
use week7_02_sql_index.Executor.Values.{with_next_id, build_insert_row_values}

-- A fault of the search, which no valid tree has, is not told apart from a miss.
abbrev pub is_found : SearchResult → Bool
is_found (found offset) = true
is_found missing = false
is_found fault = false

abbrev pub has_key : Option PkIndex → ℤ → Bool
has_key none key = false
has_key (some index) key = is_found (bptree_search index.tree key)

abbrev pub of_key : Option ℤ → Exec ℤ
of_key none w = runtime_error key_unreadable w
of_key (some key) w = (w, ok key)

unfoldable pub parse_row_primary_key : ℕ → List Bytes → Exec ℤ
parse_row_primary_key primary_key_index row_values w =
    of_key (read_int (get_or row_values primary_key_index [])) w

abbrev pub with_tree : BPlusTree → PkIndex → TableRuntimeState → TableRuntimeState
with_tree tree index s = record {
  schema_dir = s.schema_dir;
  data_dir = s.data_dir;
  table_name = s.table_name;
  next_id = s.next_id;
  pk_index = some (record { number = index.number; tree = tree });
}

module _ (config : AppConfig) (schema : TableSchema) where
  abbrev pub remember : ℤ → Option (ℕ × TableRuntimeState) → World → World
  remember explicit_id none w = w
  remember explicit_id (some (i, s)) w =
      if eqb_ℤ explicit_id int_max
      then w
      else if leb_ℤ s.next_id explicit_id
      then put_state i (with_next_id (succ_ℤ explicit_id) s) w
      else w

  unfoldable pub remember_explicit_primary_key : ℤ → World → World
  remember_explicit_primary_key explicit_id w =
      remember explicit_id (find_table_state config schema w.states) w

  -- the file and the offset behind the append
  abbrev pub appended : Outcome (Bytes × ℕ) → Exec ℕ
  appended (failed e) w = (w, of_outcome (failed e))
  appended (done (file, row_offset)) w = (put_file (data_path config schema) file w, ok row_offset)

  abbrev pub append_row : List Bytes → Exec ℕ
  append_row row_values w =
      appended (storage_append_row schema (data_file config schema w) row_values) w

  module _ (calloc : ℕ → ℕ → Bool) where
    abbrev pub refuse_present : ℤ → ℕ × TableRuntimeState → Exec Unit
    refuse_present key (i, s) w =
        if has_key s.pk_index key then runtime_error key_exists w else (w, ok tt)

    unfoldable pub validate_primary_key_unique : ℤ → Exec Unit
    validate_primary_key_unique key w =
        get_table_state_index config schema calloc w &> refuse_present key

    -- what `bptree_insert` answers; a fault is `none`
    abbrev pub registered : ℕ → TableRuntimeState → PkIndex → Option (BPlusTree × Bool) → Exec Unit
    registered i s index none w = runtime_error key_not_registered w
    registered i s index (some (tree, false)) w =
        runtime_error key_not_registered (put_state i (with_tree tree index s) w)
    registered i s index (some (tree, true)) w = (put_state i (with_tree tree index s) w, ok tt)

    abbrev pub insert_key : ℤ → ℕ → Option PkIndex → ℕ × TableRuntimeState → Exec Unit
    insert_key key row_offset none (i, s) w = runtime_error key_not_registered w
    insert_key key row_offset (some index) (i, s) w =
        registered i s index (bptree_insert (calloc index.number) index.tree key row_offset) w

    -- behind the append: the key goes into the index and is remembered
    unfoldable pub register_row : ℤ → ℕ → Exec Unit
    register_row key row_offset w =
        get_table_state_index config schema calloc w
        &> (λ state w. insert_key key row_offset (state.1).pk_index state w)
        &> λ u w. (remember_explicit_primary_key key w, ok tt)

    -- behind `build_insert_row_values`
    unfoldable pub write_row : Option ℕ → List Bytes → Exec Unit
    write_row none row_values w = append_row row_values w &> λ row_offset w. (w, ok tt)
    write_row (some primary_key_index) row_values w =
        parse_row_primary_key primary_key_index row_values w &> λ key w.
        validate_primary_key_unique key w &> λ u w.
        append_row row_values w &> λ row_offset w. register_row key row_offset w

    unfoldable pub insert_row : InsertStatement → Exec Unit
    insert_row statement w =
        build_insert_row_values config schema calloc statement w
        &> write_row schema.primary_key_index

module _ (schema_files : Bytes → Option Bytes) (config : AppConfig) where
  abbrev pub load_schema : Bytes → Result TableSchema
  load_schema table_name =
      load_table_schema
        (schema_files (build_table_path config.schema_dir table_name (codes ".schema"))) table_name

  unfoldable pub execute_insert : (ℕ → ℕ → Bool) → InsertStatement → Exec Unit
  execute_insert calloc statement w = lift (load_schema statement.table_name) w &> λ schema w.
      insert_row config schema calloc statement w
