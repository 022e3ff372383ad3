-- ===== src/Executor/Coherent/Defs.antt =====
-- What holds between a table's file, its index and its next key.
use week7_02_sql_index.Prelude.{
  ℕ, ◌<◌, Option, none, some, List, [], ◌≡◌, true, length, All, ◌⊎◌, ℤ, ◌≤ℤ◌, ◌<ℤ◌,
}
use week7_02_sql_index.Text.{Bytes}
use week7_02_sql_index.Sql.{TableSchema}
use week7_02_sql_index.Number.Defs.{int_min, int_max}
use week7_02_sql_index.Bptree.Node.{Entry, entries}
use week7_02_sql_index.Bptree.Contract.Valid.{IsValid}
use week7_02_sql_index.Storage.Table.Defs.{header_line}
use week7_02_sql_index.Storage.Table.Rows.File.{IsTable, IsRow, table_file}
use week7_02_sql_index.Storage.Table.Rows.Values.{IsIntColumn}
use week7_02_sql_index.Storage.Table.Rows.Keys.{DistinctInts, keys, index_rows}
use week7_02_sql_index.Executor.State.{
  AppConfig, PkIndex, TableRuntimeState, World, data_file, is_state_of, find_table_state,
}

-- directories that fit the arrays
pub record IsConfig (config : AppConfig) : Type 0 where
  pub short_schema_dir : length config.schema_dir < 256
  pub short_data_dir : length config.data_dir < 256

-- a table with an int column as its primary key
pub record IsKeyed (schema : TableSchema) (i : ℕ) : Type 0 where
  pub table : IsTable schema
  pub key : schema.primary_key_index ≡ some i
  pub int : IsIntColumn schema i
  pub short_name : length schema.table_name < 64

module _ (config : AppConfig) (schema : TableSchema) (i : ℕ) where
  -- A table without rows may have no file yet.
  abbrev pub TableFile : List (List Bytes) → Option Bytes → Type 0
  TableFile rows none = rows ≡ []
  TableFile rows (some file) = file ≡ table_file schema rows

  abbrev pub index_of : List (List Bytes) → List Entry
  index_of rows = index_rows i (length (header_line schema.columns)) rows []

  -- an `int` above every key except INT_MAX
  abbrev pub IsNext : ℤ → List ℤ → Type 0
  IsNext next_id ks =
      (int_min ≤ℤ next_id) × (next_id ≤ℤ int_max) × All (λ k. (k <ℤ next_id) ⊎ (k ≡ int_max)) ks

  -- a state that is up to date
  pub record IsOpen (rows : List (List Bytes)) (s : TableRuntimeState) : Type 0 where
    pub own : is_state_of config schema s ≡ true
    pub index : PkIndex
    pub has_index : s.pk_index ≡ some index
    pub valid : IsValid index.tree
    pub indexed : entries index.tree ≡ index_of rows
    pub next : IsNext s.next_id (keys i rows)

  abbrev pub OpenState : List (List Bytes) → Option (ℕ × TableRuntimeState) → Type 0
  OpenState rows none = Unit
  OpenState rows (some (n, s)) = IsOpen rows s

  -- The file holds the rows, their keys differ, and the state, if there is one, is up to date.
  pub record IsCoherent (rows : List (List Bytes)) (w : World) : Type 0 where
    pub readable : All (IsRow schema.columns) rows
    pub distinct : DistinctInts (keys i rows)
    pub file : TableFile rows (data_file config schema w)
    pub state : OpenState rows (find_table_state config schema w.states)
