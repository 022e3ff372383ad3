-- ===== src/Tests/Sessions.antt =====
-- Statements on a table, from an empty directory on.
use week7_02_sql_index.Prelude.{
  false, inr, ℕ, Bool, true, Option, none, some, [], ◌∷◌, ◌≡◌, refl, arith, pos, if◌then◌else◌,
}
use week7_02_sql_index.Text.{Bytes, codes, str_eq, span}
use week7_02_sql_index.Sql.{
  LiteralType, LiteralValue, WhereOperator, WhereClause, InsertStatement, SelectStatement, insert,
  select, location, ok,
}
use week7_02_sql_index.Number.Defs.{read_int, strtol, skip_space, read_digits}
use week7_02_sql_index.Schema.Defs.{
  load_table_schema, load_columns, read_entry, add_column, cut, first_line, parse_data_type,
  has_duplicate_column_name,
}
use week7_02_sql_index.Storage.Table.Scan.{storage_print_rows_where_equals}
use week7_02_sql_index.Executor.State.{
  AppConfig, World, ◌&>◌, text, print, data_file, find_table_state, get_table_state_index,
}
use week7_02_sql_index.Executor.Values.{allocate_next_primary_key, build_insert_row_values}
use week7_02_sql_index.Executor.Insert.{load_schema, insert_row}
use week7_02_sql_index.Executor.Select.{show, timed, select_where, execute_program}
use week7_02_sql_index.Executor.Checks.{AreLiterals}
use week7_02_sql_index.Executor.Lookup.{index_line, select_where-scan}
use week7_02_sql_index.Executor.Coherent.Defs.{IsConfig, IsKeyed, IsCoherent}
use week7_02_sql_index.Executor.Coherent.Open.{Opened, get_table_state_index-Opened}
use week7_02_sql_index.Executor.Coherent.Build.{
  Keeps, IsFresh, allocate_next_primary_key-Keeps, build_insert_row_values-Keeps,
}
use week7_02_sql_index.Number.Range.{InInt}
use week7_02_sql_index.Storage.Table.Rows.File.{IsRow, table_file}
use week7_02_sql_index.Executor.Coherent.Insert.{Inserted, insert_row-Inserted}
use week7_02_sql_index.Executor.Coherent.Program.{Grown, execute_program-Grown}
use week7_02_sql_index.Tests.Files.{users, row-IsValue}
use week7_02_sql_index.Tests.Scans.{
  users-IsTable, users-IsIntColumn, users_rows, users_rows-IsRow, users_rows-DistinctInts,
}
use week7_02_sql_index.Executor.Range.{show_sorted, select_where-sorted}

abbrev pub config : AppConfig
config = record {
  schema_dir = codes "schema";
  data_dir = codes "data";
  input_path = codes "run.sql";
  interactive_mode = false;
  benchmark_mode = false;
}

pub config-IsConfig : IsConfig config
config-IsConfig = record { short_schema_dir = omega arith; short_data_dir = omega arith }

pub users-IsKeyed : IsKeyed users 0
users-IsKeyed = record {
  table = users-IsTable;
  key = refl;
  int = users-IsIntColumn;
  short_name = omega arith;
}

-- the directory with one schema file
abbrev pub schema_files : Bytes → Option Bytes
schema_files path =
    if str_eq path (codes "schema/users.schema") then some (codes "id:int,name:string") else none

abbrev pub granted : ℕ → ℕ → Bool
granted t n = true

abbrev start : World
start = record { states = []; files = λ path. none; out = []; trees = 0; scans = 0 }

start-IsCoherent : IsCoherent config users 0 [] start
unfolding find_table_state
start-IsCoherent = record { readable = tt; distinct = tt; file = refl; state = tt }

abbrev string_value : LiteralValue
string_value = record { type = LiteralType.string; text = codes "a,b"; location = location 1 40 }

abbrev insert_name : InsertStatement
insert_name = record {
  table_name = codes "users";
  table_location = location 1 13;
  columns = some (record { name = codes "name"; location = location 1 20 } ∷ []);
  values = string_value ∷ [];
}

abbrev select_names : SelectStatement
select_names = record { table_name = codes "users"; columns = none; where_clause = none }

insert_name-AreLiterals : AreLiterals insert_name.values
insert_name-AreLiterals = row-IsValue.1

pub users_loads : load_schema schema_files config (codes "users") ≡ ok users
unfolding load_table_schema load_columns read_entry add_column cut first_line parse_data_type
    has_duplicate_column_name str_eq span
users_loads = refl

execute_program-Grown_example :
    Grown config users 0 config-IsConfig users-IsKeyed schema_files granted granted
      (λ t n. refl)
      []
      (execute_program schema_files granted granted config
        (insert (location 1 1) insert_name ∷ select (location 2 1) select_names ∷ [])
        start)
execute_program-Grown_example =
    execute_program-Grown config users 0 config-IsConfig users-IsKeyed schema_files granted granted
      (λ t n. refl) [] (insert (location 1 1) insert_name ∷ select (location 2 1) select_names ∷ [])
      start ((users_loads, insert_name-AreLiterals), (users_loads, tt)) start-IsCoherent

insert_row-Inserted_example :
    Inserted config users 0 config-IsConfig users-IsKeyed granted
      (λ t n. refl)
      []
      (insert_row config users granted insert_name start)
insert_row-Inserted_example =
    insert_row-Inserted config users 0 config-IsConfig users-IsKeyed granted (λ t n. refl) []
      insert_name start insert_name-AreLiterals start-IsCoherent

get_table_state_index-Opened_example :
    Opened config users 0 config-IsConfig users-IsKeyed []
      (get_table_state_index config users granted start)
get_table_state_index-Opened_example =
    get_table_state_index-Opened config users 0 config-IsConfig users-IsKeyed granted (λ t n. refl)
      [] start start-IsCoherent

allocate_next_primary_key-Keeps_example :
    Keeps config users 0 config-IsConfig users-IsKeyed
      (λ id. InInt id × IsFresh config users 0 config-IsConfig users-IsKeyed [] id)
      []
      (allocate_next_primary_key config users granted start)
allocate_next_primary_key-Keeps_example =
    allocate_next_primary_key-Keeps config users 0 config-IsConfig users-IsKeyed granted
      (λ t n. refl) [] start start-IsCoherent

build_insert_row_values-Keeps_example :
    Keeps config users 0 config-IsConfig users-IsKeyed
      (IsRow users.columns)
      []
      (build_insert_row_values config users granted insert_name start)
build_insert_row_values-Keeps_example =
    build_insert_row_values-Keeps config users 0 config-IsConfig users-IsKeyed granted (λ t n. refl)
      [] insert_name start insert_name-AreLiterals start-IsCoherent

abbrev select_seven : WhereClause
select_seven = record {
  column = record { name = codes "id"; location = location 1 20 };
  operator = WhereOperator.equal;
  value = record { type = LiteralType.int; text = codes "7"; location = location 1 30 };
}

seven-read : read_int select_seven.value.text ≡ some (pos 7)
unfolding read_int strtol skip_space read_digits
seven-read = refl

abbrev pub stored : World
stored = record {
  states = [];
  files = λ path.
      if str_eq path (codes "data/users.csv") then some (table_file users users_rows) else none;
  out = [];
  trees = 0;
  scans = 0;
}

pub stored-IsCoherent : IsCoherent config users 0 users_rows stored
unfolding find_table_state str_eq
stored-IsCoherent = record {
  readable = users_rows-IsRow;
  distinct = users_rows-DistinctInts;
  file = refl;
  state = tt;
}

select_where-scan_example :
    select_where granted granted config users (1 ∷ []) select_seven 0 stored ≡ (
      get_table_state_index config users granted stored &> λ state w'. timed (
        show
          (storage_print_rows_where_equals users
            (1 ∷ [])
            0
            WhereOperator.equal
            select_seven.value
            (data_file config users w'))
          (print
            (text (index_line config users 0 users-IsKeyed granted granted (1 ∷ []) select_seven))
            w')))
select_where-scan_example =
    select_where-scan config users 0 users-IsKeyed granted granted (1 ∷ []) select_seven
      config-IsConfig (λ t n. refl) users_rows stored (pos 7) stored-IsCoherent refl refl seven-read

abbrev select_below : WhereClause
select_below = record {
  column = record { name = codes "id"; location = location 1 20 };
  operator = WhereOperator.less;
  value = record { type = LiteralType.int; text = codes "7"; location = location 1 30 };
}

select_where-sorted_example :
    select_where granted granted config users (1 ∷ []) select_below 0 stored ≡ (
      get_table_state_index config users granted stored &> λ state w'. timed (
        show_sorted config users 0 users-IsKeyed granted granted
          (1 ∷ [])
          select_below
          users_rows
          w'))
select_where-sorted_example =
    select_where-sorted config users 0 users-IsKeyed granted granted (1 ∷ []) select_below
      config-IsConfig (λ t n. refl) (λ t n. refl) users_rows stored (pos 7) stored-IsCoherent
      (inr refl) refl seven-read
