-- ===== src/Tests/Scans.antt =====
-- The loops over a table's rows at concrete rows.
use week7_02_sql_index.Prelude.{
  ℕ, true, none, some, List, [], ◌∷◌, ◌≡◌, refl, map, length, All, arith, Bool, ℤ, pos, negsuc,
}
use week7_02_sql_index.Text.{Bytes, codes}
use week7_02_sql_index.Sql.{LiteralType, LiteralValue, WhereOperator, location}
use week7_02_sql_index.Number.Defs.{read_int, strtol, skip_space, read_digits, int_text}
use week7_02_sql_index.Number.Decimal.{read_int-int_text}
use week7_02_sql_index.Bptree.Node.{BPlusTree}
use week7_02_sql_index.Bptree.Spec.{lookup}
use week7_02_sql_index.Bptree.Contract.Valid.{IsValid}
use week7_02_sql_index.Storage.Table.Defs.{done, header_line}
use week7_02_sql_index.Storage.Table.Scan.{
  printed, storage_print_rows, storage_print_rows_where_equals, storage_print_row_at_offset,
  storage_find_max_int_value, storage_int_value_exists,
}
use week7_02_sql_index.Storage.Table.Index.{storage_rebuild_pk_index}
use week7_02_sql_index.Storage.Table.Rows.File.{IsTable, IsRow, table_file}
use week7_02_sql_index.Storage.Table.Rows.Print.{IsCondition}
use week7_02_sql_index.Storage.Table.Rows.Values.{
  IsIntColumn, IsLargest, int_at, has_int, storage_find_max_int_value-rows,
  storage_int_value_exists-rows,
}
use week7_02_sql_index.Storage.Table.Rows.Keys.{
  DistinctInts, keys, index_rows, Rebuilt, storage_rebuild_pk_index-rows,
}
use week7_02_sql_index.Storage.Table.Rows.Lookup.{storage_print_row_at_offset-scan}
use week7_02_sql_index.Storage.Table.Rows.Shown.{
  shown_table, heading, Satisfies, Selects, storage_print_rows-shown_table,
  storage_print_rows_where_equals-Selects,
}
use week7_02_sql_index.Tests.Files.{users, headings}

abbrev pub users_rows : List (List Bytes)
users_rows = (codes "7" ∷ codes "kim" ∷ []) ∷ (codes "-2" ∷ codes "a,b" ∷ []) ∷ []

pub users-IsTable : IsTable users
users-IsTable = record { some_column = omega arith; few_columns = omega arith; headings = headings }

pub users-IsIntColumn : IsIntColumn users 0
users-IsIntColumn = (_, refl, refl)

pub users_rows-IsRow : All (IsRow users.columns) users_rows
unfolding read_int strtol skip_space read_digits
users_rows-IsRow = (
  (((refl, tt), omega arith), (λ e. cc), (((refl, (refl, (refl, tt))), omega arith), tt, tt)),
  (
    (
      ((refl, (refl, tt)), omega arith),
      (λ e. cc),
      (((refl, (refl, (refl, tt))), omega arith), tt, tt),
    ),
    tt,
  ),
)

pub users_rows-DistinctInts : DistinctInts (keys 0 users_rows)
unfolding read_int strtol skip_space read_digits
users_rows-DistinctInts = ((refl, tt), (tt, tt))

storage_print_rows-shown_table_example :
    storage_print_rows users (1 ∷ []) (some (table_file users users_rows))
    ≡ printed (shown_table (1 ∷ []) (heading users ∷ users_rows))
storage_print_rows-shown_table_example =
    storage_print_rows-shown_table users users-IsTable (1 ∷ []) users_rows users_rows-IsRow

abbrev seven : LiteralValue
seven = record { type = LiteralType.int; text = codes "7"; location = location 1 30 }

seven-read : read_int seven.text ≡ some (pos 7)
unfolding read_int strtol skip_space read_digits
seven-read = refl

below_seven : IsCondition users 0 WhereOperator.less seven
unfolding read_int strtol skip_space read_digits
below_seven = (_, refl, (refl, λ e. cc))

storage_print_rows_where_equals-Selects_example :
    (kept : List (List Bytes)) × Selects
      (Satisfies users 0 WhereOperator.less seven)
      users_rows
      kept
    × (storage_print_rows_where_equals users
          (1 ∷ [])
          0
          WhereOperator.less
          seven
          (some (table_file users users_rows))
        ≡ printed (shown_table (1 ∷ []) (heading users ∷ kept)))
storage_print_rows_where_equals-Selects_example =
    storage_print_rows_where_equals-Selects users users-IsTable (1 ∷ []) 0 WhereOperator.less seven
      below_seven users_rows users_rows-IsRow

storage_find_max_int_value-rows_example :
    (m : ℤ) × (storage_find_max_int_value users 0 (some (table_file users users_rows)) ≡ done m)
    × IsLargest m (map (int_at 0) users_rows)
storage_find_max_int_value-rows_example =
    storage_find_max_int_value-rows users users-IsTable 0 users-IsIntColumn users_rows
      users_rows-IsRow

storage_int_value_exists-rows_example :
    storage_int_value_exists users 0 (pos 7) (some (table_file users users_rows))
    ≡ done (has_int 0 (pos 7) users_rows)
storage_int_value_exists-rows_example =
    storage_int_value_exists-rows users users-IsTable 0 users-IsIntColumn (pos 7) users_rows
      users_rows-IsRow

abbrev pub always : ℕ → Bool
always n = true

abbrev empty_tree : BPlusTree
empty_tree = record { root = none; heap = record { calls = 1; lost = [] } }

empty_tree-IsValid : IsValid empty_tree
empty_tree-IsValid = record { nodes = tt; nothing_lost = refl }

storage_rebuild_pk_index-rows_example :
    Rebuilt always
      (λ n. refl)
      users
      users-IsTable
      0
      users-IsIntColumn
      (length (header_line users.columns))
      users_rows
      []
      none
      (storage_rebuild_pk_index always users (some (table_file users users_rows)) empty_tree)
storage_rebuild_pk_index-rows_example =
    storage_rebuild_pk_index-rows always (λ n. refl) users users-IsTable 0 users-IsIntColumn
      empty_tree users_rows refl empty_tree-IsValid refl users_rows-IsRow users_rows-DistinctInts

storage_print_row_at_offset-scan_example :
    storage_print_row_at_offset users
      (1 ∷ [])
      (some (table_file users users_rows))
      (lookup (pos 7) (index_rows 0 (length (header_line users.columns)) users_rows []))
    ≡ storage_print_rows_where_equals users
        (1 ∷ [])
        0
        WhereOperator.equal
        seven
        (some (table_file users users_rows))
storage_print_row_at_offset-scan_example =
    storage_print_row_at_offset-scan users users-IsTable (1 ∷ []) 0 seven (pos 7) users_rows
      users-IsIntColumn refl seven-read users_rows-IsRow users_rows-DistinctInts

read_int-int_text_example : read_int (int_text (negsuc 41)) ≡ some (negsuc 41)
read_int-int_text_example = read_int-int_text (negsuc 41) (omega arith) (omega arith)
