-- ===== src/Storage/Table/Scan.antt =====
-- The loops of src/storage.c over a table's rows. A loop `while (fgets(...) != NULL)` runs over the
-- list of what the calls of `fgets` give.
use week7_02_sql_index.Prelude.{
  ℕ, ◌-◌, Bool, true, false, not, ◌||◌, Option, none, some, List, [], ◌∷◌, ◌++◌, ◌==◌, leb,
  if◌then◌else◌, get_elem?, get_or, ℤ, pos, ltb_ℤ, eqb_ℤ,
}
use week7_02_sql_index.Text.{Bytes, str_eq}
use week7_02_sql_index.Sql.{
  DataType, LiteralType, WhereOperator, LiteralValue, ColumnSchema, TableSchema, FileError,
  file_unopened, header_unreadable, condition_uncomparable, bad_integer,
}
use week7_02_sql_index.Number.Defs.{read_int}
use week7_02_sql_index.Storage.Csv.Defs.{max_row_len}
use week7_02_sql_index.Storage.Table.Defs.{
  Outcome, failed, done, check_header, read_row, selected_text, print_row_from_open_file,
}

abbrev pub join : ℕ → List Bytes → List Bytes
join c [] = (c ∷ []) ∷ []
join c (line ∷ lines) = (c ∷ line) ∷ lines

-- The next line, of at most so many bytes, and the lines behind it.
unfoldable pub lines_from : ℕ → Bytes → List Bytes
lines_from room [] = []
lines_from room (c ∷ cs) =
    let ends = c == b'\n' || leb room 1 in
    let more = lines_from (if ends then max_row_len - 1 else room - 1) cs in
    if ends then (c ∷ []) ∷ more else join c more

-- what `fgets(line, sizeof(line), file)` gives until it gives NULL
abbrev pub file_lines : Bytes → List Bytes
file_lines file = lines_from (max_row_len - 1) file

-- The bytes on stdout, and the error behind them, if there is one.
pub record Printed : Type 0 where
  pub out : Bytes
  pub error : Option FileError

abbrev pub printed : Bytes → Printed
printed out = record { out = out; error = none }

abbrev pub refused : FileError → Printed
refused e = record { out = []; error = some e }

abbrev pub print_first : Bytes → Printed → Printed
print_first out p = record { out = out ++ p.out; error = p.error }

abbrev pub column_names : List ColumnSchema → List Bytes
column_names [] = []
column_names (c ∷ cs) = c.name ∷ column_names cs

-- the header line of the output
abbrev pub print_selected_header : TableSchema → List ℕ → Bytes
print_selected_header schema selected_indices =
    selected_text (column_names schema.columns) selected_indices

-- What every reader of a table does first: the result without a file, that of an empty one, that of a
-- bad header, and the work on the lines behind a good one.
module _ {A : Type 0} (schema : TableSchema) (no_file empty : A) (bad : FileError → A)
    (go : Bytes → List Bytes → A) where
  abbrev pub on_header : Bytes → List Bytes → Option FileError → A
  on_header header lines none = go header lines
  on_header header lines (some e) = bad e

  abbrev pub on_lines : List Bytes → A
  on_lines [] = empty
  on_lines (header ∷ lines) = on_header header lines (check_header schema header)

  abbrev pub after_header : Option Bytes → A
  after_header none = no_file
  after_header (some file) = on_lines (file_lines file)

-- Printing

module _ (schema : TableSchema) (selected_indices : List ℕ) where
  unfoldable pub print_lines : List Bytes → Printed
  print_lines [] = printed []
  print_lines (line ∷ lines) = elim (read_row schema line) [
    | failed e ↦ refused e
    | done values ↦ print_first (selected_text values selected_indices) (print_lines lines)
  ]

  unfoldable pub storage_print_rows : Option Bytes → Printed
  storage_print_rows file =
      let header = print_selected_header schema selected_indices in
      after_header schema (printed header) (printed []) refused
        (λ line lines. print_first header (print_lines lines)) file

  -- an offset below 0, which finds nothing, is `none`
  unfoldable pub storage_print_row_at_offset : Option Bytes → Option ℕ → Printed
  storage_print_row_at_offset file none = printed (print_selected_header schema selected_indices)
  storage_print_row_at_offset none (some offset) =
      print_first (print_selected_header schema selected_indices) (refused file_unopened)
  storage_print_row_at_offset (some file) (some offset) =
      print_first (print_selected_header schema selected_indices) (
        after_header schema (refused file_unopened) (refused header_unreadable) refused
          (λ line lines. elim (print_row_from_open_file file schema offset selected_indices) [
            | failed e ↦ refused e
            | done out ↦ printed out
          ])
          (some file))

  -- for (i = 0; i < offset_count; i++)
  unfoldable pub print_offsets : Bytes → List ℕ → Printed
  print_offsets file [] = printed []
  print_offsets file (offset ∷ offsets) =
      elim (print_row_from_open_file file schema offset selected_indices) [
        | failed e ↦ refused e
        | done out ↦ print_first out (print_offsets file offsets)
      ]

  abbrev pub print_at : Option Bytes → List ℕ → Printed
  print_at none offsets = refused file_unopened
  print_at (some file) offsets =
      after_header schema (refused file_unopened) (refused header_unreadable) refused
        (λ line lines. print_offsets file offsets) (some file)

  unfoldable pub storage_print_rows_at_offsets : Option Bytes → List ℕ → Printed
  storage_print_rows_at_offsets file [] = printed (print_selected_header schema selected_indices)
  storage_print_rows_at_offsets file (offset ∷ offsets) =
      print_first (print_selected_header schema selected_indices) (print_at file (offset ∷ offsets))

-- Conditions

-- A condition that cannot be decided is `none`.
abbrev pub string_matches : WhereOperator → Bytes → Bytes → Option Bool
string_matches WhereOperator.equal value target = some (str_eq value target)
string_matches WhereOperator.not_equal value target = some (not (str_eq value target))
string_matches WhereOperator.greater value target = none
string_matches WhereOperator.less value target = none

abbrev pub compare_ints : WhereOperator → ℤ → ℤ → Bool
compare_ints WhereOperator.equal value target = eqb_ℤ value target
compare_ints WhereOperator.greater value target = ltb_ℤ target value
compare_ints WhereOperator.less value target = ltb_ℤ value target
compare_ints WhereOperator.not_equal value target = not (eqb_ℤ value target)

abbrev pub both_ints : WhereOperator → Option ℤ → Option ℤ → Option Bool
both_ints op none target = none
both_ints op (some value) none = none
both_ints op (some value) (some target) = some (compare_ints op value target)

abbrev pub int_matches : WhereOperator → Bytes → LiteralType → Bytes → Option Bool
int_matches op value LiteralType.string target = none
int_matches op value LiteralType.int target = both_ints op (read_int value) (read_int target)

abbrev pub typed_matches : DataType → WhereOperator → Bytes → LiteralValue → Option Bool
typed_matches DataType.string op value target = string_matches op value target.text
typed_matches DataType.int op value target = int_matches op value target.type target.text

abbrev pub column_matches : Option ColumnSchema → WhereOperator → Bytes → LiteralValue → Option Bool
column_matches none op value target = none
column_matches (some c) op value target = typed_matches c.type op value target

unfoldable pub csv_value_matches_where :
    TableSchema → List Bytes → ℕ → WhereOperator → LiteralValue → Option Bool
csv_value_matches_where schema values where_column_index where_operator where_value =
    column_matches (get_elem? schema.columns where_column_index) where_operator
      (get_or values where_column_index []) where_value

module _ (schema : TableSchema) (selected_indices : List ℕ) (where_column_index : ℕ)
    (where_operator : WhereOperator) (where_value : LiteralValue) where
  unfoldable pub print_matching : List Bytes → Printed
  print_matching [] = printed []
  print_matching (line ∷ lines) = elim (read_row schema line) [
    | failed e ↦ refused e
    | done values ↦
        elim (csv_value_matches_where schema values where_column_index where_operator where_value) [
          | none ↦ refused condition_uncomparable
          | some true ↦ print_first (selected_text values selected_indices) (print_matching lines)
          | some false ↦ print_matching lines
        ]
  ]

  unfoldable pub storage_print_rows_where_equals : Option Bytes → Printed
  storage_print_rows_where_equals file =
      let header = print_selected_header schema selected_indices in
      after_header schema (printed header) (printed header) refused
        (λ line lines. print_first header (print_matching lines)) file

-- Searches for a value

-- `!found_value || parsed_value > *max_value`
abbrev pub larger : Option ℤ → ℤ → Option ℤ
larger none value = some value
larger (some best) value = if ltb_ℤ best value then some value else some best

-- `*max_value`, which starts at 0
abbrev pub max_value : Option ℤ → ℤ
max_value none = pos 0
max_value (some best) = best

module _ (schema : TableSchema) (column_index : ℕ) where
  -- the checks of a row's line, and the integer in the column
  abbrev pub value_in : Outcome (List Bytes) → Outcome ℤ
  value_in (failed e) = failed e
  value_in (done values) = elim (read_int (get_or values column_index [])) [
    | none ↦ failed bad_integer
    | some value ↦ done value
  ]

  abbrev pub int_in_line : Bytes → Outcome ℤ
  int_in_line line = value_in (read_row schema line)

  unfoldable pub find_max : Option ℤ → List Bytes → Outcome ℤ
  find_max best [] = done (max_value best)
  find_max best (line ∷ lines) = elim (int_in_line line) [
    | failed e ↦ failed e
    | done value ↦ find_max (larger best value) lines
  ]

  unfoldable pub storage_find_max_int_value : Option Bytes → Outcome ℤ
  storage_find_max_int_value file =
      after_header schema (done (pos 0)) (done (pos 0)) failed (λ line lines. find_max none lines)
        file

  unfoldable pub find_value : ℤ → List Bytes → Outcome Bool
  find_value target_value [] = done false
  find_value target_value (line ∷ lines) = elim (int_in_line line) [
    | failed e ↦ failed e
    | done value ↦ elim (eqb_ℤ value target_value) [
      | true ↦ done true
      | false ↦ find_value target_value lines
    ]
  ]

  unfoldable pub storage_int_value_exists : ℤ → Option Bytes → Outcome Bool
  storage_int_value_exists target_value file =
      after_header schema (done false) (done false) failed
        (λ line lines. find_value target_value lines) file
