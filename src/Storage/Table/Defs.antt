-- ===== src/Storage/Table/Defs.antt =====
-- Appending a row to a table's file, and printing the row at an offset. The file system opens, seeks
-- and writes without failing; a file that does not exist is `none`.
use week7_02_sql_index.Prelude.{
  ℕ, zero, suc, ◌-◌, Bool, true, false, not, ◌&&◌, Option, none, some, List, [], ◌∷◌, ◌++◌, ◌==◌,
  if◌then◌else◌, length, drop, get_or,
}
use week7_02_sql_index.Text.{Bytes, str_eq, span}
use week7_02_sql_index.Sql.{
  ColumnSchema, TableSchema, FileError, header_unreadable, header_too_long, header_malformed,
  header_count, header_order, row_unreadable, row_too_long, row_malformed, row_count,
}
use week7_02_sql_index.Storage.Csv.Defs.{parse_csv_line, write_csv_row, max_row_len}

pub data Outcome (A : Type 0) : Type 0 where
  failed : FileError → Outcome A
  done : A → Outcome A

-- up to `n` bytes, and none behind a newline
unfoldable pub take_line : ℕ → Bytes → Bytes
take_line zero cs = []
take_line (suc n) [] = []
take_line (suc n) (c ∷ cs) = if c == b'\n' then c ∷ [] else c ∷ take_line n cs

-- `fgets(line, sizeof(line), file)` at the bytes that are left
unfoldable pub fgets : Bytes → Option Bytes
fgets [] = none
fgets (c ∷ cs) = some (take_line (max_row_len - 1) (c ∷ cs))

abbrev pub is_byte : ℕ → Bool
is_byte c = if c == 0 then false else true

abbrev pub ends_with_newline : Bytes → Bool
ends_with_newline [] = false
ends_with_newline (c ∷ []) = c == b'\n'
ends_with_newline (c ∷ d ∷ cs) = ends_with_newline (d ∷ cs)

-- `feof` is not set when the array is full, since `fgets` has stopped before the end.
unfoldable pub validate_line_length : Bytes → Bool
validate_line_length line =
    let text = (span is_byte line).0 in
    not (length text == max_row_len - 1 && not (ends_with_newline text))

unfoldable pub same_names : List ColumnSchema → List Bytes → Bool
same_names [] [] = true
same_names (c ∷ cs) (v ∷ vs) = str_eq v c.name && same_names cs vs
same_names _ _ = false

unfoldable pub validate_header_values : List ColumnSchema → List Bytes → Option FileError
validate_header_values columns values =
    if length values == length columns
    then (if same_names columns values then none else some header_order)
    else some header_count

abbrev pub checked : {A : Type 0} → Option FileError → A → Outcome A
checked none a = done a
checked (some e) a = failed e

abbrev pub header_error : TableSchema → Option (List Bytes) → Option FileError
header_error schema none = some header_malformed
header_error schema (some values) = validate_header_values schema.columns values

-- what is wrong with the header's line, if anything
unfoldable pub check_header : TableSchema → Bytes → Option FileError
check_header schema line =
    if validate_line_length line
    then header_error schema (parse_csv_line line)
    else some header_too_long

abbrev pub header_of : TableSchema → Bytes → Option Bytes → Outcome Bytes
header_of schema file none = failed header_unreadable
header_of schema file (some line) = checked (check_header schema line) file

abbrev pub more_header : List ColumnSchema → Bytes
more_header [] = b'\n' ∷ []
more_header (c ∷ cs) = b',' ∷ (c.name ++ more_header cs)

abbrev pub header_line : List ColumnSchema → Bytes
header_line [] = b'\n' ∷ []
header_line (c ∷ cs) = c.name ++ more_header cs

unfoldable pub ensure_data_file : TableSchema → Option Bytes → Outcome Bytes
ensure_data_file schema none = done (header_line schema.columns)
ensure_data_file schema (some file) = header_of schema file (fgets file)

unfoldable pub ensure_append_starts_on_new_line : Bytes → Bytes
ensure_append_starts_on_new_line [] = []
ensure_append_starts_on_new_line (c ∷ cs) =
    if ends_with_newline (c ∷ cs) then c ∷ cs else c ∷ cs ++ b'\n' ∷ []

-- the file with the row, and where the row starts
abbrev pub append_at_end : Bytes → List Bytes → Bytes × ℕ
append_at_end file row_values =
    let start = ensure_append_starts_on_new_line file in
    (start ++ write_csv_row row_values, length start)

abbrev pub append_to : Outcome Bytes → List Bytes → Outcome (Bytes × ℕ)
append_to (failed e) row_values = failed e
append_to (done file) row_values = done (append_at_end file row_values)

-- `row_values` are the first `column_count` entries of the array.
unfoldable pub storage_append_row : TableSchema → Option Bytes → List Bytes → Outcome (Bytes × ℕ)
storage_append_row schema file row_values = append_to (ensure_data_file schema file) row_values

abbrev pub more_selected : List Bytes → List ℕ → Bytes
more_selected values [] = b'\n' ∷ []
more_selected values (i ∷ is) = b'\t' ∷ (get_or values i [] ++ more_selected values is)

-- the selected values, a tab between two
abbrev pub selected_text : List Bytes → List ℕ → Bytes
selected_text values [] = b'\n' ∷ []
selected_text values (i ∷ is) = get_or values i [] ++ more_selected values is

abbrev pub counted : TableSchema → Option (List Bytes) → Outcome (List Bytes)
counted schema none = failed row_malformed
counted schema (some values) =
    if length values == length schema.columns then done values else failed row_count

-- the checks of a row's line, which every loop over rows makes
unfoldable pub read_row : TableSchema → Bytes → Outcome (List Bytes)
read_row schema line =
    if validate_line_length line then counted schema (parse_csv_line line) else failed row_too_long

abbrev pub shown : List ℕ → Outcome (List Bytes) → Outcome Bytes
shown selected_indices (failed e) = failed e
shown selected_indices (done values) = done (selected_text values selected_indices)

abbrev pub print_line : TableSchema → List ℕ → Option Bytes → Outcome Bytes
print_line schema selected_indices none = failed row_unreadable
print_line schema selected_indices (some line) = shown selected_indices (read_row schema line)

-- the bytes that are printed
unfoldable pub print_row_from_open_file : Bytes → TableSchema → ℕ → List ℕ → Outcome Bytes
print_row_from_open_file file schema offset selected_indices =
    print_line schema selected_indices (fgets (drop offset file))
