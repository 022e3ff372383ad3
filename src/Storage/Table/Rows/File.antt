-- ===== src/Storage/Table/Rows/File.antt =====
-- The file of a table with the given rows, and the lines that `fgets` reads from it.
use week7_02_sql_index.Prelude.{
  ℕ, suc, ◌-◌, ◌≤◌, ◌<◌, false, none, some, List, [], ◌∷◌, ◌++◌, ◌≡◌, ◌≢◌, refl, ap, ◌∙◌, ◌==◌, leb,
  length, map, append_assoc, All, arith,
}
use week7_02_sql_index.Text.{Bytes}
use week7_02_sql_index.Sql.{DataType, ColumnSchema, TableSchema, FileError, max_columns}
use week7_02_sql_index.Number.Defs.{read_int}
use week7_02_sql_index.Storage.Csv.Defs.{ends_row, write_csv_row, max_row_len}
use week7_02_sql_index.Storage.Csv.RoundTrip.{IsValue}
use week7_02_sql_index.Storage.Table.Defs.{done, header_line, read_row}
use week7_02_sql_index.Storage.Table.Scan.{lines_from, file_lines, after_header}
use week7_02_sql_index.Storage.Table.Append.{FileLine, row-FileLine, read_row-write_csv_row}
use week7_02_sql_index.Storage.Table.Header.{IsHeading, header_line-FileLine}

-- one to 16 columns whose names need no quotes
pub record IsTable (schema : TableSchema) : Type 0 where
  pub some_column : 1 ≤ length schema.columns
  pub few_columns : length schema.columns ≤ max_columns
  pub headings : All IsHeading schema.columns

-- text that an int column can hold
abbrev pub Readable : DataType → Bytes → Type 0
Readable DataType.int v = read_int v ≢ none
Readable DataType.string v = Unit

-- a value for each column
abbrev pub IsRow : List ColumnSchema → List Bytes → Type 0
IsRow [] [] = Unit
IsRow [] (v ∷ vs) = ⊥
IsRow (c ∷ cs) [] = ⊥
IsRow (c ∷ cs) (v ∷ vs) = IsValue v × Readable c.type v × IsRow cs vs

pub IsRow-length : (cs : List ColumnSchema) (vs : List Bytes) → IsRow cs vs → length vs ≡ length cs
IsRow-length [] [] h = refl
IsRow-length [] (v ∷ vs) h = absurd h
IsRow-length (c ∷ cs) [] h = absurd h
IsRow-length (c ∷ cs) (v ∷ vs) h = ap suc (IsRow-length cs vs h.2)

pub IsRow-IsValue : (cs : List ColumnSchema) (vs : List Bytes) → IsRow cs vs → All IsValue vs
IsRow-IsValue [] [] h = tt
IsRow-IsValue [] (v ∷ vs) h = absurd h
IsRow-IsValue (c ∷ cs) [] h = absurd h
IsRow-IsValue (c ∷ cs) (v ∷ vs) h = (h.0, IsRow-IsValue cs vs h.2)

abbrev pub rows_text : List (List Bytes) → Bytes
rows_text [] = []
rows_text (row ∷ rows) = write_csv_row row ++ rows_text rows

abbrev pub table_file : TableSchema → List (List Bytes) → Bytes
table_file schema rows = header_line schema.columns ++ rows_text rows

lines_from-line :
    (room : ℕ) (body rest : Bytes)
    → All (λ c. ends_row c ≡ false) body
    → length body < room
    → lines_from room (body ++ b'\n' ∷ rest) ≡ (body ++ b'\n' ∷ []) ∷ file_lines rest
unfolding lines_from
lines_from-line room [] rest h l = refl
lines_from-line room (c ∷ body) rest h l =
    let no_newline : (c == b'\n') ≡ false = ground arith in
    let more_room : leb room 1 ≡ false = ground arith in
    rw (no_newline, more_room, lines_from-line (room - 1) body rest h.1 (omega arith))

pub file_lines-FileLine :
    (line rest : Bytes) → FileLine line → file_lines (line ++ rest) ≡ line ∷ file_lines rest
file_lines-FileLine line rest (body, e, plain, short) =
    rw (e, append_assoc body (b'\n' ∷ []) rest)
      (lines_from-line (max_row_len - 1) body rest plain (omega (arith, short)))

module _ (schema : TableSchema) (table : IsTable schema) where
  -- the line of a row
  pub row_line :
      (row : List Bytes)
      → IsRow schema.columns row
      → FileLine (write_csv_row row) × (read_row schema (write_csv_row row) ≡ done row)
  row_line [] h = absurd (omega (arith, table.some_column, IsRow-length schema.columns [] h))
  row_line (v ∷ vs) h =
      let same = IsRow-length schema.columns (v ∷ vs) h in
      let few : length (v ∷ vs) ≤ max_columns = omega (arith, same, table.few_columns) in
      let valid = IsRow-IsValue schema.columns (v ∷ vs) h in
      (row-FileLine v vs valid few, read_row-write_csv_row schema v vs valid same few)

  pub file_lines-rows_text :
      (rows : List (List Bytes))
      → All (IsRow schema.columns) rows
      → file_lines (rows_text rows) ≡ map write_csv_row rows
  unfolding lines_from
  file_lines-rows_text [] h = refl
  file_lines-rows_text (row ∷ rows) h =
      file_lines-FileLine (write_csv_row row) (rows_text rows) (row_line row h.0).0
      ∙ ap (λ lines. write_csv_row row ∷ lines) (file_lines-rows_text rows h.1)

  -- A reader gets past the header to the lines of the rows.
  pub after_header-table_file :
      {A : Type 0} (no_file empty : A) (bad : FileError → A) (go : Bytes → List Bytes → A)
      (rows : List (List Bytes))
      → All (IsRow schema.columns) rows
      → after_header schema no_file empty bad go (some (table_file schema rows))
        ≡ go (header_line schema.columns) (map write_csv_row rows)
  after_header-table_file no_file empty bad go rows h =
      let header = header_line schema.columns in
      let (line, accepted) =
        header_line-FileLine schema table.some_column table.few_columns table.headings in
      rw (file_lines-FileLine header (rows_text rows) line, file_lines-rows_text rows h, accepted)
