-- ===== src/Storage/Table/Header.antt =====
-- A table's file keeps its header: every append to a file that the program made succeeds.
use week7_02_sql_index.Prelude.{
  ℕ, suc, ◌≤◌, true, false, Option, none, some, List, [], ◌∷◌, ◌++◌, ◌≡◌, ◌⊎◌, refl, ap, sym, ◌∙◌,
  ◌==◌, length, append_assoc, append-nil, All, arith, Bool-cases, inl, inr,
}
use week7_02_sql_index.Text.{Bytes, str_eq_iff}
use week7_02_sql_index.Sql.{ColumnSchema, TableSchema, max_columns}
use week7_02_sql_index.Storage.Csv.Defs.{
  needs_quote, write_csv_field, write_more, write_csv_row, parse_csv_line,
}
use week7_02_sql_index.Storage.Csv.RoundTrip.{IsValue, parse_csv_line-write_csv_row}
use week7_02_sql_index.Storage.Table.Defs.{
  done, ends_with_newline, validate_line_length, same_names, validate_header_values, header_line,
  more_header, ensure_data_file, ensure_append_starts_on_new_line, storage_append_row, check_header,
}
use week7_02_sql_index.Storage.Table.Append.{
  row-OneLine, validate_line_length-line, FileLine, row-FileLine, fgets-FileLine,
}
use week7_02_sql_index.Storage.Table.Scan.{column_names}

-- a column name that needs no quotes
abbrev pub IsHeading : ColumnSchema → Type 0
IsHeading c = IsValue c.name × (needs_quote c.name ≡ false)

length-names : (cs : List ColumnSchema) → length (column_names cs) ≡ length cs
length-names [] = refl
length-names (c ∷ cs) = ap suc (length-names cs)

names-IsValue : (cs : List ColumnSchema) → All IsHeading cs → All IsValue (column_names cs)
names-IsValue [] h = tt
names-IsValue (c ∷ cs) h = (h.0.0, names-IsValue cs h.1)

more_header-write_more :
    (cs : List ColumnSchema) → All IsHeading cs → more_header cs ≡ write_more (column_names cs)
unfolding write_more write_csv_field
more_header-write_more [] h = refl
more_header-write_more (c ∷ cs) h = rw (h.0.1, more_header-write_more cs h.1)

header_line-write_csv_row :
    (cs : List ColumnSchema) → All IsHeading cs → header_line cs ≡ write_csv_row (column_names cs)
unfolding write_csv_row write_csv_field
header_line-write_csv_row [] h = refl
header_line-write_csv_row (c ∷ cs) h = rw (h.0.1, more_header-write_more cs h.1)

names-same : (cs : List ColumnSchema) → same_names cs (column_names cs) ≡ true
unfolding same_names
names-same [] = refl
names-same (c ∷ cs) = rw ((str_eq_iff c.name c.name).1 refl, names-same cs)

validate_header_values-names :
    (cs : List ColumnSchema) → validate_header_values cs (column_names cs) ≡ none
unfolding validate_header_values
validate_header_values-names cs =
    let same : (length (column_names cs) == length cs) ≡ true = ground (arith, length-names cs) in
    rw (same, names-same cs)

-- The header is a line that `fgets` reads, and it passes its own checks.
pub header_line-FileLine :
    (schema : TableSchema)
    → 1 ≤ length schema.columns
    → length schema.columns ≤ max_columns
    → All IsHeading schema.columns
    → FileLine (header_line schema.columns)
      × (check_header schema (header_line schema.columns) ≡ none)
unfolding check_header
header_line-FileLine schema l u h =
    by_names (column_names schema.columns) refl (names-IsValue schema.columns h)
      (validate_header_values-names schema.columns)
  where
    by_names :
        (vs : List Bytes)
        → column_names schema.columns ≡ vs
        → All IsValue vs
        → validate_header_values schema.columns vs ≡ none
        → FileLine (header_line schema.columns)
          × (check_header schema (header_line schema.columns) ≡ none)
    by_names [] e valid accepted =
        absurd (omega (arith, l, length-names schema.columns, ap length e))
    by_names (v ∷ vs) e valid accepted =
        let few : length (v ∷ vs) ≤ max_columns =
          omega (arith, u, length-names schema.columns, ap length e) in
        let row : header_line schema.columns ≡ write_csv_row (v ∷ vs) =
          header_line-write_csv_row schema.columns h ∙ ap write_csv_row e in
        let (body, line, plain) = row-OneLine v vs valid in
        let checked : validate_line_length (write_csv_row (v ∷ vs)) ≡ true =
          rw line (validate_line_length-line body plain) in
        let parsed : parse_csv_line (write_csv_row (v ∷ vs)) ≡ some (v ∷ vs) =
          ap parse_csv_line (sym (append-nil (write_csv_row (v ∷ vs))))
          ∙ parse_csv_line-write_csv_row v vs [] valid few in
        rw row (row-FileLine v vs valid few, rw (checked, parsed) accepted)

-- a file that begins with the table's header is accepted
pub ensure_data_file-header :
    (schema : TableSchema) (rest : Bytes)
    → 1 ≤ length schema.columns
    → length schema.columns ≤ max_columns
    → All IsHeading schema.columns
    → ensure_data_file schema (some (header_line schema.columns ++ rest))
      ≡ done (header_line schema.columns ++ rest)
unfolding ensure_data_file
ensure_data_file-header schema rest l u h =
    let (line, accepted) = header_line-FileLine schema l u h in
    rw (fgets-FileLine (header_line schema.columns) rest line, accepted)

start-prefix :
    (file : Bytes) → (more : Bytes) × (ensure_append_starts_on_new_line file ≡ file ++ more)
unfolding ensure_append_starts_on_new_line
start-prefix [] = ([], refl)
start-prefix (c ∷ cs) = elim (Bool-cases (ends_with_newline (c ∷ cs))) [
  | inl e ↦ ([], rw (e, append-nil))
  | inr e ↦ (b'\n' ∷ [], rw e)
]

-- For a table of one to 16 columns whose names need no quotes, an append succeeds when the file does not
-- exist or begins with the header, and it leaves a file that begins with the header: so does every later
-- append.
pub storage_append_row_total :
    (schema : TableSchema) (old : Option Bytes) (row_values : List Bytes)
    → 1 ≤ length schema.columns
    → length schema.columns ≤ max_columns
    → All IsHeading schema.columns
    → (rest : Bytes) → (old ≡ none) ⊎ (old ≡ some (header_line schema.columns ++ rest))
    → (more : Bytes) × (offset : ℕ) × (storage_append_row schema old row_values
        ≡ done (header_line schema.columns ++ more, offset))
unfolding storage_append_row ensure_data_file
storage_append_row_total schema old row_values l u h rest (inl e) =
    let header = header_line schema.columns in
    let (gap, start) = start-prefix header in
    (
      gap ++ write_csv_row row_values,
      length (ensure_append_starts_on_new_line header),
      rw (e, start, append_assoc header gap (write_csv_row row_values)),
    )
storage_append_row_total schema old row_values l u h rest (inr e) =
    let header = header_line schema.columns in
    let (gap, start) = start-prefix (header ++ rest) in
    (
      rest ++ (gap ++ write_csv_row row_values),
      length (ensure_append_starts_on_new_line (header ++ rest)),
      rw (e, ensure_data_file-header schema rest l u h, start)
          (ap (λ f. done (f, length ((header ++ rest) ++ gap)))
            (append_assoc (header ++ rest) gap (write_csv_row row_values)
              ∙ append_assoc header rest (gap ++ write_csv_row row_values))),
    )
