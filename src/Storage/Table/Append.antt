-- ===== src/Storage/Table/Append.antt =====
-- The offset of an appended row leads back to it.
use week7_02_sql_index.Prelude.{
  ℕ, zero, suc, ◌-◌, ◌≤◌, ◌<◌, Bool, true, false, not, ◌&&◌, Option, some, List, [], ◌∷◌, ◌++◌, ◌≡◌,
  refl, ap, sym, ◌∙◌, ◌==◌, length, length-append, drop, append_assoc, append-nil, All, All-append,
  All-imp, arith, if-either,
}
use week7_02_sql_index.Text.{Bytes, span_whole}
use week7_02_sql_index.Sql.{TableSchema, max_columns}
use week7_02_sql_index.Storage.Csv.Defs.{
  ends_row, needs_quote, escaped, write_csv_field, write_more, write_csv_row, parse_csv_line,
  max_row_len,
}
use week7_02_sql_index.Storage.Csv.RoundTrip.{IsValue, parse_csv_line-write_csv_row}
use week7_02_sql_index.Storage.Csv.Bounds.{write_csv_row-bounds}
use week7_02_sql_index.Storage.Table.Defs.{
  Outcome, failed, done, take_line, fgets, is_byte, ends_with_newline, validate_line_length,
  ensure_data_file, ensure_append_starts_on_new_line, append_to, storage_append_row, selected_text,
  print_row_from_open_file, counted, read_row,
}

abbrev pub OneLine : Bytes → Type 0
OneLine line = (body : Bytes) × (line ≡ body ++ b'\n' ∷ []) × All (λ c. ends_row c ≡ false) body

escaped-OneLine :
    (v : Bytes) → All (λ c. ends_row c ≡ false) v → All (λ c. ends_row c ≡ false) (escaped v)
unfolding escaped
escaped-OneLine [] h = tt
escaped-OneLine (c ∷ v) h =
    if-either (All (λ c. ends_row c ≡ false)) (c == b'"') _ _
      (λ e. (refl, (h.0, escaped-OneLine v h.1))) (λ e. (h.0, escaped-OneLine v h.1))

field-OneLine :
    (v : Bytes)
    → All (λ c. ends_row c ≡ false) v
    → All (λ c. ends_row c ≡ false) (write_csv_field v)
unfolding write_csv_field
field-OneLine v h =
    if-either (All (λ c. ends_row c ≡ false)) (needs_quote v) _ _
      (λ e. (
        refl,
        All-append (λ c. ends_row c ≡ false) (escaped v) (b'"' ∷ []) (escaped-OneLine v h)
            (refl, tt),
      ))
      (λ e. h)

more-OneLine : (vs : List Bytes) → All IsValue vs → OneLine (write_more vs)
unfolding write_more
more-OneLine [] h = ([], refl, tt)
more-OneLine (v ∷ vs) h =
    let (body, e, plain) = more-OneLine vs h.1 in
    (
      b',' ∷ (write_csv_field v ++ body),
      ap (λ us. b',' ∷ us)
          (ap (λ us. write_csv_field v ++ us) e
            ∙ sym (append_assoc (write_csv_field v) body (b'\n' ∷ []))),
      (
        refl,
        All-append (λ c. ends_row c ≡ false) (write_csv_field v) body (field-OneLine v h.0.0) plain,
      ),
    )

pub row-OneLine :
    (v : Bytes) (vs : List Bytes) → All IsValue (v ∷ vs) → OneLine (write_csv_row (v ∷ vs))
unfolding write_csv_row
row-OneLine v vs h =
    let (body, e, plain) = more-OneLine vs h.1 in
    (
      write_csv_field v ++ body,
      ap (λ us. write_csv_field v ++ us) e
          ∙ sym (append_assoc (write_csv_field v) body (b'\n' ∷ [])),
      All-append (λ c. ends_row c ≡ false) (write_csv_field v) body (field-OneLine v h.0.0) plain,
    )

pub take_line-line :
    (n : ℕ) (body rest : Bytes)
    → All (λ c. ends_row c ≡ false) body
    → length body < n
    → take_line n (body ++ b'\n' ∷ rest) ≡ body ++ b'\n' ∷ []
unfolding take_line
take_line-line zero body rest h l = absurd (omega arith)
take_line-line (suc n) [] rest h l = refl
take_line-line (suc n) (c ∷ body) rest h l =
    let no_newline : (c == b'\n') ≡ false = ground arith in
    rw (no_newline, take_line-line n body rest h.1 (omega arith))

pub newline_last : (body : Bytes) → ends_with_newline (body ++ b'\n' ∷ []) ≡ true
newline_last [] = refl
newline_last (c ∷ []) = refl
newline_last (c ∷ d ∷ cs) = newline_last (d ∷ cs)

not-both : (b : Bool) → not (b && false) ≡ true
not-both true = refl
not-both false = refl

pub validate_line_length-line :
    (body : Bytes)
    → All (λ c. ends_row c ≡ false) body
    → validate_line_length (body ++ b'\n' ∷ []) ≡ true
unfolding validate_line_length
validate_line_length-line body h =
    let bytes : All (λ c. is_byte c ≡ true) (body ++ b'\n' ∷ []) =
      All-append (λ c. is_byte c ≡ true) body (b'\n' ∷ [])
        (All-imp (λ c e. ground (arith, e)) body h) (refl, tt) in
    rw (span_whole is_byte (body ++ b'\n' ∷ []) bytes, newline_last body)
      (not-both (length (body ++ b'\n' ∷ []) == max_row_len - 1))

pub drop_whole : (xs ys : Bytes) → drop (length xs) (xs ++ ys) ≡ ys
drop_whole [] ys = refl
drop_whole (x ∷ xs) ys = drop_whole xs ys

counted-row :
    (schema : TableSchema) (values : List Bytes)
    → length values ≡ length schema.columns
    → counted schema (some values) ≡ done values
counted-row schema values e =
    let same : (length values == length schema.columns) ≡ true = ground arith in rw same

-- a line that one call of `fgets` reads
abbrev pub FileLine : Bytes → Type 0
FileLine line =
    (body : Bytes) × (line ≡ body ++ b'\n' ∷ [])
    × All (λ c. ends_row c ≡ false) body
    × (length body < max_row_len - 1)

pub row-FileLine :
    (v : Bytes) (vs : List Bytes)
    → All IsValue (v ∷ vs)
    → length (v ∷ vs) ≤ max_columns
    → FileLine (write_csv_row (v ∷ vs))
row-FileLine v vs h l =
    let (body, line, plain) = row-OneLine v vs h in
    let fits : length (write_csv_row (v ∷ vs)) < max_row_len =
      write_csv_row-bounds v vs (All-imp (λ w k. k.1) (v ∷ vs) h) l in
    (body, line, plain, omega (arith, fits, ap length line, length-append body (b'\n' ∷ [])))

pub fgets-FileLine : (line rest : Bytes) → FileLine line → fgets (line ++ rest) ≡ some line
unfolding fgets
fgets-FileLine line rest (body, e, plain, short) =
    rw (e, append_assoc body (b'\n' ∷ []) rest) (by_body body plain short)
  where
    by_body :
        (body : Bytes)
        → All (λ c. ends_row c ≡ false) body
        → length body < max_row_len - 1
        → fgets (body ++ b'\n' ∷ rest) ≡ some (body ++ b'\n' ∷ [])
    by_body [] h l = ap some (take_line-line (max_row_len - 1) [] rest h l)
    by_body (c ∷ body) h l = ap some (take_line-line (max_row_len - 1) (c ∷ body) rest h l)

pub read_row-write_csv_row :
    (schema : TableSchema) (v : Bytes) (vs : List Bytes)
    → All IsValue (v ∷ vs)
    → length (v ∷ vs) ≡ length schema.columns
    → length (v ∷ vs) ≤ max_columns
    → read_row schema (write_csv_row (v ∷ vs)) ≡ done (v ∷ vs)
unfolding read_row
read_row-write_csv_row schema v vs h e l =
    let (body, line, plain) = row-OneLine v vs h in
    let checked : validate_line_length (write_csv_row (v ∷ vs)) ≡ true =
      rw line (validate_line_length-line body plain) in
    let parsed : parse_csv_line (write_csv_row (v ∷ vs)) ≡ some (v ∷ vs) =
      ap parse_csv_line (sym (append-nil (write_csv_row (v ∷ vs))))
      ∙ parse_csv_line-write_csv_row v vs [] h l in
    rw (checked, parsed) (counted-row schema (v ∷ vs) e)

-- A row's line, at any offset, is printed.
print_row-line :
    (schema : TableSchema) (before v : Bytes) (vs : List Bytes) (selected_indices : List ℕ)
    → All IsValue (v ∷ vs)
    → length (v ∷ vs) ≡ length schema.columns
    → length (v ∷ vs) ≤ max_columns
    → print_row_from_open_file
        (before ++ write_csv_row (v ∷ vs))
        schema
        (length before)
        selected_indices
      ≡ done (selected_text (v ∷ vs) selected_indices)
unfolding print_row_from_open_file
print_row-line schema before v vs selected_indices h e l =
    let line = write_csv_row (v ∷ vs) in
    rw (
      drop_whole before line,
      ap fgets (sym (append-nil line)) ∙ fgets-FileLine line [] (row-FileLine v vs h l),
      read_row-write_csv_row schema v vs h e l,
    )

Appended : List Bytes → Outcome (Bytes × ℕ) → Type 0
Appended row (failed e) = Unit
Appended row (done (file, offset)) =
    (before : Bytes) × (file ≡ before ++ write_csv_row row) × (offset ≡ length before)

append_to-Appended : (r : Outcome Bytes) (row : List Bytes) → Appended row (append_to r row)
unfolding Appended
append_to-Appended (failed e) row = tt
append_to-Appended (done file) row = (ensure_append_starts_on_new_line file, refl, refl)

-- When a row of one to 16 values of at most 63 bytes, without NUL and line breaks and as many as the
-- table has columns, has been appended, printing the row at the offset that the append gave prints the
-- selected values of that row.
pub storage_append_row-print_row_from_open_file :
    (schema : TableSchema) (file : Option Bytes) (v : Bytes) (vs : List Bytes) (file' : Bytes)
    (offset : ℕ) (selected_indices : List ℕ)
    → All IsValue (v ∷ vs)
    → length (v ∷ vs) ≡ length schema.columns
    → length (v ∷ vs) ≤ max_columns
    → storage_append_row schema file (v ∷ vs) ≡ done (file', offset)
    → print_row_from_open_file file' schema offset selected_indices
      ≡ done (selected_text (v ∷ vs) selected_indices)
unfolding storage_append_row Appended
storage_append_row-print_row_from_open_file schema file v vs file' offset selected_indices h e l
      appended =
    let shape : Appended (v ∷ vs) (storage_append_row schema file (v ∷ vs)) =
      append_to-Appended (ensure_data_file schema file) (v ∷ vs) in
    let (before, whole, start) = rw appended at shape in
    rw (whole, start) (print_row-line schema before v vs selected_indices h e l)
