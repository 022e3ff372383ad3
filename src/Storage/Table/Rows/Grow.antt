-- ===== src/Storage/Table/Rows/Grow.antt =====
-- A row is appended to a table: the file, the keys and the index of the longer table.
use week7_02_sql_index.Prelude.{
  ℕ, ◌+◌, true, false, Option, none, some, List, [], ◌∷◌, ◌++◌, ◌≡◌, refl, ap, sym, ◌∙◌, length,
  length-append, append_assoc, append-nil, All, All-append, arith, Bool-cases, inl, inr, ℤ, eqb_ℤ,
}
use mathlib.Core.Path.{subst}
use week7_02_sql_index.Text.{Bytes}
use week7_02_sql_index.Sql.{TableSchema}
use week7_02_sql_index.Bptree.Node.{Entry}
use week7_02_sql_index.Bptree.Spec.{lookup, insert_sorted}
use week7_02_sql_index.Storage.Csv.Defs.{write_csv_row}
use week7_02_sql_index.Storage.Table.Defs.{
  done, header_line, ends_with_newline, ensure_data_file, ensure_append_starts_on_new_line,
  append_to, storage_append_row,
}
use week7_02_sql_index.Storage.Table.Append.{newline_last}
use week7_02_sql_index.Storage.Table.Header.{header_line-FileLine, ensure_data_file-header}
use week7_02_sql_index.Storage.Table.Rows.File.{IsTable, IsRow, rows_text, table_file, row_line}
use week7_02_sql_index.Storage.Table.Rows.Values.{int_at}
use week7_02_sql_index.Storage.Table.Rows.Keys.{
  DistinctInts, keys, index_rows, row_offset, first_of, lookup-index_rows,
}

-- text that is empty or ends a line
abbrev EndsLine : Bytes → Type 0
EndsLine text = (front : Bytes) × (text ≡ front ++ b'\n' ∷ [])

starts_here : (text : Bytes) → EndsLine text → ensure_append_starts_on_new_line text ≡ text
unfolding ensure_append_starts_on_new_line
starts_here [] e = refl
starts_here (c ∷ cs) (front, e) =
    let ends : ends_with_newline (c ∷ cs) ≡ true = ap ends_with_newline e ∙ newline_last front in
    rw ends refl

rows_text-append :
    (rows more : List (List Bytes)) → rows_text (rows ++ more) ≡ rows_text rows ++ rows_text more
rows_text-append [] more = refl
rows_text-append (row ∷ rows) more =
    ap (λ t. write_csv_row row ++ t) (rows_text-append rows more)
    ∙ sym (append_assoc (write_csv_row row) (rows_text rows) (rows_text more))

pub index_rows-snoc :
    (i start : ℕ) (rows : List (List Bytes)) (row : List Bytes) (es : List Entry)
    → index_rows i start (rows ++ row ∷ []) es
      ≡ insert_sorted (int_at i row) (start + length (rows_text rows)) (index_rows i start rows es)
index_rows-snoc i start [] row es =
    let same : start ≡ start + 0 = omega arith in ap (λ o. insert_sorted (int_at i row) o es) same
index_rows-snoc i start (r ∷ rows) row es =
    let next = start + length (write_csv_row r) in
    let same : next + length (rows_text rows) ≡ start + length (write_csv_row r ++ rows_text rows) =
      omega (arith, length-append (write_csv_row r) (rows_text rows)) in
    index_rows-snoc i next rows row (insert_sorted (int_at i r) start es)
    ∙ ap
        (λ o.
          insert_sorted (int_at i row) o
            (index_rows i next rows (insert_sorted (int_at i r) start es)))
        same

-- a key with no row is no row's key
unused-absent :
    (i : ℕ) (key : ℤ) (start : ℕ) (rows : List (List Bytes))
    → row_offset i key start rows ≡ none
    → All (λ j. eqb_ℤ j key ≡ false) (keys i rows)
unused-absent i key start [] e = tt
unused-absent i key start (row ∷ rows) e = elim (Bool-cases (eqb_ℤ (int_at i row) key)) [
  | inl same ↦ let some_none : ◌≡◌ {A = Option ℕ} (some start) none = rw same at e in cc
  | inr other ↦
      (other, unused-absent i key (start + length (write_csv_row row)) rows (rw other at e))
]

first_of-absent : (o p : Option ℕ) → first_of o p ≡ none → o ≡ none
first_of-absent none p e = refl
first_of-absent (some o) p e = cc

pub lookup-absent :
    (i : ℕ) (key : ℤ) (start : ℕ) (rows : List (List Bytes))
    → DistinctInts (keys i rows)
    → lookup key (index_rows i start rows []) ≡ none
    → All (λ j. eqb_ℤ j key ≡ false) (keys i rows)
lookup-absent i key start rows d e = unused-absent i key start rows (
    first_of-absent (row_offset i key start rows) none
      (sym (lookup-index_rows i key start rows [] d) ∙ e))

pub DistinctInts-snoc :
    (ks : List ℤ) (key : ℤ)
    → DistinctInts ks
    → All (λ j. eqb_ℤ j key ≡ false) ks
    → DistinctInts (ks ++ key ∷ [])
DistinctInts-snoc [] key d h = (tt, tt)
DistinctInts-snoc (k ∷ ks) key d h = (
  All-append (λ j. eqb_ℤ k j ≡ false) ks (key ∷ []) d.0 (h.0, tt),
  DistinctInts-snoc ks key d.1 h.1,
)

pub keys-snoc :
    (i : ℕ) (rows : List (List Bytes)) (row : List Bytes)
    → keys i (rows ++ row ∷ []) ≡ keys i rows ++ int_at i row ∷ []
keys-snoc i [] row = refl
keys-snoc i (r ∷ rows) row = ap (λ ks. int_at i r ∷ ks) (keys-snoc i rows row)

module _ (schema : TableSchema) (table : IsTable schema) where
  header-EndsLine : EndsLine (header_line schema.columns)
  header-EndsLine =
      let line =
        (header_line-FileLine schema table.some_column table.few_columns table.headings).0 in
      (line.0, line.1)

  rows_text-EndsLine :
      (before : Bytes) (rows : List (List Bytes))
      → EndsLine before
      → All (IsRow schema.columns) rows
      → EndsLine (before ++ rows_text rows)
  rows_text-EndsLine before [] e h = subst EndsLine (sym (append-nil before)) e
  rows_text-EndsLine before (row ∷ rows) e h =
      let line = (row_line schema table row h.0).0 in
      let ends : EndsLine (before ++ write_csv_row row) = (
        before ++ line.0,
        ap (λ t. before ++ t) line.1 ∙ sym (append_assoc before line.0 (b'\n' ∷ [])),
      ) in
      subst EndsLine (append_assoc before (write_csv_row row) (rows_text rows))
        (rows_text-EndsLine (before ++ write_csv_row row) rows ends h.1)

  table_file-snoc :
      (rows : List (List Bytes)) (row : List Bytes)
      → table_file schema rows ++ write_csv_row row ≡ table_file schema (rows ++ row ∷ [])
  table_file-snoc rows row =
      append_assoc (header_line schema.columns) (rows_text rows) (write_csv_row row)
      ∙ ap (λ t. header_line schema.columns ++ t)
          (ap (λ t. rows_text rows ++ t) (sym (append-nil (write_csv_row row)))
            ∙ sym (rows_text-append rows (row ∷ [])))

  -- An append to a table's file gives the file of the longer table, and the offset is the old file's length.
  pub storage_append_row-table_file :
      (rows : List (List Bytes)) (row : List Bytes)
      → All (IsRow schema.columns) rows
      → storage_append_row schema (some (table_file schema rows)) row
        ≡ done (table_file schema (rows ++ row ∷ []), length (table_file schema rows))
  unfolding storage_append_row
  storage_append_row-table_file rows row h =
      ap (λ f. append_to f row)
        (ensure_data_file-header schema (rows_text rows) table.some_column table.few_columns
          table.headings)
      ∙ ap (λ t. done (t ++ write_csv_row row, length t))
          (starts_here (table_file schema rows)
            (rows_text-EndsLine (header_line schema.columns) rows header-EndsLine h))
      ∙ ap (λ t. done (t, length (table_file schema rows))) (table_file-snoc rows row)

  -- The first append makes the file.
  pub storage_append_row-new_file :
      (row : List Bytes)
      → storage_append_row schema none row
        ≡ done (table_file schema (row ∷ []), length (table_file schema []))
  unfolding storage_append_row ensure_data_file
  storage_append_row-new_file row =
      ap (λ t. done (t ++ write_csv_row row, length t))
        (starts_here (header_line schema.columns) header-EndsLine)
      ∙ ap (λ t. done (header_line schema.columns ++ t, length (header_line schema.columns)))
          (sym (append-nil (write_csv_row row)))
      ∙ ap (λ t. done (table_file schema (row ∷ []), length t))
          (sym (append-nil (header_line schema.columns)))
