-- ===== src/Storage/Table/Rows/Ranges.antt =====
-- The rows of a range scan: in the order of their keys, at the offsets of the index.
use week7_02_sql_index.Prelude.{
  ℕ, Bool, true, false, some, List, [], ◌∷◌, ◌++◌, ◌≡◌, refl, ap, sym, ◌∙◌, if◌then◌else◌, length,
  length-append, append_assoc, append-nil, All, Bool-cases, inl, inr, ℤ, ltb_ℤ,
}
use mathlib.Core.Path.{subst}
use week7_02_sql_index.Text.{Bytes}
use week7_02_sql_index.Sql.{TableSchema, file_unopened, header_unreadable}
use week7_02_sql_index.Bptree.Node.{Entry, entry}
use week7_02_sql_index.Bptree.Spec.{insert_sorted, greater_than, less_than}
use week7_02_sql_index.Storage.Csv.Defs.{write_csv_row}
use week7_02_sql_index.Storage.Table.Defs.{
  done, header_line, selected_text, print_row_from_open_file,
}
use week7_02_sql_index.Storage.Table.Scan.{
  printed, refused, print_first, print_selected_header, print_offsets,
  storage_print_rows_at_offsets,
}
use week7_02_sql_index.Storage.Table.Rows.File.{
  IsTable, IsRow, rows_text, table_file, after_header-table_file,
}
use week7_02_sql_index.Storage.Table.Rows.Print.{rows_out}
use week7_02_sql_index.Storage.Table.Rows.Values.{int_at}
use week7_02_sql_index.Storage.Table.Rows.Keys.{index_rows}
use week7_02_sql_index.Storage.Table.Rows.Offsets.{rows_where, print_row-before}
use week7_02_sql_index.Storage.Table.Rows.Sorted.{sort_in, sorted_rows, rows_where-sorted_rows}

abbrev pub offsets_of : List Entry → List ℕ
offsets_of [] = []
offsets_of (e ∷ es) = e.offset ∷ offsets_of es

module _ (schema : TableSchema) (table : IsTable schema) (selected_indices : List ℕ) (i : ℕ) where
  -- Each entry has the key of its row, and the row is printed at the entry's offset.
  abbrev pub LeadTo : Bytes → List Entry → List (List Bytes) → Type 0
  LeadTo file [] [] = Unit
  LeadTo file [] (r ∷ rs) = ⊥
  LeadTo file (e ∷ es) [] = ⊥
  LeadTo file (e ∷ es) (r ∷ rs) =
      (e.key ≡ int_at i r)
      × (print_row_from_open_file file schema e.offset selected_indices
          ≡ done (selected_text r selected_indices))
      × LeadTo file es rs

  LeadTo-insert_sorted :
      (file : Bytes) (o : ℕ) (row : List Bytes) (es : List Entry) (rs : List (List Bytes))
      → print_row_from_open_file file schema o selected_indices
        ≡ done (selected_text row selected_indices)
      → LeadTo file es rs
      → LeadTo file (insert_sorted (int_at i row) o es) (sort_in i row rs)
  LeadTo-insert_sorted file o row [] [] p h = (refl, p, tt)
  LeadTo-insert_sorted file o row [] (r ∷ rs) p h = absurd h
  LeadTo-insert_sorted file o row (e ∷ es) [] p h = absurd h
  LeadTo-insert_sorted file o row (e ∷ es) (r ∷ rs) p h =
      by_test (ltb_ℤ e.key (int_at i row)) (ltb_ℤ (int_at i r) (int_at i row))
        (ap (λ k. ltb_ℤ k (int_at i row)) h.0) (LeadTo-insert_sorted file o row es rs p h.2)
    where
      by_test :
          (b d : Bool)
          → b ≡ d
          → LeadTo file (insert_sorted (int_at i row) o es) (sort_in i row rs)
          → LeadTo file
              (if b then e ∷ insert_sorted (int_at i row) o es else entry (int_at i row) o ∷ e ∷ es)
              (if d then r ∷ sort_in i row rs else row ∷ r ∷ rs)
      by_test true true same later = (h.0, h.1, later)
      by_test true false same later = cc
      by_test false true same later = cc
      by_test false false same later = (refl, p, h)

  LeadTo-index_rows :
      (file before : Bytes) (rows : List (List Bytes)) (es : List Entry)
      (sorted : List (List Bytes))
      → file ≡ before ++ rows_text rows
      → All (IsRow schema.columns) rows
      → LeadTo file es sorted
      → LeadTo file (index_rows i (length before) rows es) (sorted_rows i rows sorted)
  LeadTo-index_rows file before [] es sorted f h l = l
  LeadTo-index_rows file before (row ∷ rows) es sorted f h l =
      let shown = print_row-before schema table selected_indices before row (rows_text rows) h.0 in
      let split = append_assoc before (write_csv_row row) (rows_text rows) in
      subst
        (λ n.
          LeadTo file (index_rows i n rows (insert_sorted (int_at i row) (length before) es))
            (sorted_rows i rows (sort_in i row sorted)))
        (length-append before (write_csv_row row))
        (LeadTo-index_rows file (before ++ write_csv_row row) rows
          (insert_sorted (int_at i row) (length before) es) (sort_in i row sorted) (f ∙ sym split)
          h.1 (LeadTo-insert_sorted file (length before) row es sorted (rw f shown) l))

  LeadTo-greater_than :
      (file : Bytes) (key : ℤ) (es : List Entry) (rs : List (List Bytes))
      → LeadTo file es rs
      → LeadTo file (greater_than key es) (rows_where (λ v. ltb_ℤ key v) i rs)
  LeadTo-greater_than file key [] [] h = tt
  LeadTo-greater_than file key [] (r ∷ rs) h = absurd h
  LeadTo-greater_than file key (e ∷ es) [] h = absurd h
  LeadTo-greater_than file key (e ∷ es) (r ∷ rs) h =
      let rest = LeadTo-greater_than file key es rs h.2 in
      elim (Bool-cases (ltb_ℤ key (int_at i r))) [
        | inl within ↦
            let same : ltb_ℤ key e.key ≡ true = ap (ltb_ℤ key) h.0 ∙ within in
            rw (within, same) (h.0, h.1, rest)
        | inr beyond ↦
            let same : ltb_ℤ key e.key ≡ false = ap (ltb_ℤ key) h.0 ∙ beyond in
            rw (beyond, same) rest
      ]

  LeadTo-less_than :
      (file : Bytes) (key : ℤ) (es : List Entry) (rs : List (List Bytes))
      → LeadTo file es rs
      → LeadTo file (less_than key es) (rows_where (λ v. ltb_ℤ v key) i rs)
  LeadTo-less_than file key [] [] h = tt
  LeadTo-less_than file key [] (r ∷ rs) h = absurd h
  LeadTo-less_than file key (e ∷ es) [] h = absurd h
  LeadTo-less_than file key (e ∷ es) (r ∷ rs) h =
      let rest = LeadTo-less_than file key es rs h.2 in
      elim (Bool-cases (ltb_ℤ (int_at i r) key)) [
        | inl within ↦
            let same : ltb_ℤ e.key key ≡ true = ap (λ k. ltb_ℤ k key) h.0 ∙ within in
            rw (within, same) (h.0, h.1, rest)
        | inr beyond ↦
            let same : ltb_ℤ e.key key ≡ false = ap (λ k. ltb_ℤ k key) h.0 ∙ beyond in
            rw (beyond, same) rest
      ]

  print_offsets-LeadTo :
      (file : Bytes) (es : List Entry) (rs : List (List Bytes))
      → LeadTo file es rs
      → print_offsets schema selected_indices file (offsets_of es)
        ≡ printed (rows_out selected_indices rs)
  unfolding print_offsets
  print_offsets-LeadTo file [] [] h = refl
  print_offsets-LeadTo file [] (r ∷ rs) h = absurd h
  print_offsets-LeadTo file (e ∷ es) [] h = absurd h
  print_offsets-LeadTo file (e ∷ es) (r ∷ rs) h =
      rw (h.1, print_offsets, print_offsets-LeadTo file es rs h.2) refl

  -- `storage_print_rows_at_offsets` shows the header and the rows that the entries lead to, in their order.
  pub storage_print_rows_at_offsets-LeadTo :
      (rows : List (List Bytes)) (es : List Entry) (rs : List (List Bytes))
      → All (IsRow schema.columns) rows
      → LeadTo (table_file schema rows) es rs
      → storage_print_rows_at_offsets schema selected_indices
          (some (table_file schema rows))
          (offsets_of es)
        ≡ printed (print_selected_header schema selected_indices ++ rows_out selected_indices rs)
  unfolding storage_print_rows_at_offsets
  storage_print_rows_at_offsets-LeadTo rows [] [] h l =
      ap printed (sym (append-nil (print_selected_header schema selected_indices)))
  storage_print_rows_at_offsets-LeadTo rows [] (r ∷ rs) h l = absurd l
  storage_print_rows_at_offsets-LeadTo rows (e ∷ es) rs h l =
      ap (print_first (print_selected_header schema selected_indices)) (
        after_header-table_file schema table (refused file_unopened) (refused header_unreadable)
          refused
          (λ line lines.
            print_offsets schema selected_indices (table_file schema rows) (offsets_of (e ∷ es)))
          rows h
        ∙ print_offsets-LeadTo (table_file schema rows) (e ∷ es) rs l)

  -- the entries of a table's index lead to its rows in the order of their keys
  pub index-LeadTo :
      (rows : List (List Bytes))
      → All (IsRow schema.columns) rows
      → LeadTo
          (table_file schema rows)
          (index_rows i (length (header_line schema.columns)) rows [])
          (sorted_rows i rows [])
  index-LeadTo rows h =
      LeadTo-index_rows (table_file schema rows) (header_line schema.columns) rows [] [] refl h tt

  -- The entries above a key lead to the rows above it, and so below.
  pub above-LeadTo :
      (key : ℤ) (rows : List (List Bytes))
      → All (IsRow schema.columns) rows
      → LeadTo
          (table_file schema rows)
          (greater_than key (index_rows i (length (header_line schema.columns)) rows []))
          (sorted_rows i (rows_where (λ v. ltb_ℤ key v) i rows) [])
  above-LeadTo key rows h =
      subst
        (LeadTo (table_file schema rows)
          (greater_than key (index_rows i (length (header_line schema.columns)) rows [])))
        (rows_where-sorted_rows i (λ v. ltb_ℤ key v) rows [] tt)
        (LeadTo-greater_than (table_file schema rows) key _ _ (index-LeadTo rows h))

  pub below-LeadTo :
      (key : ℤ) (rows : List (List Bytes))
      → All (IsRow schema.columns) rows
      → LeadTo
          (table_file schema rows)
          (less_than key (index_rows i (length (header_line schema.columns)) rows []))
          (sorted_rows i (rows_where (λ v. ltb_ℤ v key) i rows) [])
  below-LeadTo key rows h =
      subst
        (LeadTo (table_file schema rows)
          (less_than key (index_rows i (length (header_line schema.columns)) rows [])))
        (rows_where-sorted_rows i (λ v. ltb_ℤ v key) rows [] tt)
        (LeadTo-less_than (table_file schema rows) key _ _ (index-LeadTo rows h))
