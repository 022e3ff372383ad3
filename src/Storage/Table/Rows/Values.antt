-- ===== src/Storage/Table/Rows/Values.antt =====
-- What the searches for an integer find in a table's rows.
use week7_02_sql_index.Prelude.{
  ℕ, Bool, true, false, ◌||◌, Option, none, some, List, [], ◌∷◌, ◌≡◌, ◌≢◌, refl, ap, sym, ◌∙◌,
  if◌then◌else◌, map, get_elem?, get_or, All, Any, arith, inl, inr, ℤ, pos, ltb_ℤ, eqb_ℤ, ◌≤ℤ◌,
}
use mathlib.Core.Path.{subst}
use week7_02_sql_index.Text.{Bytes}
use week7_02_sql_index.Sql.{DataType, ColumnSchema, TableSchema}
use week7_02_sql_index.Number.Defs.{read_int}
use week7_02_sql_index.Storage.Csv.Defs.{write_csv_row}
use week7_02_sql_index.Storage.Table.Defs.{Outcome, failed, done}
use week7_02_sql_index.Storage.Table.Scan.{
  larger, max_value, value_in, int_in_line, find_max, storage_find_max_int_value, find_value,
  storage_int_value_exists,
}
use week7_02_sql_index.Storage.Table.Rows.File.{
  IsTable, IsRow, table_file, row_line, after_header-table_file,
}
use week7_02_sql_index.Storage.Table.Rows.Print.{IsRow-Readable}

abbrev pub or_zero : Option ℤ → ℤ
or_zero none = pos 0
or_zero (some v) = v

-- the integer in a row's column
abbrev pub int_at : ℕ → List Bytes → ℤ
int_at i row = or_zero (read_int (get_or row i []))

abbrev pub IsIntColumn : TableSchema → ℕ → Type 0
IsIntColumn schema i =
    (c : ColumnSchema) × (get_elem? schema.columns i ≡ some c) × (c.type ≡ DataType.int)

or_zero-some : (v : Option ℤ) → v ≢ none → v ≡ some (or_zero v)
or_zero-some none h = absurd (h refl)
or_zero-some (some v) h = refl

-- the largest of a number and some others
abbrev pub greatest : ℤ → List ℤ → ℤ
greatest best [] = best
greatest best (k ∷ ks) = greatest (if ltb_ℤ best k then k else best) ks

abbrev pub larger_all : Option ℤ → List ℤ → Option ℤ
larger_all best [] = best
larger_all best (k ∷ ks) = larger_all (larger best k) ks

pub larger_all-some : (best : ℤ) (ks : List ℤ) → larger_all (some best) ks ≡ some (greatest best ks)
larger_all-some best [] = refl
larger_all-some best (k ∷ ks) =
    if-some (ltb_ℤ best k) ∙ larger_all-some (if ltb_ℤ best k then k else best) ks
  where
    if-some :
        (b : Bool)
        → larger_all (if b then some k else some best) ks
          ≡ larger_all (some (if b then k else best)) ks
    if-some true = refl
    if-some false = refl

-- 0 without numbers, else the largest of them
abbrev pub IsLargest : ℤ → List ℤ → Type 0
IsLargest m [] = m ≡ pos 0
IsLargest m (k ∷ ks) = All (λ j. j ≤ℤ m) (k ∷ ks) × Any (λ j. m ≡ j) (k ∷ ks)

greatest-upper :
    (best : ℤ) (ks : List ℤ) → (best ≤ℤ greatest best ks) × All (λ j. j ≤ℤ greatest best ks) ks
greatest-upper best [] = (omega arith, tt)
greatest-upper best (k ∷ ks) =
    let next = if ltb_ℤ best k then k else best in
    let (above, others) = greatest-upper next ks in
    (ground (arith, above), (ground (arith, above), others))

greatest-Any : (best : ℤ) (ks : List ℤ) → Any (λ j. greatest best ks ≡ j) (best ∷ ks)
greatest-Any best [] = inl refl
greatest-Any best (k ∷ ks) =
    by_test (ltb_ℤ best k) (greatest-Any (if ltb_ℤ best k then k else best) ks)
  where
    by_test :
        {m : ℤ} (b : Bool)
        → Any (λ j. m ≡ j) ((if b then k else best) ∷ ks)
        → Any (λ j. m ≡ j) (best ∷ k ∷ ks)
    by_test true a = inr a
    by_test false (inl e) = inl e
    by_test false (inr a) = inr (inr a)

pub max_value-IsLargest : (ks : List ℤ) → IsLargest (max_value (larger_all none ks)) ks
max_value-IsLargest [] = refl
max_value-IsLargest (k ∷ ks) =
    subst (λ m. IsLargest m (k ∷ ks)) (sym (ap max_value (larger_all-some k ks)))
      ((greatest-upper k ks), greatest-Any k ks)

pub int_at-readable :
    (schema : TableSchema) (i : ℕ) (row : List Bytes)
    → IsIntColumn schema i
    → IsRow schema.columns row
    → read_int (get_or row i []) ≡ some (int_at i row)
int_at-readable schema i row (c, at, int) h =
    or_zero-some (read_int (get_or row i []))
      (rw int at (IsRow-Readable schema.columns row i c h at))

-- whether a row has the integer in its column
abbrev pub has_int : ℕ → ℤ → List (List Bytes) → Bool
has_int i target [] = false
has_int i target (row ∷ rows) = eqb_ℤ (int_at i row) target || has_int i target rows

module _ (schema : TableSchema) (table : IsTable schema) (i : ℕ) (int : IsIntColumn schema i) where
  value_in-some :
      (row : List Bytes) (v : ℤ)
      → read_int (get_or row i []) ≡ some v
      → value_in schema i (done row) ≡ done v
  value_in-some row v e = rw (value_in, e) refl

  pub int_in_line-row :
      (row : List Bytes)
      → IsRow schema.columns row
      → int_in_line schema i (write_csv_row row) ≡ done (int_at i row)
  int_in_line-row row h =
      ap (value_in schema i) (row_line schema table row h).1
      ∙ value_in-some row (int_at i row) (int_at-readable schema i row int h)

  find_max-rows :
      (best : Option ℤ) (rows : List (List Bytes))
      → All (IsRow schema.columns) rows
      → find_max schema i best (map write_csv_row rows)
        ≡ done (max_value (larger_all best (map (int_at i) rows)))
  unfolding find_max
  find_max-rows best [] h = refl
  find_max-rows best (row ∷ rows) h =
      rw (int_in_line-row row h.0, find_max, find_max-rows (larger best (int_at i row)) rows h.1)

  -- `storage_find_max_int_value` finds the largest integer of a column, and 0 in a table without rows.
  pub storage_find_max_int_value-rows :
      (rows : List (List Bytes))
      → All (IsRow schema.columns) rows
      → (m : ℤ) × (storage_find_max_int_value schema i (some (table_file schema rows)) ≡ done m)
        × IsLargest m (map (int_at i) rows)
  unfolding storage_find_max_int_value
  storage_find_max_int_value-rows rows h = (
    max_value (larger_all none (map (int_at i) rows)),
    rw (after_header-table_file schema table _ _ failed _ rows h, find_max-rows none rows h),
    max_value-IsLargest (map (int_at i) rows),
  )

  find_value-rows :
      (target : ℤ) (rows : List (List Bytes))
      → All (IsRow schema.columns) rows
      → find_value schema i target (map write_csv_row rows) ≡ done (has_int i target rows)
  unfolding find_value
  find_value-rows target [] h = refl
  find_value-rows target (row ∷ rows) h =
      rw (int_in_line-row row h.0, find_value)
        (by_test (eqb_ℤ (int_at i row) target) (find_value-rows target rows h.1))
    where
      by_test :
          {o : Outcome Bool} (b : Bool)
          → o ≡ done (has_int i target rows)
          → elim b [ true ↦ done true | false ↦ o ] ≡ done (b || has_int i target rows)
      by_test true e = refl
      by_test false e = e

  -- `storage_int_value_exists` answers whether some row has the integer in its column.
  pub storage_int_value_exists-rows :
      (target : ℤ) (rows : List (List Bytes))
      → All (IsRow schema.columns) rows
      → storage_int_value_exists schema i target (some (table_file schema rows))
        ≡ done (has_int i target rows)
  unfolding storage_int_value_exists
  storage_int_value_exists-rows target rows h =
      rw (after_header-table_file schema table _ _ failed _ rows h, find_value-rows target rows h)
