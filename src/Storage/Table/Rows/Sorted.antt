-- ===== src/Storage/Table/Rows/Sorted.antt =====
-- Rows sorted by the integers in a column.
use week7_02_sql_index.Prelude.{
  ℕ, Bool, true, false, List, [], ◌∷◌, ◌≡◌, refl, ap, ◌∙◌, if◌then◌else◌, All, All-imp, arith,
  Bool-cases, inl, inr, ℤ, ltb_ℤ, ◌≤ℤ◌,
}
use week7_02_sql_index.Text.{Bytes}
use week7_02_sql_index.Storage.Table.Rows.Values.{int_at}
use week7_02_sql_index.Storage.Table.Rows.Offsets.{rows_where}

module _ (i : ℕ) where
  -- a row at its place among rows whose integers in a column ascend
  abbrev pub sort_in : List Bytes → List (List Bytes) → List (List Bytes)
  sort_in row [] = row ∷ []
  sort_in row (r ∷ rs) =
      let later = sort_in row rs in
      if ltb_ℤ (int_at i r) (int_at i row) then r ∷ later else row ∷ r ∷ rs

  abbrev pub sorted_rows : List (List Bytes) → List (List Bytes) → List (List Bytes)
  sorted_rows [] sorted = sorted
  sorted_rows (row ∷ rows) sorted = sorted_rows rows (sort_in row sorted)

  abbrev From : List Bytes → List (List Bytes) → Type 0
  From row rows = All (λ (r : List Bytes). int_at i row ≤ℤ int_at i r) rows

  abbrev pub IsAscending : List (List Bytes) → Type 0
  IsAscending [] = Unit
  IsAscending (r ∷ rs) = From r rs × IsAscending rs

  From-sort_in :
      (low row : List Bytes) (rs : List (List Bytes))
      → int_at i low ≤ℤ int_at i row
      → From low rs
      → From low (sort_in row rs)
  From-sort_in low row [] le h = (le, tt)
  From-sort_in low row (r ∷ rs) le h = elim (Bool-cases (ltb_ℤ (int_at i r) (int_at i row))) [
    | inl below ↦ rw below (h.0, From-sort_in low row rs le h.1)
    | inr above ↦ rw above (le, (h.0, h.1))
  ]

  pub sort_in-IsAscending :
      (row : List Bytes) (rs : List (List Bytes)) → IsAscending rs → IsAscending (sort_in row rs)
  sort_in-IsAscending row [] h = (tt, tt)
  sort_in-IsAscending row (r ∷ rs) h = elim (Bool-cases (ltb_ℤ (int_at i r) (int_at i row))) [
    | inl below ↦
        rw below (From-sort_in r row rs (ground (arith, below)) h.0, sort_in-IsAscending row rs h.1)
    | inr above ↦
        let first : int_at i row ≤ℤ int_at i r = ground (arith, above) in
        rw above ((first, All-imp (λ x le. omega (arith, le, first)) rs h.0), (h.0, h.1))
  ]

  -- in front of rows that are not below it
  sort_in-front :
      (row : List Bytes) (rs : List (List Bytes)) → From row rs → sort_in row rs ≡ row ∷ rs
  sort_in-front row [] h = refl
  sort_in-front row (r ∷ rs) h =
      let above : ltb_ℤ (int_at i r) (int_at i row) ≡ false = ground (arith, h.0) in rw above refl

  From-rows_where :
      (test : ℤ → Bool) (row : List Bytes) (rs : List (List Bytes))
      → From row rs
      → From row (rows_where test i rs)
  From-rows_where test row [] h = tt
  From-rows_where test row (r ∷ rs) h = elim (Bool-cases (test (int_at i r))) [
    | inl e ↦ rw e (h.0, From-rows_where test row rs h.1)
    | inr e ↦ rw e (From-rows_where test row rs h.1)
  ]

  rows_where-sort_in :
      (test : ℤ → Bool) (row : List Bytes) (rs : List (List Bytes))
      → IsAscending rs
      → rows_where test i (sort_in row rs)
        ≡ (if test (int_at i row) then sort_in row (rows_where test i rs) else rows_where test i rs)
  rows_where-sort_in test row [] h = refl
  rows_where-sort_in test row (r ∷ rs) h = elim (Bool-cases (ltb_ℤ (int_at i r) (int_at i row))) [
    | inl below ↦ rw below (
        rw (rows_where-sort_in test row rs h.1)
          (by_tests (test (int_at i row)) (test (int_at i r)) below))
    | inr above ↦
        let first : int_at i row ≤ℤ int_at i r = ground (arith, above) in
        let all : From row (r ∷ rs) = (first, All-imp (λ x le. omega (arith, le, first)) rs h.0) in
        let front =
          sort_in-front row (rows_where test i (r ∷ rs)) (From-rows_where test row (r ∷ rs) all) in
        rw (above, front) refl
  ]
    where
      by_tests :
          (b d : Bool)
          → ltb_ℤ (int_at i r) (int_at i row) ≡ true
          → (let rest = (if b then sort_in row (rows_where test i rs) else rows_where test i rs) in
              if d then r ∷ rest else rest)
            ≡ (let rest = rows_where test i rs in
                if b
                then sort_in row (if d then r ∷ rest else rest)
                else (if d then r ∷ rest else rest))
      by_tests true true below = rw below refl
      by_tests true false below = refl
      by_tests false true below = refl
      by_tests false false below = refl

  -- Sorting and selecting may change places.
  pub rows_where-sorted_rows :
      (test : ℤ → Bool) (rows sorted : List (List Bytes))
      → IsAscending sorted
      → rows_where test i (sorted_rows rows sorted)
        ≡ sorted_rows (rows_where test i rows) (rows_where test i sorted)
  rows_where-sorted_rows test [] sorted h = refl
  rows_where-sorted_rows test (row ∷ rows) sorted h =
      rows_where-sorted_rows test rows (sort_in row sorted) (sort_in-IsAscending row sorted h)
      ∙ ap (sorted_rows (rows_where test i rows)) (rows_where-sort_in test row sorted h)
      ∙ by_test (test (int_at i row))
    where
      by_test :
          (b : Bool)
          → sorted_rows
              (rows_where test i rows)
              (if b then sort_in row (rows_where test i sorted) else rows_where test i sorted)
            ≡ sorted_rows
                (let rest = rows_where test i rows in if b then row ∷ rest else rest)
                (rows_where test i sorted)
      by_test true = refl
      by_test false = refl

  pub sorted_rows-IsAscending :
      (rows sorted : List (List Bytes)) → IsAscending sorted → IsAscending (sorted_rows rows sorted)
  sorted_rows-IsAscending [] sorted h = h
  sorted_rows-IsAscending (row ∷ rows) sorted h =
      sorted_rows-IsAscending rows (sort_in row sorted) (sort_in-IsAscending row sorted h)
