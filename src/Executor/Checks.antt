-- ===== src/Executor/Checks.antt =====
-- The values that the checks of an INSERT let through make a row.
use week7_02_sql_index.Prelude.{
  ℕ, zero, suc, Bool, true, false, not, Option, none, some, List, [], ◌∷◌, ◌≡◌, ◌≢◌, refl, length,
  get_elem?, take, take_all, set, replicate, All, arith, if-either, ℤ,
}
use week7_02_sql_index.Text.{Bytes}
use week7_02_sql_index.Sql.{DataType, LiteralValue, ColumnSchema, ColumnRef, Ensures, Ensures-bind}
use week7_02_sql_index.Number.Defs.{read_int}
use week7_02_sql_index.Storage.Csv.RoundTrip.{IsValue}
use week7_02_sql_index.Storage.Table.Rows.File.{Readable, IsRow}
use week7_02_sql_index.Executor.Values.{
  find_schema_column, validate_literal_type, is_read, int_literal_in_range,
  string_literal_is_safe_for_csv, check_value, first_value, more_values, Slots, fill_in_order,
  place_at, place_found, place_values,
}

-- literals without NUL and line break, of at most 63 bytes
abbrev pub AreLiterals : List LiteralValue → Type 0
AreLiterals values = All (λ (v : LiteralValue). IsValue v.text) values

is_read-some : (v : Option ℤ) → is_read v ≡ true → v ≢ none
is_read-some none e = cc
is_read-some (some v) e = cc

not-false : (b : Bool) → not b ≡ false → b ≡ true
not-false true e = refl
not-false false e = cc

-- what a column holds
abbrev pub IsCell : ColumnSchema → Bytes → Type 0
IsCell c v = IsValue v × Readable c.type v

check_value-IsCell :
    (c : ColumnSchema) (v : LiteralValue) → IsValue v.text → Ensures (IsCell c) (check_value c v)
unfolding check_value
check_value-IsCell c v h = by_type c.name c.type
  where
    whole : take 63 v.text ≡ v.text
    whole = take_all 63 v.text (omega (arith, h.1))

    by_type :
        (name : Bytes) (ty : DataType)
        → Ensures
            (IsCell (record { name = name; type = ty }))
            (check_value (record { name = name; type = ty }) v)
    by_type name DataType.int =
        let P = Ensures (IsCell (record { name = name; type = DataType.int })) in
        if-either P (not (validate_literal_type DataType.int v.type)) _ _ (λ e. tt)
          (λ e.
            if-either P (not (int_literal_in_range v.text)) _ _ (λ e. tt)
              (λ within.
                let read : read_int v.text ≢ none =
                  is_read-some (read_int v.text)
                    (unfold int_literal_in_range in not-false _ within) in
                rw whole (h, read)))
    by_type name DataType.string =
        let P = Ensures (IsCell (record { name = name; type = DataType.string })) in
        if-either P (not (validate_literal_type DataType.string v.type)) _ _ (λ e. tt)
          (λ e.
            if-either P (not (string_literal_is_safe_for_csv v.text)) _ _ (λ e. tt)
              (λ safe. rw whole (h, tt)))

first_value-IsValue : (vs : List LiteralValue) → AreLiterals vs → IsValue (first_value vs).text
first_value-IsValue [] h = (tt, omega arith)
first_value-IsValue (v ∷ vs) h = h.0

more_values-AreLiterals : (vs : List LiteralValue) → AreLiterals vs → AreLiterals (more_values vs)
more_values-AreLiterals [] h = tt
more_values-AreLiterals (v ∷ vs) h = h.1

pub fill_in_order-IsRow :
    (cs : List ColumnSchema) (vs : List LiteralValue)
    → AreLiterals vs
    → Ensures (IsRow cs) (fill_in_order cs vs)
unfolding fill_in_order
fill_in_order-IsRow [] vs h = tt
fill_in_order-IsRow (c ∷ cs) vs h =
    Ensures-bind (IsCell c) (IsRow (c ∷ cs)) (check_value c (first_value vs)) _
      (check_value-IsCell c (first_value vs) (first_value-IsValue vs h))
      (λ t cell.
        Ensures-bind (IsRow cs) (IsRow (c ∷ cs)) (fill_in_order cs (more_values vs)) _
          (fill_in_order-IsRow cs (more_values vs) (more_values-AreLiterals vs h))
          (λ ts row. (cell.0, cell.1, row)))

-- a slot for each column, with what the column can hold
abbrev pub IsSlots : List ColumnSchema → Slots → Type 0
IsSlots [] [] = Unit
IsSlots [] (s ∷ ss) = ⊥
IsSlots (c ∷ cs) [] = ⊥
IsSlots (c ∷ cs) (none ∷ ss) = IsSlots cs ss
IsSlots (c ∷ cs) (some v ∷ ss) = IsCell c v × IsSlots cs ss

pub replicate-IsSlots : (cs : List ColumnSchema) → IsSlots cs (replicate (length cs) none)
replicate-IsSlots [] = tt
replicate-IsSlots (c ∷ cs) = replicate-IsSlots cs

set-IsSlots :
    (cs : List ColumnSchema) (ss : Slots) (i : ℕ) (c : ColumnSchema) (v : Bytes)
    → get_elem? cs i ≡ some c
    → IsCell c v
    → IsSlots cs ss
    → IsSlots cs (set ss i (some v))
set-IsSlots [] [] i c v e h s = tt
set-IsSlots [] (x ∷ ss) i c v e h s = absurd s
set-IsSlots (d ∷ cs) [] i c v e h s = absurd s
set-IsSlots (d ∷ cs) (none ∷ ss) zero c v e h s = let same : d ≡ c = cc in (rw same h, s)
set-IsSlots (d ∷ cs) (some w ∷ ss) zero c v e h s = let same : d ≡ c = cc in (rw same h, s.1)
set-IsSlots (d ∷ cs) (none ∷ ss) (suc i) c v e h s = set-IsSlots cs ss i c v e h s
set-IsSlots (d ∷ cs) (some w ∷ ss) (suc i) c v e h s = (s.0, set-IsSlots cs ss i c v e h s.1)

place_at-IsSlots :
    (cs : List ColumnSchema) (ss : Slots) (ref : ColumnRef) (v : LiteralValue) (i : ℕ)
    → IsSlots cs ss
    → IsValue v.text
    → (oc : Option ColumnSchema) (os : Option (Option Bytes)) → get_elem? cs i ≡ oc
    → Ensures (IsSlots cs) (place_at ss ref v i oc os)
place_at-IsSlots cs ss ref v i s h none os e = tt
place_at-IsSlots cs ss ref v i s h (some c) none e = tt
place_at-IsSlots cs ss ref v i s h (some c) (some (some t)) e = tt
place_at-IsSlots cs ss ref v i s h (some c) (some none) e =
    Ensures-bind (IsCell c) (IsSlots cs) (check_value c v) _ (check_value-IsCell c v h)
      (λ t cell. set-IsSlots cs ss i c t e cell s)

place_found-IsSlots :
    (cs : List ColumnSchema) (ss : Slots) (ref : ColumnRef) (v : LiteralValue)
    → IsSlots cs ss
    → IsValue v.text
    → (oi : Option ℕ) → Ensures (IsSlots cs) (place_found cs ss ref v oi)
place_found-IsSlots cs ss ref v s h none = tt
place_found-IsSlots cs ss ref v s h (some i) =
    place_at-IsSlots cs ss ref v i s h (get_elem? cs i) (get_elem? ss i) refl

pub place_values-IsSlots :
    (cs : List ColumnSchema) (ss : Slots) (refs : List ColumnRef) (vs : List LiteralValue)
    → IsSlots cs ss
    → AreLiterals vs
    → Ensures (IsSlots cs) (place_values cs ss refs vs)
unfolding place_values
place_values-IsSlots cs ss [] vs s h = s
place_values-IsSlots cs ss (ref ∷ refs) vs s h =
    Ensures-bind (IsSlots cs) (IsSlots cs)
      (place_found cs ss ref (first_value vs) (find_schema_column cs ref.name)) _
      (place_found-IsSlots cs ss ref (first_value vs) s (first_value-IsValue vs h)
        (find_schema_column cs ref.name))
      (λ ss' s'.
        place_values-IsSlots cs ss' refs (more_values vs) s' (more_values-AreLiterals vs h))
