-- ===== src/Tests/Csv.antt =====
-- The CSV codec on concrete rows.
use week7_02_sql_index.Prelude.{◌≤◌, ◌<◌, some, [], ◌∷◌, ◌++◌, ◌≡◌, refl, All, length, arith}
use week7_02_sql_index.Text.{Bytes, codes}
use week7_02_sql_index.Sql.{max_columns}
use week7_02_sql_index.Storage.Csv.Defs.{
  store, csv_step, csv_end, csv_loop, parse_csv_line, needs_quote, escaped, write_csv_field,
  write_more, write_csv_row, max_row_len,
}
use week7_02_sql_index.Storage.Csv.RoundTrip.{IsValue, parse_csv_line-write_csv_row}
use week7_02_sql_index.Storage.Csv.Bounds.{Fits, parse_csv_line-bounds, write_csv_row-bounds}

-- a value with quotes and a comma
abbrev quoted_value : Bytes
quoted_value = b'"' ∷ b'a' ∷ b'"' ∷ b',' ∷ []

quoted_line :
    write_csv_row (quoted_value ∷ codes "1" ∷ [])
    ≡ b'"' ∷ b'"' ∷ b'"' ∷ b'a' ∷ b'"' ∷ b'"' ∷ b',' ∷ b'"' ∷ b',' ∷ b'1' ∷ b'\n' ∷ []
unfolding needs_quote escaped write_csv_field write_more write_csv_row
quoted_line = refl

values-IsValue : All IsValue (quoted_value ∷ codes "1" ∷ [])
values-IsValue =
    (((refl, (refl, (refl, (refl, tt)))), omega arith), (((refl, tt), omega arith), tt))

parse_csv_line-write_csv_row_example :
    parse_csv_line (write_csv_row (quoted_value ∷ codes "1" ∷ []) ++ codes "2,3")
    ≡ some (quoted_value ∷ codes "1" ∷ [])
parse_csv_line-write_csv_row_example =
    parse_csv_line-write_csv_row quoted_value (codes "1" ∷ []) (codes "2,3") values-IsValue
      (omega arith)

empty_values : parse_csv_line (codes "a,,b") ≡ some (codes "a" ∷ [] ∷ codes "b" ∷ [])
unfolding store csv_step csv_end csv_loop parse_csv_line
empty_values = refl

-- A line break ends the row inside quotes too.
broken_row : parse_csv_line (b'"' ∷ b'a' ∷ b'\n' ∷ b'b' ∷ b'"' ∷ []) ≡ some (codes "a" ∷ [])
unfolding store csv_step csv_end csv_loop parse_csv_line
broken_row = refl

parse_csv_line-bounds_example :
    let vs = codes "a" ∷ [] ∷ codes "b" ∷ [] in
    (1 ≤ length vs) × (length vs ≤ max_columns) × All Fits vs
parse_csv_line-bounds_example =
    parse_csv_line-bounds (codes "a,,b") (codes "a" ∷ [] ∷ codes "b" ∷ []) empty_values

write_csv_row-bounds_example : length (write_csv_row (quoted_value ∷ codes "1" ∷ [])) < max_row_len
write_csv_row-bounds_example =
    write_csv_row-bounds quoted_value (codes "1" ∷ []) (omega arith, (omega arith, tt))
      (omega arith)
