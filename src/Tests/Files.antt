-- ===== src/Tests/Files.antt =====
-- Table files on concrete rows.
use week7_02_sql_index.Prelude.{ℕ, none, some, List, [], ◌∷◌, ◌++◌, ◌≡◌, inr, refl, All, arith}
use week7_02_sql_index.Text.{Bytes, codes, span, str_eq}
use week7_02_sql_index.Sql.{DataType, TableSchema, header_order}
use week7_02_sql_index.Storage.Csv.Defs.{
  store, csv_step, csv_end, csv_loop, parse_csv_line, needs_quote, escaped, write_csv_field,
  write_more, write_csv_row,
}
use week7_02_sql_index.Storage.Csv.RoundTrip.{IsValue}
use week7_02_sql_index.Storage.Table.Defs.{
  failed, done, take_line, fgets, validate_line_length, same_names, validate_header_values,
  header_line, ensure_data_file, ensure_append_starts_on_new_line, storage_append_row,
  selected_text, print_row_from_open_file, check_header,
}
use week7_02_sql_index.Storage.Table.Append.{storage_append_row-print_row_from_open_file}
use week7_02_sql_index.Storage.Table.Header.{IsHeading, storage_append_row_total}

abbrev pub users : TableSchema
users = record {
  table_name = codes "users";
  columns =
      record { name = codes "id"; type = DataType.int }
      ∷ record { name = codes "name"; type = DataType.string }
      ∷ [];
  primary_key_index = some 0;
}

abbrev pub row : List Bytes
row = codes "1" ∷ codes "a,b" ∷ []

abbrev users_file : Bytes
users_file = header_line users.columns ++ write_csv_row row

new_file : storage_append_row users none row ≡ done (users_file, 8)
unfolding needs_quote escaped write_csv_field write_more write_csv_row ensure_data_file
    ensure_append_starts_on_new_line storage_append_row
new_file = refl

pub row-IsValue : All IsValue row
row-IsValue = (((refl, tt), omega arith), (((refl, (refl, (refl, tt))), omega arith), tt))

storage_append_row-print_row_from_open_file_example :
    print_row_from_open_file users_file users 8 (1 ∷ 0 ∷ []) ≡ done (selected_text row (1 ∷ 0 ∷ []))
storage_append_row-print_row_from_open_file_example =
    storage_append_row-print_row_from_open_file users none (codes "1") (codes "a,b" ∷ []) users_file
      8 (1 ∷ 0 ∷ []) row-IsValue refl (omega arith) new_file

pub headings : All IsHeading users.columns
unfolding needs_quote
headings = (
  (((refl, (refl, tt)), omega arith), refl),
  ((((refl, (refl, (refl, (refl, tt)))), omega arith), refl), tt),
)

storage_append_row_total_example :
    (more : Bytes) × (offset : ℕ) × (storage_append_row users
        (some (header_line users.columns ++ codes "7,x"))
        row
      ≡ done (header_line users.columns ++ more, offset))
storage_append_row_total_example =
    storage_append_row_total users (some (header_line users.columns ++ codes "7,x")) row
      (omega arith) (omega arith) headings (codes "7,x") (inr refl)

abbrev quoted_name : TableSchema
quoted_name = record {
  table_name = codes "t";
  columns = record { name = b'a' ∷ b'"' ∷ b'b' ∷ []; type = DataType.string } ∷ [];
  primary_key_index = none;
}

-- A header with a quote is written as it is and read without the quote.
quoted_header :
    ensure_data_file quoted_name (some (header_line quoted_name.columns)) ≡ failed header_order
unfolding span str_eq store csv_step csv_end csv_loop parse_csv_line take_line fgets
    validate_line_length same_names validate_header_values check_header ensure_data_file
quoted_header = refl
