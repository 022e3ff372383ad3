-- ===== src/Tests/Schemas.antt =====
-- The schema loader on concrete files.
use week7_02_sql_index.Prelude.{some, [], ◌∷◌, ◌++◌, ◌≡◌, refl, All, length, take, arith, ap}
use week7_02_sql_index.Text.{codes, span, str_eq}
use week7_02_sql_index.Sql.{
  DataType, ColumnSchema, TableSchema, ok, err, error_at, schema_name_duplicate,
}
use week7_02_sql_index.Schema.Defs.{
  parse_data_type, has_duplicate_column_name, cut, add_column, read_entry, load_columns, first_line,
  load_table_schema,
}
use week7_02_sql_index.Schema.Valid.{Distinct, IsSchema}
use week7_02_sql_index.Schema.Limits.{load_table_schema-IsSchema}
use week7_02_sql_index.Schema.Written.{written, IsWritable}
use week7_02_sql_index.Schema.RoundTrip.{load_table_schema-written}

abbrev users : TableSchema
users = record {
  table_name = codes "users";
  columns =
      record { name = codes "id"; type = DataType.int }
      ∷ record { name = codes "name"; type = DataType.string }
      ∷ [];
  primary_key_index = some 0;
}

users_file :
    load_table_schema (some (codes "ID:int,name:STRING\r\nignored")) (codes "users") ≡ ok users
unfolding span str_eq parse_data_type has_duplicate_column_name cut add_column read_entry
    load_columns first_line load_table_schema
users_file = refl

twice :
    load_table_schema (some (codes "a:int,A:int")) (codes "t")
    ≡ err (error_at schema_name_duplicate 0 0)
unfolding span str_eq parse_data_type has_duplicate_column_name cut add_column read_entry
    load_columns first_line load_table_schema
twice = refl

load_table_schema-IsSchema_example : IsSchema users
load_table_schema-IsSchema_example =
    load_table_schema-IsSchema (some (codes "ID:int,name:STRING\r\nignored")) (codes "users") users
      users_file

abbrev a_column : ColumnSchema
a_column = record { name = codes "a"; type = DataType.int }

abbrev b_column : ColumnSchema
b_column = record { name = codes "bb"; type = DataType.string }

both-IsWritable : All IsWritable (a_column ∷ b_column ∷ [])
both-IsWritable = (
  ((omega arith, omega arith), ((refl, refl, refl, refl), tt)),
  (((omega arith, omega arith), ((refl, refl, refl, refl), ((refl, refl, refl, refl), tt))), tt),
)

both-Distinct : Distinct (a_column ∷ b_column ∷ [])
both-Distinct = (((λ e. omega (arith, ap length e)), tt), (tt, tt))

load_table_schema-written_example :
    (s : TableSchema) × (load_table_schema
        (some (written (a_column ∷ b_column ∷ []) ++ codes "\nrest"))
        (codes "t")
      ≡ ok s)
    × (s.columns ≡ a_column ∷ b_column ∷ [])
    × (s.table_name ≡ take 63 (codes "t"))
load_table_schema-written_example =
    load_table_schema-written a_column (b_column ∷ []) (codes "rest") (codes "t") both-IsWritable
      both-Distinct (omega arith)
