-- ===== src/Schema/Defs.antt =====
-- The functions of src/schema.c. A schema file is its bytes.
use week7_02_sql_index.Prelude.{
  ℕ, zero, suc, ◌+◌, ◌-◌, ◌*◌, Bool, true, false, ◌&&◌, ◌||◌, Option, none, some, List, [], ◌∷◌,
  ◌++◌, leb, ◌==◌, if◌then◌else◌, length, take, map,
}
use week7_02_sql_index.Text.{Bytes, codes, to_lower, str_eq, span}
use week7_02_sql_index.Sql.{
  DataType, ColumnSchema, TableSchema, Message, schema_not_found, schema_empty,
  schema_too_many_columns, schema_bad_entry, schema_name_too_long, schema_name_empty,
  schema_name_duplicate, schema_bad_type, schema_without_columns, error_at, Result, ok, err, ◌>>=◌,
  max_name_len, max_columns,
}

abbrev pub schema_error {ℓ} : {A : Type ℓ} → Message → Result A
schema_error message = err (error_at message 0 0)

-- a copy into an array of `dest_size` bytes, one of them for the NUL
abbrev pub to_lowercase_copy : ℕ → Bytes → Bytes
to_lowercase_copy dest_size src = map to_lower (take (dest_size - 1) src)

unfoldable pub parse_data_type : Bytes → Option DataType
parse_data_type text =
    if str_eq text (codes "int")
    then some DataType.int
    else if str_eq text (codes "string")
    then some DataType.string
    else none

unfoldable pub has_duplicate_column_name : List ColumnSchema → Bytes → Bool
has_duplicate_column_name [] name = false
has_duplicate_column_name (c ∷ cs) name = str_eq c.name name || has_duplicate_column_name cs name

abbrev pub other_than : ℕ → ℕ → Bool
other_than stop c = if c == stop then false else true

abbrev pub separated : Bytes × Bytes → Bytes × Option Bytes
separated (piece, []) = (piece, none)
separated (piece, c ∷ rest) = (piece, some rest)

-- The bytes up to a separator, and what follows the separator; `none` without one.
unfoldable pub cut : ℕ → Bytes → Bytes × Option Bytes
cut stop text = separated (span (other_than stop) text)

abbrev pub rest_of : Option Bytes → Bytes
rest_of none = []
rest_of (some rest) = rest

abbrev pub is_int : DataType → Bool
is_int DataType.int = true
is_int DataType.string = false

-- what an entry's name and type add to the columns read before
unfoldable pub add_column : TableSchema → Bytes → DataType → TableSchema
add_column schema name ty = record {
  table_name = schema.table_name;
  columns = schema.columns ++ record { name = name; type = ty } ∷ [];
  primary_key_index =
      if str_eq name (codes "id") && is_int ty
      then some (length schema.columns)
      else schema.primary_key_index;
}

abbrev pub add_typed : TableSchema → Bytes → Option DataType → Result TableSchema
add_typed schema name none = schema_error schema_bad_type
add_typed schema name (some ty) = ok (add_column schema name ty)

-- the checks of one entry, up to its colon and behind it
unfoldable pub read_entry : TableSchema → Bytes → Option Bytes → Result TableSchema
read_entry schema name none = schema_error schema_bad_entry
read_entry schema name (some ty) =
    let lower_name = to_lowercase_copy max_name_len name in
    let lower_type = to_lowercase_copy max_name_len ty in
    if leb max_name_len (length name)
    then schema_error schema_name_too_long
    else if leb (length lower_name) 0
    then schema_error schema_name_empty
    else if has_duplicate_column_name schema.columns lower_name
    then schema_error schema_name_duplicate
    else add_typed schema lower_name (parse_data_type lower_type)

-- `while (*cursor != '\0')`, with room for so many columns more
unfoldable pub load_columns : ℕ → TableSchema → Bytes → Result TableSchema
load_columns room schema [] = ok schema
load_columns zero schema (c ∷ cs) = schema_error schema_too_many_columns
load_columns (suc room) schema (c ∷ cs) =
    let (entry, behind) = cut b',' (c ∷ cs) in
    let (name, ty) = cut b':' entry in
    read_entry schema name ty >>= λ s. load_columns room s (rest_of behind)

-- the bytes of the first line that the array takes, without the NUL
abbrev pub line_bytes : ℕ
line_bytes = max_columns * (max_name_len - 1 + 1 + 6) + (max_columns - 1) + 2 - 1

abbrev pub ends_line : ℕ → Bool
ends_line c = if c == 0 || c == b'\r' || c == b'\n' then false else true

-- `fgets`, and the cut at the first '\r' or '\n'
unfoldable pub first_line : Bytes → Bytes
first_line file = (span ends_line (take line_bytes file)).0

abbrev pub empty_schema : Bytes → TableSchema
empty_schema table_name = record {
  table_name = take (max_name_len - 1) table_name;
  columns = [];
  primary_key_index = none;
}

abbrev pub with_columns : TableSchema → Result TableSchema
with_columns s = if leb (length s.columns) 0 then schema_error schema_without_columns else ok s

-- The file is `none` when it cannot be opened.
unfoldable pub load_table_schema : Option Bytes → Bytes → Result TableSchema
load_table_schema none table_name = schema_error schema_not_found
load_table_schema (some []) table_name = schema_error schema_empty
load_table_schema (some (c ∷ cs)) table_name =
    load_columns max_columns (empty_schema table_name) (first_line (c ∷ cs)) >>= with_columns
