-- ===== src/Executor/Values.antt =====
-- The checks of src/executor.c on columns and literals, and the row that an INSERT writes.
use week7_02_sql_index.Prelude.{
  ℕ, suc, Bool, true, false, not, ◌&&◌, Option, none, some, List, [], ◌∷◌, ◌==◌, if◌then◌else◌,
  length, take, get_elem?, set, replicate, ℤ, eqb_ℤ,
}
use week7_02_sql_index.Text.{Bytes, str_eq}
use week7_02_sql_index.Sql.{
  DataType, LiteralType, LiteralValue, SourceLocation, ColumnSchema, ColumnRef, TableSchema,
  InsertStatement, Message, error_at, Result, err, ok, ◌>>=◌, location, value_count_wrong,
  value_type_wrong, integer_out_of_range, string_unsafe, insert_column_unknown, insert_column_twice,
  insert_column_missing, key_out_of_range,
}
use week7_02_sql_index.Schema.Defs.{is_int}
use week7_02_sql_index.Number.Defs.{read_int, int_text, int_max, succ_ℤ}
use week7_02_sql_index.Executor.State.{
  AppConfig, TableRuntimeState, Exec, ◌&>◌, runtime_error, put_state, get_table_state_index,
}

abbrev pub error_from : {A : Type 0} → Message → SourceLocation → Result A
error_from message place = err (error_at message place.line place.column)

abbrev pub one_further : Option ℕ → Option ℕ
one_further none = none
one_further (some i) = some (suc i)

unfoldable pub find_schema_column : List ColumnSchema → Bytes → Option ℕ
find_schema_column [] name = none
find_schema_column (c ∷ cs) name =
    let later = one_further (find_schema_column cs name) in
    if str_eq c.name name then some 0 else later

unfoldable pub validate_literal_type : DataType → LiteralType → Bool
validate_literal_type DataType.int LiteralType.int = true
validate_literal_type DataType.string LiteralType.string = true
validate_literal_type _ _ = false

abbrev pub is_read : Option ℤ → Bool
is_read none = false
is_read (some v) = true

unfoldable pub int_literal_in_range : Bytes → Bool
int_literal_in_range text = is_read (read_int text)

unfoldable pub string_literal_is_safe_for_csv : Bytes → Bool
string_literal_is_safe_for_csv [] = true
string_literal_is_safe_for_csv (c ∷ cs) =
    not (c == b'=') && not (c == b'+') && not (c == b'-') && not (c == b'@')

-- the three checks of a value, and the text that `snprintf` stores
unfoldable pub check_value : ColumnSchema → LiteralValue → Result Bytes
check_value column value =
    if not (validate_literal_type column.type value.type)
    then error_from value_type_wrong value.location
    else if is_int column.type && not (int_literal_in_range value.text)
    then error_from integer_out_of_range value.location
    else if not (is_int column.type) && not (string_literal_is_safe_for_csv value.text)
    then error_from string_unsafe value.location
    else ok (take 63 value.text)

-- an entry of the array that no value was parsed into
abbrev pub zero_value : LiteralValue
zero_value = record { type = LiteralType.int; text = []; location = location 0 0 }

abbrev pub first_value : List LiteralValue → LiteralValue
first_value [] = zero_value
first_value (v ∷ vs) = v

abbrev pub more_values : List LiteralValue → List LiteralValue
more_values [] = []
more_values (v ∷ vs) = vs

-- `row_values` and `used_columns`: a column that is not used is `none`.
abbrev pub Slots : Type 0
Slots = List (Option Bytes)

-- for (i = 0; i < schema->column_count; i++), in the order of the schema
unfoldable pub fill_in_order : List ColumnSchema → List LiteralValue → Result (List Bytes)
fill_in_order [] values = ok []
fill_in_order (c ∷ cs) values = check_value c (first_value values) >>= λ text.
    fill_in_order cs (more_values values) >>= λ texts. ok (text ∷ texts)

-- the checks of a column of the list and of its value
abbrev pub place_at :
    Slots
    → ColumnRef
    → LiteralValue
    → ℕ
    → Option ColumnSchema
    → Option (Option Bytes)
    → Result Slots
place_at slots ref value i (some column) (some none) =
    check_value column value >>= λ text. ok (set slots i (some text))
place_at slots ref value i (some column) (some (some text)) =
    error_from insert_column_twice ref.location
place_at slots ref value i _ _ = error_from insert_column_unknown ref.location

abbrev pub place_found :
    List ColumnSchema → Slots → ColumnRef → LiteralValue → Option ℕ → Result Slots
place_found columns slots ref value none = error_from insert_column_unknown ref.location
place_found columns slots ref value (some i) =
    place_at slots ref value i (get_elem? columns i) (get_elem? slots i)

-- for (i = 0; i < statement->column_count; i++), in the order of the statement
unfoldable pub place_values :
    List ColumnSchema → Slots → List ColumnRef → List LiteralValue → Result Slots
place_values columns slots [] values = ok slots
place_values columns slots (ref ∷ refs) values =
    place_found columns slots ref (first_value values) (find_schema_column columns ref.name)
    >>= λ slots'. place_values columns slots' refs (more_values values)

abbrev pub with_next_id : ℤ → TableRuntimeState → TableRuntimeState
with_next_id next_id s = record {
  schema_dir = s.schema_dir;
  data_dir = s.data_dir;
  table_name = s.table_name;
  next_id = next_id;
  pk_index = s.pk_index;
}

module _ (config : AppConfig) (schema : TableSchema) (calloc : ℕ → ℕ → Bool) where
  abbrev pub take_next_id : ℕ × TableRuntimeState → Exec ℤ
  take_next_id (i, s) w =
      if eqb_ℤ s.next_id int_max
      then runtime_error key_out_of_range w
      else (put_state i (with_next_id (succ_ℤ s.next_id) s) w, ok s.next_id)

  unfoldable pub allocate_next_primary_key : Exec ℤ
  allocate_next_primary_key w = get_table_state_index config schema calloc w &> take_next_id

  -- whether column `i` is the primary key
  abbrev pub is_key : ℕ → Option ℕ → Bool
  is_key i none = false
  is_key i (some k) = i == k

  -- the loop over the columns that are not used, from column `i` on
  unfoldable pub fill_rest : SourceLocation → ℕ → Slots → Exec (List Bytes)
  fill_rest place i [] w = (w, ok [])
  fill_rest place i (some text ∷ slots) w =
      fill_rest place (suc i) slots w &> λ texts w'. (w', ok (text ∷ texts))
  fill_rest place i (none ∷ slots) w =
      let filled = allocate_next_primary_key w &> λ next_id w'.
      fill_rest place (suc i) slots w' &> λ texts w''. (w'', ok (int_text next_id ∷ texts)) in
      if is_key i schema.primary_key_index
      then filled
      else (w, error_from insert_column_missing place)

  abbrev pub fill_slots : SourceLocation → Result Slots → Exec (List Bytes)
  fill_slots place (err e) w = (w, err e)
  fill_slots place (ok slots) w = fill_rest place 0 slots w

  abbrev pub build_row : InsertStatement → Option (List ColumnRef) → Exec (List Bytes)
  build_row statement none w = (
    w,
    if length statement.values == length schema.columns
        then fill_in_order schema.columns statement.values
        else error_from value_count_wrong statement.table_location,
  )
  build_row statement (some refs) w =
      fill_slots statement.table_location
        (place_values schema.columns (replicate (length schema.columns) none) refs statement.values)
        w

  unfoldable pub build_insert_row_values : InsertStatement → Exec (List Bytes)
  build_insert_row_values statement w = build_row statement statement.columns w
