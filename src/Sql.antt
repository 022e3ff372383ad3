-- ===== src/Sql.antt =====
-- include/sqlproc.h: the tokens, statements and errors that the stages exchange.
use week7_02_sql_index.Prelude.{ℕ, Option, List, ◌≡◌, refl}
use week7_02_sql_index.Text.{Bytes}

abbrev pub max_name_len : ℕ
max_name_len = 64

abbrev pub max_value_len : ℕ
max_value_len = 64

abbrev pub max_columns : ℕ
max_columns = 16

abbrev pub max_tokens : ℕ
max_tokens = 512

abbrev pub max_statements : ℕ
max_statements = 32

pub data DataType : Type 0 where
  int string : DataType

pub data TokenType : Type 0 where
  eof identifier number string comma semicolon lparen rparen star equal greater less : TokenType
  bang_equal keyword_insert keyword_into keyword_values keyword_select keyword_from : TokenType
  keyword_where : TokenType

-- the value of the C enumerator
unfoldable pub type_value : TokenType → ℕ
type_value TokenType.eof = 0
type_value TokenType.identifier = 1
type_value TokenType.number = 2
type_value TokenType.string = 3
type_value TokenType.comma = 4
type_value TokenType.semicolon = 5
type_value TokenType.lparen = 6
type_value TokenType.rparen = 7
type_value TokenType.star = 8
type_value TokenType.equal = 9
type_value TokenType.greater = 10
type_value TokenType.less = 11
type_value TokenType.bang_equal = 12
type_value TokenType.keyword_insert = 13
type_value TokenType.keyword_into = 14
type_value TokenType.keyword_values = 15
type_value TokenType.keyword_select = 16
type_value TokenType.keyword_from = 17
type_value TokenType.keyword_where = 18

pub data LiteralType : Type 0 where
  int string : LiteralType

pub data WhereOperator : Type 0 where
  equal greater less not_equal : WhereOperator

pub record SourceLocation : Type 0 where
  pub line : ℕ
  pub column : ℕ

abbrev pub location : ℕ → ℕ → SourceLocation
location l c = record { line = l; column = c }

-- The messages of `set_file_error` in src/storage.c. A table that is damaged in the same way has one
-- constructor, though its text differs between reading and appending.
pub data FileError : Type 0 where
  file_unopened header_unreadable header_too_long header_malformed header_count : FileError
  header_order row_unreadable row_too_long row_malformed row_count : FileError
  condition_uncomparable bad_integer duplicate_key index_unmade : FileError

-- One constructor for each message text of the tokenizer, the parser, the schema loader and the executor.
pub data Message : Type 0 where
  too_many_tokens word_too_long bad_number newline_in_string string_too_long : Message
  unclosed_string unsupported_character : Message
  name_too_long identifier_expected literal_expected operator_expected too_many_values : Message
  more_values_than_columns value_count_differs insert_expected into_expected : Message
  too_many_columns rparen_expected values_expected lparen_expected select_expected : Message
  from_expected unsupported_statement empty_program too_many_statements : Message
  semicolon_expected : Message
  schema_not_found schema_empty schema_too_many_columns schema_bad_entry : Message
  schema_name_too_long schema_name_empty schema_name_duplicate schema_bad_type : Message
  schema_without_columns : Message
  file_error : FileError → Message
  index_not_created key_out_of_range states_full key_unreadable key_exists : Message
  value_count_wrong value_type_wrong integer_out_of_range string_unsafe : Message
  insert_column_unknown insert_column_twice insert_column_missing key_not_registered : Message
  select_column_unknown where_column_unknown where_type_wrong where_operator_wrong : Message
  range_scan_failed sql_unopened sql_too_large : Message

pub record ErrorInfo : Type 0 where
  pub message : Message
  pub line : ℕ
  pub column : ℕ

abbrev pub error_at : Message → ℕ → ℕ → ErrorInfo
error_at m l c = record { message = m; line = l; column = c }

-- The C functions return 1 with their results, or 0 with the error filled in.
pub data Result {ℓ} (Answer : Type ℓ) : Type ℓ where
  err : ErrorInfo → Result Answer
  ok : Answer → Result Answer

pub record Token : Type 0 where
  pub type : TokenType
  pub text : Bytes
  pub line : ℕ
  pub column : ℕ

-- `if (!f(...)) { return 0; }` and what stands behind it
infixl 5 ◌>>=◌
abbrev pub ◌>>=◌ {ℓ κ} :
    {Answer : Type ℓ} {Final : Type κ} → Result Answer → (Answer → Result Final) → Result Final
err e >>= behind = err e
ok answer >>= behind = behind answer

infixl 5 ◌>>◌
abbrev pub ◌>>◌ {ℓ κ} :
    {Answer : Type ℓ} {Final : Type κ} → Result Answer → Result Final → Result Final
r >> behind = r >>= λ _. behind

pub bind-eq-ok {ℓ κ} :
    {Answer : Type ℓ} {Final : Type κ} {final : Final} (r : Result Answer)
    (behind : Answer → Result Final)
    → (r >>= behind) ≡ ok final
    → (answer : Answer) × (r ≡ ok answer) × (behind answer ≡ ok final)
bind-eq-ok (err e) behind h = cc
bind-eq-ok (ok answer) behind h = (answer, refl, h)

-- A success has the property; an error promises nothing.
abbrev pub Ensures {ℓ κ} : {A : Type ℓ} → (A → Type κ) → Result A → Type κ
Ensures P (ok a) = P a
Ensures P (err e) = Unit

pub Ensures-bind {ℓ κ} :
    {A B : Type ℓ} (Q : A → Type κ) (P : B → Type κ) (r : Result A) (f : A → Result B)
    → Ensures Q r
    → ((a : A) → Q a → Ensures P (f a))
    → Ensures P (r >>= f)
Ensures-bind Q P (ok a) f h k = k a h
Ensures-bind Q P (err e) f h k = tt

pub Ensures-behind {ℓ κ} :
    {A B : Type ℓ} (P : B → Type κ) (r : Result A) (f : A → Result B)
    → ((a : A) → Ensures P (f a))
    → Ensures P (r >>= f)
Ensures-behind P (ok a) f k = k a
Ensures-behind P (err e) f k = tt

pub Ensures-ok {ℓ κ} :
    {A : Type ℓ} (P : A → Type κ) (r : Result A) (a : A) → Ensures P r → r ≡ ok a → P a
Ensures-ok P r a h e = rw e at h

pub Ensures-both {ℓ κ} :
    {A : Type ℓ} (P Q R : A → Type κ) (r : Result A)
    → Ensures P r
    → Ensures Q r
    → ((a : A) → P a → Q a → R a)
    → Ensures R r
Ensures-both P Q R (ok a) p q k = k a p q
Ensures-both P Q R (err e) p q k = tt

pub record LiteralValue : Type 0 where
  pub type : LiteralType
  pub text : Bytes
  pub location : SourceLocation

pub record ColumnSchema : Type 0 where
  pub name : Bytes
  pub type : DataType

-- `primary_key_index` is -1 in C where it is `none` here.
pub record TableSchema : Type 0 where
  pub table_name : Bytes
  pub columns : List ColumnSchema
  pub primary_key_index : Option ℕ

-- A name of a column list with its place in the text.
pub record ColumnRef : Type 0 where
  pub name : Bytes
  pub location : SourceLocation

-- `columns` is `none` where `has_column_list` is 0.
pub record InsertStatement : Type 0 where
  pub table_name : Bytes
  pub table_location : SourceLocation
  pub columns : Option (List ColumnRef)
  pub values : List LiteralValue

pub record WhereClause : Type 0 where
  pub column : ColumnRef
  pub operator : WhereOperator
  pub value : LiteralValue

-- `columns` is `none` where `select_all` is 1, and `where_clause` where `has_where` is 0.
pub record SelectStatement : Type 0 where
  pub table_name : Bytes
  pub columns : Option (List ColumnRef)
  pub where_clause : Option WhereClause

pub data Statement : Type 0 where
  insert : SourceLocation → InsertStatement → Statement
  select : SourceLocation → SelectStatement → Statement
