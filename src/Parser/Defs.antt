-- ===== src/Parser/Defs.antt =====
-- The functions of src/parser.c. The parser's position in the token array is the token there, the
-- one before it and the ones behind it.
use week7_02_sql_index.Prelude.{
  ℕ, zero, suc, ◌+◌, Bool, true, false, Option, none, some, List, [], ◌∷◌, leb, ◌==◌, if◌then◌else◌,
  length,
}
use week7_02_sql_index.Sql.{
  TokenType, type_value, LiteralType, WhereOperator, SourceLocation, location, Message,
  name_too_long, identifier_expected, literal_expected, operator_expected, too_many_values,
  more_values_than_columns, value_count_differs, insert_expected, into_expected, too_many_columns,
  rparen_expected, values_expected, lparen_expected, select_expected, from_expected,
  unsupported_statement, empty_program, too_many_statements, semicolon_expected, ErrorInfo,
  error_at, Result, ok, err, ◌>>=◌, Token, LiteralValue, ColumnRef, WhereClause, Statement, insert,
  select, max_name_len, max_columns, max_statements,
}

pub record Parser : Type 0 where
  pub previous : Token
  pub current : Token
  pub rest : List Token

abbrev pub error_token : Message → Token → ErrorInfo
error_token message t = error_at message t.line t.column

-- The last token, the end of the text, is never passed.
abbrev pub advance_token : Parser → Parser
advance_token s = elim s.rest [
  | [] ↦ s
  | t ∷ ts ↦ record { previous = s.current; current = t; rest = ts }
]

abbrev pub token_matches : Parser → TokenType → Bool
token_matches s expected_type = type_value s.current.type == type_value expected_type

unfoldable pub consume_token : TokenType → Message → Parser → Result Parser
consume_token expected_type message s =
    if token_matches s expected_type
    then ok (advance_token s)
    else err (error_token message s.current)

unfoldable pub copy_name : Token → Result ColumnRef
copy_name t =
    if leb max_name_len (length t.text)
    then err (error_token name_too_long t)
    else ok (record { name = t.text; location = location t.line t.column })

unfoldable pub parse_identifier : Parser → Result (ColumnRef × Parser)
parse_identifier s =
    if token_matches s TokenType.identifier
    then (copy_name s.current >>= λ name. ok (name, advance_token s))
    else err (error_token identifier_expected s.current)

abbrev pub literal : LiteralType → Token → LiteralValue
literal ty t = record { type = ty; text = t.text; location = location t.line t.column }

unfoldable pub parse_literal : Parser → Result (LiteralValue × Parser)
parse_literal s =
    if token_matches s TokenType.number
    then ok (literal LiteralType.int s.current, advance_token s)
    else if token_matches s TokenType.string
    then ok (literal LiteralType.string s.current, advance_token s)
    else err (error_token literal_expected s.current)

unfoldable pub parse_where_operator : Parser → Result (WhereOperator × Parser)
parse_where_operator s =
    if token_matches s TokenType.equal
    then ok (WhereOperator.equal, advance_token s)
    else if token_matches s TokenType.greater
    then ok (WhereOperator.greater, advance_token s)
    else if token_matches s TokenType.less
    then ok (WhereOperator.less, advance_token s)
    else if token_matches s TokenType.bang_equal
    then ok (WhereOperator.not_equal, advance_token s)
    else err (error_token operator_expected s.current)

abbrev pub reached : ℕ → Option ℕ → Bool
reached parsed_count none = false
reached parsed_count (some expected_count) = leb expected_count parsed_count

-- the loop of `parse_value_list`, with room for so many values more
unfoldable pub parse_values : ℕ → Option ℕ → ℕ → Parser → Result (List LiteralValue × Parser)
parse_values zero expected_count parsed_count s = err (error_token too_many_values s.current)
parse_values (suc room) expected_count parsed_count s =
    if reached parsed_count expected_count
    then err (error_token more_values_than_columns s.current)
    else do
      (v, s1) ← parse_literal s
      let more = parse_values room expected_count (parsed_count + 1) (advance_token s1)
      if token_matches s1 TokenType.comma
          then (more >>= λ r. ok (v ∷ r.0, r.1))
          else ok (v ∷ [], s1)

-- `expected_count >= 0 && parsed_count != expected_count`
abbrev pub differs : ℕ → Option ℕ → Bool
differs parsed_count none = false
differs parsed_count (some expected_count) = if parsed_count == expected_count then false else true

unfoldable pub parse_value_list : Option ℕ → Parser → Result (List LiteralValue × Parser)
parse_value_list expected_count s = do
  (values, s1) ← parse_values max_columns expected_count 0 s
  if differs (length values) expected_count
      then err (error_token value_count_differs s1.previous)
      else ok (values, s1)

-- The loop over column names, with room for so many more. INSERT and SELECT have the same loop.
unfoldable pub parse_columns : ℕ → Parser → Result (List ColumnRef × Parser)
parse_columns zero s = err (error_token too_many_columns s.current)
parse_columns (suc room) s = do
  (c, s1) ← parse_identifier s
  let more = parse_columns room (advance_token s1)
  if token_matches s1 TokenType.comma then (more >>= λ r. ok (c ∷ r.0, r.1)) else ok (c ∷ [], s1)

-- the column list of an INSERT, if it has one
unfoldable pub parse_column_list : Parser → Result (Option (List ColumnRef) × Parser)
parse_column_list s =
    if token_matches s TokenType.lparen
    then (do
      (columns, s1) ← parse_columns max_columns (advance_token s)
      s2 ← consume_token TokenType.rparen rparen_expected s1
      ok (some columns, s2))
    else ok (none, s)

-- `has_column_list ? column_count : -1`
abbrev pub column_count : Option (List ColumnRef) → Option ℕ
column_count none = none
column_count (some columns) = some (length columns)

abbrev pub here : Parser → SourceLocation
here s = location s.current.line s.current.column

unfoldable pub parse_insert_statement : Parser → Result (Statement × Parser)
parse_insert_statement s = do
  s1 ← consume_token TokenType.keyword_insert insert_expected s
  s2 ← consume_token TokenType.keyword_into into_expected s1
  (table, s3) ← parse_identifier s2
  (columns, s4) ← parse_column_list s3
  s5 ← consume_token TokenType.keyword_values values_expected s4
  s6 ← consume_token TokenType.lparen lparen_expected s5
  (values, s7) ← parse_value_list (column_count columns) s6
  s8 ← consume_token TokenType.rparen rparen_expected s7
  ok (
    insert (here s) (record {
      table_name = table.name;
      table_location = table.location;
      columns = columns;
      values = values;
    }),
    s8,
  )

-- `*`, which is `none`, or names
unfoldable pub parse_selection : Parser → Result (Option (List ColumnRef) × Parser)
parse_selection s =
    if token_matches s TokenType.star
    then ok (none, advance_token s)
    else parse_columns max_columns s >>= λ r. ok (some r.0, r.1)

unfoldable pub parse_where : Parser → Result (Option WhereClause × Parser)
parse_where s =
    if token_matches s TokenType.keyword_where
    then (do
      (column, s1) ← parse_identifier (advance_token s)
      (operator, s2) ← parse_where_operator s1
      (value, s3) ← parse_literal s2
      ok (some (record { column = column; operator = operator; value = value }), s3))
    else ok (none, s)

unfoldable pub parse_select_statement : Parser → Result (Statement × Parser)
parse_select_statement s = do
  s1 ← consume_token TokenType.keyword_select select_expected s
  (columns, s2) ← parse_selection s1
  s3 ← consume_token TokenType.keyword_from from_expected s2
  (table, s4) ← parse_identifier s3
  (where_clause, s5) ← parse_where s4
  ok (
    select (here s)
        (record { table_name = table.name; columns = columns; where_clause = where_clause }),
    s5,
  )

unfoldable pub parse_statement : Parser → Result (Statement × Parser)
parse_statement s =
    if token_matches s TokenType.keyword_insert
    then parse_insert_statement s
    else if token_matches s TokenType.keyword_select
    then parse_select_statement s
    else err (error_token unsupported_statement s.current)

-- the loop of `parse_program`, with room for so many statements more
unfoldable pub parse_statements : ℕ → Parser → Result (List Statement)
parse_statements zero s =
    if token_matches s TokenType.eof then ok [] else err (error_token too_many_statements s.current)
parse_statements (suc room) s = if token_matches s TokenType.eof then ok [] else do
  (statement, s1) ← parse_statement s
  s2 ← consume_token TokenType.semicolon semicolon_expected s1
  more ← parse_statements room s2
  ok (statement ∷ more)

-- The tokenizer's list is never empty: its first token and the ones behind it.
unfoldable pub parse_program : Token → List Token → Result (List Statement)
parse_program first rest =
    let s : Parser = record { previous = first; current = first; rest = rest } in
    if token_matches s TokenType.eof
    then err (error_token empty_program first)
    else parse_statements max_statements s
