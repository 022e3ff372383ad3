-- ===== src/Parser/Print.antt =====
-- Statements that the limits of include/sqlproc.h allow, and the tokens that a statement is written
-- with: the grammar of the SQL dialect, independent of the parser.
use week7_02_sql_index.Prelude.{◌≤◌, ◌<◌, Option, none, some, List, [], ◌∷◌, ◌≡◌, length, All}
use week7_02_sql_index.Text.{Bytes}
use week7_02_sql_index.Sql.{
  TokenType, LiteralType, WhereOperator, SourceLocation, Token, LiteralValue, ColumnRef,
  InsertStatement, WhereClause, SelectStatement, Statement, insert, select, max_name_len,
  max_columns, max_statements,
}
use week7_02_sql_index.Tokenizer.Defs.{token}

abbrev pub IsName : Bytes → Type 0
IsName name = length name < max_name_len

abbrev pub IsColumns : List ColumnRef → Type 0
IsColumns cs =
    (1 ≤ length cs) × (length cs ≤ max_columns) × All (λ (c : ColumnRef). IsName c.name) cs

abbrev pub IsColumnList : Option (List ColumnRef) → Type 0
IsColumnList none = Unit
IsColumnList (some cs) = IsColumns cs

-- as many values as columns, where the columns are listed
abbrev pub AsMany : Option (List ColumnRef) → List LiteralValue → Type 0
AsMany none vs = Unit
AsMany (some cs) vs = length vs ≡ length cs

abbrev pub IsWhere : Option WhereClause → Type 0
IsWhere none = Unit
IsWhere (some w) = IsName w.column.name

abbrev pub IsInsert : InsertStatement → Type 0
IsInsert s =
    IsName s.table_name
    × IsColumnList s.columns
    × (1 ≤ length s.values)
    × (length s.values ≤ max_columns)
    × AsMany s.columns s.values

abbrev pub IsSelect : SelectStatement → Type 0
IsSelect s = IsName s.table_name × IsColumnList s.columns × IsWhere s.where_clause

abbrev pub IsStatement : Statement → Type 0
IsStatement (insert l s) = IsInsert s
IsStatement (select l s) = IsSelect s

abbrev pub IsProgram : List Statement → Type 0
IsProgram p = (1 ≤ length p) × (length p ≤ max_statements) × All IsStatement p

abbrev pub name_token : ColumnRef → Token
name_token c = token TokenType.identifier c.name c.location.line c.location.column

abbrev pub literal_type : LiteralType → TokenType
literal_type LiteralType.int = TokenType.number
literal_type LiteralType.string = TokenType.string

abbrev pub literal_token : LiteralValue → Token
literal_token v = token (literal_type v.type) v.text v.location.line v.location.column

abbrev pub operator_type : WhereOperator → TokenType
operator_type WhereOperator.equal = TokenType.equal
operator_type WhereOperator.greater = TokenType.greater
operator_type WhereOperator.less = TokenType.less
operator_type WhereOperator.not_equal = TokenType.bang_equal

-- The words and places of the tokens of which a statement does not keep them.
module _ (spelled : TokenType → Bytes) (place : TokenType → SourceLocation) where
  abbrev pub mark : TokenType → Token
  mark ty = token ty (spelled ty) (place ty).line (place ty).column

  abbrev pub more_names : List ColumnRef → List Token → List Token
  more_names [] ts = ts
  more_names (c ∷ cs) ts = mark TokenType.comma ∷ name_token c ∷ more_names cs ts

  abbrev pub names : List ColumnRef → List Token → List Token
  names [] ts = ts
  names (c ∷ cs) ts = name_token c ∷ more_names cs ts

  abbrev pub more_literals : List LiteralValue → List Token → List Token
  more_literals [] ts = ts
  more_literals (v ∷ vs) ts = mark TokenType.comma ∷ literal_token v ∷ more_literals vs ts

  abbrev pub literals : List LiteralValue → List Token → List Token
  literals [] ts = ts
  literals (v ∷ vs) ts = literal_token v ∷ more_literals vs ts

  abbrev pub column_list_tokens : Option (List ColumnRef) → List Token → List Token
  column_list_tokens none ts = ts
  column_list_tokens (some cs) ts = mark TokenType.lparen ∷ names cs (mark TokenType.rparen ∷ ts)

  abbrev pub selection_tokens : Option (List ColumnRef) → List Token → List Token
  selection_tokens none ts = mark TokenType.star ∷ ts
  selection_tokens (some cs) ts = names cs ts

  abbrev pub where_tokens : Option WhereClause → List Token → List Token
  where_tokens none ts = ts
  where_tokens (some w) ts =
      mark TokenType.keyword_where
      ∷ name_token w.column
      ∷ mark (operator_type w.operator)
      ∷ literal_token w.value
      ∷ ts

  -- the tokens behind the first keyword
  abbrev pub insert_tokens : InsertStatement → List Token → List Token
  insert_tokens s ts =
      mark TokenType.keyword_into
      ∷ name_token (record { name = s.table_name; location = s.table_location })
      ∷ column_list_tokens s.columns (
          mark TokenType.keyword_values
          ∷ mark TokenType.lparen
          ∷ literals s.values (mark TokenType.rparen ∷ ts))

  abbrev pub select_tokens : SelectStatement → List Token → List Token
  select_tokens s ts = selection_tokens s.columns (
      mark TokenType.keyword_from
      ∷ name_token (record { name = s.table_name; location = place TokenType.identifier })
      ∷ where_tokens s.where_clause ts)

  abbrev pub first_token : Statement → Token
  first_token (insert l s) =
      token TokenType.keyword_insert (spelled TokenType.keyword_insert) l.line l.column
  first_token (select l s) =
      token TokenType.keyword_select (spelled TokenType.keyword_select) l.line l.column

  abbrev pub later_tokens : Statement → List Token → List Token
  later_tokens (insert l s) ts = insert_tokens s ts
  later_tokens (select l s) ts = select_tokens s ts

  -- the tokens of the statements, a semicolon behind each, from the second token on
  abbrev pub program_tokens : Statement → List Statement → List Token
  program_tokens s [] = later_tokens s (mark TokenType.semicolon ∷ mark TokenType.eof ∷ [])
  program_tokens s (s' ∷ ss) =
      later_tokens s (mark TokenType.semicolon ∷ first_token s' ∷ program_tokens s' ss)
