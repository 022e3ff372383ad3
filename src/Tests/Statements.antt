-- ===== src/Tests/Statements.antt =====
-- The parser on concrete tokens.
use week7_02_sql_index.Prelude.{none, some, List, [], ◌∷◌, ◌≡◌, refl, arith}
use week7_02_sql_index.Text.{Bytes, codes}
use week7_02_sql_index.Sql.{
  TokenType, type_value, Token, LiteralType, WhereOperator, SourceLocation, location, Statement,
  insert, select, ok, err, error_at, semicolon_expected,
}
use week7_02_sql_index.Tokenizer.Defs.{token}
use week7_02_sql_index.Parser.Defs.{
  consume_token, copy_name, parse_identifier, parse_selection, parse_where, parse_select_statement,
  parse_statement, parse_statements, parse_program,
}
use week7_02_sql_index.Parser.Print.{IsStatement, IsProgram, first_token, program_tokens}
use week7_02_sql_index.Parser.RoundTrip.Program.{parse_program-tokens}
use week7_02_sql_index.Parser.Limits.Statements.{parse_program-IsProgram}

-- INSERT INTO users (id, name) VALUES (1, 'kim');
abbrev insertion : Statement
insertion = insert (location 1 1) (record {
  table_name = codes "users";
  table_location = location 1 13;
  columns = some (
      record { name = codes "id"; location = location 1 20 }
      ∷ record { name = codes "name"; location = location 1 24 }
      ∷ []);
  values =
      record { type = LiteralType.int; text = codes "1"; location = location 1 38 }
      ∷ record { type = LiteralType.string; text = codes "kim"; location = location 1 41 }
      ∷ [];
})

-- SELECT * FROM users WHERE id > 1;
abbrev selection : Statement
selection = select (location 2 1) (record {
  table_name = codes "users";
  columns = none;
  where_clause = some (record {
    column = record { name = codes "id"; location = location 2 27 };
    operator = WhereOperator.greater;
    value = record { type = LiteralType.int; text = codes "1"; location = location 2 32 };
  });
})

abbrev wordless : TokenType → Bytes
wordless ty = []

abbrev nowhere : TokenType → SourceLocation
nowhere ty = location 0 0

insertion-IsStatement : IsStatement insertion
insertion-IsStatement = (
  omega arith,
  (omega arith, omega arith, (omega arith, (omega arith, tt))),
  omega arith,
  omega arith,
  refl,
)

both-IsProgram : IsProgram (insertion ∷ selection ∷ [])
both-IsProgram =
    (omega arith, omega arith, (insertion-IsStatement, ((omega arith, tt, omega arith), tt)))

parse_program-tokens_example :
    parse_program
      (first_token wordless nowhere insertion)
      (program_tokens wordless nowhere insertion (selection ∷ []))
    ≡ ok (insertion ∷ selection ∷ [])
parse_program-tokens_example =
    parse_program-tokens wordless nowhere insertion (selection ∷ []) both-IsProgram

abbrev select_tokens : List Token
select_tokens =
    token TokenType.star (codes "*") 1 8
    ∷ token TokenType.keyword_from (codes "from") 1 10
    ∷ token TokenType.identifier (codes "t") 1 15
    ∷ token TokenType.semicolon (codes ";") 1 16
    ∷ token TokenType.eof [] 1 17
    ∷ []

abbrev selected : List Statement
selected =
    select (location 1 1) (record { table_name = codes "t"; columns = none; where_clause = none })
    ∷ []

parsed :
    parse_program (token TokenType.keyword_select (codes "select") 1 1) select_tokens ≡ ok selected
unfolding consume_token copy_name parse_identifier parse_selection parse_where
    parse_select_statement parse_statement parse_statements parse_program type_value
parsed = refl

no_semicolon :
    parse_program (token TokenType.keyword_select (codes "select") 1 1) (
      token TokenType.star (codes "*") 1 8
      ∷ token TokenType.keyword_from (codes "from") 1 10
      ∷ token TokenType.identifier (codes "t") 1 15
      ∷ token TokenType.eof [] 1 16
      ∷ [])
    ≡ err (error_at semicolon_expected 1 16)
unfolding consume_token copy_name parse_identifier parse_selection parse_where
    parse_select_statement parse_statement parse_statements parse_program type_value
no_semicolon = refl

parse_program-IsProgram_example : IsProgram selected
parse_program-IsProgram_example =
    parse_program-IsProgram (token TokenType.keyword_select (codes "select") 1 1) select_tokens
      selected parsed
