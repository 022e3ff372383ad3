-- ===== src/Tests/Tokens.antt =====
-- The tokenizer on concrete texts.
use week7_02_sql_index.Prelude.{none, some, List, [], ◌∷◌, ◌≡◌, ◌≢◌, refl, All, arith}
use week7_02_sql_index.Text.{codes, span, str_eq}
use week7_02_sql_index.Sql.{TokenType, ok, err, error_at, newline_in_string, unsupported_character}
use week7_02_sql_index.Tokenizer.Defs.{
  token, keyword_type, append_token, append_word, read_word, read_quoted, read_string, read_symbol,
  next_token, lex_loop, tokenize_sql,
}
use week7_02_sql_index.Tokenizer.Total.{tokenize_sql_total}
use week7_02_sql_index.Tokenizer.Lexemes.Spelling.{
  Lexeme, keyword, name, number, quoted, symbol, IsFree, IsLexeme, render, placed,
}
use week7_02_sql_index.Tokenizer.Lexemes.Reading.{tokenize_sql-render}

select_text :
    tokenize_sql (codes "SELECT Id\n FROM t;")
    ≡ some (
        ok (
          token TokenType.keyword_select (codes "SELECT") 1 1
          ∷ token TokenType.identifier (codes "id") 1 8
          ∷ token TokenType.keyword_from (codes "FROM") 2 2
          ∷ token TokenType.identifier (codes "t") 2 7
          ∷ token TokenType.semicolon (codes ";") 2 8
          ∷ token TokenType.eof [] 2 9
          ∷ []))
unfolding keyword_type str_eq span append_token append_word read_word read_symbol next_token
    lex_loop tokenize_sql
select_text = refl

lone_bang : tokenize_sql (codes "a ! b") ≡ some (err (error_at unsupported_character 1 3))
unfolding keyword_type str_eq span append_token append_word read_word read_symbol next_token
    lex_loop tokenize_sql
lone_bang = refl

broken_string : tokenize_sql (codes "'ab\n'") ≡ some (err (error_at newline_in_string 1 4))
unfolding append_token read_quoted read_string next_token lex_loop tokenize_sql
broken_string = refl

abbrev lexemes : List Lexeme
lexemes =
    keyword TokenType.keyword_insert (codes "Insert")
    ∷ keyword TokenType.keyword_into (codes "INTO")
    ∷ name (codes "_Id")
    ∷ symbol TokenType.bang_equal
    ∷ number (codes "-12")
    ∷ quoted (codes "o k")
    ∷ symbol TokenType.semicolon
    ∷ []

id-IsFree : IsFree (codes "_Id")
id-IsFree TokenType.keyword_insert e = cc
id-IsFree TokenType.keyword_into e = cc
id-IsFree TokenType.keyword_values e = cc
id-IsFree TokenType.keyword_select e = cc
id-IsFree TokenType.keyword_from e = cc
id-IsFree TokenType.keyword_where e = cc
id-IsFree _ e = cc

lexemes-IsLexeme : All IsLexeme lexemes
lexemes-IsLexeme = (
  ((λ e. cc), refl),
  (
    ((λ e. cc), refl),
    (
      (refl, (refl, (refl, (refl, tt))), omega arith, id-IsFree),
      (
        (λ e. cc),
        (
          ((refl, (refl, tt)), omega arith),
          (((refl, (refl, (refl, tt))), omega arith), ((λ e. cc), tt)),
        ),
      ),
    ),
  ),
)

tokenize_sql-render_example : tokenize_sql (render lexemes) ≡ some (ok (placed 1 lexemes))
tokenize_sql-render_example = tokenize_sql-render lexemes lexemes-IsLexeme (omega arith)

tokenize_sql_total_example : tokenize_sql (codes "insert '") ≢ none
tokenize_sql_total_example = tokenize_sql_total (codes "insert '")
