-- ===== src/Parser/Limits/Statements.antt =====
-- Statements and programs that the parser accepts stay within the limits of include/sqlproc.h.
use week7_02_sql_index.Prelude.{ℕ, zero, suc, ◌≤◌, false, List, ◌≡◌, length, All, arith, if-either}
use week7_02_sql_index.Sql.{
  TokenType, Token, Statement, max_statements, ok, Ensures, Ensures-bind, Ensures-behind,
  Ensures-ok, Ensures-both,
}
use week7_02_sql_index.Parser.Defs.{
  Parser, token_matches, consume_token, parse_identifier, parse_value_list, parse_column_list,
  parse_insert_statement, parse_selection, parse_where, parse_select_statement, parse_statement,
  parse_statements, parse_program, column_count,
}
use week7_02_sql_index.Parser.Print.{IsColumnList, IsWhere, IsStatement, IsProgram}
use week7_02_sql_index.Parser.Limits.Readers.{
  IsNamed, parse_identifier-IsName, IsValues, parse_value_list-limits, parse_column_list-limits,
  parse_selection-limits, parse_where-limits,
}

abbrev Accepted : Statement × Parser → Type 0
Accepted r = IsStatement r.0

parse_insert_statement-limits : (s : Parser) → Ensures Accepted (parse_insert_statement s)
unfolding parse_insert_statement
parse_insert_statement-limits s = Ensures-behind Accepted (consume_token _ _ s) _ (λ s1.
    Ensures-behind Accepted (consume_token _ _ s1) _ (λ s2.
      Ensures-bind IsNamed Accepted (parse_identifier s2) _ (parse_identifier-IsName s2)
        (λ table named.
          Ensures-bind (λ r. IsColumnList r.0) Accepted (parse_column_list table.1) _
            (parse_column_list-limits table.1)
            (λ columns listed. Ensures-behind Accepted (consume_token _ _ columns.1) _ (λ s5.
              Ensures-behind Accepted (consume_token _ _ s5) _ (λ s6.
                Ensures-bind (IsValues columns.0) Accepted
                  (parse_value_list (column_count columns.0) s6) _
                  (parse_value_list-limits columns.0 s6)
                  (λ values h.
                    Ensures-behind Accepted (consume_token _ _ values.1) _
                      (λ s8. (named, listed, h.0, h.1, h.2)))))))))

parse_select_statement-limits : (s : Parser) → Ensures Accepted (parse_select_statement s)
unfolding parse_select_statement
parse_select_statement-limits s = Ensures-behind Accepted (consume_token _ _ s) _ (λ s1.
    Ensures-bind (λ r. IsColumnList r.0) Accepted (parse_selection s1) _ (parse_selection-limits s1)
      (λ columns listed. Ensures-behind Accepted (consume_token _ _ columns.1) _ (λ s3.
        Ensures-bind IsNamed Accepted (parse_identifier s3) _ (parse_identifier-IsName s3)
          (λ table named.
            Ensures-bind (λ r. IsWhere r.0) Accepted (parse_where table.1) _
              (parse_where-limits table.1) (λ w clause. (named, listed, clause))))))

parse_statement-limits : (s : Parser) → Ensures Accepted (parse_statement s)
unfolding parse_statement
parse_statement-limits s =
    if-either (Ensures Accepted) (token_matches s TokenType.keyword_insert) _ _
      (λ e. parse_insert_statement-limits s)
      (λ e.
        if-either (Ensures Accepted) (token_matches s TokenType.keyword_select) _ _
          (λ e. parse_select_statement-limits s) (λ e. tt))

abbrev AtMostStatements : ℕ → List Statement → Type 0
AtMostStatements room p = (length p ≤ room) × All IsStatement p

parse_statements-limits :
    (room : ℕ) (s : Parser) → Ensures (AtMostStatements room) (parse_statements room s)
unfolding parse_statements
parse_statements-limits zero s =
    if-either (Ensures (AtMostStatements 0)) (token_matches s TokenType.eof) _ _
      (λ e. (omega arith, tt)) (λ e. tt)
parse_statements-limits (suc room) s =
    let P = AtMostStatements (suc room) in
    if-either (Ensures P) (token_matches s TokenType.eof) _ _ (λ e. (omega arith, tt))
      (λ e. Ensures-bind Accepted P (parse_statement s) _ (parse_statement-limits s) (λ r h.
        Ensures-behind P (consume_token _ _ r.1) _ (λ s2.
          Ensures-bind (AtMostStatements room) P (parse_statements room s2) _
            (parse_statements-limits room s2) (λ more hs. (omega (arith, hs.0), (h, hs.1))))))

-- a first token that is no end of the text makes a first statement
parse_statements-first :
    (room : ℕ) (s : Parser)
    → token_matches s TokenType.eof ≡ false
    → Ensures (λ (p : List Statement). 1 ≤ length p) (parse_statements room s)
unfolding parse_statements
parse_statements-first zero s e = rw e tt
parse_statements-first (suc room) s e =
    let P : List Statement → Type 0 = λ p. 1 ≤ length p in
    rw e (
      Ensures-behind P (parse_statement s) _ (λ r.
        Ensures-behind P (consume_token _ _ r.1) _
          (λ s2. Ensures-behind P (parse_statements room s2) _ (λ more. omega arith))))

-- An accepted program has one to 32 statements; each has a table name and column names of at most 63
-- bytes, one to 16 columns where it lists any, and an INSERT has one to 16 values, as many as columns
-- where it lists them.
pub parse_program-IsProgram :
    (first : Token) (rest : List Token) (p : List Statement)
    → parse_program first rest ≡ ok p
    → IsProgram p
unfolding parse_program
parse_program-IsProgram first rest p e =
    let s : Parser = record { previous = first; current = first; rest = rest } in
    Ensures-ok IsProgram (parse_program first rest) p
      (if-either (Ensures IsProgram) (token_matches s TokenType.eof) _ _ (λ e. tt)
        (λ start.
          Ensures-both (AtMostStatements max_statements) (λ ps. 1 ≤ length ps) IsProgram
            (parse_statements max_statements s) (parse_statements-limits max_statements s)
            (parse_statements-first max_statements s start) (λ ps h l. (l, h.0, h.1))))
      e
