-- ===== src/Parser/RoundTrip/Program.antt =====
-- The parser reads back every program from its tokens.
use week7_02_sql_index.Prelude.{
  ℕ, zero, suc, ◌≤◌, false, Option, none, some, List, [], ◌∷◌, ◌≡◌, refl, ◌==◌, length, All, arith,
}
use week7_02_sql_index.Text.{Bytes}
use week7_02_sql_index.Sql.{
  TokenType, type_value, SourceLocation, Token, LiteralValue, ColumnRef, InsertStatement,
  WhereClause, SelectStatement, Statement, insert, select, max_statements, ok,
}
use week7_02_sql_index.Parser.Defs.{
  consume_token, parse_identifier, parse_insert_statement, parse_where, parse_select_statement,
  parse_statement, parse_statements, parse_program,
}
use week7_02_sql_index.Parser.Print.{
  IsName, IsWhere, IsInsert, IsSelect, IsStatement, IsProgram, name_token, literal_token,
  operator_type, mark, more_names, more_literals, where_tokens, insert_tokens, select_tokens,
  first_token, later_tokens, program_tokens,
}
use week7_02_sql_index.Parser.RoundTrip.Readers.{
  at, parse_identifier-name_token, parse_value_list-literals, parse_column_list-names,
  parse_column_list-values, parse_where-tokens, parse_where-none, parse_selection-names,
  parse_selection-star,
}

-- a WHERE clause's last token
last_where : Token → Option WhereClause → Token
last_where t none = t
last_where t (some w) = literal_token w.value

module _ (spelled : TokenType → Bytes) (place : TokenType → SourceLocation) where
  parse_insert-tokens :
      (l : SourceLocation) (table : ColumnRef) (columns : Option (List ColumnRef))
      (values : List LiteralValue) (p t : Token) (ts : List Token)
      → let s : InsertStatement = record {
        table_name = table.name;
        table_location = table.location;
        columns = columns;
        values = values;
      } in
        IsInsert s
        → parse_insert_statement
            (at p (first_token spelled place (insert l s)) (insert_tokens spelled place s (t ∷ ts)))
          ≡ ok (insert l s, at (mark spelled place TokenType.rparen) t ts)
  unfolding parse_insert_statement consume_token type_value
  parse_insert-tokens l table columns [] p t ts h = absurd (omega (arith, h.2))
  parse_insert-tokens l table (some []) (v ∷ vs) p t ts h = absurd (omega (arith, h.1.0))
  parse_insert-tokens l table none (v ∷ vs) p t ts h =
      let into = mark spelled place TokenType.keyword_into in
      let values = mark spelled place TokenType.keyword_values in
      let lparen = mark spelled place TokenType.lparen in
      let rparen = mark spelled place TokenType.rparen in
      let literals = more_literals spelled place vs (rparen ∷ t ∷ ts) in
      rw (
        parse_identifier-name_token into table values (lparen ∷ literal_token v ∷ literals) h.0,
        parse_column_list-values spelled place (name_token table)
            (lparen ∷ literal_token v ∷ literals),
        parse_value_list-literals spelled place none lparen v vs rparen (t ∷ ts) refl h.3 tt,
      )
  parse_insert-tokens l table (some (c ∷ cs)) (v ∷ vs) p t ts h =
      let into = mark spelled place TokenType.keyword_into in
      let values = mark spelled place TokenType.keyword_values in
      let lparen = mark spelled place TokenType.lparen in
      let rparen = mark spelled place TokenType.rparen in
      let literals = more_literals spelled place vs (rparen ∷ t ∷ ts) in
      let behind = lparen ∷ literal_token v ∷ literals in
      rw (
        parse_identifier-name_token into table lparen
            (name_token c ∷ more_names spelled place cs (rparen ∷ values ∷ behind)) h.0,
        parse_column_list-names spelled place (name_token table) c cs values behind h.1,
        parse_value_list-literals spelled place (some (c ∷ cs)) lparen v vs rparen (t ∷ ts) refl h.3
            h.4,
      )

  -- a SELECT behind its column list
  parse_table-tokens :
      (from : Token) (table : ColumnRef) (w : Option WhereClause) (ts : List Token)
      → IsName table.name
      → IsWhere w
      → let semicolon = mark spelled place TokenType.semicolon in
        (t : Token) × (us : List Token) × (where_tokens spelled place w (semicolon ∷ ts) ≡ t ∷ us)
        × (parse_identifier (at from (name_token table) (t ∷ us))
            ≡ ok (table, at (name_token table) t us))
        × (parse_where (at (name_token table) t us)
            ≡ ok (w, at (last_where (name_token table) w) semicolon ts))
  unfolding last_where
  parse_table-tokens from table none ts h hw =
      let semicolon = mark spelled place TokenType.semicolon in
      (
        semicolon,
        ts,
        refl,
        parse_identifier-name_token from table semicolon ts h,
        parse_where-none spelled place (name_token table) ts,
      )
  parse_table-tokens from table (some w) ts h hw =
      let semicolon = mark spelled place TokenType.semicolon in
      let keyword = mark spelled place TokenType.keyword_where in
      let clause =
        name_token w.column
        ∷ mark spelled place (operator_type w.operator)
        ∷ literal_token w.value
        ∷ semicolon
        ∷ ts in
      (
        keyword,
        clause,
        refl,
        parse_identifier-name_token from table keyword clause h,
        parse_where-tokens spelled place (name_token table) w semicolon ts hw,
      )

  parse_select-tokens :
      (l : SourceLocation) (name : Bytes) (columns : Option (List ColumnRef))
      (w : Option WhereClause) (p : Token) (ts : List Token)
      → let s : SelectStatement = record {
        table_name = name;
        columns = columns;
        where_clause = w;
      } in
        let semicolon = mark spelled place TokenType.semicolon in
        IsSelect s
        → (q : Token) × (parse_select_statement (
              at p
                (first_token spelled place (select l s))
                (select_tokens spelled place s (semicolon ∷ ts)))
            ≡ ok (select l s, at q semicolon ts))
  unfolding parse_select_statement consume_token type_value
  parse_select-tokens l name (some []) w p ts h = absurd (omega (arith, h.1.0))
  parse_select-tokens l name none w p ts h =
      let from = mark spelled place TokenType.keyword_from in
      let table : ColumnRef = record { name = name; location = place TokenType.identifier } in
      let (t, us, where_list, identifier, clause) = parse_table-tokens from table w ts h.0 h.2 in
      (
        last_where (name_token table) w,
        rw (
          where_list,
          parse_selection-star spelled place
              (first_token spelled place
                (select l (record { table_name = name; columns = none; where_clause = w })))
              from (name_token table ∷ t ∷ us),
          identifier,
          clause,
        ),
      )
  parse_select-tokens l name (some (c ∷ cs)) w p ts h =
      let from = mark spelled place TokenType.keyword_from in
      let table : ColumnRef = record { name = name; location = place TokenType.identifier } in
      let first =
        first_token spelled place
          (select l (record { table_name = name; columns = none; where_clause = w })) in
      let (t, us, where_list, identifier, clause) = parse_table-tokens from table w ts h.0 h.2 in
      (
        last_where (name_token table) w,
        rw (
          where_list,
          parse_selection-names spelled place first c cs (name_token table ∷ t ∷ us) h.1,
          identifier,
          clause,
        ),
      )

  parse_statement-tokens :
      (s : Statement) (p : Token) (ts : List Token)
      → IsStatement s
      → let semicolon = mark spelled place TokenType.semicolon in
        (q : Token) × (parse_statement
            (at p (first_token spelled place s) (later_tokens spelled place s (semicolon ∷ ts)))
          ≡ ok (s, at q semicolon ts))
  unfolding parse_statement type_value
  parse_statement-tokens (insert l s) p ts h =
      let table : ColumnRef = record { name = s.table_name; location = s.table_location } in
      (
        mark spelled place TokenType.rparen,
        parse_insert-tokens l table s.columns s.values p (mark spelled place TokenType.semicolon) ts
            h,
      )
  parse_statement-tokens (select l s) p ts h =
      parse_select-tokens l s.table_name s.columns s.where_clause p ts h

  first_token-eof : (s : Statement) → (type_value (first_token spelled place s).type == 0) ≡ false
  unfolding type_value
  first_token-eof (insert l s) = refl
  first_token-eof (select l s) = refl

  parse_statements-eof :
      (room : ℕ) (p : Token)
      → parse_statements room (at p (mark spelled place TokenType.eof) []) ≡ ok []
  unfolding parse_statements type_value
  parse_statements-eof zero p = refl
  parse_statements-eof (suc room) p = refl

  parse_statements-tokens :
      (room : ℕ) (s : Statement) (ss : List Statement) (p : Token)
      → All IsStatement (s ∷ ss)
      → length (s ∷ ss) ≤ room
      → parse_statements room
          (at p (first_token spelled place s) (program_tokens spelled place s ss))
        ≡ ok (s ∷ ss)
  unfolding parse_statements consume_token type_value
  parse_statements-tokens zero s ss p h r = absurd (omega arith)
  parse_statements-tokens (suc room) s [] p h r =
      let semicolon = mark spelled place TokenType.semicolon in
      let (q, read) = parse_statement-tokens s p (mark spelled place TokenType.eof ∷ []) h.0 in
      rw (first_token-eof s, read, parse_statements-eof room semicolon)
  parse_statements-tokens (suc room) s (s' ∷ ss) p h r =
      let semicolon = mark spelled place TokenType.semicolon in
      let behind = first_token spelled place s' ∷ program_tokens spelled place s' ss in
      let (q, read) = parse_statement-tokens s p behind h.0 in
      rw (first_token-eof s, read, parse_statements-tokens room s' ss semicolon h.1 (omega arith))

-- A program of one to 32 statements within the limits, written as tokens with a semicolon behind each
-- statement and the end of the text at the end, is parsed to itself, whatever the words and places of
-- the tokens of which a statement keeps none.
pub parse_program-tokens :
    (spelled : TokenType → Bytes) (place : TokenType → SourceLocation) (s : Statement)
    (ss : List Statement)
    → IsProgram (s ∷ ss)
    → parse_program (first_token spelled place s) (program_tokens spelled place s ss) ≡ ok (s ∷ ss)
unfolding parse_program type_value
parse_program-tokens spelled place s ss h =
    let first = first_token spelled place s in
    rw (
      first_token-eof spelled place s,
      parse_statements-tokens spelled place max_statements s ss first h.2 h.1,
    )
