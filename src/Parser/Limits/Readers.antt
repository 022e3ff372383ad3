-- ===== src/Parser/Limits/Readers.antt =====
-- The names and lists that the parser reads stay within the limits of include/sqlproc.h.
use week7_02_sql_index.Prelude.{
  ℕ, zero, suc, ◌+◌, ◌≤◌, false, Option, none, some, List, ◌≡◌, leb, length, All, arith, if-either,
}
use week7_02_sql_index.Sql.{
  TokenType, Token, LiteralValue, ColumnRef, WhereClause, max_name_len, max_columns, Ensures,
  Ensures-bind, Ensures-behind,
}
use week7_02_sql_index.Parser.Defs.{
  Parser, token_matches, advance_token, consume_token, copy_name, parse_identifier, parse_literal,
  parse_where_operator, parse_values, parse_value_list, parse_columns, parse_column_list,
  parse_selection, parse_where, reached, differs, column_count,
}
use week7_02_sql_index.Parser.Print.{IsName, IsColumnList, AsMany, IsWhere}

copy_name-IsName : (t : Token) → Ensures (λ (c : ColumnRef). IsName c.name) (copy_name t)
unfolding copy_name
copy_name-IsName t =
    if-either (Ensures (λ (c : ColumnRef). IsName c.name)) (leb max_name_len (length t.text)) _ _
      (λ e. tt) (λ e. ground arith)

abbrev pub IsNamed : ColumnRef × Parser → Type 0
IsNamed r = IsName r.0.name

pub parse_identifier-IsName : (s : Parser) → Ensures IsNamed (parse_identifier s)
unfolding parse_identifier
parse_identifier-IsName s =
    if-either (Ensures IsNamed) (token_matches s TokenType.identifier) _ _
      (λ e.
        Ensures-bind (λ (c : ColumnRef). IsName c.name) IsNamed (copy_name s.current) _
          (copy_name-IsName s.current) (λ c h. h))
      (λ e. tt)

abbrev AtMostColumns : ℕ → List ColumnRef × Parser → Type 0
AtMostColumns room r =
    (1 ≤ length r.0) × (length r.0 ≤ room) × All (λ (c : ColumnRef). IsName c.name) r.0

parse_columns-limits : (room : ℕ) (s : Parser) → Ensures (AtMostColumns room) (parse_columns room s)
unfolding parse_columns
parse_columns-limits zero s = tt
parse_columns-limits (suc room) s =
    Ensures-bind IsNamed (AtMostColumns (suc room)) (parse_identifier s) _
      (parse_identifier-IsName s)
      (λ c named.
        if-either (Ensures (AtMostColumns (suc room))) (token_matches c.1 TokenType.comma) _ _
          (λ e.
            Ensures-bind (AtMostColumns room) (AtMostColumns (suc room))
              (parse_columns room (advance_token c.1)) _
              (parse_columns-limits room (advance_token c.1))
              (λ more h. (omega arith, omega (arith, h.1), (named, h.2))))
          (λ e. (omega arith, omega arith, (named, tt))))

abbrev AtMostValues : ℕ → List LiteralValue × Parser → Type 0
AtMostValues room r = (1 ≤ length r.0) × (length r.0 ≤ room)

parse_values-limits :
    (room : ℕ) (expected : Option ℕ) (count : ℕ) (s : Parser)
    → Ensures (AtMostValues room) (parse_values room expected count s)
unfolding parse_values
parse_values-limits zero expected count s = tt
parse_values-limits (suc room) expected count s =
    if-either (Ensures (AtMostValues (suc room))) (reached count expected) _ _ (λ e. tt)
      (λ e. Ensures-behind (AtMostValues (suc room)) (parse_literal s) _ (λ v.
        if-either (Ensures (AtMostValues (suc room))) (token_matches v.1 TokenType.comma) _ _
          (λ e.
            Ensures-bind (AtMostValues room) (AtMostValues (suc room))
              (parse_values room expected (count + 1) (advance_token v.1)) _
              (parse_values-limits room expected (count + 1) (advance_token v.1))
              (λ more h. (omega arith, omega (arith, h.1))))
          (λ e. (omega arith, omega arith))))

differs-AsMany :
    (columns : Option (List ColumnRef)) (values : List LiteralValue)
    → differs (length values) (column_count columns) ≡ false
    → AsMany columns values
differs-AsMany none values e = tt
differs-AsMany (some cs) values e = ground arith

abbrev pub IsValues : Option (List ColumnRef) → List LiteralValue × Parser → Type 0
IsValues columns r = (1 ≤ length r.0) × (length r.0 ≤ max_columns) × AsMany columns r.0

pub parse_value_list-limits :
    (columns : Option (List ColumnRef)) (s : Parser)
    → Ensures (IsValues columns) (parse_value_list (column_count columns) s)
unfolding parse_value_list
parse_value_list-limits columns s =
    Ensures-bind (AtMostValues max_columns) (IsValues columns)
      (parse_values max_columns (column_count columns) 0 s) _
      (parse_values-limits max_columns (column_count columns) 0 s)
      (λ r h.
        if-either (Ensures (IsValues columns)) (differs (length r.0) (column_count columns)) _ _
          (λ e. tt) (λ e. (h.0, h.1, differs-AsMany columns r.0 e)))

pub parse_column_list-limits :
    (s : Parser)
    → Ensures (λ (r : Option (List ColumnRef) × Parser). IsColumnList r.0) (parse_column_list s)
unfolding parse_column_list
parse_column_list-limits s =
    let P : Option (List ColumnRef) × Parser → Type 0 = λ r. IsColumnList r.0 in
    if-either (Ensures P) (token_matches s TokenType.lparen) _ _
      (λ e.
        Ensures-bind (AtMostColumns max_columns) P (parse_columns max_columns (advance_token s)) _
          (parse_columns-limits max_columns (advance_token s))
          (λ r h. Ensures-behind P (consume_token TokenType.rparen _ r.1) _ (λ s2. h)))
      (λ e. tt)

pub parse_selection-limits :
    (s : Parser)
    → Ensures (λ (r : Option (List ColumnRef) × Parser). IsColumnList r.0) (parse_selection s)
unfolding parse_selection
parse_selection-limits s =
    let P : Option (List ColumnRef) × Parser → Type 0 = λ r. IsColumnList r.0 in
    if-either (Ensures P) (token_matches s TokenType.star) _ _ (λ e. tt)
      (λ e.
        Ensures-bind (AtMostColumns max_columns) P (parse_columns max_columns s) _
          (parse_columns-limits max_columns s) (λ r h. h))

pub parse_where-limits :
    (s : Parser) → Ensures (λ (r : Option WhereClause × Parser). IsWhere r.0) (parse_where s)
unfolding parse_where
parse_where-limits s =
    let P : Option WhereClause × Parser → Type 0 = λ r. IsWhere r.0 in
    if-either (Ensures P) (token_matches s TokenType.keyword_where) _ _
      (λ e.
        Ensures-bind IsNamed P (parse_identifier (advance_token s)) _
          (parse_identifier-IsName (advance_token s))
          (λ c named.
            Ensures-behind P (parse_where_operator c.1) _
              (λ o. Ensures-behind P (parse_literal o.1) _ (λ v. named))))
      (λ e. tt)
