-- ===== src/Parser/RoundTrip/Readers.antt =====
-- The readers of names, literals, operators and lists, on the tokens of a statement.
use week7_02_sql_index.Prelude.{
  ℕ, zero, suc, ◌+◌, ◌≤◌, false, Option, none, some, List, [], ◌∷◌, ◌≡◌, refl, ◌==◌, length, All,
  arith,
}
use week7_02_sql_index.Text.{Bytes}
use week7_02_sql_index.Sql.{
  TokenType, type_value, LiteralType, WhereOperator, SourceLocation, Token, LiteralValue, ColumnRef,
  WhereClause, max_columns, ok,
}
use week7_02_sql_index.Parser.Defs.{
  Parser, consume_token, copy_name, parse_identifier, parse_literal, parse_where_operator,
  parse_values, parse_value_list, parse_columns, parse_column_list, parse_selection, parse_where,
  reached, differs, column_count,
}
use week7_02_sql_index.Parser.Print.{
  IsName, IsColumns, AsMany, name_token, literal_token, operator_type, mark, more_names,
  more_literals,
}

abbrev pub at : Token → Token → List Token → Parser
at previous current rest = record { previous = previous; current = current; rest = rest }

pub copy_name-name_token : (c : ColumnRef) → IsName c.name → copy_name (name_token c) ≡ ok c
unfolding copy_name
copy_name-name_token c h = ground arith

-- A reader passes a token.
pub parse_identifier-name_token :
    (p : Token) (c : ColumnRef) (t : Token) (ts : List Token)
    → IsName c.name
    → parse_identifier (at p (name_token c) (t ∷ ts)) ≡ ok (c, at (name_token c) t ts)
unfolding parse_identifier type_value
parse_identifier-name_token p c t ts h = rw (copy_name-name_token c h)

pub parse_literal-literal_token :
    (p : Token) (v : LiteralValue) (t : Token) (ts : List Token)
    → parse_literal (at p (literal_token v) (t ∷ ts)) ≡ ok (v, at (literal_token v) t ts)
unfolding parse_literal type_value
parse_literal-literal_token p v t ts = by_type v.type v refl
  where
    by_type :
        (ty : LiteralType) (v : LiteralValue)
        → v.type ≡ ty
        → parse_literal (at p (literal_token v) (t ∷ ts)) ≡ ok (v, at (literal_token v) t ts)
    by_type LiteralType.int v e = rw e
    by_type LiteralType.string v e = rw e

pub parse_where_operator-mark :
    (spelled : TokenType → Bytes) (place : TokenType → SourceLocation) (p : Token)
    (o : WhereOperator) (t : Token) (ts : List Token)
    → let m = mark spelled place (operator_type o) in
      parse_where_operator (at p m (t ∷ ts)) ≡ ok (o, at m t ts)
unfolding parse_where_operator type_value
parse_where_operator-mark spelled place p WhereOperator.equal t ts = refl
parse_where_operator-mark spelled place p WhereOperator.greater t ts = refl
parse_where_operator-mark spelled place p WhereOperator.less t ts = refl
parse_where_operator-mark spelled place p WhereOperator.not_equal t ts = refl

pub last_name : ColumnRef → List ColumnRef → Token
last_name c [] = name_token c
last_name c (d ∷ ds) = last_name d ds

pub last_literal : LiteralValue → List LiteralValue → Token
last_literal v [] = literal_token v
last_literal v (w ∷ ws) = last_literal w ws

-- no more values than are expected
abbrev Room : Option ℕ → ℕ → Type 0
Room none n = Unit
Room (some expected) n = n ≤ expected

not_reached : (e : Option ℕ) (count n : ℕ) → Room e (count + suc n) → reached count e ≡ false
not_reached none count n h = refl
not_reached (some k) count n h = ground arith

Room-next : (e : Option ℕ) (count n : ℕ) → Room e (count + suc (suc n)) → Room e (count + 1 + suc n)
Room-next none count n h = tt
Room-next (some k) count n h = omega arith

module _ (spelled : TokenType → Bytes) (place : TokenType → SourceLocation) where
  parse_columns-names :
      (room : ℕ) (p : Token) (c : ColumnRef) (cs : List ColumnRef) (t : Token) (ts : List Token)
      → (type_value t.type == 4) ≡ false
      → length (c ∷ cs) ≤ room
      → All (λ (d : ColumnRef). IsName d.name) (c ∷ cs)
      → parse_columns room (at p (name_token c) (more_names spelled place cs (t ∷ ts)))
        ≡ ok (c ∷ cs, at (last_name c cs) t ts)
  unfolding parse_columns type_value last_name
  parse_columns-names zero p c cs t ts n room h = absurd (omega arith)
  parse_columns-names (suc room) p c [] t ts n r h =
      rw (parse_identifier-name_token p c t ts h.0, n)
  parse_columns-names (suc room) p c (d ∷ ds) t ts n r h =
      let comma = mark spelled place TokenType.comma in
      rw (
        parse_identifier-name_token p c comma (name_token d ∷ more_names spelled place ds (t ∷ ts))
            h.0,
        parse_columns-names room comma d ds t ts n (omega arith) h.1,
      )

  parse_values-literals :
      (room : ℕ) (expected : Option ℕ) (count : ℕ) (p : Token) (v : LiteralValue)
      (vs : List LiteralValue) (t : Token) (ts : List Token)
      → (type_value t.type == 4) ≡ false
      → length (v ∷ vs) ≤ room
      → Room expected (count + length (v ∷ vs))
      → parse_values room expected count
          (at p (literal_token v) (more_literals spelled place vs (t ∷ ts)))
        ≡ ok (v ∷ vs, at (last_literal v vs) t ts)
  unfolding parse_values type_value last_literal
  parse_values-literals zero expected count p v vs t ts n room e = absurd (omega arith)
  parse_values-literals (suc room) expected count p v [] t ts n r e =
      rw (not_reached expected count 0 e, parse_literal-literal_token p v t ts, n)
  parse_values-literals (suc room) expected count p v (w ∷ ws) t ts n r e =
      let comma = mark spelled place TokenType.comma in
      rw (
        not_reached expected count (length (w ∷ ws)) e,
        parse_literal-literal_token p v comma
            (literal_token w ∷ more_literals spelled place ws (t ∷ ts)),
        parse_values-literals room expected (count + 1) comma w ws t ts n (omega arith)
            (Room-next expected count (length ws) e),
      )

  pub parse_value_list-literals :
      (columns : Option (List ColumnRef)) (p : Token) (v : LiteralValue) (vs : List LiteralValue)
      (t : Token) (ts : List Token)
      → (type_value t.type == 4) ≡ false
      → length (v ∷ vs) ≤ max_columns
      → AsMany columns (v ∷ vs)
      → parse_value_list
          (column_count columns)
          (at p (literal_token v) (more_literals spelled place vs (t ∷ ts)))
        ≡ ok (v ∷ vs, at (last_literal v vs) t ts)
  unfolding parse_value_list
  parse_value_list-literals none p v vs t ts n room e =
      rw (parse_values-literals max_columns none 0 p v vs t ts n room tt)
  parse_value_list-literals (some cs) p v vs t ts n room e =
      let no_more : 0 + length (v ∷ vs) ≤ length cs = omega (arith, e) in
      let same : differs (length (v ∷ vs)) (some (length cs)) ≡ false = ground (arith, e) in
      rw (parse_values-literals max_columns (some (length cs)) 0 p v vs t ts n room no_more, same)

  pub parse_column_list-names :
      (p : Token) (c : ColumnRef) (cs : List ColumnRef) (t : Token) (ts : List Token)
      → IsColumns (c ∷ cs)
      → let rparen = mark spelled place TokenType.rparen in
        parse_column_list (
          at p
            (mark spelled place TokenType.lparen)
            (name_token c ∷ more_names spelled place cs (rparen ∷ t ∷ ts)))
        ≡ ok (some (c ∷ cs), at rparen t ts)
  unfolding parse_column_list consume_token type_value
  parse_column_list-names p c cs t ts h =
      let lparen = mark spelled place TokenType.lparen in
      let rparen = mark spelled place TokenType.rparen in
      rw (parse_columns-names max_columns lparen c cs rparen (t ∷ ts) refl h.1 h.2)

  pub parse_column_list-values :
      (p : Token) (ts : List Token)
      → let values = mark spelled place TokenType.keyword_values in
        parse_column_list (at p values ts) ≡ ok (none, at p values ts)
  unfolding parse_column_list type_value
  parse_column_list-values p ts = refl

  pub parse_where-tokens :
      (p : Token) (w : WhereClause) (t : Token) (ts : List Token)
      → IsName w.column.name
      → parse_where (
          at p (mark spelled place TokenType.keyword_where) (
            name_token w.column
            ∷ mark spelled place (operator_type w.operator)
            ∷ literal_token w.value
            ∷ t
            ∷ ts))
        ≡ ok (some w, at (literal_token w.value) t ts)
  unfolding parse_where type_value
  parse_where-tokens p w t ts h =
      let keyword = mark spelled place TokenType.keyword_where in
      let operator = mark spelled place (operator_type w.operator) in
      rw (
        parse_identifier-name_token keyword w.column operator (literal_token w.value ∷ t ∷ ts) h,
        parse_where_operator-mark spelled place (name_token w.column) w.operator
            (literal_token w.value) (t ∷ ts),
        parse_literal-literal_token operator w.value t ts,
      )

  pub parse_selection-names :
      (p : Token) (c : ColumnRef) (cs : List ColumnRef) (ts : List Token)
      → IsColumns (c ∷ cs)
      → let from = mark spelled place TokenType.keyword_from in
        parse_selection (at p (name_token c) (more_names spelled place cs (from ∷ ts)))
        ≡ ok (some (c ∷ cs), at (last_name c cs) from ts)
  unfolding parse_selection type_value
  parse_selection-names p c cs ts h = rw (
      parse_columns-names max_columns p c cs (mark spelled place TokenType.keyword_from) ts refl h.1
        h.2)

  pub parse_selection-star :
      (p t : Token) (ts : List Token)
      → let star = mark spelled place TokenType.star in
        parse_selection (at p star (t ∷ ts)) ≡ ok (none, at star t ts)
  unfolding parse_selection type_value
  parse_selection-star p t ts = refl

  pub parse_where-none :
      (p : Token) (ts : List Token)
      → let semicolon = mark spelled place TokenType.semicolon in
        parse_where (at p semicolon ts) ≡ ok (none, at p semicolon ts)
  unfolding parse_where type_value
  parse_where-none p ts = refl
