-- ===== src/Tokenizer/Defs.antt =====
-- The functions of src/tokenizer.c. An index into the text is the text from that index on.
use week7_02_sql_index.Prelude.{
  ℕ, zero, suc, ◌+◌, ◌-◌, Bool, false, ◌&&◌, ◌||◌, Option, none, some, List, [], ◌∷◌, ◌++◌, leb,
  ◌==◌, if◌then◌else◌, length, map,
}
use week7_02_sql_index.Text.{Bytes, codes, is_digit, is_alpha, is_alnum, to_lower, str_eq, span}
use week7_02_sql_index.Sql.{
  TokenType, Token, too_many_tokens, word_too_long, bad_number, newline_in_string, string_too_long,
  unclosed_string, unsupported_character, error_at, Result, ok, err, ◌>>=◌, max_tokens,
  max_value_len,
}

unfoldable pub keyword_type : Bytes → TokenType
keyword_type text =
    if str_eq text (codes "insert")
    then TokenType.keyword_insert
    else if str_eq text (codes "into")
    then TokenType.keyword_into
    else if str_eq text (codes "values")
    then TokenType.keyword_values
    else if str_eq text (codes "select")
    then TokenType.keyword_select
    else if str_eq text (codes "from")
    then TokenType.keyword_from
    else if str_eq text (codes "where")
    then TokenType.keyword_where
    else TokenType.identifier

abbrev pub token : TokenType → Bytes → ℕ → ℕ → Token
token ty text l c = record { type = ty; text = text; line = l; column = c }

unfoldable pub append_token : List Token → TokenType → Bytes → ℕ → ℕ → Result (List Token)
append_token tokens ty text line column =
    if leb max_tokens (length tokens)
    then err (error_at too_many_tokens line column)
    else ok (tokens ++ token ty text line column ∷ [])

-- What a reader leaves: the text that follows, and the tokens.
pub record Reading : Type 0 where
  pub rest : Bytes
  pub tokens : List Token

abbrev pub reading : Bytes → Result (List Token) → Result Reading
reading rest r = r >>= λ ts. ok (record { rest = rest; tokens = ts })

abbrev pub is_word_byte : ℕ → Bool
is_word_byte c = is_alnum c || c == b'_'

-- an identifier is stored in lower case, a keyword as it was read
abbrev pub word_text : TokenType → Bytes → Bytes → Bytes
word_text TokenType.identifier raw lower = lower
word_text _ raw lower = raw

unfoldable pub append_word : Bytes → ℕ → ℕ → List Token → Result (List Token)
append_word raw line column tokens =
    let lower = map to_lower raw in
    let ty = keyword_type lower in append_token tokens ty (word_text ty raw lower) line column

unfoldable pub read_word : Bytes → ℕ → ℕ → List Token → Result Reading
unfolding append_word
read_word text line column tokens =
    let (raw, rest) = span is_word_byte text in
    if leb max_value_len (length raw)
    then err (error_at word_too_long line column)
    else reading rest (append_word raw line column tokens)

-- the optional '-' and the digits behind it
abbrev pub number_span : Bytes → Bytes × Bytes
number_span [] = ([], [])
number_span (c ∷ cs) =
    let (digits, rest) = span is_digit cs in
    if c == b'-' then (c ∷ digits, rest) else span is_digit (c ∷ cs)

unfoldable pub read_number : Bytes → ℕ → ℕ → List Token → Result Reading
read_number text line column tokens =
    let (number, rest) = number_span text in
    if leb (length number) 0 || leb max_value_len (length number)
    then err (error_at bad_number line column)
    else reading rest (append_token tokens TokenType.number number line column)

-- the loop behind the opening quote, at `text_index`; the content and the text behind the quote
unfoldable pub read_quoted : Bytes → ℕ → ℕ → ℕ → Result (Bytes × Bytes)
read_quoted [] text_index line column = err (error_at unclosed_string line column)
read_quoted (c ∷ cs) text_index line column =
    let more = read_quoted cs (text_index + 1) line column in
    if c == b'\''
    then ok ([], cs)
    else if c == b'\n' || c == b'\r'
    then err (error_at newline_in_string line (column + text_index + 1))
    else if leb (max_value_len - 1) text_index
    then err (error_at string_too_long line column)
    else more >>= λ r. ok (c ∷ r.0, r.1)

unfoldable pub read_string : Bytes → ℕ → ℕ → List Token → Result Reading
read_string [] line column tokens = err (error_at unclosed_string line column)
read_string (quote ∷ text) line column tokens = do
  (content, rest) ← read_quoted text 0 line column
  reading rest (append_token tokens TokenType.string content line column)

-- `!` counts only with the `=` behind it.
abbrev pub starts_with_equal : Bytes → Bool
starts_with_equal [] = false
starts_with_equal (c ∷ cs) = c == b'='

abbrev pub tail : Bytes → Bytes
tail [] = []
tail (c ∷ cs) = cs

unfoldable pub read_symbol : ℕ → Bytes → ℕ → ℕ → List Token → Result Reading
read_symbol c rest line column tokens =
    let append = λ (ty : TokenType). reading rest (append_token tokens ty (c ∷ []) line column) in
    if c == b','
    then append TokenType.comma
    else if c == b';'
    then append TokenType.semicolon
    else if c == b'('
    then append TokenType.lparen
    else if c == b')'
    then append TokenType.rparen
    else if c == b'*'
    then append TokenType.star
    else if c == b'='
    then append TokenType.equal
    else if c == b'>'
    then append TokenType.greater
    else if c == b'<'
    then append TokenType.less
    else if c == b'!' && starts_with_equal rest
    then reading (tail rest) (append_token tokens TokenType.bang_equal (codes "!=") line column)
    else err (error_at unsupported_character line column)

pub record Lexer : Type 0 where
  pub rest : Bytes
  pub line : ℕ
  pub column : ℕ
  pub tokens : List Token

-- strlen of the text of the token appended last
abbrev pub last_length : List Token → ℕ
last_length [] = 0
last_length (t ∷ []) = length t.text
last_length (t ∷ u ∷ ts) = last_length (u ∷ ts)

-- a reader's result, with the column moved behind the token
abbrev pub behind : ℕ → ℕ → ℕ → Result Reading → Result Lexer
behind line column quotes r = r >>= λ x. ok (record {
  rest = x.rest;
  line = line;
  column = column + last_length x.tokens + quotes;
  tokens = x.tokens;
})

abbrev pub next_is_digit : Bytes → Bool
next_is_digit [] = false
next_is_digit (c ∷ cs) = is_digit c

-- one round of the loop, at the byte `c`
unfoldable pub next_token : ℕ → Bytes → ℕ → ℕ → List Token → Result Lexer
next_token c rest line column tokens =
    if c == b' ' || c == b'\t' || c == b'\r'
    then ok (record { rest = rest; line = line; column = column + 1; tokens = tokens })
    else if c == b'\n'
    then ok (record { rest = rest; line = line + 1; column = 1; tokens = tokens })
    else if is_alpha c || c == b'_'
    then behind line column 0 (read_word (c ∷ rest) line column tokens)
    else if is_digit c || c == b'-' && next_is_digit rest
    then behind line column 0 (read_number (c ∷ rest) line column tokens)
    else if c == b'\''
    then behind line column 2 (read_string (c ∷ rest) line column tokens)
    else behind line column 0 (read_symbol c rest line column tokens)

-- `while (sql_text[index] != '\0')`; `none` means that the fuel ran out.
unfoldable pub lex_loop : ℕ → Bytes → ℕ → ℕ → List Token → Option (Result (List Token))
lex_loop fuel [] line column tokens = some (append_token tokens TokenType.eof [] line column)
lex_loop zero (c ∷ cs) line column tokens = none
lex_loop (suc fuel) (c ∷ cs) line column tokens = elim (next_token c cs line column tokens) [
  | err e ↦ some (err e)
  | ok s ↦ lex_loop fuel s.rest s.line s.column s.tokens
]

-- Each round takes a byte at least, so the length of the text is fuel enough.
unfoldable pub tokenize_sql : Bytes → Option (Result (List Token))
tokenize_sql text = lex_loop (length text) text 1 1 []
