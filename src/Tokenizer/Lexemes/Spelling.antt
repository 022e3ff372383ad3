-- ===== src/Tokenizer/Lexemes/Spelling.antt =====
-- Lexemes of the SQL dialect, how they are written, and the tokens that stand for them.
use week7_02_sql_index.Prelude.{
  ℕ, ◌+◌, ◌<◌, Bool, true, false, ◌||◌, List, [], ◌∷◌, ◌++◌, ◌≡◌, ◌≢◌, length, map, All, ◌==◌,
  if◌then◌else◌,
}
use week7_02_sql_index.Text.{Bytes, codes, is_digit, is_alpha, to_lower}
use week7_02_sql_index.Sql.{TokenType, Token, max_value_len}

-- A keyword comes with the way it is written.
pub data Lexeme : Type 0 where
  keyword : TokenType → Bytes → Lexeme
  name number quoted : Bytes → Lexeme
  symbol : TokenType → Lexeme

-- the keywords, in lower case
abbrev pub keyword_text : TokenType → Bytes
keyword_text TokenType.keyword_insert = codes "insert"
keyword_text TokenType.keyword_into = codes "into"
keyword_text TokenType.keyword_values = codes "values"
keyword_text TokenType.keyword_select = codes "select"
keyword_text TokenType.keyword_from = codes "from"
keyword_text TokenType.keyword_where = codes "where"
keyword_text _ = []

abbrev pub symbol_text : TokenType → Bytes
symbol_text TokenType.comma = codes ","
symbol_text TokenType.semicolon = codes ";"
symbol_text TokenType.lparen = codes "("
symbol_text TokenType.rparen = codes ")"
symbol_text TokenType.star = codes "*"
symbol_text TokenType.equal = codes "="
symbol_text TokenType.greater = codes ">"
symbol_text TokenType.less = codes "<"
symbol_text TokenType.bang_equal = codes "!="
symbol_text _ = []

abbrev pub StartsName : Bytes → Type 0
StartsName [] = ⊥
StartsName (c ∷ cs) = (is_alpha c || c == b'_') ≡ true

-- not a keyword, in whatever case
abbrev pub IsFree : Bytes → Type 0
IsFree raw = (ty : TokenType) → map to_lower raw ≢ keyword_text ty

abbrev pub Digits : Bytes → Type 0
Digits [] = ⊥
Digits (c ∷ cs) = All (λ d. is_digit d ≡ true) (c ∷ cs)

-- digits, or a minus sign and digits
abbrev pub IsNumber : Bytes → Type 0
IsNumber [] = ⊥
IsNumber (c ∷ cs) = if c == b'-' then Digits cs else Digits (c ∷ cs)

-- neither a quote nor a line break
abbrev pub is_plain : ℕ → Bool
is_plain c = if c == b'\'' then false else if c == b'\n' || c == b'\r' then false else true

abbrev pub IsLexeme : Lexeme → Type 0
IsLexeme (keyword ty raw) = (keyword_text ty ≢ []) × (map to_lower raw ≡ keyword_text ty)
IsLexeme (name raw) =
    StartsName raw
    × All (λ c. (is_alpha c || is_digit c || c == b'_') ≡ true) raw
    × (length raw < max_value_len)
    × IsFree raw
IsLexeme (number text) = IsNumber text × (length text < max_value_len)
IsLexeme (quoted text) = All (λ c. is_plain c ≡ true) text × (length text < max_value_len)
IsLexeme (symbol ty) = symbol_text ty ≢ []

abbrev pub spelling : Lexeme → Bytes
spelling (keyword ty raw) = raw
spelling (name raw) = raw
spelling (number text) = text
spelling (quoted text) = b'\'' ∷ (text ++ b'\'' ∷ [])
spelling (symbol ty) = symbol_text ty

abbrev at_column : ℕ → TokenType → Bytes → Token
at_column column ty text = record { type = ty; text = text; line = 1; column = column }

-- A keyword is stored as it is written, an identifier in lower case.
abbrev pub lexeme_token : ℕ → Lexeme → Token
lexeme_token column (keyword ty raw) = at_column column ty raw
lexeme_token column (name raw) = at_column column TokenType.identifier (map to_lower raw)
lexeme_token column (number text) = at_column column TokenType.number text
lexeme_token column (quoted text) = at_column column TokenType.string text
lexeme_token column (symbol ty) = at_column column ty (symbol_text ty)

-- The lexemes on one line, a space behind each.
abbrev pub render : List Lexeme → Bytes
render [] = []
render (x ∷ xs) = spelling x ++ b' ' ∷ render xs

-- Their tokens, each at the column where its spelling starts, and the end of the text.
abbrev pub placed : ℕ → List Lexeme → List Token
placed column [] = at_column column TokenType.eof [] ∷ []
placed column (x ∷ xs) = lexeme_token column x ∷ placed (column + length (spelling x) + 1) xs
