-- ===== src/Tokenizer/Lexemes/Rounds.antt =====
-- Each lexeme takes one round of the tokenizer's loop.
use week7_02_sql_index.Prelude.{
  ℕ, suc, ◌+◌, ◌<◌, true, false, ◌&&◌, ◌||◌, List, [], ◌∷◌, ◌++◌, ◌≡◌, refl, ap, sym, ◌∙◌, ◌==◌,
  leb, length, length-append, length-map, All, arith, map, append_assoc,
}
use week7_02_sql_index.Text.{Bytes, is_digit, is_alpha, to_lower}
use week7_02_sql_index.Sql.{TokenType, Token, ok, max_tokens, max_value_len}
use week7_02_sql_index.Tokenizer.Defs.{
  token, keyword_type, append_token, word_text, reading, read_number, read_string, read_symbol,
  behind, next_token, next_is_digit, lex_loop, is_word_byte,
}
use week7_02_sql_index.Tokenizer.Total.{lex_loop_round}
use week7_02_sql_index.Tokenizer.Lexemes.Words.{
  keyword_text-word, StartsName-lower, letters-lower, keyword-word_text, keyword_type-free,
}
use week7_02_sql_index.Tokenizer.Lexemes.Spelling.{
  Lexeme, keyword, name, StartsName, number, quoted, symbol, IsLexeme, IsNumber, spelling,
  lexeme_token,
}
use week7_02_sql_index.Tokenizer.Lexemes.Readers.{
  append_token-room, behind-ok, length-word_text, read_word-word, number_span-number,
  read_quoted-plain,
}

abbrev Round : ℕ → Bytes → ℕ → List Token → Lexeme → Type 0
Round fuel rest column ts x =
    lex_loop (suc fuel) (spelling x ++ b' ' ∷ rest) 1 column ts
    ≡ lex_loop fuel (b' ' ∷ rest) 1 (column + length (spelling x))
        (ts ++ lexeme_token column x ∷ [])

round_of :
    (fuel c : ℕ) (cs rest : Bytes) (column column' quotes : ℕ) (ts : List Token) (t : Token)
    → next_token c cs 1 column ts
      ≡ behind 1 column quotes (ok (record { rest = rest; tokens = ts ++ t ∷ [] }))
    → column + length t.text + quotes ≡ column'
    → lex_loop (suc fuel) (c ∷ cs) 1 column ts ≡ lex_loop fuel rest 1 column' (ts ++ t ∷ [])
round_of fuel c cs rest column column' quotes ts t e w =
    rw (← w) (lex_loop_round fuel c cs 1 column ts (e ∙ behind-ok 1 column quotes rest ts t))

number_start :
    (c : ℕ) (cs rest : Bytes)
    → IsNumber (c ∷ cs)
    → (is_digit c || c == b'-' && next_is_digit (cs ++ b' ' ∷ rest)) ≡ true
number_start c [] rest h = ground arith
number_start c (d ∷ ds) rest h = ground arith

module _ (fuel : ℕ) (rest : Bytes) (column : ℕ) (ts : List Token)
    (room : length ts < max_tokens) where
  -- any word with a letter or an underscore in front
  word_round :
      (raw : Bytes) (ty : TokenType) (text : Bytes)
      → StartsName raw
      → All (λ c. is_word_byte c ≡ true) raw
      → length raw < max_value_len
      → keyword_type (map to_lower raw) ≡ ty
      → word_text ty raw (map to_lower raw) ≡ text
      → lex_loop (suc fuel) (raw ++ b' ' ∷ rest) 1 column ts
        ≡ lex_loop fuel (b' ' ∷ rest) 1 (column + length raw) (ts ++ token ty text 1 column ∷ [])
  unfolding next_token
  word_round [] ty text starts w l et ex = absurd starts
  word_round (c ∷ cs) ty text starts w l et ex =
      let raw = c ∷ cs in
      let not_space : (c == b' ' || c == b'\t' || c == b'\r') ≡ false = ground arith in
      let not_newline : (c == b'\n') ≡ false = ground arith in
      round_of fuel c (cs ++ b' ' ∷ rest) (b' ' ∷ rest) column (column + length raw) 0 ts
        (token ty text 1 column)
        (rw (not_space, not_newline, starts, ← ex, ← et)
          (ap (behind 1 column 0) (read_word-word raw rest 1 column ts w l room)))
        (omega (
          arith,
          ap length ex,
          length-word_text ty raw (map to_lower raw) (length-map to_lower raw),
        ))

  keyword-Round :
      (ty : TokenType) (raw : Bytes)
      → IsLexeme (keyword ty raw)
      → Round fuel rest column ts (keyword ty raw)
  keyword-Round ty raw (some_text, same) =
      let (type_of, small, short) = keyword_text-word ty some_text in
      let small_raw = rw (← same) at small in
      word_round raw ty raw (StartsName-lower raw small_raw (λ e. some_text (sym same ∙ e)))
        (letters-lower raw small_raw)
        (omega (arith, length-map to_lower raw, ap length same, short))
        (ap keyword_type same ∙ type_of) (keyword-word_text ty raw (map to_lower raw) some_text)

  name-Round : (raw : Bytes) → IsLexeme (name raw) → Round fuel rest column ts (name raw)
  name-Round raw (starts, w, l, free) =
      word_round raw TokenType.identifier (map to_lower raw) starts w l
        (keyword_type-free (map to_lower raw) free) refl

  number-Round : (text : Bytes) → IsLexeme (number text) → Round fuel rest column ts (number text)
  unfolding next_token read_number
  number-Round [] h = absurd h.0
  number-Round (c ∷ cs) h =
      let start = number_start c cs rest h.0 in
      let not_space : (c == b' ' || c == b'\t' || c == b'\r') ≡ false = ground arith in
      let not_newline : (c == b'\n') ≡ false = ground arith in
      let not_word : (is_alpha c || c == b'_') ≡ false = ground arith in
      let some_digit : leb (length (c ∷ cs)) 0 ≡ false = ground arith in
      let fits : leb max_value_len (length (c ∷ cs)) ≡ false = ground arith in
      round_of fuel c (cs ++ b' ' ∷ rest) (b' ' ∷ rest) column (column + length (c ∷ cs)) 0 ts
        (lexeme_token column (number (c ∷ cs)))
        (rw (
          not_space,
          not_newline,
          not_word,
          start,
          number_span-number (c ∷ cs) rest h.0,
          some_digit,
          fits,
          append_token-room ts TokenType.number (c ∷ cs) 1 column room,
        ))
        (omega arith)

  quoted-Round : (text : Bytes) → IsLexeme (quoted text) → Round fuel rest column ts (quoted text)
  unfolding next_token read_string
  quoted-Round text h = rw append_assoc (
      round_of fuel b'\'' (text ++ (b'\'' ∷ b' ' ∷ rest)) (b' ' ∷ rest) column
        (column + length (spelling (quoted text))) 2 ts (lexeme_token column (quoted text))
        (rw (
          read_quoted-plain text (b' ' ∷ rest) 0 1 column h.0 (omega (arith, h.1)),
          append_token-room ts TokenType.string text 1 column room,
        ))
        (omega (arith, length-append text (b'\'' ∷ []))))

  symbol_round :
      (c : ℕ) (cs : Bytes) (ty : TokenType)
      → next_token c (cs ++ b' ' ∷ rest) 1 column ts
        ≡ behind 1 column 0 (reading (b' ' ∷ rest) (append_token ts ty (c ∷ cs) 1 column))
      → lex_loop (suc fuel) (c ∷ cs ++ b' ' ∷ rest) 1 column ts
        ≡ lex_loop fuel
            (b' ' ∷ rest)
            1
            (column + length (c ∷ cs))
            (ts ++ token ty (c ∷ cs) 1 column ∷ [])
  symbol_round c cs ty e =
      round_of fuel c (cs ++ b' ' ∷ rest) (b' ' ∷ rest) column (column + length (c ∷ cs)) 0 ts
        (token ty (c ∷ cs) 1 column)
        (e
          ∙ ap (λ r. behind 1 column 0 (reading (b' ' ∷ rest) r))
              (append_token-room ts ty (c ∷ cs) 1 column room))
        (omega arith)

  symbol-Round : (ty : TokenType) → IsLexeme (symbol ty) → Round fuel rest column ts (symbol ty)
  unfolding next_token read_symbol
  symbol-Round TokenType.comma h = symbol_round b',' [] TokenType.comma refl
  symbol-Round TokenType.semicolon h = symbol_round b';' [] TokenType.semicolon refl
  symbol-Round TokenType.lparen h = symbol_round b'(' [] TokenType.lparen refl
  symbol-Round TokenType.rparen h = symbol_round b')' [] TokenType.rparen refl
  symbol-Round TokenType.star h = symbol_round b'*' [] TokenType.star refl
  symbol-Round TokenType.equal h = symbol_round b'=' [] TokenType.equal refl
  symbol-Round TokenType.greater h = symbol_round b'>' [] TokenType.greater refl
  symbol-Round TokenType.less h = symbol_round b'<' [] TokenType.less refl
  symbol-Round TokenType.bang_equal h = symbol_round b'!' (b'=' ∷ []) TokenType.bang_equal refl
  symbol-Round _ h = absurd (h refl)

  pub lexeme-Round : (x : Lexeme) → IsLexeme x → Round fuel rest column ts x
  lexeme-Round (keyword ty raw) h = keyword-Round ty raw h
  lexeme-Round (name raw) h = name-Round raw h
  lexeme-Round (number text) h = number-Round text h
  lexeme-Round (quoted text) h = quoted-Round text h
  lexeme-Round (symbol ty) h = symbol-Round ty h
