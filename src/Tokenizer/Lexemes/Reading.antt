-- ===== src/Tokenizer/Lexemes/Reading.antt =====
-- The tokenizer reads every row of well-formed lexemes.
use week7_02_sql_index.Prelude.{
  ℕ, zero, suc, ◌+◌, ◌*◌, ◌≤◌, ◌<◌, some, List, [], ◌∷◌, ◌++◌, ◌≡◌, ◌≢◌, refl, ap, sym, ◌∙◌, length,
  length-append, All, arith, append_assoc,
}
use week7_02_sql_index.Text.{Bytes}
use week7_02_sql_index.Sql.{TokenType, Token, ok, max_tokens}
use week7_02_sql_index.Tokenizer.Defs.{next_token, lex_loop, tokenize_sql}
use week7_02_sql_index.Tokenizer.Lexemes.Spelling.{
  Lexeme, keyword, name, number, quoted, symbol, symbol_text, IsLexeme, spelling, lexeme_token,
  render, placed,
}
use week7_02_sql_index.Tokenizer.Lexemes.Readers.{append_token-room}
use week7_02_sql_index.Tokenizer.Lexemes.Rounds.{lexeme-Round}

space_round :
    (fuel : ℕ) (rest : Bytes) (column : ℕ) (ts : List Token)
    → lex_loop (suc fuel) (b' ' ∷ rest) 1 column ts ≡ lex_loop fuel rest 1 (column + 1) ts
unfolding lex_loop next_token
space_round fuel rest column ts = refl

lex_loop-render :
    (fuel : ℕ) (xs : List Lexeme) (column : ℕ) (ts : List Token)
    → All IsLexeme xs
    → length ts + length xs < max_tokens
    → 2 * length xs ≤ fuel
    → lex_loop fuel (render xs) 1 column ts ≡ some (ok (ts ++ placed column xs))
unfolding lex_loop
lex_loop-render fuel [] column ts h room f =
    ap some (append_token-room ts TokenType.eof [] 1 column (omega arith))
lex_loop-render zero (x ∷ xs) column ts h room f = absurd (omega arith)
lex_loop-render (suc zero) (x ∷ xs) column ts h room f = absurd (omega arith)
lex_loop-render (suc (suc fuel)) (x ∷ xs) column ts h room f =
    let t = lexeme_token column x in
    let column' = column + length (spelling x) in
    lexeme-Round (suc fuel) (render xs) column ts (omega arith) x h.0
    ∙ space_round fuel (render xs) column' (ts ++ t ∷ [])
    ∙ lex_loop-render fuel xs (column' + 1) (ts ++ t ∷ []) h.1
        (omega (arith, length-append ts (t ∷ []))) (omega arith)
    ∙ ap (λ us. some (ok us)) (append_assoc ts (t ∷ []) (placed (column' + 1) xs))

spelling-nonempty : (x : Lexeme) → IsLexeme x → 1 ≤ length (spelling x)
spelling-nonempty (keyword ty []) h = absurd (h.0 (sym h.1))
spelling-nonempty (keyword ty (c ∷ cs)) h = omega arith
spelling-nonempty (name []) h = absurd h.0
spelling-nonempty (name (c ∷ cs)) h = omega arith
spelling-nonempty (number []) h = absurd h.0
spelling-nonempty (number (c ∷ cs)) h = omega arith
spelling-nonempty (quoted text) h = omega arith
spelling-nonempty (symbol ty) h = by_text (symbol_text ty) h
  where
    by_text : (text : Bytes) → text ≢ [] → 1 ≤ length text
    by_text [] n = absurd (n refl)
    by_text (c ∷ cs) n = omega arith

length-render : (xs : List Lexeme) → All IsLexeme xs → 2 * length xs ≤ length (render xs)
length-render [] h = omega arith
length-render (x ∷ xs) h = omega (
  arith,
  length-append (spelling x) (b' ' ∷ render xs),
  spelling-nonempty x h.0,
  length-render xs h.1,
)

-- Fewer than 512 well-formed lexemes with a space behind each are tokenized to exactly their tokens:
-- the six keywords, in any case, with their types, other words as identifiers in lower case, each
-- token at the column where its spelling starts, and then the end of the text.
pub tokenize_sql-render :
    (xs : List Lexeme)
    → All IsLexeme xs
    → length xs < max_tokens
    → tokenize_sql (render xs) ≡ some (ok (placed 1 xs))
unfolding tokenize_sql
tokenize_sql-render xs h room =
    lex_loop-render (length (render xs)) xs 1 [] h (omega arith) (length-render xs h)
