-- ===== src/Tokenizer/Lexemes/Readers.antt =====
-- What the readers of src/tokenizer.c do on the spelling of a lexeme.
use week7_02_sql_index.Prelude.{
  ℕ, ◌+◌, ◌<◌, true, false, List, [], ◌∷◌, ◌++◌, ◌≡◌, refl, ◌==◌, leb, length, All, arith,
  Bool-cases, inl, inr, map,
}
use week7_02_sql_index.Text.{Bytes, is_digit, to_lower, span-append}
use week7_02_sql_index.Sql.{TokenType, Token, ok, max_tokens, max_value_len}
use week7_02_sql_index.Tokenizer.Defs.{
  token, keyword_type, append_token, append_word, word_text, read_word, number_span, read_quoted,
  behind, last_length, is_word_byte,
}
use week7_02_sql_index.Tokenizer.Lexemes.Spelling.{IsNumber, Digits, is_plain}

pub append_token-room :
    (tokens : List Token) (ty : TokenType) (text : Bytes) (line column : ℕ)
    → length tokens < max_tokens
    → append_token tokens ty text line column ≡ ok (tokens ++ token ty text line column ∷ [])
unfolding append_token
append_token-room tokens ty text line column h = ground arith

last_length-append : (ts : List Token) (t : Token) → last_length (ts ++ t ∷ []) ≡ length t.text
last_length-append [] t = refl
last_length-append (x ∷ []) t = refl
last_length-append (x ∷ y ∷ ts) t = last_length-append (y ∷ ts) t

-- A reader's answer, seen from the loop.
pub behind-ok :
    (line column quotes : ℕ) (rest : Bytes) (ts : List Token) (t : Token)
    → behind line column quotes (ok (record { rest = rest; tokens = ts ++ t ∷ [] }))
      ≡ ok (record {
        rest = rest;
        line = line;
        column = column + length t.text + quotes;
        tokens = ts ++ t ∷ [];
      })
behind-ok line column quotes rest ts t = rw last_length-append

pub length-word_text :
    (ty : TokenType) (raw lower : Bytes)
    → length lower ≡ length raw
    → length (word_text ty raw lower) ≡ length raw
length-word_text ty raw lower h = ground arith

pub read_word-word :
    (raw rest : Bytes) (line column : ℕ) (ts : List Token)
    → All (λ c. is_word_byte c ≡ true) raw
    → length raw < max_value_len
    → length ts < max_tokens
    → let ty = keyword_type (map to_lower raw) in
      read_word (raw ++ b' ' ∷ rest) line column ts
      ≡ ok (record {
        rest = b' ' ∷ rest;
        tokens = ts ++ token ty (word_text ty raw (map to_lower raw)) line column ∷ [];
      })
unfolding read_word append_word
read_word-word raw rest line column ts w l room =
    let ty = keyword_type (map to_lower raw) in
    let short : leb max_value_len (length raw) ≡ false = ground arith in
    rw (
      span-append is_word_byte raw b' ' rest w refl,
      short,
      append_token-room ts ty (word_text ty raw (map to_lower raw)) line column room,
    )

Digits-All : (cs : Bytes) → Digits cs → All (λ d. is_digit d ≡ true) cs
Digits-All [] h = tt
Digits-All (c ∷ cs) h = h

pub number_span-number :
    (text rest : Bytes) → IsNumber text → number_span (text ++ b' ' ∷ rest) ≡ (text, b' ' ∷ rest)
number_span-number [] rest h = absurd h
number_span-number (c ∷ cs) rest h = elim (Bool-cases (c == b'-')) [
  | inl minus ↦
      let digits = Digits-All cs (rw minus at h) in
      rw (minus, span-append is_digit cs b' ' rest digits refl)
  | inr digit ↦
      let digits = rw digit at h in rw (digit, span-append is_digit (c ∷ cs) b' ' rest digits refl)
]

pub read_quoted-plain :
    (text rest : Bytes) (i line column : ℕ)
    → All (λ c. is_plain c ≡ true) text
    → i + length text < max_value_len
    → read_quoted (text ++ b'\'' ∷ rest) i line column ≡ ok (text, rest)
unfolding read_quoted
read_quoted-plain [] rest i line column h l = refl
read_quoted-plain (c ∷ cs) rest i line column h l =
    rw (read_quoted-plain cs rest (i + 1) line column h.1 (omega arith)) (ground arith)
