-- ===== src/Tokenizer/Total.antt =====
-- The tokenizer ends on every text: each round takes a byte.
use native.Mathlib.Nat.{le_refl}
use week7_02_sql_index.Prelude.{
  ℕ, zero, suc, ◌+◌, ◌≤◌, true, ◌||◌, none, List, [], ◌∷◌, ◌≡◌, ◌≢◌, refl, ◌==◌, if◌then◌else◌,
  length, arith, Bool-cases, inl, inr, leb, ◌&&◌, ◌-◌,
}
use week7_02_sql_index.Text.{Bytes, is_alpha, is_digit, span-cons, length-span}
use week7_02_sql_index.Sql.{
  TokenType, Token, Result, ok, err, ◌>>=◌, bind-eq-ok, error_at, bad_number, newline_in_string,
  string_too_long, max_value_len,
}
use week7_02_sql_index.Tokenizer.Defs.{
  append_token, Reading, reading, read_word, number_span, read_number, read_quoted, read_string,
  read_symbol, Lexer, behind, next_token, lex_loop, tokenize_sql, tail, is_word_byte, next_is_digit,
}

-- A reader that succeeds leaves at most `n` bytes.
abbrev Leaves : ℕ → Result Reading → Type 0
Leaves n r = (x : Reading) → r ≡ ok x → length x.rest ≤ n

reading-Leaves :
    (n : ℕ) (rest : Bytes) (r : Result (List Token)) → length rest ≤ n → Leaves n (reading rest r)
reading-Leaves n rest r h x e = ground arith

read_word-Leaves :
    (c : ℕ) (cs : Bytes) (line column : ℕ) (tokens : List Token)
    → is_word_byte c ≡ true
    → Leaves (length cs) (read_word (c ∷ cs) line column tokens)
unfolding read_word
read_word-Leaves c cs line column tokens h =
    rw (span-cons is_word_byte c cs h) λ x e. ground (arith, length-span is_word_byte cs)

number_span-shorter :
    (c : ℕ) (cs : Bytes)
    → (is_digit c || c == b'-') ≡ true
    → length (number_span (c ∷ cs)).1 ≤ length cs
number_span-shorter c cs h = elim (Bool-cases (c == b'-')) [
  | inl minus ↦ rw minus (length-span is_digit cs)
  | inr other ↦
      let digit : is_digit c ≡ true = ground arith in
      rw (other, span-cons is_digit c cs digit) (length-span is_digit cs)
]

read_number-Leaves :
    (c : ℕ) (cs : Bytes) (line column : ℕ) (tokens : List Token)
    → (is_digit c || c == b'-') ≡ true
    → Leaves (length cs) (read_number (c ∷ cs) line column tokens)
unfolding read_number
read_number-Leaves c cs line column tokens h =
    by_span (number_span (c ∷ cs)) (number_span-shorter c cs h)
  where
    by_span :
        (s : Bytes × Bytes)
        → length s.1 ≤ length cs
        → Leaves (length cs) (
            if leb (length s.0) 0 || leb max_value_len (length s.0)
            then err (error_at bad_number line column)
            else reading s.1 (append_token tokens TokenType.number s.0 line column))
    by_span s l x e = ground arith

read_quoted-shorter :
    (cs : Bytes) (i line column : ℕ) (x : Bytes × Bytes)
    → read_quoted cs i line column ≡ ok x
    → length x.1 ≤ length cs
unfolding read_quoted
read_quoted-shorter [] i line column x e = cc
read_quoted-shorter (c ∷ cs) i line column x e =
    by_more (read_quoted cs (i + 1) line column) (read_quoted-shorter cs (i + 1) line column) x e
  where
    by_more :
        (more : Result (Bytes × Bytes))
        → ((y : Bytes × Bytes) → more ≡ ok y → length y.1 ≤ length cs)
        → (x : Bytes × Bytes)
        → (if c == b'\''
            then ok ([], cs)
            else if c == b'\n' || c == b'\r'
            then err (error_at newline_in_string line (column + i + 1))
            else if leb (max_value_len - 1) i
            then err (error_at string_too_long line column)
            else more >>= λ r. ok (c ∷ r.0, r.1))
          ≡ ok x
        → length x.1 ≤ suc (length cs)
    by_more (ok y) h x e = ground (arith, h y refl)
    by_more (err _) h x e = ground arith

read_string-Leaves :
    (c : ℕ) (cs : Bytes) (line column : ℕ) (tokens : List Token)
    → Leaves (length cs) (read_string (c ∷ cs) line column tokens)
unfolding read_string
read_string-Leaves c cs line column tokens x e =
    let (q, read, rest) = bind-eq-ok (read_quoted cs 0 line column) _ e in
    reading-Leaves (length cs) q.1 (append_token tokens TokenType.string q.0 line column)
      (read_quoted-shorter cs 0 line column q read) x rest

length-tail : (cs : Bytes) → length (tail cs) ≤ length cs
length-tail [] = omega arith
length-tail (c ∷ cs) = omega arith

read_symbol-Leaves :
    (c : ℕ) (cs : Bytes) (line column : ℕ) (tokens : List Token)
    → Leaves (length cs) (read_symbol c cs line column tokens)
unfolding read_symbol
read_symbol-Leaves c cs line column tokens x e = ground (arith, length-tail cs)

abbrev Moves : ℕ → Result Lexer → Type 0
Moves n r = (s : Lexer) → r ≡ ok s → length s.rest ≤ n

behind-Moves :
    (n line column quotes : ℕ) (r : Result Reading)
    → Leaves n r
    → Moves n (behind line column quotes r)
behind-Moves n line column quotes (ok x) h s e = ground (arith, h x refl)
behind-Moves n line column quotes (err _) h s e = cc

next_token-Moves :
    (c : ℕ) (cs : Bytes) (line column : ℕ) (tokens : List Token)
    → Moves (length cs) (next_token c cs line column tokens)
unfolding next_token
next_token-Moves c cs line column tokens =
    elim (Bool-cases (c == b' ' || c == b'\t' || c == b'\r')) [
      | inl space ↦ rw space (λ s e. ground arith)
      | inr not_space ↦ elim (Bool-cases (c == b'\n')) [
        | inl newline ↦ rw (not_space, newline) (λ s e. ground arith)
        | inr same_line ↦ elim (Bool-cases (is_alpha c || c == b'_')) [
          | inl word ↦
              rw (not_space, same_line, word)
                (behind-Moves (length cs) line column 0 (read_word (c ∷ cs) line column tokens)
                  (read_word-Leaves c cs line column tokens (ground arith)))
          | inr no_word ↦ elim (Bool-cases (is_digit c || c == b'-' && next_is_digit cs)) [
            | inl number ↦
                rw (not_space, same_line, no_word, number)
                  (behind-Moves (length cs) line column 0 (read_number (c ∷ cs) line column tokens)
                    (read_number-Leaves c cs line column tokens (ground arith)))
            | inr no_number ↦ elim (Bool-cases (c == b'\'')) [
              | inl quote ↦
                  rw (not_space, same_line, no_word, no_number, quote)
                    (behind-Moves (length cs) line column 2
                      (read_string (c ∷ cs) line column tokens)
                      (read_string-Leaves c cs line column tokens))
              | inr other ↦
                  rw (not_space, same_line, no_word, no_number, other)
                    (behind-Moves (length cs) line column 0 (read_symbol c cs line column tokens)
                      (read_symbol-Leaves c cs line column tokens))
            ]
          ]
        ]
      ]
    ]

-- one round, and the rest of the loop
pub lex_loop_round :
    (fuel : ℕ) (c : ℕ) (cs : Bytes) (line column : ℕ) (tokens : List Token) {s : Lexer}
    → next_token c cs line column tokens ≡ ok s
    → lex_loop (suc fuel) (c ∷ cs) line column tokens
      ≡ lex_loop fuel s.rest s.line s.column s.tokens
unfolding lex_loop
lex_loop_round fuel c cs line column tokens e = rw (e, lex_loop)

lex_loop_total :
    (fuel : ℕ) (text : Bytes) (line column : ℕ) (tokens : List Token)
    → length text ≤ fuel
    → lex_loop fuel text line column tokens ≢ none
unfolding lex_loop
lex_loop_total fuel [] line column tokens h = λ e. cc e
lex_loop_total zero (c ∷ cs) line column tokens h = absurd (omega arith)
lex_loop_total (suc fuel) (c ∷ cs) line column tokens h =
    by_round (next_token c cs line column tokens) refl
      (λ (s : Lexer). lex_loop_total fuel s.rest s.line s.column s.tokens)
  where
    by_round :
        (r : Result Lexer)
        → next_token c cs line column tokens ≡ r
        → ((s : Lexer)
            → length s.rest ≤ fuel
            → lex_loop fuel s.rest s.line s.column s.tokens ≢ none)
        → lex_loop (suc fuel) (c ∷ cs) line column tokens ≢ none
    by_round (ok s) e ih =
        let fewer : length s.rest ≤ length cs = next_token-Moves c cs line column tokens s e in
        rw (lex_loop_round fuel c cs line column tokens e) (ih s (omega arith))
    by_round (err x) e ih = rw (e, lex_loop) (λ q. cc q)

-- The tokenizer ends on every text, with tokens or an error: it never runs out of fuel.
pub tokenize_sql_total : (text : Bytes) → tokenize_sql text ≢ none
unfolding tokenize_sql
tokenize_sql_total text = lex_loop_total (length text) text 1 1 [] (le_refl (length text))
