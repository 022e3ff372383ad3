-- ===== src/Tokenizer/Lexemes/Words.antt =====
-- The keywords among the words: `keyword_type` of src/tokenizer.c against the table of keywords.
use week7_02_sql_index.Prelude.{
  ◌<◌, true, false, ◌&&◌, [], ◌∷◌, ◌≡◌, ◌≢◌, refl, leb, length, map, All, arith, Bool-cases, inl,
  inr,
}
use week7_02_sql_index.Text.{Bytes, codes, to_lower, str_eq, str_eq_iff}
use week7_02_sql_index.Sql.{TokenType, max_value_len}
use week7_02_sql_index.Tokenizer.Defs.{keyword_type, word_text, is_word_byte}
use week7_02_sql_index.Tokenizer.Lexemes.Spelling.{keyword_text, StartsName}

abbrev IsSmall : Bytes → Type 0
IsSmall text = All (λ c. (leb b'a' c && leb c b'z') ≡ true) text

-- A text whose lower case is a row of small letters is a word.
pub StartsName-lower :
    (raw : Bytes) → IsSmall (map to_lower raw) → map to_lower raw ≢ [] → StartsName raw
StartsName-lower [] small n = n refl
StartsName-lower (c ∷ cs) small n = let first = small.0 in ground arith

pub letters-lower :
    (raw : Bytes) → IsSmall (map to_lower raw) → All (λ c. is_word_byte c ≡ true) raw
letters-lower [] small = tt
letters-lower (c ∷ cs) small = let first = small.0 in (ground arith, letters-lower cs small.1)

-- a keyword's type is found by its text, which is short
pub keyword_text-word :
    (ty : TokenType)
    → keyword_text ty ≢ []
    → (keyword_type (keyword_text ty) ≡ ty)
      × IsSmall (keyword_text ty)
      × (length (keyword_text ty) < max_value_len)
unfolding keyword_type str_eq
keyword_text-word TokenType.keyword_insert n =
    (refl, (refl, (refl, (refl, (refl, (refl, (refl, tt)))))), omega arith)
keyword_text-word TokenType.keyword_into n = (refl, (refl, (refl, (refl, (refl, tt)))), omega arith)
keyword_text-word TokenType.keyword_values n =
    (refl, (refl, (refl, (refl, (refl, (refl, (refl, tt)))))), omega arith)
keyword_text-word TokenType.keyword_select n =
    (refl, (refl, (refl, (refl, (refl, (refl, (refl, tt)))))), omega arith)
keyword_text-word TokenType.keyword_from n = (refl, (refl, (refl, (refl, (refl, tt)))), omega arith)
keyword_text-word TokenType.keyword_where n =
    (refl, (refl, (refl, (refl, (refl, (refl, tt))))), omega arith)
keyword_text-word _ n = absurd (n refl)

-- It is stored as it was read.
pub keyword-word_text :
    (ty : TokenType) (raw lower : Bytes) → keyword_text ty ≢ [] → word_text ty raw lower ≡ raw
keyword-word_text TokenType.identifier raw lower n = absurd (n refl)
keyword-word_text _ raw lower n = refl

differs : (a b : Bytes) → a ≢ b → str_eq a b ≡ false
differs a b n = elim (Bool-cases (str_eq a b)) [
  | inl e ↦ absurd (n ((str_eq_iff a b).0 e))
  | inr e ↦ e
]

-- Every other word is an identifier.
pub keyword_type-free :
    (text : Bytes)
    → ((ty : TokenType) → text ≢ keyword_text ty)
    → keyword_type text ≡ TokenType.identifier
unfolding keyword_type
keyword_type-free text free = rw (
  differs text (codes "insert") (free TokenType.keyword_insert),
  differs text (codes "into") (free TokenType.keyword_into),
  differs text (codes "values") (free TokenType.keyword_values),
  differs text (codes "select") (free TokenType.keyword_select),
  differs text (codes "from") (free TokenType.keyword_from),
  differs text (codes "where") (free TokenType.keyword_where),
)
