-- ===== src/Number/Defs.antt =====
-- `strtol(text, &end_ptr, 10)` and the checks that src/storage.c and src/executor.c make behind it, and
-- the text of `%d`. A value outside `long` sets ERANGE; it lies outside `int` too, so the test of the
-- exact value against the bounds of `int` covers both.
use week7_02_sql_index.Prelude.{
  ℕ, zero, suc, ◌+◌, ◌-◌, ◌*◌, ◌/◌, ◌%◌, Bool, true, false, ◌&&◌, ◌||◌, Option, none, some, [], ◌∷◌,
  ◌++◌, ◌==◌, leb, ltb, if◌then◌else◌, ℤ, pos, negsuc, leb_ℤ,
}
use week7_02_sql_index.Text.{Bytes, is_digit}

abbrev pub int_min : ℤ
int_min = negsuc 2147483647

abbrev pub int_max : ℤ
int_max = pos 2147483647

abbrev pub in_int : ℤ → Bool
in_int v = leb_ℤ int_min v && leb_ℤ v int_max

-- `v + 1`, below INT_MAX
abbrev pub succ_ℤ : ℤ → ℤ
succ_ℤ (pos n) = pos (suc n)
succ_ℤ (negsuc zero) = pos 0
succ_ℤ (negsuc (suc n)) = negsuc n

abbrev pub is_space : ℕ → Bool
is_space c = c == b' ' || leb 9 c && leb c 13

unfoldable pub skip_space : Bytes → Bytes
skip_space [] = []
skip_space (c ∷ cs) = if is_space c then skip_space cs else c ∷ cs

unfoldable pub read_digits : ℕ → Bytes → ℕ × Bytes
read_digits n [] = (n, [])
read_digits n (c ∷ cs) =
    let more = read_digits (n * 10 + (c - b'0')) cs in if is_digit c then more else (n, c ∷ cs)

abbrev pub negated : ℕ → ℤ
negated zero = pos 0
negated (suc n) = negsuc n

abbrev pub signed : Bool → ℕ → ℤ
signed true n = negated n
signed false n = pos n

abbrev pub starts_with_digit : Bytes → Bool
starts_with_digit [] = false
starts_with_digit (c ∷ cs) = is_digit c

-- Without a digit nothing is converted, and the end is the whole text.
abbrev pub convert : Bytes → Bool → Bytes → ℤ × Bytes
convert text minus rest =
    let (n, end) = read_digits 0 rest in
    if starts_with_digit rest then (signed minus n, end) else (pos 0, text)

abbrev pub behind_space : Bytes → Bytes → ℤ × Bytes
behind_space text [] = (pos 0, text)
behind_space text (c ∷ cs) =
    if c == b'-'
    then convert text true cs
    else if c == b'+'
    then convert text false cs
    else convert text false (c ∷ cs)

-- the value and the text from `*end_ptr` on
unfoldable pub strtol : Bytes → ℤ × Bytes
strtol text = behind_space text (skip_space text)

abbrev pub is_empty : Bytes → Bool
is_empty [] = true
is_empty (c ∷ cs) = false

-- `errno == ERANGE || *end_ptr != '\0' || value < INT_MIN || value > INT_MAX` refuses
unfoldable pub read_int : Bytes → Option ℤ
read_int text = let (v, end) = strtol text in if is_empty end && in_int v then some v else none

-- The decimal digits of a number of at most so many digits.
unfoldable pub decimal : ℕ → ℕ → Bytes
decimal zero n = []
decimal (suc digits) n =
    let front = decimal digits (n / 10) in
    if ltb n 10 then (b'0' + n) ∷ [] else front ++ (b'0' + n % 10) ∷ []

-- `%d`; an `int` has at most ten digits.
unfoldable pub int_text : ℤ → Bytes
int_text (pos n) = decimal 10 n
int_text (negsuc n) = b'-' ∷ decimal 10 (suc n)
