-- ===== src/Text.antt =====
-- C strings as lists of bytes without the final NUL, and the functions of <string.h> and <ctype.h>
-- that the sources use, in the "C" locale.
use Prim.Native.Char.{code}
use Prim.Native.String.{String}
use week7_02_sql_index.Prelude.{
  ℕ, ◌+◌, Bool, true, false, ◌&&◌, ◌||◌, List, [], ◌∷◌, ◌++◌, ◌≡◌, ◌↔◌, refl, leb, ◌==◌,
  if◌then◌else◌, arith, All, length, ◌≤◌,
}

abbrev pub Bytes : Type 0
Bytes = List ℕ

-- The bytes of an ASCII literal.
abbrev pub codes : String → Bytes
codes String.[] = []
codes (String.◌∷◌ c s) = code c ∷ codes s

abbrev pub is_digit : ℕ → Bool
is_digit c = leb b'0' c && leb c b'9'

abbrev pub is_upper : ℕ → Bool
is_upper c = leb b'A' c && leb c b'Z'

abbrev pub is_alpha : ℕ → Bool
is_alpha c = is_upper c || leb b'a' c && leb c b'z'

abbrev pub is_alnum : ℕ → Bool
is_alnum c = is_alpha c || is_digit c

abbrev pub to_lower : ℕ → ℕ
to_lower c = if is_upper c then c + 32 else c

-- strcmp(a, b) == 0
unfoldable pub str_eq : Bytes → Bytes → Bool
str_eq [] [] = true
str_eq (x ∷ xs) (y ∷ ys) = x == y && str_eq xs ys
str_eq _ _ = false

pub str_eq_iff : (a b : Bytes) → (str_eq a b ≡ true) ↔ (a ≡ b)
unfolding str_eq
str_eq_iff (x ∷ a) (y ∷ b) = ground (arith, str_eq_iff a b)
str_eq_iff _ _ = ground arith

-- The longest prefix of bytes that pass a test, and what follows it.
unfoldable pub span : (ℕ → Bool) → Bytes → Bytes × Bytes
span p [] = ([], [])
span p (c ∷ cs) = let (word, rest) = span p cs in if p c then (c ∷ word, rest) else ([], c ∷ cs)

pub span-append :
    (p : ℕ → Bool) (xs : Bytes) (y : ℕ) (ys : Bytes)
    → All (λ c. p c ≡ true) xs
    → p y ≡ false
    → span p (xs ++ y ∷ ys) ≡ (xs, y ∷ ys)
unfolding span
span-append p [] y ys h n = rw n
span-append p (x ∷ xs) y ys h n = rw (h.0, span-append p xs y ys h.1 n)

pub span-cons :
    (p : ℕ → Bool) (c : ℕ) (cs : Bytes)
    → p c ≡ true
    → span p (c ∷ cs) ≡ (c ∷ (span p cs).0, (span p cs).1)
unfolding span
span-cons p c cs h = rw h

pub length-span : (p : ℕ → Bool) (cs : Bytes) → length (span p cs).1 ≤ length cs
unfolding span
length-span p [] = omega arith
length-span p (c ∷ cs) = ground (arith, length-span p cs)

pub span_whole : (p : ℕ → Bool) (xs : Bytes) → All (λ c. p c ≡ true) xs → span p xs ≡ (xs, [])
unfolding span
span_whole p [] h = refl
span_whole p (x ∷ xs) h = rw (h.0, span_whole p xs h.1)
