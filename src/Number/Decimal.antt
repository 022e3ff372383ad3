-- ===== src/Number/Decimal.antt =====
-- A printed `int` is read back.
use week7_02_sql_index.Prelude.{
  ℕ, zero, suc, ◌+◌, ◌-◌, ◌*◌, ◌/◌, ◌%◌, ◌≤◌, ◌<◌, Bool, true, false, some, [], ◌∷◌, ◌++◌, ◌≡◌,
  refl, ap, sym, ◌∙◌, ◌==◌, ltb, ℤ, pos, negsuc, ◌≤ℤ◌, append_assoc, append-nil, arith, Bool-cases,
  inl, inr, if-either,
}
use week7_02_sql_index.Text.{Bytes, is_digit}
use week7_02_sql_index.Number.Defs.{
  int_min, int_max, in_int, is_space, skip_space, read_digits, signed, convert, strtol, read_int,
  decimal, int_text,
}

-- how many numbers have so many digits
abbrev power_of_ten : ℕ → ℕ
power_of_ten zero = 1
power_of_ten (suc digits) = 10 * power_of_ten digits

read_digits-nil : (n : ℕ) → read_digits n [] ≡ (n, [])
unfolding read_digits
read_digits-nil n = refl

read_digits-digit :
    (n d : ℕ) (cs : Bytes) → d < 10 → read_digits n ((b'0' + d) ∷ cs) ≡ read_digits (n * 10 + d) cs
unfolding read_digits
read_digits-digit n d cs h =
    let digit : is_digit (b'0' + d) ≡ true = ground arith in
    let value : (b'0' + d) - b'0' ≡ d = omega arith in rw (digit, value)

read_digits-decimal :
    (digits n : ℕ) (cs : Bytes)
    → n < power_of_ten digits
    → read_digits 0 (decimal digits n ++ cs) ≡ read_digits n cs
unfolding decimal
read_digits-decimal zero n cs h = let none_left : n ≡ 0 = omega arith in rw none_left
read_digits-decimal (suc digits) n cs h = elim (Bool-cases (ltb n 10)) [
  | inl small ↦
      rw small (read_digits-digit 0 n cs (ground arith) ∙ ap (λ k. read_digits k cs) (omega arith))
  | inr large ↦
      let last = (b'0' + n % 10) ∷ [] in
      rw large (
        ap (read_digits 0) (append_assoc (decimal digits (n / 10)) last cs)
        ∙ read_digits-decimal digits (n / 10) (last ++ cs) (omega arith)
        ∙ read_digits-digit (n / 10) (n % 10) cs (omega arith)
        ∙ ap (λ k. read_digits k cs) (omega arith))
]

-- what a number's text begins with
abbrev Leads : Bytes → Type 0
Leads [] = ⊥
Leads (c ∷ cs) = is_digit c ≡ true

Leads-append : (xs ys : Bytes) → Leads xs → Leads (xs ++ ys)
Leads-append [] ys h = absurd h
Leads-append (x ∷ xs) ys h = h

decimal-Leads : (digits n : ℕ) → n < power_of_ten digits → 1 ≤ digits → Leads (decimal digits n)
unfolding decimal
decimal-Leads zero n h l = absurd (omega arith)
decimal-Leads (suc zero) n h l =
    let small : ltb n 10 ≡ true = ground arith in rw small (ground arith)
decimal-Leads (suc (suc digits)) n h l =
    if-either Leads (ltb n 10) _ _ (λ small. ground arith)
      (λ large.
        Leads-append (decimal (suc digits) (n / 10)) ((b'0' + n % 10) ∷ [])
          (decimal-Leads (suc digits) (n / 10) (omega arith) (omega arith)))

convert-decimal :
    (text digits-text : Bytes) (minus : Bool) (n : ℕ)
    → Leads digits-text
    → read_digits 0 digits-text ≡ (n, [])
    → convert text minus digits-text ≡ (signed minus n, [])
convert-decimal text [] minus n h e = absurd h
convert-decimal text (c ∷ cs) minus n h e = rw (h, e)

strtol-Leads :
    (text : Bytes) (n : ℕ) → Leads text → read_digits 0 text ≡ (n, []) → strtol text ≡ (pos n, [])
unfolding strtol skip_space
strtol-Leads [] n h e = absurd h
strtol-Leads (c ∷ cs) n h e =
    let visible : is_space c ≡ false = ground arith in
    let no_minus : (c == b'-') ≡ false = ground arith in
    let no_plus : (c == b'+') ≡ false = ground arith in
    rw (visible, no_minus, no_plus) (convert-decimal (c ∷ cs) (c ∷ cs) false n h e)

digits_of :
    (n : ℕ) → n < 10000000000 → Leads (decimal 10 n) × (read_digits 0 (decimal 10 n) ≡ (n, []))
digits_of n h = (
  decimal-Leads 10 n h (omega arith),
  ap (read_digits 0) (sym (append-nil (decimal 10 n)))
      ∙ read_digits-decimal 10 n [] h
      ∙ read_digits-nil n,
)

strtol-int_text : (v : ℤ) → int_min ≤ℤ v → v ≤ℤ int_max → strtol (int_text v) ≡ (v, [])
unfolding int_text strtol skip_space
strtol-int_text (pos n) l u =
    let (leads, whole) = digits_of n (omega arith) in strtol-Leads (decimal 10 n) n leads whole
strtol-int_text (negsuc n) l u =
    let (leads, whole) = digits_of (suc n) (omega arith) in
    convert-decimal (b'-' ∷ decimal 10 (suc n)) (decimal 10 (suc n)) true (suc n) leads whole

-- Every `int` is read back from the text that `%d` gives it.
pub read_int-int_text : (v : ℤ) → int_min ≤ℤ v → v ≤ℤ int_max → read_int (int_text v) ≡ some v
unfolding read_int
read_int-int_text v l u =
    let fits : in_int v ≡ true = ground arith in rw (strtol-int_text v l u, fits)
