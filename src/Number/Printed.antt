-- ===== src/Number/Printed.antt =====
-- The text of a number as a value of a table.
use week7_02_sql_index.Prelude.{
  ℕ, zero, suc, ◌+◌, ◌/◌, ◌%◌, ◌≤◌, false, [], ◌∷◌, ◌≡◌, refl, ltb, length, length-append, All,
  All-append, if-either, arith, ℤ, pos, negsuc,
}
use week7_02_sql_index.Text.{Bytes}
use week7_02_sql_index.Number.Defs.{decimal, int_text}
use week7_02_sql_index.Storage.Csv.Defs.{ends_row}
use week7_02_sql_index.Storage.Csv.RoundTrip.{IsValue}

abbrev IsShort : ℕ → Bytes → Type 0
IsShort n text = All (λ c. ends_row c ≡ false) text × (length text ≤ n)

decimal-IsShort : (digits n : ℕ) → IsShort digits (decimal digits n)
unfolding decimal
decimal-IsShort zero n = (tt, omega arith)
decimal-IsShort (suc digits) n =
    if-either (IsShort (suc digits)) (ltb n 10) _ _ (λ small. ((ground arith, tt), omega arith))
      (λ large.
        let front = decimal-IsShort digits (n / 10) in
        let last = (b'0' + n % 10) ∷ [] in
        (
          All-append (λ c. ends_row c ≡ false) (decimal digits (n / 10)) last front.0
              (ground arith, tt),
          omega (arith, front.1, length-append (decimal digits (n / 10)) last),
        ))

-- A printed number is a value that a row can hold.
pub int_text-IsValue : (v : ℤ) → IsValue (int_text v)
unfolding int_text
int_text-IsValue (pos n) = let short = decimal-IsShort 10 n in (short.0, omega (arith, short.1))
int_text-IsValue (negsuc n) =
    let short = decimal-IsShort 10 (suc n) in ((refl, short.0), omega (arith, short.1))
