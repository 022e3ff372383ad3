-- ===== src/Storage/Csv/Defs.antt =====
-- How src/storage.c writes a row and takes a line apart. A row is the list of its values, and a stream
-- takes every byte that is written to it.
use week7_02_sql_index.Prelude.{
  ℕ, ◌+◌, ◌-◌, ◌*◌, Bool, true, false, not, ◌&&◌, ◌||◌, Option, none, some, List, [], ◌∷◌, ◌++◌,
  leb, ◌==◌, if◌then◌else◌, length,
}
use week7_02_sql_index.Text.{Bytes}
use week7_02_sql_index.Sql.{max_value_len, max_columns}

-- STORAGE_MAX_ROW_LEN
abbrev pub max_row_len : ℕ
max_row_len = max_columns * ((max_value_len - 1) * 2 + 2) + (max_columns - 1) + 2

-- the variables of `parse_csv_line`: `values` holds the rows before `row_index`
pub record CsvState : Type 0 where
  pub in_quotes : Bool
  pub values : List Bytes
  pub text : Bytes

-- One round of the loop: the line ends, the line is refused, or one byte is read, or two.
pub data CsvStep : Type 0 where
  line_end refused : CsvStep
  one two : CsvState → CsvStep

abbrev pub ends_row : ℕ → Bool
ends_row c = c == 0 || c == b'\n' || c == b'\r'

-- `values[row_index][text_index] = c`
unfoldable pub store : CsvState → ℕ → (CsvState → CsvStep) → CsvStep
store s c go =
    if leb (max_value_len - 1) (length s.text)
    then refused
    else go (record { in_quotes = s.in_quotes; values = s.values; text = s.text ++ c ∷ [] })

unfoldable pub csv_step : ℕ → Bool → CsvState → CsvStep
csv_step c quote_follows s =
    if ends_row c
    then line_end
    else if leb max_columns (length s.values)
    then refused
    else if c == b'"'
    then (if s.in_quotes && quote_follows
        then store s c two
        else one (record { in_quotes = not s.in_quotes; values = s.values; text = s.text }))
    else if not s.in_quotes && c == b','
    then one (record { in_quotes = s.in_quotes; values = s.values ++ s.text ∷ []; text = [] })
    else store s c one

abbrev pub starts_with_quote : Bytes → Bool
starts_with_quote [] = false
starts_with_quote (c ∷ cs) = c == b'"'

unfoldable pub csv_end : CsvState → Option (List Bytes)
csv_end s = if leb max_columns (length s.values) then none else some (s.values ++ s.text ∷ [])

-- The loop; `skip` says that the byte has been read with the one before it.
unfoldable pub csv_loop : Bool → Bytes → CsvState → Option (List Bytes)
csv_loop skip [] s = csv_end s
csv_loop true (c ∷ cs) s = csv_loop false cs s
csv_loop false (c ∷ cs) s = elim (csv_step c (starts_with_quote cs) s) [
  | line_end ↦ csv_end s
  | refused ↦ none
  | one s' ↦ csv_loop false cs s'
  | two s' ↦ csv_loop true cs s'
]

unfoldable pub parse_csv_line : Bytes → Option (List Bytes)
parse_csv_line line = csv_loop false line (record { in_quotes = false; values = []; text = [] })

unfoldable pub needs_quote : Bytes → Bool
needs_quote [] = false
needs_quote (c ∷ cs) = c == b',' || c == b'"' || c == b'\n' || needs_quote cs

unfoldable pub escaped : Bytes → Bytes
escaped [] = []
escaped (c ∷ cs) = if c == b'"' then b'"' ∷ c ∷ escaped cs else c ∷ escaped cs

unfoldable pub write_csv_field : Bytes → Bytes
write_csv_field text = if needs_quote text then b'"' ∷ (escaped text ++ b'"' ∷ []) else text

-- the rounds `i > 0`
unfoldable pub write_more : List Bytes → Bytes
write_more [] = b'\n' ∷ []
write_more (v ∷ vs) = b',' ∷ (write_csv_field v ++ write_more vs)

unfoldable pub write_csv_row : List Bytes → Bytes
write_csv_row [] = b'\n' ∷ []
write_csv_row (v ∷ vs) = write_csv_field v ++ write_more vs
