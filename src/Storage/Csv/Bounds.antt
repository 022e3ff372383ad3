-- ===== src/Storage/Csv/Bounds.antt =====
-- The arrays of src/storage.c are large enough for what the codec puts into them.
use week7_02_sql_index.Prelude.{
  ℕ, ◌+◌, ◌-◌, ◌*◌, ◌≤◌, ◌<◌, Bool, true, false, not, ◌&&◌, Option, none, some, List, [], ◌∷◌, ◌≡◌,
  leb, ◌==◌, length, length-append, All, All-append, arith, if-either,
}
use week7_02_sql_index.Text.{Bytes}
use week7_02_sql_index.Sql.{max_value_len, max_columns}
use week7_02_sql_index.Storage.Csv.Defs.{
  CsvState, CsvStep, line_end, refused, one, two, ends_row, store, csv_step, starts_with_quote,
  csv_end, csv_loop, parse_csv_line, escaped, write_csv_field, write_more, write_csv_row,
  max_row_len,
}

-- each value with its NUL fits its array
abbrev pub Fits : Bytes → Type 0
Fits v = length v < max_value_len

abbrev IsState : CsvState → Type 0
IsState s = All Fits s.values × Fits s.text

abbrev StepFits : CsvStep → Type 0
StepFits line_end = Unit
StepFits refused = Unit
StepFits (one s) = IsState s
StepFits (two s) = IsState s

-- a row of at most 16 values that fit
abbrev IsRow : Option (List Bytes) → Type 0
IsRow none = Unit
IsRow (some vs) = (1 ≤ length vs) × (length vs ≤ max_columns) × All Fits vs

store-StepFits :
    (s : CsvState) (c : ℕ) (go : CsvState → CsvStep)
    → IsState s
    → ((s' : CsvState) → IsState s' → StepFits (go s'))
    → StepFits (store s c go)
unfolding store
store-StepFits s c go h k =
    if-either StepFits (leb (max_value_len - 1) (length s.text)) _ _ (λ e. tt)
      (λ short. k _ (h.0, ground (arith, length-append s.text (c ∷ []))))

csv_step-StepFits :
    (c : ℕ) (follows : Bool) (s : CsvState) → IsState s → StepFits (csv_step c follows s)
unfolding csv_step
csv_step-StepFits c follows s h =
    if-either StepFits (ends_row c) _ _ (λ e. tt)
      (λ e.
        if-either StepFits (leb max_columns (length s.values)) _ _ (λ e. tt)
          (λ e.
            if-either StepFits (c == b'"') _ _
              (λ e.
                if-either StepFits (s.in_quotes && follows) _ _
                  (λ e. store-StepFits s c two h (λ s' h'. h')) (λ e. h))
              (λ e.
                if-either StepFits (not s.in_quotes && c == b',') _ _
                  (λ e. (All-append Fits s.values (s.text ∷ []) h.0 (h.1, tt), omega arith))
                  (λ e. store-StepFits s c one h (λ s' h'. h')))))

csv_end-IsRow : (s : CsvState) → IsState s → IsRow (csv_end s)
unfolding csv_end
csv_end-IsRow s h =
    let more = length-append s.values (s.text ∷ []) in
    if-either IsRow (leb max_columns (length s.values)) _ _ (λ e. tt)
      (λ e. (
        omega (arith, more),
        ground (arith, more),
        All-append Fits s.values (s.text ∷ []) h.0 (h.1, tt),
      ))

csv_loop-IsRow :
    (skip : Bool) (line : Bytes) (s : CsvState) → IsState s → IsRow (csv_loop skip line s)
unfolding csv_loop
csv_loop-IsRow skip [] s h = csv_end-IsRow s h
csv_loop-IsRow true (c ∷ cs) s h = csv_loop-IsRow false cs s h
csv_loop-IsRow false (c ∷ cs) s h =
    by_step (csv_step c (starts_with_quote cs) s) (csv_step-StepFits c (starts_with_quote cs) s h)
      (csv_loop-IsRow false cs) (csv_loop-IsRow true cs)
  where
    by_step :
        (step : CsvStep)
        → StepFits step
        → ((s' : CsvState) → IsState s' → IsRow (csv_loop false cs s'))
        → ((s' : CsvState) → IsState s' → IsRow (csv_loop true cs s'))
        → IsRow (elim step [
          | line_end ↦ csv_end s
          | refused ↦ none
          | one s' ↦ csv_loop false cs s'
          | two s' ↦ csv_loop true cs s'
        ])
    by_step line_end fits once twice = csv_end-IsRow s h
    by_step refused fits once twice = tt
    by_step (one s') fits once twice = once s' fits
    by_step (two s') fits once twice = twice s' fits

-- A line that is accepted gives one to 16 values of at most 63 bytes: no write of the parser leaves
-- its arrays.
pub parse_csv_line-bounds :
    (line : Bytes) (vs : List Bytes)
    → parse_csv_line line ≡ some vs
    → (1 ≤ length vs) × (length vs ≤ max_columns) × All Fits vs
unfolding parse_csv_line
parse_csv_line-bounds line vs e =
    let h : IsRow (parse_csv_line line) =
      csv_loop-IsRow false line (record { in_quotes = false; values = []; text = [] })
        (tt, omega arith) in
    rw e at h

length-escaped : (v : Bytes) → length (escaped v) ≤ 2 * length v
unfolding escaped
length-escaped [] = omega arith
length-escaped (c ∷ cs) = ground (arith, length-escaped cs)

length-write_csv_field : (v : Bytes) → length (write_csv_field v) ≤ 2 * length v + 2
unfolding write_csv_field
length-write_csv_field v = ground (arith, length-escaped v, length-append (escaped v) (b'"' ∷ []))

length-write_more : (vs : List Bytes) → All Fits vs → length (write_more vs) ≤ 129 * length vs + 1
unfolding write_more
length-write_more [] h = omega arith
length-write_more (v ∷ vs) h = omega (
  arith,
  length-append (write_csv_field v) (write_more vs),
  length-write_csv_field v,
  h.0,
  length-write_more vs h.1,
)

-- A row of one to 16 values of at most 63 bytes is written as a line that the array for reading lines
-- holds with its NUL, line break included.
pub write_csv_row-bounds :
    (v : Bytes) (vs : List Bytes)
    → All Fits (v ∷ vs)
    → length (v ∷ vs) ≤ max_columns
    → length (write_csv_row (v ∷ vs)) < max_row_len
unfolding write_csv_row
write_csv_row-bounds v vs h l = omega (
  arith,
  length-append (write_csv_field v) (write_more vs),
  length-write_csv_field v,
  h.0,
  length-write_more vs h.1,
)
