-- ===== src/Storage/Csv/RoundTrip.antt =====
-- A row that is written is read back.
use week7_02_sql_index.Prelude.{
  ℕ, ◌+◌, ◌-◌, ◌≤◌, ◌<◌, Bool, true, false, not, ◌&&◌, some, List, [], ◌∷◌, ◌++◌, ◌≡◌, refl, ap,
  sym, ◌∙◌, leb, ◌==◌, length, length-append, append_assoc, append-nil, All, arith, Bool-cases, inl,
  inr,
}
use week7_02_sql_index.Text.{Bytes}
use week7_02_sql_index.Sql.{max_value_len, max_columns}
use week7_02_sql_index.Storage.Csv.Defs.{
  CsvState, one, two, ends_row, store, csv_step, starts_with_quote, csv_end, csv_loop,
  parse_csv_line, needs_quote, escaped, write_csv_field, write_more, write_csv_row,
}

-- no NUL and no line break, in at most 63 bytes
abbrev pub IsValue : Bytes → Type 0
IsValue v = All (λ c. ends_row c ≡ false) v × (length v < max_value_len)

abbrev state : Bool → List Bytes → Bytes → CsvState
state q values text = record { in_quotes = q; values = values; text = text }

loop_one :
    (c : ℕ) (cs : Bytes) (s s' : CsvState)
    → csv_step c (starts_with_quote cs) s ≡ one s'
    → csv_loop false (c ∷ cs) s ≡ csv_loop false cs s'
unfolding csv_loop
loop_one c cs s s' e = rw (e, csv_loop)

loop_two :
    (c d : ℕ) (cs : Bytes) (s s' : CsvState)
    → csv_step c (starts_with_quote (d ∷ cs)) s ≡ two s'
    → csv_loop false (c ∷ d ∷ cs) s ≡ csv_loop false cs s'
unfolding csv_loop
loop_two c d cs s s' e = rw (e, csv_loop)

module _ (values : List Bytes) (room : length values < max_columns) where
  -- a byte that is neither a quote nor, outside quotes, a comma
  step_plain :
      (q follows : Bool) (c : ℕ) (text : Bytes)
      → ends_row c ≡ false
      → (c == b'"') ≡ false
      → (not q && c == b',') ≡ false
      → length text < 63
      → csv_step c follows (state q values text) ≡ one (state q values (text ++ c ∷ []))
  unfolding csv_step store
  step_plain q follows c text e n m l =
      let some_room : leb max_columns (length values) ≡ false = ground arith in
      let short : leb (max_value_len - 1) (length text) ≡ false = ground arith in
      rw (e, some_room, n, m, short)

  step_quote :
      (q follows : Bool) (text : Bytes)
      → (q && follows) ≡ false
      → csv_step b'"' follows (state q values text) ≡ one (state (not q) values text)
  unfolding csv_step
  step_quote q follows text e =
      let some_room : leb max_columns (length values) ≡ false = ground arith in rw (some_room, e)

  step_doubled :
      (text : Bytes)
      → length text < 63
      → csv_step b'"' true (state true values text) ≡ two (state true values (text ++ b'"' ∷ []))
  unfolding csv_step store
  step_doubled text l =
      let some_room : leb max_columns (length values) ≡ false = ground arith in
      let short : leb (max_value_len - 1) (length text) ≡ false = ground arith in
      rw (some_room, short)

  step_comma :
      (follows : Bool) (text : Bytes)
      → csv_step b',' follows (state false values text) ≡ one (state false (values ++ text ∷ []) [])
  unfolding csv_step
  step_comma follows text =
      let some_room : leb max_columns (length values) ≡ false = ground arith in rw some_room

  read_plain :
      (v : Bytes) (t : ℕ) (rest text : Bytes)
      → All (λ c. ends_row c ≡ false) v
      → needs_quote v ≡ false
      → length text + length v ≤ 63
      → csv_loop false (v ++ t ∷ rest) (state false values text)
        ≡ csv_loop false (t ∷ rest) (state false values (text ++ v))
  unfolding needs_quote
  read_plain [] t rest text h n l = rw append-nil
  read_plain (c ∷ v) t rest text h n l =
      let no_quote : (c == b'"') ≡ false = ground arith in
      let no_comma : (c == b',') ≡ false = ground arith in
      let later : needs_quote v ≡ false = ground arith in
      loop_one c (v ++ t ∷ rest) (state false values text) (state false values (text ++ c ∷ [])) (
        step_plain false (starts_with_quote (v ++ t ∷ rest)) c text h.0 no_quote no_comma
          (omega arith))
      ∙ read_plain v t rest (text ++ c ∷ []) h.1 later (omega (arith, length-append text (c ∷ [])))
      ∙ ap (λ us. csv_loop false (t ∷ rest) (state false values us)) (append_assoc text (c ∷ []) v)

  read_escaped :
      (v : Bytes) (t : ℕ) (rest text : Bytes)
      → (t == b'"') ≡ false
      → All (λ c. ends_row c ≡ false) v
      → length text + length v ≤ 63
      → csv_loop false (escaped v ++ b'"' ∷ t ∷ rest) (state true values text)
        ≡ csv_loop false (t ∷ rest) (state false values (text ++ v))
  unfolding escaped
  read_escaped [] t rest text e h l =
      loop_one b'"' (t ∷ rest) (state true values text) (state false values text)
        (step_quote true (t == b'"') text e)
      ∙ ap (λ us. csv_loop false (t ∷ rest) (state false values us)) (sym (append-nil text))
  read_escaped (c ∷ v) t rest text e h l =
      let behind = escaped v ++ b'"' ∷ t ∷ rest in
      let longer = text ++ c ∷ [] in
      let later =
        read_escaped v t rest longer e h.1 (omega (arith, length-append text (c ∷ [])))
        ∙ ap (λ us. csv_loop false (t ∷ rest) (state false values us))
            (append_assoc text (c ∷ []) v) in
      elim (Bool-cases (c == b'"')) [
        | inl quote ↦
            let same : c ≡ b'"' = ground arith in
            let first : csv_step b'"' (c == b'"') (state true values text)
                ≡ two (state true values longer) =
              rw (quote, same) (step_doubled text (omega arith)) in
            rw quote (
              loop_two b'"' c behind (state true values text) (state true values longer) first
              ∙ later)
        | inr other ↦ rw other (
            loop_one c behind (state true values text) (state true values longer)
              (step_plain true (starts_with_quote behind) c text h.0 other refl (omega arith))
            ∙ later)
      ]

  read_field :
      (v : Bytes) (t : ℕ) (rest : Bytes)
      → (t == b'"') ≡ false
      → IsValue v
      → csv_loop false (write_csv_field v ++ t ∷ rest) (state false values [])
        ≡ csv_loop false (t ∷ rest) (state false values v)
  unfolding write_csv_field
  read_field v t rest e h = elim (Bool-cases (needs_quote v)) [
    | inl quoted ↦
        let open_quote : csv_loop false (b'"' ∷ (escaped v ++ b'"' ∷ t ∷ rest))
              (state false values [])
            ≡ csv_loop false (escaped v ++ b'"' ∷ t ∷ rest) (state true values []) =
          loop_one b'"' (escaped v ++ b'"' ∷ t ∷ rest) (state false values [])
            (state true values [])
            (step_quote false (starts_with_quote (escaped v ++ b'"' ∷ t ∷ rest)) [] refl) in
        rw (quoted, append_assoc (escaped v) (b'"' ∷ []) (t ∷ rest))
          (open_quote ∙ read_escaped v t rest [] e h.0 (omega (arith, h.1)))
    | inr plain ↦ rw plain (read_plain v t rest [] h.0 plain (omega (arith, h.1)))
  ]

write_more-head :
    (vs : List Bytes) (rest : Bytes)
    → (t : ℕ) × (us : Bytes) × (write_more vs ++ rest ≡ t ∷ us) × ((t == b'"') ≡ false)
unfolding write_more
write_more-head [] rest = (b'\n', rest, refl, refl)
write_more-head (v ∷ vs) rest = (b',', (write_csv_field v ++ write_more vs) ++ rest, refl, refl)

-- a field in front of the rest of its row
read_next :
    (values : List Bytes) (v : Bytes) (vs : List Bytes) (rest : Bytes)
    → length values < max_columns
    → IsValue v
    → csv_loop false ((write_csv_field v ++ write_more vs) ++ rest) (state false values [])
      ≡ csv_loop false (write_more vs ++ rest) (state false values v)
read_next values v vs rest room h =
    let (t, us, head, no_quote) = write_more-head vs rest in
    rw (append_assoc (write_csv_field v) (write_more vs) rest, head)
      (read_field values room v t us no_quote h)

-- Behind a value that has been read stands the end of the row, or a comma and the other values.
read_more :
    (values : List Bytes) (v : Bytes) (vs : List Bytes) (rest : Bytes)
    → All IsValue vs
    → length values + length (v ∷ vs) ≤ max_columns
    → csv_loop false (write_more vs ++ rest) (state false values v) ≡ some (values ++ v ∷ vs)
unfolding write_more csv_loop csv_end csv_step
read_more values v [] rest h l =
    let some_room : leb max_columns (length values) ≡ false = ground arith in rw some_room
read_more values v (w ∷ ws) rest h l =
    let room : length values < max_columns = omega arith in
    let next : length (values ++ v ∷ []) < max_columns =
      omega (arith, length-append values (v ∷ [])) in
    let behind = (write_csv_field w ++ write_more ws) ++ rest in
    loop_one b',' behind (state false values v) (state false (values ++ v ∷ []) [])
      (step_comma values room (starts_with_quote behind) v)
    ∙ read_next (values ++ v ∷ []) w ws rest next h.0
    ∙ read_more (values ++ v ∷ []) w ws rest h.1 (omega (arith, length-append values (v ∷ [])))
    ∙ ap some (append_assoc values (v ∷ []) (w ∷ ws))

-- A row of one to 16 values of at most 63 bytes, without NUL and line breaks, is read back from the line
-- that it is written as, whatever follows the line: commas and quotes in values survive.
pub parse_csv_line-write_csv_row :
    (v : Bytes) (vs : List Bytes) (rest : Bytes)
    → All IsValue (v ∷ vs)
    → length (v ∷ vs) ≤ max_columns
    → parse_csv_line (write_csv_row (v ∷ vs) ++ rest) ≡ some (v ∷ vs)
unfolding parse_csv_line write_csv_row
parse_csv_line-write_csv_row v vs rest h l =
    read_next [] v vs rest (omega arith) h.0 ∙ read_more [] v vs rest h.1 (omega (arith, l))
