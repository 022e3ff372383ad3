-- ===== src/Schema/RoundTrip.antt =====
-- The loader reads back the columns that a schema file lists.
use week7_02_sql_index.Prelude.{
  ℕ, zero, suc, ◌≤◌, ◌<◌, false, Option, none, some, List, [], ◌∷◌, ◌++◌, ◌≡◌, ◌≢◌, refl, sym, ◌∙◌,
  leb, length, length-append, take, All, All-append, append_assoc, append-nil, arith,
}
use week7_02_sql_index.Text.{Bytes, str_eq_iff}
use week7_02_sql_index.Sql.{ColumnSchema, TableSchema, ok, ◌>>=◌, max_name_len, max_columns}
use week7_02_sql_index.Schema.Defs.{
  has_duplicate_column_name, cut, rest_of, add_column, read_entry, load_columns, line_bytes,
  first_line, empty_schema, with_columns, load_table_schema,
}
use week7_02_sql_index.Schema.Valid.{Distinct}
use week7_02_sql_index.Schema.Written.{
  IsWritable, cut_whole, cut-piece, entry, entry-no_comma, first_line-written, length-written,
  name-no_colon, parse_data_type-text, to_lowercase_copy-name, type_text, written, written-no_end,
  written-nonempty,
}

read_entry-entry :
    (s : TableSchema) (c : ColumnSchema)
    → IsWritable c
    → has_duplicate_column_name s.columns c.name ≡ false
    → read_entry s c.name (some (type_text c.type)) ≡ ok (add_column s c.name c.type)
unfolding read_entry
read_entry-entry s c h new =
    let fits : leb max_name_len (length c.name) ≡ false = ground (arith, h.0.1) in
    let nonempty : leb (length c.name) 0 ≡ false = ground (arith, h.0.0) in
    rw (fits, to_lowercase_copy-name c.name h.0.1 h.1, nonempty, new, parse_data_type-text c.type)

load_columns_step :
    (room : ℕ) (s : TableSchema) (text piece name : Bytes) (behind ty : Option Bytes)
    → 1 ≤ length text
    → cut b',' text ≡ (piece, behind)
    → cut b':' piece ≡ (name, ty)
    → load_columns (suc room) s text
      ≡ (read_entry s name ty >>= λ s'. load_columns room s' (rest_of behind))
unfolding load_columns
load_columns_step room s [] piece name behind ty l p n = absurd (omega arith)
load_columns_step room s (c ∷ cs) piece name behind ty l p n = rw (p, n)

add_all : TableSchema → List ColumnSchema → TableSchema
add_all s [] = s
add_all s (c ∷ cs) = add_all (add_column s c.name c.type) cs

-- each column is new when it is added
New : List ColumnSchema → List ColumnSchema → Type 0
New before [] = Unit
New before (c ∷ cs) = (has_duplicate_column_name before c.name ≡ false) × New (before ++ c ∷ []) cs

-- one round of the loop, on the last column and on one before others
load_columns-last :
    (room : ℕ) (s : TableSchema) (c : ColumnSchema)
    → IsWritable c
    → has_duplicate_column_name s.columns c.name ≡ false
    → load_columns (suc room) s (entry c) ≡ load_columns room (add_column s c.name c.type) []
load_columns-last room s c h new =
    load_columns_step room s (entry c) (entry c) c.name none (some (type_text c.type))
      (written-nonempty c []) (cut_whole b',' (entry c) (entry-no_comma c h))
      (cut-piece b':' c.name (type_text c.type) (name-no_colon c h))
    ∙ rw (read_entry-entry s c h new)

load_columns-before :
    (room : ℕ) (s : TableSchema) (c d : ColumnSchema) (ds : List ColumnSchema)
    → IsWritable c
    → has_duplicate_column_name s.columns c.name ≡ false
    → load_columns (suc room) s (written (c ∷ d ∷ ds))
      ≡ load_columns room (add_column s c.name c.type) (written (d ∷ ds))
load_columns-before room s c d ds h new =
    load_columns_step room s (written (c ∷ d ∷ ds)) (entry c) c.name (some (written (d ∷ ds)))
      (some (type_text c.type)) (written-nonempty c (d ∷ ds))
      (cut-piece b',' (entry c) (written (d ∷ ds)) (entry-no_comma c h))
      (cut-piece b':' c.name (type_text c.type) (name-no_colon c h))
    ∙ rw (read_entry-entry s c h new)

load_columns-nil : (room : ℕ) (s : TableSchema) → load_columns room s [] ≡ ok s
unfolding load_columns
load_columns-nil zero s = refl
load_columns-nil (suc room) s = refl

load_columns-written :
    (room : ℕ) (s : TableSchema) (cs : List ColumnSchema)
    → All IsWritable cs
    → New s.columns cs
    → length cs ≤ room
    → load_columns room s (written cs) ≡ ok (add_all s cs)
unfolding New add_all add_column
load_columns-written room s [] h new l = load_columns-nil room s
load_columns-written zero s (c ∷ cs) h new l = absurd (omega arith)
load_columns-written (suc room) s (c ∷ []) h new l =
    load_columns-last room s c h.0 new.0 ∙ load_columns-nil room (add_column s c.name c.type)
load_columns-written (suc room) s (c ∷ d ∷ ds) h new l =
    load_columns-before room s c d ds h.0 new.0
    ∙ load_columns-written room (add_column s c.name c.type) (d ∷ ds) h.1 new.1 (omega arith)

columns-add_all :
    (s : TableSchema) (cs : List ColumnSchema) → (add_all s cs).columns ≡ s.columns ++ cs
unfolding add_all add_column
columns-add_all s [] = sym (append-nil s.columns)
columns-add_all s (c ∷ cs) =
    columns-add_all (add_column s c.name c.type) cs ∙ append_assoc s.columns (c ∷ []) cs

table_name-add_all :
    (s : TableSchema) (cs : List ColumnSchema) → (add_all s cs).table_name ≡ s.table_name
unfolding add_all add_column
table_name-add_all s [] = refl
table_name-add_all s (c ∷ cs) = table_name-add_all (add_column s c.name c.type) cs

new_name :
    (before : List ColumnSchema) (name : Bytes)
    → All (λ (d : ColumnSchema). d.name ≢ name) before
    → has_duplicate_column_name before name ≡ false
unfolding has_duplicate_column_name
new_name [] name h = refl
new_name (d ∷ ds) name h =
    let rest = new_name ds name h.1 in ground (arith, str_eq_iff d.name name, h.0, rest)

Apart : List ColumnSchema → List ColumnSchema → Type 0
Apart before cs = All (λ (c : ColumnSchema). All (λ (d : ColumnSchema). d.name ≢ c.name) before) cs

Apart-snoc :
    (before : List ColumnSchema) (c : ColumnSchema) (cs : List ColumnSchema)
    → Apart before cs
    → All (λ (d : ColumnSchema). c.name ≢ d.name) cs
    → Apart (before ++ c ∷ []) cs
unfolding Apart
Apart-snoc before c [] a n = tt
Apart-snoc before c (d ∷ ds) a n = (
  All-append (λ (e : ColumnSchema). e.name ≢ d.name) before (c ∷ []) a.0 (n.0, tt),
  Apart-snoc before c ds a.1 n.1,
)

New-Distinct : (before cs : List ColumnSchema) → Apart before cs → Distinct cs → New before cs
unfolding Apart New
New-Distinct before [] a d = tt
New-Distinct before (c ∷ cs) a d = (
  new_name before c.name a.0,
  New-Distinct (before ++ c ∷ []) cs (Apart-snoc before c cs a.1 d.0) d.1,
)

Apart-nil : (cs : List ColumnSchema) → Apart [] cs
unfolding Apart
Apart-nil [] = tt
Apart-nil (c ∷ cs) = (tt, Apart-nil cs)

load_table_schema-nonempty :
    (file : Bytes) (table_name : Bytes)
    → 1 ≤ length file
    → load_table_schema (some file) table_name
      ≡ (load_columns max_columns (empty_schema table_name) (first_line file) >>= with_columns)
unfolding load_table_schema
load_table_schema-nonempty [] table_name h = absurd (omega arith)
load_table_schema-nonempty (c ∷ cs) table_name h = refl

-- One to 16 columns with different lower-case names, of 1 to 63 bytes without a comma, a colon or a line
-- break, are read back, in order, from the line that lists them, whatever follows that line; the table
-- has the name that was asked for, up to 63 bytes of it.
pub load_table_schema-written :
    (c : ColumnSchema) (cs : List ColumnSchema) (rest table_name : Bytes)
    → All IsWritable (c ∷ cs)
    → Distinct (c ∷ cs)
    → length (c ∷ cs) ≤ max_columns
    → (s : TableSchema) × (load_table_schema (some (written (c ∷ cs) ++ b'\n' ∷ rest)) table_name
        ≡ ok s)
      × (s.columns ≡ c ∷ cs)
      × (s.table_name ≡ take 63 table_name)
load_table_schema-written c cs rest table_name h d l =
    let start = empty_schema table_name in
    let line = written (c ∷ cs) in
    let s = add_all start (c ∷ cs) in
    let columns : s.columns ≡ c ∷ cs = columns-add_all start (c ∷ cs) in
    let some_column : leb (length s.columns) 0 ≡ false = rw columns (ground arith) in
    let new = New-Distinct [] (c ∷ cs) (Apart-nil (c ∷ cs)) d in
    let short : length line < line_bytes = omega (arith, length-written c cs h) in
    (
      s,
      load_table_schema-nonempty (line ++ b'\n' ∷ rest) table_name
            (omega (arith, length-append line (b'\n' ∷ rest)))
          ∙ rw (
            first_line-written line rest short (written-no_end (c ∷ cs) h),
            load_columns-written max_columns start (c ∷ cs) h new l,
            some_column,
          ),
      columns,
      table_name-add_all start (c ∷ cs),
    )
