-- ===== src/Schema/Limits.antt =====
-- A schema that the loader accepts is one the rest of the program can rely on.
use week7_02_sql_index.Prelude.{
  ℕ, zero, suc, ◌+◌, ◌≤◌, ◌<◌, true, false, ◌&&◌, Option, none, some, List, [], ◌∷◌, ◌++◌, ◌≡◌, ◌≢◌,
  refl, ap, leb, length, length-append, length-map, length-take, take, All, All-append, arith,
  if-either,
}
use week7_02_sql_index.Text.{Bytes, codes, to_lower, str_eq, str_eq_iff}
use week7_02_sql_index.Sql.{
  DataType, ColumnSchema, TableSchema, ok, ◌>>=◌, Ensures, Ensures-bind, Ensures-ok, max_name_len,
  max_columns,
}
use week7_02_sql_index.Schema.Defs.{
  to_lowercase_copy, parse_data_type, has_duplicate_column_name, cut, rest_of, is_int, add_column,
  add_typed, read_entry, load_columns, first_line, empty_schema, with_columns, load_table_schema,
}
use week7_02_sql_index.Schema.Valid.{
  IsColumn, Distinct, key_column, IsKeyOf, IsSchema, Distinct-snoc, get_elem?-snoc, get_elem?-last,
}

-- the schema while columns are added to it, with room for so many more
abbrev Loading : ℕ → TableSchema → Type 0
Loading room s =
    (length s.columns + room ≤ max_columns)
    × All IsColumn s.columns
    × Distinct s.columns
    × IsKeyOf s.columns s.primary_key_index

no_duplicate :
    (cs : List ColumnSchema) (name : Bytes)
    → has_duplicate_column_name cs name ≡ false
    → All (λ (d : ColumnSchema). d.name ≢ name) cs
unfolding has_duplicate_column_name
no_duplicate [] name e = tt
no_duplicate (c ∷ cs) name e =
    ((λ same. ground (arith, str_eq_iff c.name name, same)), no_duplicate cs name (ground arith))

length-to_lowercase_copy :
    (name : Bytes) → length (to_lowercase_copy max_name_len name) < max_name_len
length-to_lowercase_copy name =
    omega (arith, length-map to_lower (take 63 name), length-take 63 name)

is_int-eq : (ty : DataType) → is_int ty ≡ true → ty ≡ DataType.int
is_int-eq DataType.int e = refl
is_int-eq DataType.string e = cc

-- the test of the loader on a new column
is_key-true :
    (name : Bytes) (ty : DataType)
    → (str_eq name (codes "id") && is_int ty) ≡ true
    → ◌≡◌ {A = ColumnSchema} (record { name = name; type = ty }) key_column
is_key-true name ty e =
    let same : str_eq name (codes "id") ≡ true = ground arith in
    let int : is_int ty ≡ true = ground arith in
    rw ((str_eq_iff name (codes "id")).0 same, is_int-eq ty int)

is_key-false :
    (name : Bytes) (ty : DataType)
    → (str_eq name (codes "id") && is_int ty) ≡ false
    → ◌≢◌ {A = ColumnSchema} (record { name = name; type = ty }) key_column
is_key-false name ty e k =
    let same : name ≡ codes "id" = ap (λ (c : ColumnSchema). c.name) k in
    let int : ty ≡ DataType.int = ap (λ (c : ColumnSchema). c.type) k in
    let test : str_eq name (codes "id") ≡ true = (str_eq_iff name (codes "id")).1 same in
    let e' : is_int DataType.int ≡ false = rw (test, int) at e in ground (arith, e')

IsKeyOf-snoc :
    (cs : List ColumnSchema) (k : Option ℕ) (c : ColumnSchema)
    → IsKeyOf cs k
    → c ≢ key_column
    → IsKeyOf (cs ++ c ∷ []) k
IsKeyOf-snoc cs none c h n = All-append (λ d. d ≢ key_column) cs (c ∷ []) h (n, tt)
IsKeyOf-snoc cs (some i) c h n = get_elem?-snoc cs key_column c i h

add_column-IsKeyOf :
    (s : TableSchema) (name : Bytes) (ty : DataType)
    → IsKeyOf s.columns s.primary_key_index
    → IsKeyOf (add_column s name ty).columns (add_column s name ty).primary_key_index
unfolding add_column
add_column-IsKeyOf s name ty h =
    let c : ColumnSchema = record { name = name; type = ty } in
    if-either (IsKeyOf (s.columns ++ c ∷ [])) (str_eq name (codes "id") && is_int ty) _ _
      (λ e. rw (is_key-true name ty e) (get_elem?-last s.columns key_column))
      (λ e. IsKeyOf-snoc s.columns s.primary_key_index c h (is_key-false name ty e))

add_column-Loading :
    (room : ℕ) (s : TableSchema) (name : Bytes) (ty : DataType)
    → Loading (suc room) s
    → 1 ≤ length name
    → length name < max_name_len
    → has_duplicate_column_name s.columns name ≡ false
    → Loading room (add_column s name ty)
unfolding add_column
add_column-Loading room s name ty h l u d =
    let c : ColumnSchema = record { name = name; type = ty } in
    (
      omega (arith, h.0, length-append s.columns (c ∷ [])),
      All-append IsColumn s.columns (c ∷ []) h.1 ((l, u), tt),
      Distinct-snoc s.columns c h.2 (no_duplicate s.columns name d),
      add_column-IsKeyOf s name ty h.3,
    )

add_typed-Loading :
    (room : ℕ) (s : TableSchema) (name : Bytes) (ty : Option DataType)
    → Loading (suc room) s
    → 1 ≤ length name
    → length name < max_name_len
    → has_duplicate_column_name s.columns name ≡ false
    → Ensures (Loading room) (add_typed s name ty)
add_typed-Loading room s name none h l u d = tt
add_typed-Loading room s name (some ty) h l u d = add_column-Loading room s name ty h l u d

read_entry-Loading :
    (room : ℕ) (s : TableSchema) (name : Bytes) (ty : Option Bytes)
    → Loading (suc room) s
    → Ensures (Loading room) (read_entry s name ty)
unfolding read_entry
read_entry-Loading room s name none h = tt
read_entry-Loading room s name (some ty) h =
    let lower_name = to_lowercase_copy max_name_len name in
    let P = Loading room in
    if-either (Ensures P) (leb max_name_len (length name)) _ _ (λ e. tt)
      (λ e.
        if-either (Ensures P) (leb (length lower_name) 0) _ _ (λ e. tt)
          (λ nonempty.
            if-either (Ensures P) (has_duplicate_column_name s.columns lower_name) _ _ (λ e. tt)
              (λ new.
                add_typed-Loading room s lower_name
                  (parse_data_type (to_lowercase_copy max_name_len ty)) h (ground arith)
                  (length-to_lowercase_copy name) new)))

load_columns-Loading :
    (room : ℕ) (s : TableSchema) (cursor : Bytes)
    → Loading room s
    → Ensures (Loading 0) (load_columns room s cursor)
unfolding load_columns
load_columns-Loading room s [] h = (omega (arith, h.0), h.1, h.2, h.3)
load_columns-Loading zero s (c ∷ cs) h = tt
load_columns-Loading (suc room) s (c ∷ cs) h =
    let (entry, behind) = cut b',' (c ∷ cs) in
    let (name, ty) = cut b':' entry in
    Ensures-bind (Loading room) (Loading 0) (read_entry s name ty) _
      (read_entry-Loading room s name ty h)
      (λ s' h'. load_columns-Loading room s' (rest_of behind) h')

-- A schema that is accepted has one to 16 columns with different names of one to 63 bytes, and its
-- primary key is the column `id` of type int, or there is no such column.
pub load_table_schema-IsSchema :
    (file : Option Bytes) (table_name : Bytes) (s : TableSchema)
    → load_table_schema file table_name ≡ ok s
    → IsSchema s
unfolding load_table_schema
load_table_schema-IsSchema none table_name s e = cc
load_table_schema-IsSchema (some []) table_name s e = cc
load_table_schema-IsSchema (some (c ∷ cs)) table_name s e =
    let start = empty_schema table_name in
    let line = first_line (c ∷ cs) in
    Ensures-ok IsSchema (load_columns max_columns start line >>= with_columns) s
      (Ensures-bind (Loading 0) IsSchema (load_columns max_columns start line) with_columns
        (load_columns-Loading max_columns start line (omega arith, tt, tt, tt))
        (λ s' h.
          if-either (Ensures IsSchema) (leb (length s'.columns) 0) _ _ (λ e. tt)
            (λ e. (ground arith, omega (arith, h.0), h.1, h.2, h.3))))
      e
