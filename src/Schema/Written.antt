-- ===== src/Schema/Written.antt =====
-- How a schema file lists columns, and what the loader's cuts make of it.
use week7_02_sql_index.Prelude.{
  ℕ, zero, suc, ◌*◌, ◌≤◌, ◌<◌, true, false, none, some, List, [], ◌∷◌, ◌++◌, ◌≡◌, refl, ap, ◌∙◌,
  length, length-append, take, map, All, All-append, All-imp, arith,
}
use week7_02_sql_index.Text.{Bytes, codes, to_lower, str_eq, span, span-append, span_whole}
use week7_02_sql_index.Sql.{DataType, ColumnSchema, max_name_len}
use week7_02_sql_index.Schema.Defs.{
  to_lowercase_copy, parse_data_type, other_than, cut, ends_line, line_bytes, first_line,
}
use week7_02_sql_index.Schema.Valid.{IsColumn}

abbrev pub type_text : DataType → Bytes
type_text DataType.int = codes "int"
type_text DataType.string = codes "string"

abbrev pub entry : ColumnSchema → Bytes
entry c = c.name ++ b':' ∷ type_text c.type

-- `id:int,name:string`
abbrev pub written : List ColumnSchema → Bytes
written [] = []
written (c ∷ []) = entry c
written (c ∷ d ∷ ds) = entry c ++ b',' ∷ written (d ∷ ds)

-- a lower-case byte that neither ends a name nor the line
abbrev pub IsNameByte : ℕ → Type 0
IsNameByte b =
    (to_lower b ≡ b)
    × (other_than b',' b ≡ true)
    × (other_than b':' b ≡ true)
    × (ends_line b ≡ true)

abbrev pub IsWritable : ColumnSchema → Type 0
IsWritable c = IsColumn c × All IsNameByte c.name

pub cut-piece :
    (stop : ℕ) (piece rest : Bytes)
    → All (λ b. other_than stop b ≡ true) piece
    → cut stop (piece ++ stop ∷ rest) ≡ (piece, some rest)
unfolding cut
cut-piece stop piece rest h =
    let stops : other_than stop stop ≡ false = ground arith in
    rw (span-append (other_than stop) piece stop rest h stops)

pub cut_whole :
    (stop : ℕ) (piece : Bytes)
    → All (λ b. other_than stop b ≡ true) piece
    → cut stop piece ≡ (piece, none)
unfolding cut
cut_whole stop piece h = rw (span_whole (other_than stop) piece h)

take_whole : (n : ℕ) (xs : Bytes) → length xs ≤ n → take n xs ≡ xs
take_whole zero [] h = refl
take_whole (suc n) [] h = refl
take_whole zero (x ∷ xs) h = absurd (omega arith)
take_whole (suc n) (x ∷ xs) h = ap (λ ys. x ∷ ys) (take_whole n xs (omega arith))

take-past :
    (n : ℕ) (xs : Bytes) (y : ℕ) (ys : Bytes)
    → length xs < n
    → (zs : Bytes) × (take n (xs ++ y ∷ ys) ≡ xs ++ y ∷ zs)
take-past zero xs y ys h = absurd (omega arith)
take-past (suc n) [] y ys h = (take n ys, refl)
take-past (suc n) (x ∷ xs) y ys h =
    let (zs, e) = take-past n xs y ys (omega arith) in (zs, ap (λ us. x ∷ us) e)

map-lower : (xs : Bytes) → All IsNameByte xs → map to_lower xs ≡ xs
map-lower [] h = refl
map-lower (x ∷ xs) h = rw (h.0.0, map-lower xs h.1)

pub to_lowercase_copy-name :
    (name : Bytes)
    → length name < max_name_len
    → All IsNameByte name
    → to_lowercase_copy max_name_len name ≡ name
to_lowercase_copy-name name l h = rw (take_whole 63 name (omega arith), map-lower name h)

pub parse_data_type-text :
    (ty : DataType) → parse_data_type (to_lowercase_copy max_name_len (type_text ty)) ≡ some ty
unfolding parse_data_type str_eq
parse_data_type-text DataType.int = refl
parse_data_type-text DataType.string = refl

length-entry : (c : ColumnSchema) → IsWritable c → length (entry c) ≤ 70
length-entry c h =
    omega (arith, length-append c.name (b':' ∷ type_text c.type), length-type_text c.type, h.0.1)
  where
    length-type_text : (ty : DataType) → length (type_text ty) ≤ 6
    length-type_text DataType.int = omega arith
    length-type_text DataType.string = omega arith

pub length-written :
    (c : ColumnSchema) (cs : List ColumnSchema)
    → All IsWritable (c ∷ cs)
    → length (written (c ∷ cs)) < 71 * length (c ∷ cs)
length-written c [] h = omega (arith, length-entry c h.0)
length-written c (d ∷ ds) h = omega (
  arith,
  length-append (entry c) (b',' ∷ written (d ∷ ds)),
  length-entry c h.0,
  length-written d ds h.1,
)

pub written-nonempty : (c : ColumnSchema) (cs : List ColumnSchema) → 1 ≤ length (written (c ∷ cs))
written-nonempty c [] = omega (arith, length-append c.name (b':' ∷ type_text c.type))
written-nonempty c (d ∷ ds) = omega (arith, length-append (entry c) (b',' ∷ written (d ∷ ds)))

type_text-All :
    (P : ℕ → Type 0) (ty : DataType)
    → All P (codes "int")
    → All P (codes "string")
    → All P (type_text ty)
type_text-All P DataType.int i s = i
type_text-All P DataType.string i s = s

pub entry-no_comma :
    (c : ColumnSchema) → IsWritable c → All (λ b. other_than b',' b ≡ true) (entry c)
entry-no_comma c h =
    let P : ℕ → Type 0 = λ b. other_than b',' b ≡ true in
    All-append P c.name (b':' ∷ type_text c.type) (All-imp (λ b l. l.1) c.name h.1) (
      refl,
      type_text-All P c.type (refl, (refl, (refl, tt)))
          (refl, (refl, (refl, (refl, (refl, (refl, tt)))))),
    )

entry-no_end : (c : ColumnSchema) → IsWritable c → All (λ b. ends_line b ≡ true) (entry c)
entry-no_end c h =
    let P : ℕ → Type 0 = λ b. ends_line b ≡ true in
    All-append P c.name (b':' ∷ type_text c.type) (All-imp (λ b l. l.3) c.name h.1) (
      refl,
      type_text-All P c.type (refl, (refl, (refl, tt)))
          (refl, (refl, (refl, (refl, (refl, (refl, tt)))))),
    )

pub written-no_end :
    (cs : List ColumnSchema) → All IsWritable cs → All (λ b. ends_line b ≡ true) (written cs)
written-no_end [] h = tt
written-no_end (c ∷ []) h = entry-no_end c h.0
written-no_end (c ∷ d ∷ ds) h =
    All-append (λ b. ends_line b ≡ true) (entry c) (b',' ∷ written (d ∷ ds)) (entry-no_end c h.0)
      (refl, written-no_end (d ∷ ds) h.1)

pub name-no_colon : (c : ColumnSchema) → IsWritable c → All (λ b. other_than b':' b ≡ true) c.name
name-no_colon c h = All-imp (λ b l. l.2) c.name h.1

pub first_line-written :
    (line rest : Bytes)
    → length line < line_bytes
    → All (λ b. ends_line b ≡ true) line
    → first_line (line ++ b'\n' ∷ rest) ≡ line
unfolding first_line
first_line-written line rest l h =
    let (zs, e) = take-past line_bytes line b'\n' rest l in
    ap (λ xs. (span ends_line xs).0) e ∙ ap (λ r. r.0) (span-append ends_line line b'\n' zs h refl)
