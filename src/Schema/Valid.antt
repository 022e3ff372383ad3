-- ===== src/Schema/Valid.antt =====
-- What the rest of the program relies on in a table's schema.
use week7_02_sql_index.Prelude.{
  ℕ, zero, suc, ◌≤◌, ◌<◌, Option, none, some, List, [], ◌∷◌, ◌++◌, ◌≡◌, ◌≢◌, refl, length,
  get_elem?, All,
}
use week7_02_sql_index.Text.{codes}
use week7_02_sql_index.Sql.{DataType, ColumnSchema, TableSchema, max_name_len, max_columns}

abbrev pub IsColumn : ColumnSchema → Type 0
IsColumn c = (1 ≤ length c.name) × (length c.name < max_name_len)

abbrev pub Distinct : List ColumnSchema → Type 0
Distinct [] = Unit
Distinct (c ∷ cs) = All (λ (d : ColumnSchema). c.name ≢ d.name) cs × Distinct cs

abbrev pub key_column : ColumnSchema
key_column = record { name = codes "id"; type = DataType.int }

-- the place of the column `id` of type int, if there is one
abbrev pub IsKeyOf : List ColumnSchema → Option ℕ → Type 0
IsKeyOf cs none = All (λ c. c ≢ key_column) cs
IsKeyOf cs (some i) = get_elem? cs i ≡ some key_column

abbrev pub IsSchema : TableSchema → Type 0
IsSchema s =
    (1 ≤ length s.columns)
    × (length s.columns ≤ max_columns)
    × All IsColumn s.columns
    × Distinct s.columns
    × IsKeyOf s.columns s.primary_key_index

pub Distinct-snoc :
    (cs : List ColumnSchema) (c : ColumnSchema)
    → Distinct cs
    → All (λ (d : ColumnSchema). d.name ≢ c.name) cs
    → Distinct (cs ++ c ∷ [])
Distinct-snoc [] c d n = (tt, tt)
Distinct-snoc (x ∷ cs) c d n = (All-snoc x cs c d.0 n.0, Distinct-snoc cs c d.1 n.1)
  where
    All-snoc :
        (x : ColumnSchema) (cs : List ColumnSchema) (c : ColumnSchema)
        → All (λ (d : ColumnSchema). x.name ≢ d.name) cs
        → x.name ≢ c.name
        → All (λ (d : ColumnSchema). x.name ≢ d.name) (cs ++ c ∷ [])
    All-snoc x [] c a n = (n, tt)
    All-snoc x (y ∷ cs) c a n = (a.0, All-snoc x cs c a.1 n)

pub get_elem?-snoc {ℓ} :
    {A : Type ℓ} (xs : List A) (x y : A) (i : ℕ)
    → get_elem? xs i ≡ some x
    → get_elem? (xs ++ y ∷ []) i ≡ some x
get_elem?-snoc [] x y i e = cc
get_elem?-snoc (z ∷ xs) x y zero e = e
get_elem?-snoc (z ∷ xs) x y (suc i) e = get_elem?-snoc xs x y i e

pub get_elem?-last {ℓ} :
    {A : Type ℓ} (xs : List A) (y : A) → get_elem? (xs ++ y ∷ []) (length xs) ≡ some y
get_elem?-last [] y = refl
get_elem?-last (x ∷ xs) y = get_elem?-last xs y
