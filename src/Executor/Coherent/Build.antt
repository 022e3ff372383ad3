-- ===== src/Executor/Coherent/Build.antt =====
-- Building the row of an INSERT keeps the invariant.
use week7_02_sql_index.Prelude.{
  ℕ, suc, ◌+◌, Bool, true, false, Option, none, some, List, [], ◌∷◌, ◌≡◌, sym, ◌==◌, length,
  get_elem?, replicate, All, All-imp, arith, if-either, inl, inr, ◌⊎◌, ℤ, ◌<ℤ◌, eqb_ℤ,
}
use mathlib.Core.Path.{subst}
use week7_02_sql_index.Text.{Bytes}
use week7_02_sql_index.Sql.{
  DataType, SourceLocation, ColumnSchema, ColumnRef, TableSchema, InsertStatement, Result, ok, err,
  Ensures,
}
use week7_02_sql_index.Number.Defs.{int_text, int_max, succ_ℤ}
use week7_02_sql_index.Number.Range.{InInt, succ-above, succ-InInt}
use week7_02_sql_index.Number.Decimal.{read_int-int_text}
use week7_02_sql_index.Number.Printed.{int_text-IsValue}
use week7_02_sql_index.Storage.Table.Rows.File.{IsRow}
use week7_02_sql_index.Storage.Table.Rows.Values.{IsIntColumn}
use week7_02_sql_index.Storage.Table.Rows.Keys.{keys}
use week7_02_sql_index.Executor.State.{
  AppConfig, TableRuntimeState, World, Exec, ◌&>◌, put_state, find_table_state,
  get_table_state_index,
}
use week7_02_sql_index.Executor.Values.{
  Slots, with_next_id, take_next_id, allocate_next_primary_key, is_key, fill_rest, fill_slots,
  build_row, build_insert_row_values,
}
use week7_02_sql_index.Executor.Checks.{
  AreLiterals, IsCell, IsSlots, fill_in_order-IsRow, place_values-IsSlots, replicate-IsSlots,
}
use week7_02_sql_index.Executor.Coherent.Defs.{IsConfig, IsKeyed, IsOpen, OpenState, IsCoherent}
use week7_02_sql_index.Executor.Coherent.States.{find_table_state-set}
use week7_02_sql_index.Executor.Coherent.Open.{Opened, get_table_state_index-Opened}

-- From column `j` on, the key's column has the type int.
abbrev KeyInt : ℕ → List ColumnSchema → ℕ → Type 0
KeyInt j [] i = Unit
KeyInt j (c ∷ cs) i = ((j ≡ i) → c.type ≡ DataType.int) × KeyInt (suc j) cs i

abbrev IntFrom : ℕ → List ColumnSchema → ℕ → Type 0
IntFrom j cs i =
    (n : ℕ) → j + n ≡ i → (c : ColumnSchema) × (get_elem? cs n ≡ some c) × (c.type ≡ DataType.int)

KeyInt-from : (j : ℕ) (cs : List ColumnSchema) (i : ℕ) → IntFrom j cs i → KeyInt j cs i
KeyInt-from j [] i h = tt
KeyInt-from j (d ∷ cs) i h = (
  λ e. (let (c, at, int) = h 0 (omega (arith, e)) in let same : d ≡ c = cc in rw same int),
  KeyInt-from (suc j) cs i (λ n e. h (suc n) (omega (arith, e))),
)

columns-KeyInt : (schema : TableSchema) (i : ℕ) → IsIntColumn schema i → KeyInt 0 schema.columns i
columns-KeyInt schema i int =
    KeyInt-from 0 schema.columns i (λ n e. let same : n ≡ i = omega (arith, e) in rw same int)

module _ (config : AppConfig) (schema : TableSchema) (i : ℕ) (c : IsConfig config)
    (k : IsKeyed schema i) where
  -- What a call leaves: the invariant, and a property of its answer.
  abbrev pub Keeps : {A : Type 0} → (A → Type 0) → List (List Bytes) → World × Result A → Type 0
  Keeps P rows (w, err e) = IsCoherent config schema i rows w
  Keeps P rows (w, ok a) = IsCoherent config schema i rows w × P a

  pub Keeps-bind :
      {A B : Type 0} (P : A → Type 0) (Q : B → Type 0) (rows : List (List Bytes))
      (r : World × Result A) (f : A → Exec B)
      → Keeps P rows r
      → ((a : A) (w : World) → IsCoherent config schema i rows w → P a → Keeps Q rows (f a w))
      → Keeps Q rows (r &> f)
  Keeps-bind P Q rows (w, err e) f h g = h
  Keeps-bind P Q rows (w, ok a) f h g = g a w h.0 h.1

  -- a state in place of the table's own
  pub put_state-IsCoherent :
      (rows : List (List Bytes)) (w : World) (n : ℕ) (s s' : TableRuntimeState)
      → IsCoherent config schema i rows w
      → find_table_state config schema w.states ≡ some (n, s)
      → IsOpen config schema i rows s'
      → IsCoherent config schema i rows (put_state n s' w)
  put_state-IsCoherent rows w n s s' h finds opened = record {
    readable = h.readable;
    distinct = h.distinct;
    file = h.file;
    state =
        subst (OpenState config schema i rows)
          (sym (find_table_state-set config schema w.states n s s' finds opened.own)) opened;
  }

  -- no row has the key
  abbrev pub IsFresh : List (List Bytes) → ℤ → Type 0
  IsFresh rows key = All (λ j. eqb_ℤ j key ≡ false) (keys i rows)

  next-fresh :
      (next_id j : ℤ)
      → eqb_ℤ next_id int_max ≡ false
      → (j <ℤ next_id) ⊎ (j ≡ int_max)
      → eqb_ℤ j next_id ≡ false
  next-fresh next_id j other (inl below) = ground (arith, below)
  next-fresh next_id j other (inr e) = rw e (ground (arith, other))

  next-above :
      (next_id j : ℤ) → (j <ℤ next_id) ⊎ (j ≡ int_max) → (j <ℤ succ_ℤ next_id) ⊎ (j ≡ int_max)
  next-above next_id j (inl below) = inl (succ-above j next_id (omega arith))
  next-above next_id j (inr e) = inr e

  take_next_id-Keeps :
      (calloc : ℕ → ℕ → Bool) (rows : List (List Bytes))
      (r : World × Result (ℕ × TableRuntimeState))
      → Opened config schema i c k rows r
      → Keeps (λ id. InInt id × IsFresh rows id) rows (r &> take_next_id config schema calloc)
  take_next_id-Keeps calloc rows (w, err e) h = h
  take_next_id-Keeps calloc rows (w, ok (n, s)) (h, finds, o) =
      let P = Keeps (λ id. InInt id × IsFresh rows id) rows in
      if-either P (eqb_ℤ s.next_id int_max) _ _ (λ e. h)
        (λ other.
          let within : InInt s.next_id = (o.next.0, o.next.1) in
          let within' = succ-InInt s.next_id within other in
          let opened : IsOpen config schema i rows (with_next_id (succ_ℤ s.next_id) s) = record {
            own = o.own;
            index = o.index;
            has_index = o.has_index;
            valid = o.valid;
            indexed = o.indexed;
            next = (within'.0, within'.1, All-imp (next-above s.next_id) (keys i rows) o.next.2);
          } in
          (
            put_state-IsCoherent rows w n s (with_next_id (succ_ℤ s.next_id) s) h finds opened,
            (within, All-imp (λ j. next-fresh s.next_id j other) (keys i rows) o.next.2),
          ))

  module _ (calloc : ℕ → ℕ → Bool) (enough : (t n : ℕ) → calloc t n ≡ true) where
    -- With memory, an automatic key is an `int` that no row has.
    pub allocate_next_primary_key-Keeps :
        (rows : List (List Bytes)) (w : World)
        → IsCoherent config schema i rows w
        → Keeps
            (λ id. InInt id × IsFresh rows id)
            rows
            (allocate_next_primary_key config schema calloc w)
    unfolding allocate_next_primary_key
    allocate_next_primary_key-Keeps rows w h =
        take_next_id-Keeps calloc rows (get_table_state_index config schema calloc w)
          (get_table_state_index-Opened config schema i c k calloc enough rows w h)

    is_key-eq : (j : ℕ) → is_key config schema calloc j schema.primary_key_index ≡ true → j ≡ i
    is_key-eq j e = by_key schema.primary_key_index k.key e
      where
        by_key : (o : Option ℕ) → o ≡ some i → is_key config schema calloc j o ≡ true → j ≡ i
        by_key none f e = cc
        by_key (some n) f e = let same : n ≡ i = cc in ground (arith, e, same)

    auto-IsCell :
        (col : ColumnSchema) (id : ℤ)
        → col.type ≡ DataType.int
        → InInt id
        → IsCell col (int_text id)
    auto-IsCell col id int h =
        (int_text-IsValue id, rw (int, read_int-int_text id h.0 h.1) (λ e. cc))

    fill_rest-Keeps :
        (place : SourceLocation) (rows : List (List Bytes)) (j : ℕ) (cs : List ColumnSchema)
        (ss : Slots) (w : World)
        → KeyInt j cs i
        → IsSlots cs ss
        → IsCoherent config schema i rows w
        → Keeps (IsRow cs) rows (fill_rest config schema calloc place j ss w)
    unfolding fill_rest
    fill_rest-Keeps place rows j [] [] w q s h = (h, tt)
    fill_rest-Keeps place rows j [] (x ∷ ss) w q s h = absurd s
    fill_rest-Keeps place rows j (col ∷ cs) [] w q s h = absurd s
    fill_rest-Keeps place rows j (col ∷ cs) (some v ∷ ss) w q s h =
        Keeps-bind (IsRow cs) (IsRow (col ∷ cs)) rows
          (fill_rest config schema calloc place (suc j) ss w) _
          (fill_rest-Keeps place rows (suc j) cs ss w q.1 s.1 h)
          (λ vs w' h' row. (h', (s.0.0, s.0.1, row)))
    fill_rest-Keeps place rows j (col ∷ cs) (none ∷ ss) w q s h =
        if-either (Keeps (IsRow (col ∷ cs)) rows)
          (is_key config schema calloc j schema.primary_key_index) _ _
          (λ e.
            Keeps-bind (λ id. InInt id × IsFresh rows id) (IsRow (col ∷ cs)) rows
              (allocate_next_primary_key config schema calloc w) _
              (allocate_next_primary_key-Keeps rows w h)
              (λ id w' h' good.
                Keeps-bind (IsRow cs) (IsRow (col ∷ cs)) rows
                  (fill_rest config schema calloc place (suc j) ss w') _
                  (fill_rest-Keeps place rows (suc j) cs ss w' q.1 s h')
                  (λ vs w'' h'' row.
                    let cell = auto-IsCell col id (q.0 (is_key-eq j e)) good.0 in
                    (h'', (cell.0, cell.1, row)))))
          (λ e. h)

    -- With memory, a row that `build_insert_row_values` gives fits the columns.
    pub build_insert_row_values-Keeps :
        (rows : List (List Bytes)) (statement : InsertStatement) (w : World)
        → AreLiterals statement.values
        → IsCoherent config schema i rows w
        → Keeps
            (IsRow schema.columns)
            rows
            (build_insert_row_values config schema calloc statement w)
    unfolding build_insert_row_values
    build_insert_row_values-Keeps rows statement w v h = by_columns statement.columns
      where
        of_result :
            (r : Result (List Bytes))
            → Ensures (IsRow schema.columns) r
            → Keeps (IsRow schema.columns) rows (w, r)
        of_result (err e) g = h
        of_result (ok row) g = (h, g)

        of_slots :
            (r : Result Slots)
            → Ensures (IsSlots schema.columns) r
            → Keeps
                (IsRow schema.columns)
                rows
                (fill_slots config schema calloc statement.table_location r w)
        of_slots (err e) g = h
        of_slots (ok ss) g =
            fill_rest-Keeps statement.table_location rows 0 schema.columns ss w
              (columns-KeyInt schema i k.int) g h

        by_columns :
            (o : Option (List ColumnRef))
            → Keeps (IsRow schema.columns) rows (build_row config schema calloc statement o w)
        by_columns none = of_result _ (
            if-either (Ensures (IsRow schema.columns))
              (length statement.values == length schema.columns) _ _
              (λ e. fill_in_order-IsRow schema.columns statement.values v) (λ e. tt))
        by_columns (some refs) = of_slots _ (
            place_values-IsSlots schema.columns (replicate (length schema.columns) none) refs
              statement.values (replicate-IsSlots schema.columns) v)
