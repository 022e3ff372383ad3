-- ===== src/Executor/Coherent/Insert.antt =====
-- `execute_insert` keeps a table's file and its index together.
use week7_02_sql_index.Prelude.{
  ℕ, Bool, true, false, Option, none, some, List, [], ◌∷◌, ◌++◌, ◌≡◌, refl, sym, ap, ◌∙◌, length,
  length-append, set, All, All-imp, All-append, arith, if-either, inl, inr, ◌⊎◌, ℤ, leb_ℤ, eqb_ℤ,
  eq_of_parts, ◌<ℤ◌,
}
use mathlib.Core.Path.{subst}
use week7_02_sql_index.Text.{Bytes, str_eq_iff}
use week7_02_sql_index.Sql.{TableSchema, InsertStatement, Result, ok, err}
use week7_02_sql_index.Number.Defs.{int_max, succ_ℤ}
use week7_02_sql_index.Number.Range.{InInt, read_int-InInt, succ-above, succ-InInt}
use week7_02_sql_index.Bptree.Spec.{lookup, insert_sorted}
use week7_02_sql_index.Bptree.Order.Lists.{of_lookup}
use week7_02_sql_index.Bptree.Contract.Search.{bptree_search-lookup}
use week7_02_sql_index.Bptree.Contract.Insert.{bptree_insert_absent}
use week7_02_sql_index.Storage.Table.Defs.{done, header_line, storage_append_row}
use week7_02_sql_index.Storage.Table.Rows.File.{IsRow, rows_text, table_file}
use week7_02_sql_index.Storage.Table.Rows.Values.{int_at, int_at-readable}
use week7_02_sql_index.Storage.Table.Rows.Keys.{DistinctInts, keys}
use week7_02_sql_index.Storage.Table.Rows.Grow.{
  index_rows-snoc, lookup-absent, DistinctInts-snoc, keys-snoc, storage_append_row-table_file,
  storage_append_row-new_file,
}
use week7_02_sql_index.Executor.State.{
  AppConfig, TableRuntimeState, World, Exec, ◌&>◌, put_state, put_file, data_file, data_path,
  find_table_state, get_table_state_index,
}
use week7_02_sql_index.Executor.Values.{with_next_id, build_insert_row_values}
use week7_02_sql_index.Executor.Insert.{
  is_found, has_key, of_key, parse_row_primary_key, with_tree, remember,
  remember_explicit_primary_key, appended, append_row, refuse_present, validate_primary_key_unique,
  registered, insert_key, register_row, write_row, insert_row,
}
use week7_02_sql_index.Executor.Checks.{AreLiterals}
use week7_02_sql_index.Executor.Coherent.Defs.{
  IsConfig, IsKeyed, TableFile, index_of, IsNext, IsOpen, OpenState, IsCoherent,
}
use week7_02_sql_index.Executor.Coherent.States.{find_table_state-set, get_table_state_index-found}
use week7_02_sql_index.Executor.Coherent.Open.{Opened, get_table_state_index-Opened}
use week7_02_sql_index.Executor.Coherent.Build.{Keeps, build_insert_row_values-Keeps}

pub is_found-lookup : (o : Option ℕ) → is_found (of_lookup o) ≡ false → o ≡ none
is_found-lookup none e = refl
is_found-lookup (some x) e = cc

module _ (config : AppConfig) (schema : TableSchema) (i : ℕ) (c : IsConfig config)
    (k : IsKeyed schema i) where
  -- where the next row is written
  abbrev pub end_of : List (List Bytes) → ℕ
  end_of rows = length (table_file schema rows)

  -- the answer of the append to a table's file
  append-TableFile :
      (rows : List (List Bytes)) (row : List Bytes) (file : Option Bytes)
      → All (IsRow schema.columns) rows
      → TableFile config schema i rows file
      → storage_append_row schema file row
        ≡ done (table_file schema (rows ++ row ∷ []), end_of rows)
  append-TableFile rows row none h f =
      storage_append_row-new_file schema k.table row
      ∙ ap (λ rs. done (table_file schema (rs ++ row ∷ []), end_of rs)) (sym f)
  append-TableFile rows row (some file) h f =
      rw f (storage_append_row-table_file schema k.table rows row h)

  abbrev pub added : List (List Bytes) → List Bytes → World → World
  added rows row w = put_file (data_path config schema) (table_file schema (rows ++ row ∷ [])) w

  pub append_row-table_file :
      (rows : List (List Bytes)) (row : List Bytes) (w : World)
      → IsCoherent config schema i rows w
      → append_row config schema row w ≡ (added rows row w, ok (end_of rows))
  append_row-table_file rows row w h =
      ap (λ o. appended config schema o w)
        (append-TableFile rows row (data_file config schema w) h.readable h.file)

  -- the index with the new row's key
  index_of-snoc :
      (rows : List (List Bytes)) (row : List Bytes)
      → insert_sorted (int_at i row) (end_of rows) (index_of config schema i rows)
        ≡ index_of config schema i (rows ++ row ∷ [])
  index_of-snoc rows row =
      let start = length (header_line schema.columns) in
      ap (λ o. insert_sorted (int_at i row) o (index_of config schema i rows))
        (length-append (header_line schema.columns) (rows_text rows))
      ∙ sym (index_rows-snoc i start rows row [])

  pub has_key-lookup :
      (rows : List (List Bytes)) (s : TableRuntimeState) (key : ℤ)
      → IsOpen config schema i rows s
      → has_key s.pk_index key ≡ is_found (of_lookup (lookup key (index_of config schema i rows)))
  has_key-lookup rows s key o =
      ap (λ p. has_key p key) o.has_index
      ∙ ap is_found (bptree_search-lookup o.index.tree key o.valid)
      ∙ ap (λ es. is_found (of_lookup (lookup key es))) o.indexed

  has_key-absent :
      (rows : List (List Bytes)) (s : TableRuntimeState) (key : ℤ)
      → IsOpen config schema i rows s
      → has_key s.pk_index key ≡ false
      → lookup key (index_of config schema i rows) ≡ none
  has_key-absent rows s key o e =
      is_found-lookup (lookup key (index_of config schema i rows))
        (sym (has_key-lookup rows s key o) ∙ e)

  -- `remember_explicit_primary_key` leaves a next key above all keys.
  above-remembered :
      (next_id key j : ℤ)
      → leb_ℤ next_id key ≡ true
      → (j <ℤ next_id) ⊎ (j ≡ int_max)
      → (j <ℤ succ_ℤ key) ⊎ (j ≡ int_max)
  above-remembered next_id key j below (inl less) =
      inl (succ-above j key (ground (arith, less, below)))
  above-remembered next_id key j below (inr e) = inr e

  snoc-IsNext :
      (next_id key : ℤ) (rows : List (List Bytes)) (row : List Bytes)
      → int_at i row ≡ key
      → IsNext config schema i next_id (keys i rows)
      → (key <ℤ next_id) ⊎ (key ≡ int_max)
      → IsNext config schema i next_id (keys i (rows ++ row ∷ []))
  snoc-IsNext next_id key rows row e n last =
      let P = λ (j : ℤ). (j <ℤ next_id) ⊎ (j ≡ int_max) in
      (
        n.0,
        n.1,
        subst (All P) (sym (keys-snoc i rows row))
            (All-append P (keys i rows) (int_at i row ∷ []) n.2 (rw e last, tt)),
      )

  remembered-IsNext :
      (next_id key : ℤ) (ks : List ℤ)
      → IsNext config schema i next_id ks
      → InInt key
      → eqb_ℤ key int_max ≡ false
      → leb_ℤ next_id key ≡ true
      → IsNext config schema i (succ_ℤ key) ks
  remembered-IsNext next_id key ks n within other below =
      let within' = succ-InInt key within other in
      (within'.0, within'.1, All-imp (λ j. above-remembered next_id key j below) ks n.2)

  -- `remember_explicit_primary_key` behind the append and the insertion into the index
  remember-IsCoherent :
      (rows : List (List Bytes)) (row : List Bytes) (w : World) (n : ℕ) (s : TableRuntimeState)
      → All (IsRow schema.columns) (rows ++ row ∷ [])
      → DistinctInts (keys i (rows ++ row ∷ []))
      → TableFile config schema i (rows ++ row ∷ []) (data_file config schema w)
      → find_table_state config schema w.states ≡ some (n, s)
      → ((next_id : ℤ)
          → IsNext config schema i next_id (keys i (rows ++ row ∷ []))
          → IsOpen config schema i (rows ++ row ∷ []) (with_next_id next_id s))
      → IsNext config schema i s.next_id (keys i rows)
      → InInt (int_at i row)
      → IsCoherent config schema i
          (rows ++ row ∷ [])
          (remember_explicit_primary_key config schema (int_at i row) w)
  unfolding remember_explicit_primary_key
  remember-IsCoherent rows row w n s readable distinct file finds opened next within =
      subst (λ o. P (remember config schema key o w)) (sym finds)
        (if-either P (eqb_ℤ key int_max) _ _
          (λ e. kept (inr (eq_of_parts key int_max (ground (arith, e)))))
          (λ other.
            if-either P (leb_ℤ s.next_id key) _ _
              (λ below.
                let moved = with_next_id (succ_ℤ key) s in
                let o = opened (succ_ℤ key) (
                  snoc-IsNext (succ_ℤ key) key rows row refl
                    (remembered-IsNext s.next_id key (keys i rows) next within other below)
                    (inl (succ-above key key (omega arith)))) in
                with_state (put_state n moved w) n moved file
                  (find_table_state-set config schema w.states n s moved finds o.own) o)
              (λ above. kept (inl (ground (arith, above))))))
    where
      key : ℤ
      key = int_at i row

      P : World → Type 0
      P = IsCoherent config schema i (rows ++ row ∷ [])

      with_state :
          (u : World) (m : ℕ) (t : TableRuntimeState)
          → TableFile config schema i (rows ++ row ∷ []) (data_file config schema u)
          → find_table_state config schema u.states ≡ some (m, t)
          → IsOpen config schema i (rows ++ row ∷ []) t
          → P u
      with_state u m t f e o = record {
        readable = readable;
        distinct = distinct;
        file = f;
        state = subst (OpenState config schema i (rows ++ row ∷ [])) (sym e) o;
      }

      kept : (key <ℤ s.next_id) ⊎ (key ≡ int_max) → P w
      kept last =
          with_state w n s file finds
            (opened s.next_id (snoc-IsNext s.next_id key rows row refl next last))

  module _ (calloc : ℕ → ℕ → Bool) (enough : (t n : ℕ) → calloc t n ≡ true) where
    -- Behind an append of a fresh key the key is registered, and the table is the longer one.
    register_row-IsCoherent :
        (rows : List (List Bytes)) (row : List Bytes) (w : World) (n : ℕ) (s : TableRuntimeState)
        → IsCoherent config schema i rows w
        → find_table_state config schema w.states ≡ some (n, s)
        → IsOpen config schema i rows s
        → IsRow schema.columns row
        → lookup (int_at i row) (index_of config schema i rows) ≡ none
        → (w' : World) × (register_row config schema calloc
              (int_at i row)
              (end_of rows)
              (added rows row w)
            ≡ (w', ok tt))
          × IsCoherent config schema i (rows ++ row ∷ []) w'
    unfolding register_row
    register_row-IsCoherent rows row w n s h finds o fits absent =
        let key = int_at i row in
        let start = length (header_line schema.columns) in
        let (t, inserts, valid, sorted) =
          bptree_insert_absent (calloc o.index.number) o.index.tree key (end_of rows) o.valid
            (enough o.index.number) (ap (lookup key) o.indexed ∙ absent) in
        let s' = with_tree t o.index s in
        let found : find_table_state config schema (set w.states n s') ≡ some (n, s') =
          find_table_state-set config schema w.states n s s' finds o.own in
        let w' = put_state n s' (added rows row w) in
        (
          remember_explicit_primary_key config schema key w',
          ap (λ r. after r)
                (get_table_state_index-found config schema calloc (added rows row w) n s finds)
              ∙ ap
                  (λ p.
                    behind (
                      insert_key config schema calloc key (end_of rows) p (n, s)
                        (added rows row w)))
                  o.has_index
              ∙ ap (λ r. behind (registered config schema calloc n s o.index r (added rows row w)))
                  inserts,
          remember-IsCoherent rows row w' n s'
              (All-append (IsRow schema.columns) rows (row ∷ []) h.readable (fits, tt))
              (subst DistinctInts (sym (keys-snoc i rows row)) (
                DistinctInts-snoc (keys i rows) key h.distinct
                  (lookup-absent i key start rows h.distinct absent)))
              (rw ((str_eq_iff (data_path config schema) (data_path config schema)).1 refl) refl)
              found
              (λ next_id next. record {
                own = o.own;
                index = record { number = o.index.number; tree = t };
                has_index = refl;
                valid = valid;
                indexed =
                    sorted
                    ∙ ap (insert_sorted key (end_of rows)) o.indexed
                    ∙ index_of-snoc rows row;
                next = next;
              })
              o.next (read_int-InInt _ _ (int_at-readable schema i row k.int fits)),
        )
      where
        behind : World × Result {0} Unit → World × Result {0} Unit
        behind r = r &> λ u w. (remember_explicit_primary_key config schema (int_at i row) w, ok tt)

        after : World × Result (ℕ × TableRuntimeState) → World × Result {0} Unit
        after r = behind (
            r &> λ state w.
            insert_key config schema calloc (int_at i row) (end_of rows) (state.1).pk_index state w)

    -- What an INSERT leaves: the table with the row, or the table as it was.
    abbrev pub Written : List (List Bytes) → List Bytes → World × Result {0} Unit → Type 0
    Written rows row (w, err e) = IsCoherent config schema i rows w
    Written rows row (w, ok u) = IsCoherent config schema i (rows ++ row ∷ []) w

    write_row-Written :
        (rows : List (List Bytes)) (row : List Bytes) (w : World)
        → IsCoherent config schema i rows w
        → IsRow schema.columns row
        → Written rows row (write_row config schema calloc (some i) row w)
    unfolding write_row parse_row_primary_key validate_primary_key_unique
    write_row-Written rows row w h fits =
        subst
          (λ o. Written rows row (
            of_key o w &> λ key w.
            (get_table_state_index config schema calloc w
              &> refuse_present config schema calloc key)
            &> λ u w. rest key w))
          (sym (int_at-readable schema i row k.int fits))
          (by_state (get_table_state_index config schema calloc w)
            (get_table_state_index-Opened config schema i c k calloc enough rows w h))
      where
        rest : ℤ → Exec Unit
        rest key w = append_row config schema row w &> λ row_offset w.
            register_row config schema calloc key row_offset w

        by_state :
            (r : World × Result (ℕ × TableRuntimeState))
            → Opened config schema i c k rows r
            → Written rows row (
                (r &> refuse_present config schema calloc (int_at i row)) &> λ u w.
                rest (int_at i row) w)
        by_state (w, err e) h = h
        by_state (w, ok (n, s)) (h, finds, o) =
            let key = int_at i row in
            if-either (λ (r : World × Result {0} Unit). Written rows row (r &> λ u w. rest key w))
              (has_key s.pk_index key) _ _ (λ e. h)
              (λ new.
                let (w', registers, longer) =
                  register_row-IsCoherent rows row w n s h finds o fits
                    (has_key-absent rows s key o new) in
                subst
                  (λ r.
                    Written rows row
                      (r &> λ row_offset w. register_row config schema calloc key row_offset w))
                  (sym (append_row-table_file rows row w h))
                  (subst (Written rows row) (sym registers) longer))

    -- the table with one row more, or the table as it was
    abbrev pub Inserted : List (List Bytes) → World × Result {0} Unit → Type 0
    Inserted rows (w, err e) = IsCoherent config schema i rows w
    Inserted rows (w, ok u) = (row : List Bytes) × IsCoherent config schema i (rows ++ row ∷ []) w

    Written-Inserted :
        (rows : List (List Bytes)) (row : List Bytes) (r : World × Result {0} Unit)
        → Written rows row r
        → Inserted rows r
    Written-Inserted rows row (w, err e) h = h
    Written-Inserted rows row (w, ok u) h = (row, h)

    -- With memory and literals that fit, an INSERT into a coherent table leaves a coherent table: with one row
    -- more behind the others, or, where it is refused, with the same rows.
    pub insert_row-Inserted :
        (rows : List (List Bytes)) (statement : InsertStatement) (w : World)
        → AreLiterals statement.values
        → IsCoherent config schema i rows w
        → Inserted rows (insert_row config schema calloc statement w)
    unfolding insert_row
    insert_row-Inserted rows statement w v h =
        by_row (build_insert_row_values config schema calloc statement w)
          (build_insert_row_values-Keeps config schema i c k calloc enough rows statement w v h)
      where
        by_row :
            (r : World × Result (List Bytes))
            → Keeps config schema i c k (IsRow schema.columns) rows r
            → Inserted rows (r &> write_row config schema calloc schema.primary_key_index)
        by_row (w, err e) h = h
        by_row (w, ok row) (h, fits) = Written-Inserted rows row _ (
            subst (λ p. Written rows row (write_row config schema calloc p row w)) (sym k.key)
              (write_row-Written rows row w h fits))
