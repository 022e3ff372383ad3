-- ===== src/Executor/Coherent/Unregistered.antt =====
-- An INSERT whose key cannot be registered: the row is in the file all the same.
use week7_02_sql_index.Prelude.{
  ℕ, false, none, some, List, [], ◌∷◌, ◌++◌, ◌≡◌, refl, ap, ◌∙◌, Bool, if◌then◌else◌, ℤ,
}
use week7_02_sql_index.Text.{Bytes, str_eq_iff}
use week7_02_sql_index.Sql.{TableSchema, ok, err, error_at, key_exists, key_not_registered}
use week7_02_sql_index.Bptree.Node.{BPlusTree}
use week7_02_sql_index.Bptree.Insert.{bptree_insert}
use week7_02_sql_index.Bptree.Spec.{lookup}
use week7_02_sql_index.Bptree.Order.Lists.{of_lookup}
use week7_02_sql_index.Storage.Table.Rows.File.{IsRow, table_file}
use week7_02_sql_index.Storage.Table.Rows.Values.{int_at, int_at-readable}
use week7_02_sql_index.Executor.State.{
  AppConfig, PkIndex, TableRuntimeState, World, Exec, ◌&>◌, runtime_error, put_state, data_file,
  data_path, find_table_state, get_table_state_index,
}
use week7_02_sql_index.Executor.Insert.{
  is_found, of_key, parse_row_primary_key, with_tree, remember_explicit_primary_key, append_row,
  refuse_present, validate_primary_key_unique, registered, insert_key, register_row, write_row,
}
use week7_02_sql_index.Executor.Coherent.Defs.{IsKeyed, IsConfig, index_of, IsOpen, IsCoherent}
use week7_02_sql_index.Executor.Coherent.States.{get_table_state_index-found}
use week7_02_sql_index.Executor.Coherent.Insert.{
  end_of, added, append_row-table_file, has_key-lookup,
}

module _ (config : AppConfig) (schema : TableSchema) (i : ℕ) (c : IsConfig config)
    (k : IsKeyed schema i) (calloc : ℕ → ℕ → Bool) where
  -- the world behind the append and the failed insertion
  abbrev pub half_inserted :
      List (List Bytes) → List Bytes → ℕ → TableRuntimeState → PkIndex → BPlusTree → World → World
  half_inserted rows row n s index tree w =
      put_state n (with_tree tree index s) (added config schema i c k rows row w)

  register_row-fails :
      (rows : List (List Bytes)) (row : List Bytes) (w : World) (n : ℕ) (s : TableRuntimeState)
      (tree : BPlusTree)
      → find_table_state config schema w.states ≡ some (n, s)
      → (o : IsOpen config schema i rows s)
      → bptree_insert
          (calloc o.index.number)
          o.index.tree
          (int_at i row)
          (end_of config schema i c k rows)
        ≡ some (tree, false)
      → register_row config schema calloc
          (int_at i row)
          (end_of config schema i c k rows)
          (added config schema i c k rows row w)
        ≡ (half_inserted rows row n s o.index tree w, err (error_at key_not_registered 0 0))
  unfolding register_row
  register_row-fails rows row w n s tree finds o fails =
      let key = int_at i row in
      let row_offset = end_of config schema i c k rows in
      let w' = added config schema i c k rows row w in
      ap
        (λ r.
          r
          &> (λ state w. insert_key config schema calloc key row_offset (state.1).pk_index state w)
          &> λ u w. (remember_explicit_primary_key config schema key w, ok tt))
        (get_table_state_index-found config schema calloc w' n s finds)
      ∙ ap
          (λ p. insert_key config schema calloc key row_offset p (n, s) w' &> λ u w.
            (remember_explicit_primary_key config schema key w, ok tt))
          o.has_index
      ∙ ap
          (λ r. registered config schema calloc n s o.index r w' &> λ u w.
            (remember_explicit_primary_key config schema key w, ok tt))
          fails

  -- Where the key of a row is new but `bptree_insert` fails, the INSERT is refused, and yet the table's file has
  -- the row behind the others.
  pub write_row-unregistered :
      (rows : List (List Bytes)) (row : List Bytes) (w : World) (n : ℕ) (s : TableRuntimeState)
      (tree : BPlusTree)
      → IsCoherent config schema i rows w
      → find_table_state config schema w.states ≡ some (n, s)
      → (o : IsOpen config schema i rows s) → IsRow schema.columns row
      → lookup (int_at i row) (index_of config schema i rows) ≡ none
      → bptree_insert
          (calloc o.index.number)
          o.index.tree
          (int_at i row)
          (end_of config schema i c k rows)
        ≡ some (tree, false)
      → (w' : World) × (write_row config schema calloc (some i) row w
          ≡ (w', err (error_at key_not_registered 0 0)))
        × (data_file config schema w' ≡ some (table_file schema (rows ++ row ∷ [])))
  unfolding write_row parse_row_primary_key validate_primary_key_unique
  write_row-unregistered rows row w n s tree h finds o fits absent fails =
      let key = int_at i row in
      (
        half_inserted rows row n s o.index tree w,
        ap
              (λ v. of_key v w &> λ key w.
                (get_table_state_index config schema calloc w
                  &> refuse_present config schema calloc key)
                &> λ u w. rest key w)
              (int_at-readable schema i row k.int fits)
            ∙ ap (λ r. (r &> refuse_present config schema calloc key) &> λ u w. rest key w)
                (get_table_state_index-found config schema calloc w n s finds)
            ∙ ap (λ b. (if b then runtime_error key_exists w else (w, ok tt)) &> λ u w. rest key w)
                (has_key-lookup config schema i c k rows s key o
                  ∙ ap (λ l. is_found (of_lookup l)) absent)
            ∙ ap (λ r. r &> λ row_offset w. register_row config schema calloc key row_offset w)
                (append_row-table_file config schema i c k rows row w h)
            ∙ register_row-fails rows row w n s tree finds o fails,
        rw ((str_eq_iff (data_path config schema) (data_path config schema)).1 refl) refl,
      )
    where
      rest : ℤ → Exec Unit
      rest key w = append_row config schema row w &> λ row_offset w.
          register_row config schema calloc key row_offset w

  -- A row whose key the index has is refused, and nothing changes.
  pub write_row-present :
      (rows : List (List Bytes)) (row : List Bytes) (w : World) (n : ℕ) (s : TableRuntimeState)
      (offset : ℕ)
      → find_table_state config schema w.states ≡ some (n, s)
      → IsOpen config schema i rows s
      → IsRow schema.columns row
      → lookup (int_at i row) (index_of config schema i rows) ≡ some offset
      → write_row config schema calloc (some i) row w ≡ (w, err (error_at key_exists 0 0))
  unfolding write_row parse_row_primary_key validate_primary_key_unique
  write_row-present rows row w n s offset finds o fits present =
      let key = int_at i row in
      ap
        (λ v. of_key v w &> λ key w.
          (get_table_state_index config schema calloc w &> refuse_present config schema calloc key)
          &> λ u w. rest key w)
        (int_at-readable schema i row k.int fits)
      ∙ ap (λ r. (r &> refuse_present config schema calloc key) &> λ u w. rest key w)
          (get_table_state_index-found config schema calloc w n s finds)
      ∙ ap (λ b. (if b then runtime_error key_exists w else (w, ok tt)) &> λ u w. rest key w)
          (has_key-lookup config schema i c k rows s key o
            ∙ ap (λ l. is_found (of_lookup l)) present)
    where
      rest : ℤ → Exec Unit
      rest key w = append_row config schema row w &> λ row_offset w.
          register_row config schema calloc key row_offset w
