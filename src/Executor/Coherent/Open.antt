-- ===== src/Executor/Coherent/Open.antt =====
-- `get_table_state_index` finds the state of a table or makes one from the table's file.
use week7_02_sql_index.Prelude.{
  ℕ, Bool, true, false, Option, none, some, List, [], ◌∷◌, ◌≡◌, refl, sym, ap, ◌∙◌, length, leb,
  All, All-imp, Any, arith, if-either, Option-cases, inl, inr, ◌⊎◌, ℤ, ◌<ℤ◌, eqb_ℤ,
}
use mathlib.Core.Path.{subst}
use week7_02_sql_index.Text.{Bytes}
use week7_02_sql_index.Sql.{TableSchema, Result, ok, err}
use week7_02_sql_index.Number.Defs.{int_max, succ_ℤ}
use week7_02_sql_index.Number.Range.{InInt, read_int-InInt, succ-above, succ-InInt}
use week7_02_sql_index.Bptree.Node.{BPlusTree, entries}
use week7_02_sql_index.Bptree.Insert.{bptree_create}
use week7_02_sql_index.Bptree.Contract.Valid.{IsValid}
use week7_02_sql_index.Storage.Table.Defs.{header_line}
use week7_02_sql_index.Storage.Table.Scan.{max_value}
use week7_02_sql_index.Storage.Table.Index.{storage_rebuild_pk_index, rebuild_by}
use week7_02_sql_index.Storage.Table.Rows.File.{IsRow}
use week7_02_sql_index.Storage.Table.Rows.Values.{
  IsIntColumn, int_at-readable, larger_all, IsLargest, max_value-IsLargest,
}
use week7_02_sql_index.Storage.Table.Rows.Keys.{
  DistinctInts, keys, Rebuilt, storage_rebuild_pk_index-rows,
}
use week7_02_sql_index.Executor.State.{
  AppConfig, PkIndex, TableRuntimeState, World, count_tree, data_file, find_table_state, state_of,
  add_state, executor_max_table_states, rebuilt, create_table_state, found_or_created,
  get_table_state_index,
}
use week7_02_sql_index.Executor.Coherent.Defs.{
  IsConfig, IsKeyed, TableFile, index_of, IsNext, IsOpen, OpenState, IsCoherent,
}
use week7_02_sql_index.Executor.Coherent.States.{state_of-own, find_table_state-append}

pub keys-InInt :
    (schema : TableSchema) (i : ℕ)
    → IsIntColumn schema i
    → (rows : List (List Bytes)) → All (IsRow schema.columns) rows
    → All InInt (keys i rows)
keys-InInt schema i int [] h = tt
keys-InInt schema i int (row ∷ rows) h =
    (read_int-InInt _ _ (int_at-readable schema i row int h.0), keys-InInt schema i int rows h.1)

Any-All : (m : ℤ) (ks : List ℤ) → Any (λ j. m ≡ j) ks → All InInt ks → InInt m
Any-All m [] a h = absurd a
Any-All m (k ∷ ks) (inl e) h = rw e h.0
Any-All m (k ∷ ks) (inr a) h = Any-All m ks a h.1

InInt-max : (m : ℤ) (ks : List ℤ) → IsLargest m ks → All InInt ks → InInt m
InInt-max m [] e h = rw e (omega arith, omega arith)
InInt-max m (k ∷ ks) l h = Any-All m (k ∷ ks) l.1 h

-- The number behind the largest key is above every key.
pub succ-IsNext :
    (config : AppConfig) (schema : TableSchema) (i : ℕ) (m : ℤ) (ks : List ℤ)
    → IsLargest m ks
    → All InInt ks
    → eqb_ℤ m int_max ≡ false
    → IsNext config schema i (succ_ℤ m) ks
succ-IsNext config schema i m ks l h other =
    let within = succ-InInt m (InInt-max m ks l h) other in (within.0, within.1, above m ks l)
  where
    above : (m : ℤ) (ks : List ℤ) → IsLargest m ks → All (λ k. (k <ℤ succ_ℤ m) ⊎ (k ≡ int_max)) ks
    above m [] l = tt
    above m (k ∷ ks) l = All-imp (λ j le. inl (succ-above j m le)) (k ∷ ks) l.0

module _ (config : AppConfig) (schema : TableSchema) (i : ℕ) (c : IsConfig config)
    (k : IsKeyed schema i) where
  -- what a call gives: the state of the table, or an error that leaves the table as it was
  abbrev pub Opened : List (List Bytes) → World × Result (ℕ × TableRuntimeState) → Type 0
  Opened rows (w, err e) = IsCoherent config schema i rows w
  Opened rows (w, ok (n, s)) =
      IsCoherent config schema i rows w
      × (find_table_state config schema w.states ≡ some (n, s))
      × IsOpen config schema i rows s

  add_state-Opened :
      (rows : List (List Bytes)) (w : World) (index : PkIndex) (m : ℤ)
      → IsCoherent config schema i rows w
      → find_table_state config schema w.states ≡ none
      → IsValid index.tree
      → entries index.tree ≡ index_of config schema i rows
      → IsLargest m (keys i rows)
      → Opened rows (add_state config schema (some index) m w)
  unfolding add_state
  add_state-Opened rows w index m h absent valid indexed largest =
      let s = state_of config schema (succ_ℤ m) (some index) in
      if-either (Opened rows) (eqb_ℤ m int_max) _ _ (λ e. h)
        (λ other.
          let own = state_of-own config schema (succ_ℤ m) (some index) c k.short_name in
          let opened : IsOpen config schema i rows s = record {
            own = own;
            index = index;
            has_index = refl;
            valid = valid;
            indexed = indexed;
            next =
                succ-IsNext config schema i m (keys i rows) largest
                  (keys-InInt schema i k.int rows h.readable) other;
          } in
          let finds = find_table_state-append config schema w.states s absent own in
          if-either (Opened rows) (leb executor_max_table_states (length w.states)) _ _ (λ e. h)
            (λ room. (
              record {
                readable = h.readable;
                distinct = h.distinct;
                file = h.file;
                state = subst (OpenState config schema i rows) (sym finds) opened;
              },
              finds,
              opened,
            )))

  module _ (calloc : ℕ → ℕ → Bool) (enough : (t n : ℕ) → calloc t n ≡ true) where
    -- the index of a file, or of no file
    rebuild-TableFile :
        (number : ℕ) (t : BPlusTree) (rows : List (List Bytes)) (file : Option Bytes)
        → IsValid t
        → entries t ≡ []
        → All (IsRow schema.columns) rows
        → DistinctInts (keys i rows)
        → TableFile config schema i rows file
        → Rebuilt
            (calloc number)
            (enough number)
            schema
            k.table
            i
            k.int
            (length (header_line schema.columns))
            rows
            []
            none
            (storage_rebuild_pk_index (calloc number) schema file t)
    unfolding storage_rebuild_pk_index
    rebuild-TableFile number t rows none v empty h d f =
        (t, ap (rebuild_by (calloc number) schema none t) k.key ∙ rw f refl, v, empty ∙ rw f refl)
    rebuild-TableFile number t rows (some file) v empty h d f = rw f (
        storage_rebuild_pk_index-rows (calloc number) (enough number) schema k.table i k.int t rows
          k.key v empty h d)

    create_table_state-Opened :
        (rows : List (List Bytes)) (w : World)
        → IsCoherent config schema i rows w
        → find_table_state config schema w.states ≡ none
        → Opened rows (create_table_state config schema calloc (some i) w)
    unfolding create_table_state bptree_create
    create_table_state-Opened rows w h absent =
        let empty : BPlusTree = record { root = none; heap = record { calls = 1; lost = [] } } in
        let (t, rebuilds, valid, indexed) =
          rebuild-TableFile w.trees empty rows (data_file config schema w)
            (record { nodes = tt; nothing_lost = refl }) refl h.readable h.distinct h.file in
        let m = max_value (larger_all none (keys i rows)) in
        let h' : IsCoherent config schema i rows (count_tree w) = record {
          readable = h.readable;
          distinct = h.distinct;
          file = h.file;
          state = h.state;
        } in
        rw (enough w.trees 0) (
          subst (λ o. Opened rows (rebuilt config schema calloc w.trees o (count_tree w)))
            (sym rebuilds)
            (add_state-Opened rows (count_tree w) (record { number = w.trees; tree = t }) m h'
              absent valid indexed (max_value-IsLargest (keys i rows))))

    -- With memory, `get_table_state_index` keeps the invariant; a state that it gives is up to date.
    pub get_table_state_index-Opened :
        (rows : List (List Bytes)) (w : World)
        → IsCoherent config schema i rows w
        → Opened rows (get_table_state_index config schema calloc w)
    unfolding get_table_state_index
    get_table_state_index-Opened rows w h =
        elim (Option-cases (find_table_state config schema w.states)) [
          | inr ((n, s), e) ↦
              subst (λ o. Opened rows (found_or_created config schema calloc o w)) (sym e)
                (h, e, subst (OpenState config schema i rows) e h.state)
          | inl e ↦
              subst (λ o. Opened rows (found_or_created config schema calloc o w)) (sym e)
                (subst (λ p. Opened rows (create_table_state config schema calloc p w)) (sym k.key)
                  (create_table_state-Opened rows w h e))
        ]
