-- ===== src/Executor/State.antt =====
-- The state behind src/executor.c: the table of table states, the data files and what was printed. The
-- schema files and the answers of the allocator are parameters of the functions that read them.
use week7_02_sql_index.Prelude.{
  ℕ, suc, Bool, ◌&&◌, Option, none, some, List, [], ◌∷◌, ◌++◌, if◌then◌else◌, leb, length, take,
  set, ℤ, pos, eqb_ℤ,
}
use week7_02_sql_index.Text.{Bytes, codes, str_eq}
use week7_02_sql_index.Sql.{
  TableSchema, Message, file_error, index_not_created, key_out_of_range, states_full, error_at,
  Result, err, ok,
}
use week7_02_sql_index.Number.Defs.{int_max, succ_ℤ}
use week7_02_sql_index.Bptree.Node.{BPlusTree}
use week7_02_sql_index.Bptree.Insert.{bptree_create}
use week7_02_sql_index.Storage.Table.Defs.{Outcome, failed, done}
use week7_02_sql_index.Storage.Table.Index.{storage_rebuild_pk_index}

pub record AppConfig : Type 0 where
  pub schema_dir : Bytes
  pub data_dir : Bytes
  pub input_path : Bytes
  pub interactive_mode : Bool
  pub benchmark_mode : Bool

-- A tree with its number among all trees that were created, by which the allocator's answers are named.
pub record PkIndex : Type 0 where
  pub number : ℕ
  pub tree : BPlusTree

pub record TableRuntimeState : Type 0 where
  pub schema_dir : Bytes
  pub data_dir : Bytes
  pub table_name : Bytes
  pub next_id : ℤ
  pub pk_index : Option PkIndex

-- A line of the output; the time behind `elapsed: ` is not modelled.
pub data Output : Type 0 where
  text : Bytes → Output
  elapsed : Output

-- `states` are the slots of `table_states` that are in use: they are filled in order and never freed.
-- `files` are the data files by path. `trees` and `scans` count the calls of `bptree_create` and the
-- range scans.
pub record World : Type 0 where
  pub states : List TableRuntimeState
  pub files : Bytes → Option Bytes
  pub out : List Output
  pub trees : ℕ
  pub scans : ℕ

-- What a call leaves behind, and its answer.
abbrev pub Exec : Type 0 → Type 0
Exec A = World → World × Result A

-- `if (!f(...)) { return 0; }`; what a call that fails has done stays done.
infixl 5 ◌&>◌
abbrev pub ◌&>◌ : {A B : Type 0} → World × Result A → (A → Exec B) → World × Result B
(w, err e) &> next = (w, err e)
(w, ok a) &> next = next a w

abbrev pub runtime_error : {A : Type 0} → Message → Exec A
runtime_error message w = (w, err (error_at message 0 0))

abbrev pub lift : {A : Type 0} → Result A → Exec A
lift r w = (w, r)

abbrev pub of_outcome : {A : Type 0} → Outcome A → Result A
of_outcome (failed e) = err (error_at (file_error e) 0 0)
of_outcome (done a) = ok a

abbrev pub print : Output → World → World
print o w = record {
  states = w.states;
  files = w.files;
  out = w.out ++ o ∷ [];
  trees = w.trees;
  scans = w.scans;
}

abbrev pub put_states : List TableRuntimeState → World → World
put_states states w = record {
  states = states;
  files = w.files;
  out = w.out;
  trees = w.trees;
  scans = w.scans;
}

abbrev pub put_file : Bytes → Bytes → World → World
put_file path file w = record {
  states = w.states;
  files = λ p. if str_eq p path then some file else w.files p;
  out = w.out;
  trees = w.trees;
  scans = w.scans;
}

abbrev pub count_tree : World → World
count_tree w = record {
  states = w.states;
  files = w.files;
  out = w.out;
  trees = suc w.trees;
  scans = w.scans;
}

abbrev pub count_scan : World → World
count_scan w = record {
  states = w.states;
  files = w.files;
  out = w.out;
  trees = w.trees;
  scans = suc w.scans;
}

abbrev pub put_state : ℕ → TableRuntimeState → World → World
put_state i s w = put_states (set w.states i s) w

-- `%s/%s%s` in an array of 512 bytes
abbrev pub build_table_path : Bytes → Bytes → Bytes → Bytes
build_table_path base_dir table_name extension =
    take 511 (base_dir ++ b'/' ∷ (table_name ++ extension))

abbrev pub data_path : AppConfig → TableSchema → Bytes
data_path config schema = build_table_path config.data_dir schema.table_name (codes ".csv")

abbrev pub data_file : AppConfig → TableSchema → World → Option Bytes
data_file config schema w = w.files (data_path config schema)

abbrev pub executor_max_table_states : ℕ
executor_max_table_states = 32

abbrev pub one_further : Option (ℕ × TableRuntimeState) → Option (ℕ × TableRuntimeState)
one_further none = none
one_further (some (i, s)) = some (suc i, s)

module _ (config : AppConfig) (schema : TableSchema) where
  abbrev pub is_state_of : TableRuntimeState → Bool
  is_state_of s =
      str_eq s.schema_dir config.schema_dir
      && (str_eq s.data_dir config.data_dir && str_eq s.table_name schema.table_name)

  -- the index of the state, and the state there
  unfoldable pub find_table_state : List TableRuntimeState → Option (ℕ × TableRuntimeState)
  find_table_state [] = none
  find_table_state (s ∷ ss) =
      let later = one_further (find_table_state ss) in if is_state_of s then some (0, s) else later

  abbrev pub state_of : ℤ → Option PkIndex → TableRuntimeState
  state_of next_id pk_index = record {
    schema_dir = take 255 config.schema_dir;
    data_dir = take 255 config.data_dir;
    table_name = take 63 schema.table_name;
    next_id = next_id;
    pk_index = pk_index;
  }

  -- the checks and the slot behind the rebuilt index
  unfoldable pub add_state : Option PkIndex → ℤ → Exec (ℕ × TableRuntimeState)
  add_state pk_index max_id w =
      let s = state_of (succ_ℤ max_id) pk_index in
      if eqb_ℤ max_id int_max
      then runtime_error key_out_of_range w
      else if leb executor_max_table_states (length w.states)
      then runtime_error states_full w
      else (put_states (w.states ++ s ∷ []) w, ok (length w.states, s))

  module _ (calloc : ℕ → ℕ → Bool) where
    abbrev pub rebuilt : ℕ → Outcome (BPlusTree × ℤ) → Exec (ℕ × TableRuntimeState)
    rebuilt number (failed e) w = runtime_error (file_error e) w
    rebuilt number (done (tree, max_id)) w =
        add_state (some (record { number = number; tree = tree })) max_id w

    abbrev pub create_index : ℕ → Option BPlusTree → Exec (ℕ × TableRuntimeState)
    create_index number none w = runtime_error index_not_created w
    create_index number (some tree) w =
        rebuilt number
          (storage_rebuild_pk_index (calloc number) schema (data_file config schema w) tree) w

    unfoldable pub create_table_state : Option ℕ → Exec (ℕ × TableRuntimeState)
    create_table_state none w = add_state none (pos 0) w
    create_table_state (some primary_key_index) w =
        create_index w.trees (bptree_create (calloc w.trees)) (count_tree w)

    abbrev pub found_or_created : Option (ℕ × TableRuntimeState) → Exec (ℕ × TableRuntimeState)
    found_or_created (some state) w = (w, ok state)
    found_or_created none w = create_table_state schema.primary_key_index w

    unfoldable pub get_table_state_index : Exec (ℕ × TableRuntimeState)
    get_table_state_index w = found_or_created (find_table_state w.states) w
