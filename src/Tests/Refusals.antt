-- ===== src/Tests/Refusals.antt =====
-- An INSERT that is refused, for a key that is there and for want of memory.
use week7_02_sql_index.Prelude.{
  ℕ, Bool, true, false, Option, none, some, [], ◌∷◌, ◌≡◌, refl, arith, inl, ℤ, pos, ◌==◌,
}
use week7_02_sql_index.Text.{Bytes, codes, str_eq}
use week7_02_sql_index.Sql.{err, error_at, key_not_registered, key_exists}
use week7_02_sql_index.Number.Defs.{read_int, strtol, skip_space, read_digits}
use week7_02_sql_index.Bptree.Node.{BPlusTree, Leaf, leaf, entry}
use week7_02_sql_index.Bptree.Insert.{bptree_insert, insert_from_root}
use week7_02_sql_index.Bptree.Spec.{lookup}
use week7_02_sql_index.Storage.Table.Rows.Values.{int_at}
use week7_02_sql_index.Storage.Table.Rows.File.{IsRow, table_file}
use week7_02_sql_index.Executor.State.{
  is_state_of, TableRuntimeState, World, data_file, find_table_state,
}
use week7_02_sql_index.Executor.Insert.{write_row}
use week7_02_sql_index.Executor.Coherent.Defs.{IsOpen, IsCoherent, index_of}
use week7_02_sql_index.Executor.Coherent.Unregistered.{write_row-unregistered, write_row-present}
use week7_02_sql_index.Tests.Files.{users, row, row-IsValue}
use week7_02_sql_index.Tests.Sessions.{config, config-IsConfig, users-IsKeyed}

-- memory for the tree itself and for nothing else
abbrev one_block : ℕ → ℕ → Bool
one_block t n = n == 0

abbrev empty_tree : BPlusTree
empty_tree = record { root = none; heap = record { calls = 1; lost = [] } }

abbrev opened : BPlusTree → ℤ → TableRuntimeState
opened tree next_id = record {
  schema_dir = codes "schema";
  data_dir = codes "data";
  table_name = codes "users";
  next_id = next_id;
  pk_index = some (record { number = 0; tree = tree });
}

abbrev world : TableRuntimeState → Option Bytes → World
world s file = record { states = s ∷ []; files = λ path. file; out = []; trees = 1; scans = 0 }

own_state : (tree : BPlusTree) (next_id : ℤ) → is_state_of config users (opened tree next_id) ≡ true
unfolding str_eq
own_state tree next_id = refl

abbrev empty_open : IsOpen config users 0 [] (opened empty_tree (pos 1))
empty_open = record {
  own = own_state empty_tree (pos 1);
  index = record { number = 0; tree = empty_tree };
  has_index = refl;
  valid = record { nodes = tt; nothing_lost = refl };
  indexed = refl;
  next = (omega arith, omega arith, tt);
}

empty-finds :
    find_table_state config users ((opened empty_tree (pos 1)) ∷ [])
    ≡ some (0, opened empty_tree (pos 1))
unfolding find_table_state str_eq
empty-finds = refl

empty-IsCoherent : IsCoherent config users 0 [] (world (opened empty_tree (pos 1)) none)
unfolding find_table_state str_eq
empty-IsCoherent = record { readable = tt; distinct = tt; file = refl; state = empty_open }

row-IsRow : IsRow users.columns row
unfolding read_int strtol skip_space read_digits
row-IsRow = (row-IsValue.0, (λ e. cc), (row-IsValue.1.0, tt, tt))

no_memory :
    bptree_insert (one_block 0) empty_tree (pos 1) 8
    ≡ some (record { root = none; heap = record { calls = 2; lost = [] } }, false)
unfolding bptree_insert insert_from_root
no_memory = refl

write_row-unregistered_example :
    (w' : World) × (write_row config users one_block
        (some 0)
        row
        (world (opened empty_tree (pos 1)) none)
      ≡ (w', err (error_at key_not_registered 0 0)))
    × (data_file config users w' ≡ some (table_file users (row ∷ [])))
unfolding read_int strtol skip_space read_digits
write_row-unregistered_example =
    write_row-unregistered config users 0 config-IsConfig users-IsKeyed one_block [] row
      (world (opened empty_tree (pos 1)) none) 0 (opened empty_tree (pos 1)) _ empty-IsCoherent
      empty-finds empty_open row-IsRow refl no_memory

abbrev one_leaf : Leaf
one_leaf = record { addr = 1; slots = entry (pos 1) 8 ∷ []; next = none }

abbrev one_key : BPlusTree
one_key = record { root = some (leaf one_leaf); heap = record { calls = 2; lost = [] } }

one_key-IsOpen : IsOpen config users 0 (row ∷ []) (opened one_key (pos 2))
unfolding read_int strtol skip_space read_digits
one_key-IsOpen = record {
  own = own_state one_key (pos 2);
  index = record { number = 0; tree = one_key };
  has_index = refl;
  valid = record {
    nodes = record {
      height = 0;
      first = some 1;
      ordered = (tt, tt, tt, tt);
      shaped = (omega arith, omega arith);
      linked = (refl, refl);
      placed = λ a. ground arith;
    };
    nothing_lost = refl;
  };
  indexed = refl;
  next = (omega arith, omega arith, (inl (omega arith), tt));
}

one_key-finds :
    find_table_state config users (opened one_key (pos 2) ∷ []) ≡ some (0, opened one_key (pos 2))
unfolding find_table_state str_eq
one_key-finds = refl

key_there : lookup (int_at 0 row) (index_of config users 0 (row ∷ [])) ≡ some 8
unfolding read_int strtol skip_space read_digits
key_there = refl

write_row-present_example :
    write_row config users one_block
      (some 0)
      row
      (world (opened one_key (pos 2)) (some (table_file users (row ∷ []))))
    ≡ (
      world (opened one_key (pos 2)) (some (table_file users (row ∷ []))),
      err (error_at key_exists 0 0),
    )
write_row-present_example =
    write_row-present config users 0 config-IsConfig users-IsKeyed one_block (row ∷ []) row
      (world (opened one_key (pos 2)) (some (table_file users (row ∷ [])))) 0
      (opened one_key (pos 2)) 8 one_key-finds one_key-IsOpen row-IsRow key_there
