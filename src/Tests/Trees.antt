-- ===== src/Tests/Trees.antt =====
-- A tree of two leaves, as five insertions make it.
use week7_02_sql_index.Prelude.{
  ℕ, ◌^◌, ◌≤◌, ◌<◌, Bool, true, false, Option, none, some, List, [], ◌∷◌, ◌≡◌, refl, ℤ, pos, negsuc,
  length, arith, if◌then◌else◌, ◌==◌,
}
use week7_02_sql_index.Bptree.Node.{
  entry, Leaf, Node, leaf, internal, nil, cons, Heap, BPlusTree, entries, find_leaf_position,
  find_child_position,
}
use week7_02_sql_index.Bptree.Insert.{
  insert_recursive, insert_into_leaf, insert_leaf_without_split, split_leaf_and_insert,
  split_internal_and_insert, absorb, grow_root, bptree_insert, bptree_create,
}
use week7_02_sql_index.Bptree.Search.{
  bptree_search, find_leaf_in, descent_rounds, bptree_visit_greater_than, bptree_visit_less_than,
  visit_slots, follow, skip_at_most,
}
use week7_02_sql_index.Bptree.Spec.{lookup, greater_than, less_than, visit_all}
use week7_02_sql_index.Bptree.Order.Lists.{of_lookup}
use week7_02_sql_index.Bptree.Contract.Valid.{IsValid}
use week7_02_sql_index.Bptree.Contract.Insert.{InsertContract, bptree_insert_refines}
use week7_02_sql_index.Bptree.Contract.Search.{bptree_search-lookup, search_rounds-logarithmic}
use week7_02_sql_index.Bptree.Contract.Scan.{
  visit_greater_than-visit_all, visit_less_than-visit_all,
}
use week7_02_sql_index.Bptree.Contract.Memory.{bptree_insert_loses}

abbrev always : ℕ → Bool
always i = true

-- memory for the calls before `n` only
abbrev until : ℕ → ℕ → Bool
until n i = if i == n then false else true

abbrev low_leaf : Leaf
low_leaf = record { addr = 1; slots = entry (negsuc 1) 10 ∷ entry (pos 2) 20 ∷ []; next = some 2 }

abbrev high_leaf : Leaf
high_leaf = record {
  addr = 2;
  slots = entry (pos 3) 30 ∷ entry (pos 4) 40 ∷ entry (pos 5) 50 ∷ [];
  next = none;
}

abbrev root : Node
root = internal (pos 3 ∷ []) (cons (leaf low_leaf) (cons (leaf high_leaf) nil))

abbrev heap : Heap
heap = record { calls = 4; lost = [] }

abbrev tree : BPlusTree
tree = record { root = some root; heap = heap }

abbrev full_leaf : Leaf
full_leaf = record {
  addr = 1;
  slots = entry (pos 1) 10 ∷ entry (pos 2) 20 ∷ entry (pos 3) 30 ∷ [];
  next = none;
}

abbrev after_insert : ℤ → ℕ → Option (BPlusTree × Bool) → Option (BPlusTree × Bool)
after_insert key o none = none
after_insert key o (some (t, false)) = none
after_insert key o (some (t, true)) = bptree_insert always t key o

abbrev started : Option BPlusTree → Option (BPlusTree × Bool)
started none = none
started (some t) = some (t, true)

five_inserts :
    after_insert (pos 5) 50 (
      after_insert (negsuc 1) 10 (
        after_insert
          (pos 4)
          40
          (after_insert (pos 2) 20 (after_insert (pos 3) 30 (started (bptree_create always))))))
    ≡ some (tree, true)
unfolding bptree_insert insert_recursive insert_into_leaf insert_leaf_without_split
    split_leaf_and_insert split_internal_and_insert absorb grow_root bptree_create
    find_leaf_position find_child_position
five_inserts = refl

tree-IsValid : IsValid tree
tree-IsValid = record {
  nodes = record {
    height = 1;
    first = some 1;
    ordered = omega arith;
    shaped = (omega arith, omega arith, refl, omega arith);
    linked = (refl, (refl, refl));
    placed = λ a. ground arith;
  };
  nothing_lost = refl;
}

bptree_insert_refines_example :
    InsertContract always tree (pos 7) 70 (bptree_insert always tree (pos 7) 70)
bptree_insert_refines_example = bptree_insert_refines always tree (pos 7) 70 tree-IsValid

bptree_search-lookup_example :
    bptree_search tree (pos 4) ≡ of_lookup (lookup (pos 4) (entries tree))
bptree_search-lookup_example = bptree_search-lookup tree (pos 4) tree-IsValid

search_rounds-logarithmic_example : 2 ^ descent_rounds root (pos 4) ≤ length (entries tree)
search_rounds-logarithmic_example = search_rounds-logarithmic root heap (pos 4) tree-IsValid

-- collects keys, and stops after two
abbrev collect : ℤ → ℕ → List ℤ → List ℤ × Bool
collect key offset seen = (key ∷ seen, if length seen == 1 then false else true)

visit_greater_than_runs :
    bptree_visit_greater_than collect tree (pos 2) [] ≡ some (pos 4 ∷ pos 3 ∷ [], false)
unfolding bptree_visit_greater_than find_leaf_in visit_slots follow skip_at_most find_child_position
    find_leaf_position
visit_greater_than_runs = refl

visit_greater_than-visit_all_example :
    bptree_visit_greater_than collect tree (pos 2) []
    ≡ some (visit_all collect (greater_than (pos 2) (entries tree)) [])
visit_greater_than-visit_all_example =
    visit_greater_than-visit_all collect tree (pos 2) [] tree-IsValid

visit_less_than-visit_all_example :
    bptree_visit_less_than collect tree (pos 4) []
    ≡ some (visit_all collect (less_than (pos 4) (entries tree)) [])
visit_less_than-visit_all_example = visit_less_than-visit_all collect tree (pos 4) [] tree-IsValid

abbrev small_heap : Heap
small_heap = record { calls = 2; lost = [] }

abbrev small_tree : BPlusTree
small_tree = record { root = some (leaf full_leaf); heap = small_heap }

bptree_insert_loses_example :
    (t' : BPlusTree) × (bptree_insert (until 3) small_tree (pos 4) 40 ≡ some (t', false))
    × (length (entries t') < length (entries small_tree))
bptree_insert_loses_example =
    bptree_insert_loses (until 3) full_leaf small_heap (pos 4) 40 (omega arith) refl refl refl refl
