-- ===== src/Bptree/Search.antt =====
-- Exact search and the two range scans of src/bptree.c. A scan follows the `next` pointers, so it
-- reads leaves through their addresses.
use week7_02_sql_index.Prelude.{
  ℕ, zero, suc, Bool, true, false, Option, none, some, List, [], ◌∷◌, ◌++◌, ℤ, leb_ℤ, length,
  get_elem?, drop, ◌==◌, if◌then◌else◌,
}
use week7_02_sql_index.Bptree.Node.{
  Entry, Leaf, Node, leaf, internal, Children, nil, cons, BPlusTree, find_leaf_position,
  find_child_position, tree_leaves,
}
use week7_02_sql_index.Bptree.Insert.{key_at_is}

-- `find_leaf` below a node; `none` is the read of a child pointer that was never written.
unfoldable mutual
  pub find_leaf_in : Node → ℤ → Option Leaf
  find_leaf_in (leaf l) key = some l
  find_leaf_in (internal ks cs) key = find_leaf_child cs (find_child_position ks key) key

  pub find_leaf_child : Children → ℕ → ℤ → Option Leaf
  find_leaf_child nil position key = none
  find_leaf_child (cons c cs) zero key = find_leaf_in c key
  find_leaf_child (cons c cs) (suc position) key = find_leaf_child cs position key

-- the rounds of the loop `while (!node->is_leaf)`
unfoldable mutual
  pub descent_rounds : Node → ℤ → ℕ
  descent_rounds (leaf l) key = 0
  descent_rounds (internal ks cs) key = suc (child_rounds cs (find_child_position ks key) key)

  pub child_rounds : Children → ℕ → ℤ → ℕ
  child_rounds nil position key = 0
  child_rounds (cons c cs) zero key = descent_rounds c key
  child_rounds (cons c cs) (suc position) key = child_rounds cs position key

-- `children[0]` down to a leaf
unfoldable mutual
  pub leftmost_leaf_in : Node → Option Leaf
  leftmost_leaf_in (leaf l) = some l
  leftmost_leaf_in (internal ks cs) = leftmost_leaf_child cs

  pub leftmost_leaf_child : Children → Option Leaf
  leftmost_leaf_child nil = none
  leftmost_leaf_child (cons c cs) = leftmost_leaf_in c

pub data SearchResult : Type 0 where
  found : ℕ → SearchResult
  missing fault : SearchResult

abbrev pub slot_result : Option Entry → ℤ → SearchResult
slot_result none key = missing
slot_result (some e) key = if key_at_is (some e) key then found e.offset else missing

-- the end of `bptree_search`, at the leaf
abbrev pub leaf_result : Option Leaf → ℤ → SearchResult
leaf_result none key = fault
leaf_result (some l) key = slot_result (get_elem? l.slots (find_leaf_position l.slots key)) key

unfoldable pub bptree_search : BPlusTree → ℤ → SearchResult
bptree_search t key = elim t.root [ none ↦ missing | some n ↦ leaf_result (find_leaf_in n key) key ]

-- The block at an address: a leaf of the tree, or a lost one.
abbrev pub deref : List Leaf → ℕ → Option Leaf
deref [] a = none
deref (l ∷ ls) a = if l.addr == a then some l else deref ls a

abbrev pub memory : BPlusTree → List Leaf
memory t = tree_leaves t.root ++ t.heap.lost

-- `while (position < key_count && keys[position] <= key)`, on the slots from `position` on
unfoldable pub skip_at_most : ℤ → List Entry → List Entry
skip_at_most key [] = []
skip_at_most key (e ∷ es) = if leb_ℤ e.key key then skip_at_most key es else e ∷ es

-- A loop over slots goes on, or makes the scan return a result.
pub data Scan (S : Type 0) : Type 0 where
  go_on : S → Scan S
  return : S → Bool → Scan S

module _ {S : Type 0} where
  -- `while (node != NULL)` over the leaves behind the one whose slots gave `scan`. `none` is a
  -- dangling pointer, or that the fuel ran out.
  unfoldable pub follow :
      ℕ → List Leaf → (List Entry → S → Scan S) → Option ℕ → Scan S → Option (S × Bool)
  follow fuel mem loop next (return s ok) = some (s, ok)
  follow fuel mem loop none (go_on s) = some (s, true)
  follow zero mem loop (some a) (go_on s) = none
  follow (suc fuel) mem loop (some a) (go_on s) = elim (deref mem a) [
    | none ↦ none
    | some l ↦ follow fuel mem loop l.next (loop l.slots s)
  ]

  abbrev pub scan_from :
      List Leaf
      → (List Entry → S → Scan S)
      → (Leaf → List Entry)
      → Option Leaf
      → S
      → Option (S × Bool)
  scan_from mem loop start none s = none
  scan_from mem loop start (some l) s = follow (length mem) mem loop l.next (loop (start l) s)

module _ {S : Type 0} (visit : ℤ → ℕ → S → S × Bool) where
  abbrev pub after_visit : S × Bool → Scan S → Scan S
  after_visit (s, true) rest = rest
  after_visit (s, false) rest = return s false

  -- for (i = position; i < key_count; i++), the slots from `position` on
  unfoldable pub visit_slots : List Entry → S → Scan S
  visit_slots [] s = go_on s
  visit_slots (e ∷ es) s =
      let step = visit e.key e.offset s in after_visit step (visit_slots es step.0)

  -- the same with the test `keys[i] >= key` in front
  unfoldable pub visit_slots_below : ℤ → List Entry → S → Scan S
  visit_slots_below key [] s = go_on s
  visit_slots_below key (e ∷ es) s =
      let step = visit e.key e.offset s in
      if leb_ℤ key e.key then return s true else after_visit step (visit_slots_below key es step.0)

  unfoldable pub bptree_visit_greater_than : BPlusTree → ℤ → S → Option (S × Bool)
  bptree_visit_greater_than t key s = elim t.root [
    | none ↦ some (s, true)
    | some n ↦
        scan_from (memory t) visit_slots
          (λ l. skip_at_most key (drop (find_leaf_position l.slots key) l.slots))
          (find_leaf_in n key) s
  ]

  unfoldable pub bptree_visit_less_than : BPlusTree → ℤ → S → Option (S × Bool)
  bptree_visit_less_than t key s = elim t.root [
    | none ↦ some (s, true)
    | some n ↦ scan_from (memory t) (visit_slots_below key) (λ l. l.slots) (leftmost_leaf_in n) s
  ]
