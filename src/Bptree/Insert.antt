-- ===== src/Bptree/Insert.antt =====
-- Insertion of src/bptree.c. The parameter `calloc` says of each call whether it succeeds; the
-- address of a new block is the number of the call that made it, so live blocks have different ones.
use week7_02_sql_index.Prelude.{
  ℕ, zero, suc, ◌+◌, ◌/◌, Bool, true, false, Option, none, some, List, [], ◌∷◌, ◌++◌, ℤ, pos, eqb_ℤ,
  ltb, length, get_or, get_elem?, take, drop, insert_at, if◌then◌else◌,
}
use week7_02_sql_index.Bptree.Node.{
  Entry, entry, Leaf, Node, leaf, internal, Children, nil, cons, max_keys, Heap, BPlusTree,
  find_leaf_position, find_child_position, insert_child_at, take_children, drop_children, leaves,
}

-- The flags of the C struct are exclusive: `duplicate`, `failed`, `split` with the promoted key and
-- the right node, or none of them. `fault` is the read of a child pointer that was never written.
pub data InsertResult : Type 0 where
  inserted duplicate failed fault : InsertResult
  split : ℤ → Node → InsertResult

-- `leaf->keys[position] == key`, within the count
abbrev pub key_at_is : Option Entry → ℤ → Bool
key_at_is none key = false
key_at_is (some e) key = eqb_ℤ e.key key

-- `right->keys[0]`
abbrev pub first_key : List Entry → ℤ
first_key [] = pos 0
first_key (e ∷ es) = e.key

abbrev pub count_call : Heap → Heap
count_call h = record h { calls = h.calls + 1 }

-- the leaves of a node that is dropped stay allocated
abbrev pub lose : Node → Heap → Heap
lose n h = record h { lost = leaves n ++ h.lost }

unfoldable pub insert_leaf_without_split : Leaf → ℕ → ℤ → ℕ → Leaf
insert_leaf_without_split l position key offset = record l {
  slots = insert_at position (entry key offset) l.slots;
}

module _ (calloc : ℕ → Bool) where
  unfoldable pub split_leaf_and_insert : Leaf → ℤ → ℕ → Heap → Node × InsertResult × Heap
  split_leaf_and_insert l key offset h =
      let temp = insert_at (find_leaf_position l.slots key) (entry key offset) l.slots in
      let split_index = length temp / 2 in
      let right_slots = drop split_index temp in
      if calloc h.calls
      then (
        leaf (record l { slots = take split_index temp; next = some h.calls }),
        split (first_key right_slots)
            (leaf (record { addr = h.calls; slots = right_slots; next = l.next })),
        count_call h,
      )
      else (leaf l, failed, count_call h)

  unfoldable pub insert_into_leaf : Leaf → ℤ → ℕ → Heap → Node × InsertResult × Heap
  insert_into_leaf l key offset h =
      let position = find_leaf_position l.slots key in
      if key_at_is (get_elem? l.slots position) key
      then (leaf l, duplicate, h)
      else if ltb (length l.slots) max_keys
      then (leaf (insert_leaf_without_split l position key offset), inserted, h)
      else split_leaf_and_insert l key offset h

  unfoldable pub split_internal_and_insert :
      List ℤ → Children → ℕ → ℤ → Node → Heap → Node × InsertResult × Heap
  split_internal_and_insert ks cs position promoted_key right_child h =
      let temp_keys = insert_at position promoted_key ks in
      let temp_children = insert_child_at (suc position) right_child cs in
      let split_index = length temp_keys / 2 in
      if calloc h.calls
      then (
        internal (take split_index temp_keys) (take_children (suc split_index) temp_children),
        split (get_or temp_keys split_index promoted_key) (
            internal (drop (suc split_index) temp_keys)
              (drop_children (suc split_index) temp_children)),
        count_call h,
      )
      else (internal ks cs, failed, lose right_child (count_call h))

  -- The end of `insert_recursive`: what a node does with the result of its child.
  unfoldable pub absorb : List ℤ → Children → ℕ → InsertResult → Heap → Node × InsertResult × Heap
  absorb ks cs position (split promoted_key right_child) h =
      if ltb (length ks) max_keys
      then (
        internal (insert_at position promoted_key ks)
            (insert_child_at (suc position) right_child cs),
        inserted,
        h,
      )
      else split_internal_and_insert ks cs position promoted_key right_child h
  absorb ks cs position inserted h = (internal ks cs, inserted, h)
  absorb ks cs position duplicate h = (internal ks cs, duplicate, h)
  absorb ks cs position failed h = (internal ks cs, failed, h)
  absorb ks cs position fault h = (internal ks cs, fault, h)

  unfoldable mutual
    pub insert_recursive : Node → ℤ → ℕ → Heap → Node × InsertResult × Heap
    insert_recursive (leaf l) key offset h = insert_into_leaf l key offset h
    insert_recursive (internal ks cs) key offset h =
        let position = find_child_position ks key in
        let (cs', result, h') = insert_child cs position key offset h in
        absorb ks cs' position result h'

    -- the call on `children[position]`, which is changed in place
    pub insert_child : Children → ℕ → ℤ → ℕ → Heap → Children × InsertResult × Heap
    insert_child nil position key offset h = (nil, fault, h)
    insert_child (cons c cs) zero key offset h =
        let (c', result, h') = insert_recursive c key offset h in (cons c' cs, result, h')
    insert_child (cons c cs) (suc position) key offset h =
        let (cs', result, h') = insert_child cs position key offset h in (cons c cs', result, h')

  -- The end of `bptree_insert`: a split of the root makes a new root.
  unfoldable pub grow_root : Node → InsertResult → Heap → Option (BPlusTree × Bool)
  grow_root n inserted h = some (record { root = some n; heap = h }, true)
  grow_root n duplicate h = some (record { root = some n; heap = h }, false)
  grow_root n failed h = some (record { root = some n; heap = h }, false)
  grow_root n fault h = none
  grow_root n (split promoted_key right) h =
      if calloc h.calls
      then some (
        record {
          root = some (internal (promoted_key ∷ []) (cons n (cons right nil)));
          heap = count_call h;
        },
        true,
      )
      else some (record { root = some n; heap = lose right (count_call h) }, false)

  unfoldable pub insert_at_root : Node → ℤ → ℕ → Heap → Option (BPlusTree × Bool)
  insert_at_root n key offset h =
      let (n', result, h') = insert_recursive n key offset h in grow_root n' result h'

  -- The first insert makes the root leaf.
  unfoldable pub insert_from_root : Option Node → ℤ → ℕ → Heap → Option (BPlusTree × Bool)
  insert_from_root (some n) key offset h = insert_at_root n key offset h
  insert_from_root none key offset h =
      if calloc h.calls
      then insert_at_root (leaf (record { addr = h.calls; slots = []; next = none })) key offset
          (count_call h)
      else some (record { root = none; heap = count_call h }, false)

  -- `none` is a fault; the Boolean is the C result. The tree pointer is not NULL.
  unfoldable pub bptree_insert : BPlusTree → ℤ → ℕ → Option (BPlusTree × Bool)
  unfolding insert_from_root insert_at_root
  bptree_insert t key offset = insert_from_root t.root key offset t.heap

  -- The block of the tree itself is the first call.
  unfoldable pub bptree_create : Option BPlusTree
  bptree_create =
      if calloc 0
      then some (record { root = none; heap = record { calls = 1; lost = [] } })
      else none
