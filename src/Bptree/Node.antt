-- ===== src/Bptree/Node.antt =====
-- The nodes of the tree of src/bptree.c. A node's first `key_count` slots are a list. A leaf carries
-- the address that `calloc` gave it, since the leaf before it points at it by `next`; an internal
-- node is pointed at by its parent alone and needs none.
use week7_02_sql_index.Prelude.{
  ℕ, zero, suc, Option, none, some, List, [], ◌∷◌, ◌++◌, ℤ, ltb_ℤ, leb_ℤ, if◌then◌else◌,
}

-- One slot of a leaf: `keys[i]` and `offsets[i]`.
pub record Entry : Type 0 where
  pub key : ℤ
  pub offset : ℕ

abbrev pub entry : ℤ → ℕ → Entry
entry k o = record { key = k; offset = o }

pub record Leaf : Type 0 where
  pub addr : ℕ
  pub slots : List Entry
  pub next : Option ℕ

mutual
  pub data Node : Type 0 where
    leaf : Leaf → Node
    internal : List ℤ → Children → Node

  pub data Children : Type 0 where
    nil : Children
    cons : Node → Children → Children

-- BPTREE_ORDER is 4, and BPTREE_MAX_KEYS one less.
abbrev pub max_keys : ℕ
max_keys = 3

-- What `calloc` has done for one tree: the number of calls, and the leaves of those right halves
-- that no parent took because a later call failed. They stay allocated and linked.
pub record Heap : Type 0 where
  pub calls : ℕ
  pub lost : List Leaf

pub record BPlusTree : Type 0 where
  pub root : Option Node
  pub heap : Heap

-- while (position < key_count && keys[position] < key)
unfoldable pub find_leaf_position : List Entry → ℤ → ℕ
find_leaf_position [] key = 0
find_leaf_position (e ∷ es) key = if ltb_ℤ e.key key then suc (find_leaf_position es key) else 0

-- while (position < key_count && key >= keys[position])
unfoldable pub find_child_position : List ℤ → ℤ → ℕ
find_child_position [] key = 0
find_child_position (k ∷ ks) key = if leb_ℤ k key then suc (find_child_position ks key) else 0

abbrev pub insert_child_at : ℕ → Node → Children → Children
insert_child_at zero c cs = cons c cs
insert_child_at (suc i) c nil = cons c nil
insert_child_at (suc i) c (cons d cs) = cons d (insert_child_at i c cs)

abbrev pub take_children : ℕ → Children → Children
take_children zero cs = nil
take_children (suc i) nil = nil
take_children (suc i) (cons c cs) = cons c (take_children i cs)

abbrev pub drop_children : ℕ → Children → Children
drop_children zero cs = cs
drop_children (suc i) nil = nil
drop_children (suc i) (cons c cs) = drop_children i cs

-- The leaves below a node, from left to right.
abbrev mutual
  pub leaves : Node → List Leaf
  leaves (leaf l) = l ∷ []
  leaves (internal ks cs) = child_leaves cs

  pub child_leaves : Children → List Leaf
  child_leaves nil = []
  child_leaves (cons c cs) = leaves c ++ child_leaves cs

-- All entries of some leaves, in order.
abbrev pub contents : List Leaf → List Entry
contents [] = []
contents (l ∷ ls) = l.slots ++ contents ls

-- All leaves of a tree, and all its entries: the abstract view of the tree.
abbrev pub tree_leaves : Option Node → List Leaf
tree_leaves none = []
tree_leaves (some n) = leaves n

abbrev pub entries : BPlusTree → List Entry
entries t = contents (tree_leaves t.root)
